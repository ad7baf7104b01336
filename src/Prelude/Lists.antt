-- ===== src/Prelude/Lists.antt =====
-- Lists measured and indexed by native numbers, under the library's names.
use Prim.Native.Nat.{ℕ, zero, suc, ◌+◌, ◌-◌, ◌<◌, ◌≤◌, min}
use mathlib.Core.Path.{◌≡◌, refl, ap, sym}
use mathlib.Core.Logic.{◌≢◌}
use mathlib.Core.Bool.{true}
use mathlib.Core.List.{List, [], ◌∷◌, ◌++◌, map}
use mathlib.Core.Option.{Option, none, some, some-injective}
use native.Mathlib.Omega.{arith}
use rb_monitor.Prelude.Tests.{ltb, lt→ltb, if◌then◌else◌}
use rb_monitor.Prelude.Run.{Outcome, ret, fault}

module _ {ℓ} {A : Type ℓ} where
  abbrev pub length : List A → ℕ
  length [] = 0
  length (x ∷ xs) = suc (length xs)

  abbrev pub get_elem? : List A → ℕ → Option A
  get_elem? [] i = none
  get_elem? (x ∷ xs) zero = some x
  get_elem? (x ∷ xs) (suc i) = get_elem? xs i

  -- A write out of bounds changes nothing.
  abbrev pub set : List A → ℕ → A → List A
  set [] i v = []
  set (x ∷ xs) zero v = v ∷ xs
  set (x ∷ xs) (suc i) v = x ∷ set xs i v

  abbrev pub take : ℕ → List A → List A
  take zero xs = []
  take (suc n) [] = []
  take (suc n) (x ∷ xs) = x ∷ take n xs

  abbrev pub drop : ℕ → List A → List A
  drop zero xs = xs
  drop (suc n) [] = []
  drop (suc n) (x ∷ xs) = drop n xs

  abbrev pub replicate : ℕ → A → List A
  replicate zero a = []
  replicate (suc n) a = a ∷ replicate n a

module _ {ℓ} {A : Type ℓ} where
  pub length-append : (xs ys : List A) → length (xs ++ ys) ≡ length xs + length ys
  length-append [] ys = omega arith
  length-append (x ∷ xs) ys = omega (arith, length-append xs ys)

  pub length-set : (xs : List A) (i : ℕ) (v : A) → length (set xs i v) ≡ length xs
  length-set [] i v = refl
  length-set (x ∷ xs) zero v = refl
  length-set (x ∷ xs) (suc i) v = ap suc (length-set xs i v)

  pub length-drop : (n : ℕ) (xs : List A) → length (drop n xs) ≡ length xs - n
  length-drop zero xs = omega arith
  length-drop (suc n) [] = omega arith
  length-drop (suc n) (x ∷ xs) = omega (arith, length-drop n xs)

  pub length-take : (n : ℕ) (xs : List A) → length (take n xs) ≡ min n (length xs)
  length-take zero xs = omega arith
  length-take (suc n) [] = omega arith
  length-take (suc n) (x ∷ xs) = omega (arith, length-take n xs)

  pub length-replicate : (n : ℕ) (a : A) → length (replicate n a) ≡ n
  length-replicate zero a = refl
  length-replicate (suc n) a = ap suc (length-replicate n a)

  pub length-map {κ} : {B : Type κ} (xs : List A) (f : A → B) → length (map f xs) ≡ length xs
  length-map [] f = refl
  length-map (x ∷ xs) f = ap suc (length-map xs f)

  pub get_elem?-set_self :
      (xs : List A) (i : ℕ) (v : A) → i < length xs → get_elem? (set xs i v) i ≡ some v
  get_elem?-set_self [] i v h = elim h [ ]
  get_elem?-set_self (x ∷ xs) zero v h = refl
  get_elem?-set_self (x ∷ xs) (suc i) v h = get_elem?-set_self xs i v (omega arith)

  pub get_elem?-set_ne :
      (xs : List A) {i j : ℕ} (v : A) → i ≢ j → get_elem? (set xs i v) j ≡ get_elem? xs j
  get_elem?-set_ne [] v h = refl
  get_elem?-set_ne (x ∷ xs) {i = zero} {j = zero} v h = absurd (h refl)
  get_elem?-set_ne (x ∷ xs) {i = zero} {j = suc j} v h = refl
  get_elem?-set_ne (x ∷ xs) {i = suc i} {j = zero} v h = refl
  get_elem?-set_ne (x ∷ xs) {i = suc i} {j = suc j} v h = get_elem?-set_ne xs v (λ e. h (ap suc e))

  -- An index in range has an element.
  pub get_elem?_in_range :
      (xs : List A) (i : ℕ) → i < length xs → (a : A) × (get_elem? xs i ≡ some a)
  get_elem?_in_range [] i h = elim h [ ]
  get_elem?_in_range (x ∷ xs) zero h = (x, refl)
  get_elem?_in_range (x ∷ xs) (suc i) h = get_elem?_in_range xs i (omega arith)

  -- An index with an element is in range.
  pub in_range_of_get_elem? :
      (xs : List A) (i : ℕ) {a : A} → get_elem? xs i ≡ some a → i < length xs
  in_range_of_get_elem? [] i h = cc
  in_range_of_get_elem? (x ∷ xs) zero h = omega arith
  in_range_of_get_elem? (x ∷ xs) (suc i) h = omega (arith, in_range_of_get_elem? xs i h)

  pub take-length : (xs : List A) → take (length xs) xs ≡ xs
  take-length [] = refl
  take-length (x ∷ xs) = ap (λ l. x ∷ l) (take-length xs)

-- A write through an index, which is a fault behind the end.
unfoldable pub write {ℓ} : {A : Type ℓ} → List A → ℕ → A → Outcome (List A)
write xs i v = if ltb i (length xs) then ret (set xs i v) else fault

pub set-append {ℓ} :
    {A : Type ℓ} (done : List A) (x v : A) (rest : List A)
    → set (done ++ x ∷ rest) (length done) v ≡ done ++ v ∷ rest
set-append [] x v rest = refl
set-append (d ∷ done) x v rest = ap (λ l. d ∷ l) (set-append done x v rest)

-- A write to the first element behind `done`.
pub write-append {ℓ} :
    {A : Type ℓ} (done : List A) (x v : A) (rest : List A)
    → write (done ++ x ∷ rest) (length done) v ≡ ret (done ++ v ∷ rest)
unfolding write
write-append done x v rest =
    let inside : ltb (length done) (length (done ++ x ∷ rest)) ≡ true =
      ground (arith, length-append done (x ∷ rest)) in
    rw (inside, set-append done x v rest)

pub get_elem?-append {ℓ} :
    {A : Type ℓ} (done : List A) (x : A) (rest : List A)
    → get_elem? (done ++ x ∷ rest) (length done) ≡ some x
get_elem?-append [] x rest = refl
get_elem?-append (d ∷ done) x rest = get_elem?-append done x rest

pub write_in_range {ℓ} :
    {A : Type ℓ} (xs : List A) (i : ℕ) (v : A) → i < length xs → write xs i v ≡ ret (set xs i v)
unfolding write
write_in_range xs i v h = rw (lt→ltb i (length xs) h)

pub set-replicate {ℓ} : {A : Type ℓ} (n i : ℕ) (a : A) → set (replicate n a) i a ≡ replicate n a
set-replicate zero i a = refl
set-replicate (suc n) zero a = refl
set-replicate (suc n) (suc i) a = ap (λ l. a ∷ l) (set-replicate n i a)

pub length-snoc {ℓ} : {A : Type ℓ} (xs : List A) (x : A) → length (xs ++ x ∷ []) ≡ suc (length xs)
length-snoc xs x = omega (arith, length-append xs (x ∷ []))

pub set-set {ℓ} : {A : Type ℓ} (xs : List A) (i : ℕ) (v w : A) → set (set xs i v) i w ≡ set xs i w
set-set [] i v w = refl
set-set (x ∷ xs) zero v w = refl
set-set (x ∷ xs) (suc i) v w = ap (λ l. x ∷ l) (set-set xs i v w)

-- To write what stands there changes nothing.
pub set_same {ℓ} :
    {A : Type ℓ} (xs : List A) (i : ℕ) (v : A) → get_elem? xs i ≡ some v → set xs i v ≡ xs
set_same [] i v h = refl
set_same (x ∷ xs) zero v h = ap (λ y. y ∷ xs) (sym (some-injective x v h))
set_same (x ∷ xs) (suc i) v h = ap (λ l. x ∷ l) (set_same xs i v h)

-- The elements that are not null.
abbrev pub present {ℓ} : {A : Type ℓ} → List (Option A) → List A
present [] = []
present (none ∷ os) = present os
present (some a ∷ os) = a ∷ present os

-- The elements of an array with no null.
abbrev pub some_each {ℓ} : {A : Type ℓ} → List A → List (Option A)
some_each [] = []
some_each (a ∷ rest) = some a ∷ some_each rest

pub present-some_each {ℓ} : {A : Type ℓ} (xs : List A) → present (some_each xs) ≡ xs
present-some_each [] = refl
present-some_each (x ∷ xs) = ap (λ l. x ∷ l) (present-some_each xs)

pub length-some_each {ℓ} : {A : Type ℓ} (xs : List A) → length (some_each xs) ≡ length xs
length-some_each [] = refl
length-some_each (x ∷ xs) = ap suc (length-some_each xs)

-- To take as many elements as there are, or more, takes all.
pub take_all {ℓ} : {A : Type ℓ} (n : ℕ) (xs : List A) → length xs ≤ n → take n xs ≡ xs
take_all zero [] h = refl
take_all zero (x ∷ xs) h = absurd (omega arith)
take_all (suc n) [] h = refl
take_all (suc n) (x ∷ xs) h = ap (λ l. x ∷ l) (take_all n xs (omega arith))
