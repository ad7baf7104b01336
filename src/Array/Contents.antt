-- ===== src/Array/Contents.antt =====
-- src/rb_array.h: the contents of an array to which elements are added.
use mathlib.Core.List.{foldl, append_assoc, append-nil}
use native.Mathlib.Numerals.{add-one}
use rb_monitor.Prelude.{
  ℕ, zero, suc, ◌-◌, ◌<◌, ◌≡◌, refl, sym, ap, ◌∙◌, true, false, Option, none, List, [], ◌∷◌, ◌++◌,
  arith, inl, inr, Bool-cases, length, set, take, length-set, length-replicate,
}
use rb_monitor.Array.{RbArray, IsValid, rb_array_new, rb_array_full, rb_array_add, contents}

module _ {A : Type 0} where
  pub rb_array_new-IsValid : (n : ℕ) → IsValid {A = A} (rb_array_new n)
  unfolding rb_array_new
  rb_array_new-IsValid n = record { count_fits = omega arith; memory = length-replicate n none }

  pub rb_array_add-IsValid : (a : RbArray A) (e : Option A) → IsValid a → IsValid (rb_array_add a e)
  unfolding rb_array_add
  rb_array_add-IsValid a e v = ground (arith, length-set a.elms a.count e)

  take-set :
      (n : ℕ) (l : List (Option A)) (e : Option A)
      → n < length l
      → take (suc n) (set l n e) ≡ take n l ++ e ∷ []
  take-set n [] e h = elim h [ ]
  take-set zero (x ∷ l) e h = refl
  take-set (suc n) (x ∷ l) e h = ap (λ r. x ∷ r) (take-set n l e (omega arith))

  -- An add to an array that is not full appends the element.
  pub contents-add :
      (a : RbArray A) (e : Option A)
      → IsValid a
      → rb_array_full a ≡ false
      → contents (rb_array_add a e) ≡ contents a ++ e ∷ []
  unfolding rb_array_add
  contents-add a e v h = rw (h, add-one) (take-set a.count a.elms e (ground arith))

  -- Into a full array nothing goes.
  pub add_full : (a : RbArray A) (e : Option A) → rb_array_full a ≡ true → rb_array_add a e ≡ a
  unfolding rb_array_add
  add_full a e h = rw h

  take-nil : (n : ℕ) → take {A = Option A} n [] ≡ []
  take-nil zero = refl
  take-nil (suc n) = refl

  room : RbArray A → ℕ
  room a = a.size - a.count

  room_full : (a : RbArray A) → rb_array_full a ≡ true → room a ≡ 0
  unfolding room rb_array_full
  room_full a h = ground arith

  room-add :
      (a : RbArray A) (e : Option A)
      → IsValid a
      → rb_array_full a ≡ false
      → room a ≡ suc (room (rb_array_add a e))
  unfolding room rb_array_add
  room-add a e v h = ground arith

  contents-foldl :
      (a : RbArray A) (es : List (Option A))
      → IsValid a
      → contents (foldl rb_array_add a es) ≡ contents a ++ take (room a) es
  contents-foldl a [] v = sym (ap (λ l. contents a ++ l) (take-nil (room a)) ∙ append-nil _)
  contents-foldl a (e ∷ es) v = elim (Bool-cases (rb_array_full a)) [
    | inl full ↦
        ap (λ b. contents (foldl rb_array_add b es)) (add_full a e full)
        ∙ contents-foldl a es v
        ∙ ap (λ n. contents a ++ take n es) (room_full a full)
        ∙ ap (λ n. contents a ++ take n (e ∷ es)) (sym (room_full a full))
    | inr free ↦
        contents-foldl (rb_array_add a e) es (rb_array_add-IsValid a e v)
        ∙ ap (λ l. l ++ take (room (rb_array_add a e)) es) (contents-add a e v free)
        ∙ append_assoc (contents a) (e ∷ []) (take (room (rb_array_add a e)) es)
        ∙ ap (λ n. contents a ++ take n (e ∷ es)) (sym (room-add a e v free))
  ]

  -- Adding elements to a new array keeps the first of them, in order, up to its size.
  pub contents-add_all :
      (size : ℕ) (es : List (Option A))
      → contents (foldl rb_array_add (rb_array_new size) es) ≡ take size es
  unfolding rb_array_new room
  contents-add_all size es =
      contents-foldl (rb_array_new size) es (rb_array_new-IsValid size)
      ∙ ap (λ n. take n es) (omega arith)
