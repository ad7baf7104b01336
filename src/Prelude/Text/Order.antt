-- ===== src/Prelude/Text/Order.antt =====
-- The order of strcmp on texts, and the last place of a byte.
use Prim.Native.Nat.{ℕ}
use mathlib.Core.Path.{◌≡◌, refl, ap}
use mathlib.Core.Logic.{inl, inr}
use mathlib.Core.Bool.{Bool, true, false, ◌&&◌, ◌||◌}
use mathlib.Core.Option.{Option, none, some}
use mathlib.Core.List.{[], ◌∷◌, ◌++◌}
use native.Mathlib.Omega.{arith}
use rb_monitor.Prelude.Tests.{ltb, ◌==◌, Bool-cases, if◌then◌else◌}
use rb_monitor.Prelude.Lists.{length, take}
use rb_monitor.Prelude.Text.{Text}

-- strcmp(a, b) < 0
unfoldable pub text_lt : Text → Text → Bool
text_lt [] [] = false
text_lt [] (y ∷ ys) = true
text_lt (x ∷ xs) [] = false
text_lt (x ∷ xs) (y ∷ ys) = ltb x y || (x == y && text_lt xs ys)

pub text_lt_irrefl : (a : Text) → text_lt a a ≡ false
unfolding text_lt
text_lt_irrefl [] = refl
text_lt_irrefl (x ∷ xs) = ground (arith, text_lt_irrefl xs)

pub text_lt_trans : (a b c : Text) → text_lt a b ≡ true → text_lt b c ≡ true → text_lt a c ≡ true
unfolding text_lt
text_lt_trans a [] [] h k = cc
text_lt_trans [] [] (z ∷ c) h k = refl
text_lt_trans (x ∷ a) [] (z ∷ c) h k = cc
text_lt_trans a (y ∷ b) [] h k = cc
text_lt_trans [] (y ∷ b) (z ∷ c) h k = refl
text_lt_trans (x ∷ a) (y ∷ b) (z ∷ c) h k = ground (arith, text_lt_trans a b c)

-- Of two texts, neither before the other, both are the same.
pub text_lt-connex : (a b : Text) → text_lt a b ≡ false → text_lt b a ≡ false → a ≡ b
unfolding text_lt
text_lt-connex [] [] h k = refl
text_lt-connex [] (y ∷ b) h k = cc
text_lt-connex (x ∷ a) [] h k = cc
text_lt-connex (x ∷ a) (y ∷ b) h k = ground (arith, text_lt-connex a b)

-- Below `b`, but not below `a`, is no text that is below `a`.
pub text_lt-between :
    (a b c : Text) → text_lt a c ≡ true → text_lt b c ≡ false → text_lt b a ≡ false
text_lt-between a b c h k = elim (Bool-cases (text_lt b a)) [
  | inl e ↦ absurd (ground (arith, text_lt_trans b a c e h))
  | inr e ↦ e
]

-- The later find if there is one, else this place.
abbrev pub or_here : Bool → Text → Option Text → Option Text
or_here hit here (some t) = some t
or_here hit here none = if hit then some here else none

-- strrchr(s, c): the text from the last place of `c` on.
unfoldable pub strrchr : Text → ℕ → Option Text
strrchr [] c = none
strrchr (x ∷ s) c = or_here (x == c) (x ∷ s) (strrchr s c)

pub strrchr-last : (a b : Text) (c : ℕ) → strrchr b c ≡ none → strrchr (a ++ c ∷ b) c ≡ some (c ∷ b)
unfolding strrchr
strrchr-last [] b c h = let same : c == c ≡ true = ground arith in rw (h, same) refl
strrchr-last (x ∷ a) b c h = rw (strrchr-last a b c h) refl

pub take-append : (a b : Text) → take (length a) (a ++ b) ≡ a
take-append [] b = refl
take-append (x ∷ a) b = ap (λ l. x ∷ l) (take-append a b)

-- "Not below" is transitive.
pub text_lt-not_trans :
    (a b c : Text) → text_lt a b ≡ false → text_lt b c ≡ false → text_lt a c ≡ false
text_lt-not_trans a b c h k = elim (Bool-cases (text_lt a c)) [
  | inl e ↦ elim (Bool-cases (text_lt b a)) [
    | inl less ↦ absurd (ground (arith, text_lt_trans b a c less e))
    | inr not_less ↦
        let same : a ≡ b = text_lt-connex a b h not_less in
        absurd (ground (arith, ap (λ t. text_lt t c) same))
  ]
  | inr e ↦ e
]
