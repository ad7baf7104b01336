-- ===== src/Prelude/Text/Search.antt =====
-- What strstr finds, and the texts that stand behind the separators of a text.
use Prim.Native.Nat.{ℕ, zero, suc, ◌-◌, ◌≤◌}
use mathlib.Core.Path.{◌≡◌, refl, ap}
use mathlib.Core.Bool.{true}
use mathlib.Core.Logic.{inl, inr}
use mathlib.Core.Option.{Option, none, some}
use mathlib.Core.List.{List, [], ◌∷◌}
use native.Mathlib.Omega.{arith}
use rb_monitor.Prelude.Tests.{Bool-cases, if◌then◌else◌}
use rb_monitor.Prelude.Lists.{length, drop}
use rb_monitor.Prelude.Text.{Text, starts_with, strstr}

-- A text that begins with a needle is at least as long.
pub length-starts_with : (n s : Text) → starts_with n s ≡ true → length n ≤ length s
unfolding starts_with
length-starts_with [] s h = omega arith
length-starts_with (x ∷ n) [] h = cc
length-starts_with (x ∷ n) (c ∷ s) h = ground (arith, length-starts_with n s)

-- What strstr returns begins with the needle.
pub strstr-starts_with : (s n t : Text) → strstr s n ≡ some t → starts_with n t ≡ true
unfolding strstr
strstr-starts_with [] n t h = ground arith
strstr-starts_with (c ∷ s) n t h = ground (arith, strstr-starts_with s n t)

-- What strstr returns is no longer than the haystack.
pub length-strstr : (s n t : Text) → strstr s n ≡ some t → length t ≤ length s
unfolding strstr
length-strstr [] n t h = ground arith
length-strstr (c ∷ s) n t h = ground (arith, length-strstr s n t)

-- A needle with no byte is found at once.
pub strstr_empty : (s : Text) → strstr s [] ≡ some s
unfolding strstr
strstr_empty [] = refl
strstr_empty (c ∷ s) = refl

-- The texts behind the separators of `s`, one for each, read from left to right with no overlap;
-- the first `skip` bytes belong to a separator that is already counted.
unfoldable pub scan : Text → ℕ → Text → List Text
scan sep skip [] = []
scan sep (suc k) (c ∷ s) = scan sep k s
scan sep zero (c ∷ s) =
    let hit = drop (length sep) (c ∷ s) ∷ scan sep (length sep - 1) s in
    let miss = scan sep zero s in if starts_with sep (c ∷ s) then hit else miss

-- The text itself and what stands behind each separator.
abbrev pub suffixes : Text → Text → List Text
suffixes sep s = s ∷ scan sep 0 s

pub scan-drop : (sep : Text) (k : ℕ) (s : Text) → scan sep k s ≡ scan sep 0 (drop k s)
unfolding scan
scan-drop sep zero [] = refl
scan-drop sep zero (c ∷ s) = refl
scan-drop sep (suc k) [] = refl
scan-drop sep (suc k) (c ∷ s) = scan-drop sep k s

abbrev pub behind : Text → Option Text → List Text
behind sep none = []
behind sep (some t) = suffixes sep (drop (length sep) t)

-- The scan goes from one find of strstr to the next.
pub scan-strstr :
    (x : ℕ) (sep s : Text) → scan (x ∷ sep) 0 s ≡ behind (x ∷ sep) (strstr s (x ∷ sep))
unfolding scan strstr
scan-strstr x sep [] = refl
scan-strstr x sep (c ∷ s) = elim (Bool-cases (starts_with (x ∷ sep) (c ∷ s))) [
  | inl e ↦
      let one_less : suc (length sep) - 1 ≡ length sep = omega arith in
      rw (e, one_less) (ap (λ l. drop (length sep) s ∷ l) (scan-drop (x ∷ sep) (length sep) s))
  | inr e ↦ rw e (scan-strstr x sep s)
]
