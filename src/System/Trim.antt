-- ===== src/System/Trim.antt =====
-- src/rb_system.h: what trim_end takes off.
use mathlib.Core.List.{reverse, reverse-append, reverse-reverse}
use rb_monitor.Prelude.{◌≡◌, refl, ap, sym, ◌∙◌, true, false, [], ◌∷◌, ◌++◌, inl, inr, Bool-cases}
use rb_monitor.Prelude.Text.{Text}
use rb_monitor.System.{isspace, skip_spaces, trim_end}

abbrev pub AllSpaces : Text → Type 0
AllSpaces [] = Unit
AllSpaces (c ∷ s) = (isspace c ≡ true) × AllSpaces s

-- The text is empty, or its first byte is no white space.
abbrev pub NoLeadingSpace : Text → Type 0
NoLeadingSpace [] = Unit
NoLeadingSpace (c ∷ s) = isspace c ≡ false

skip_spaces_split :
    (s : Text)
    → (t : Text) × (s ≡ t ++ skip_spaces s) × AllSpaces t × NoLeadingSpace (skip_spaces s)
unfolding skip_spaces
skip_spaces_split [] = ([], refl, tt, tt)
skip_spaces_split (c ∷ s) = elim (Bool-cases (isspace c)) [
  | inl e ↦
      let (t, q, spaces, stop) = skip_spaces_split s in
      (c ∷ t, rw e (ap (λ l. c ∷ l) q), (e, spaces), rw e stop)
  | inr e ↦ ([], rw e, tt, rw e e)
]

-- trim_end returns the text without some bytes at its end, all of them white space, and the last
-- byte of what is left is none.
pub trim_end_split :
    (buf : Text)
    → (t : Text) × (buf ≡ trim_end buf ++ reverse t)
      × AllSpaces t
      × NoLeadingSpace (reverse (trim_end buf))
unfolding trim_end
trim_end_split buf =
    let (t, q, spaces, stop) = skip_spaces_split (reverse buf) in
    (
      t,
      sym (reverse-reverse buf) ∙ ap reverse q ∙ reverse-append t (skip_spaces (reverse buf)),
      spaces,
      rw reverse-reverse stop,
    )
