-- ===== src/Monitor/Vector/Termination.antt =====
-- src/rb_sensor_monitor.c: the loop of vector_elements, and what it counts.
use rb_monitor.Prelude.{
  ℕ, zero, suc, ◌+◌, ◌<◌, ◌≡◌, ◌≢◌, refl, ap, ◌∙◌, [], ◌∷◌, some, ret, out_of_fuel, arith, length,
  length-drop, drop, Option-cases, inl, inr,
}
use rb_monitor.Prelude.Text.{Text, strstr}
use rb_monitor.Prelude.Text.Search.{
  scan, suffixes, scan-strstr, strstr_empty, length-strstr, length-starts_with, strstr-starts_with,
}
use rb_monitor.Monitor.Vector.{vector_elements_loop, vector_elements}

-- What stands behind a find of a needle with a byte is shorter than the haystack.
pub drop-strstr-lt :
    (x : ℕ) (sep s t : Text)
    → strstr s (x ∷ sep) ≡ some t
    → length (drop (suc (length sep)) t) < length s
drop-strstr-lt x sep s t h = omega (
  arith,
  length-drop {0} (suc (length sep)) t,
  length-strstr s (x ∷ sep) t h,
  length-starts_with (x ∷ sep) t (strstr-starts_with s (x ∷ sep) t h),
)

vector_elements_loop-scan :
    (x : ℕ) (sep : Text) (fuel : ℕ) (s : Text) (n : ℕ)
    → length s < fuel
    → vector_elements_loop fuel s (x ∷ sep) n ≡ ret (n + length (scan (x ∷ sep) 0 s))
unfolding vector_elements_loop
vector_elements_loop-scan x sep zero s n h = elim h [ ]
vector_elements_loop-scan x sep (suc fuel) s n h = elim (Option-cases (strstr s (x ∷ sep))) [
  | inl e ↦ rw (scan-strstr, e, vector_elements_loop) (ap ret (omega arith))
  | inr (t, e) ↦
      rw (scan-strstr, e, vector_elements_loop)
        (vector_elements_loop-scan x sep fuel (drop (suc (length sep)) t) (n + 1)
            (omega (arith, drop-strstr-lt x sep s t e))
          ∙ ap ret (omega arith))
]

-- With a split token that has a byte, and fuel for each byte of the text and one more,
-- vector_elements ends, and returns one more than the number of tokens that stand in the text, read
-- from left to right with no overlap.
pub vector_elements-scan :
    (splittok : Text) (fuel : ℕ) (haystack : Text)
    → splittok ≢ []
    → length haystack < fuel
    → vector_elements fuel haystack splittok ≡ ret (length (suffixes splittok haystack))
unfolding vector_elements
vector_elements-scan [] fuel haystack h k = absurd (h refl)
vector_elements-scan (x ∷ sep) fuel haystack h k =
    vector_elements_loop-scan x sep fuel haystack 1 k ∙ ap ret (omega arith)

vector_elements_loop_empty :
    (fuel : ℕ) (s : Text) (n : ℕ) → vector_elements_loop fuel s [] n ≡ out_of_fuel
unfolding vector_elements_loop
vector_elements_loop_empty zero s n = refl
vector_elements_loop_empty (suc fuel) s n =
    rw (strstr_empty s, vector_elements_loop) (vector_elements_loop_empty fuel s (n + 1))

-- With the empty split token vector_elements never ends, whatever the text: no fuel is enough.
pub vector_elements_diverges :
    (fuel : ℕ) (haystack : Text) → vector_elements fuel haystack [] ≡ out_of_fuel
unfolding vector_elements
vector_elements_diverges fuel haystack = vector_elements_loop_empty fuel haystack 1
