-- ===== src/Monitor/Vector/Elements.antt =====
-- src/rb_sensor_monitor.c: process_vector_monitor, against a description with no loop.
use mathlib.Core.List.{append_assoc}
use rb_monitor.Prelude.{
  set-append, ℕ, zero, suc, ◌+◌, ◌<◌, ◌≡◌, ◌≢◌, refl, true, List, [], ◌∷◌, ◌++◌, map, Option, none,
  some, ret, arith, ltb, if◌then◌else◌, length, length-append, drop, replicate, Option-cases, inl,
  inr,
}
use rb_monitor.Prelude.Int.{ℤ}
use rb_monitor.Prelude.Text.{Text, strstr}
use rb_monitor.Prelude.Text.Search.{suffixes, scan-strstr}
use rb_monitor.Platform.{Platform}
use rb_monitor.Value.{RawValue, MonitorValue, new_monitor_value_array}
use rb_monitor.Monitor.{Monitor}
use rb_monitor.Monitor.Vector.{
  Progress, token_value, store_child, vector_round, vector_loop, split_op_value,
  process_vector_monitor,
}
use rb_monitor.Monitor.Vector.Termination.{drop-strstr-lt, vector_elements-scan}

-- Adding the values that are there, and counting them.
module _ (p : Platform) where
  abbrev pub plus_value : p.Double → Option (RawValue p.Double) → p.Double
  plus_value acc none = acc
  plus_value acc (some v) = p.add acc v.value

  abbrev pub sum_from : p.Double → List (Option (RawValue p.Double)) → p.Double
  sum_from acc [] = acc
  sum_from acc (o ∷ os) = sum_from (plus_value acc o) os

abbrev pub plus_present {ℓ} : {A : Type ℓ} → ℕ → Option A → ℕ
plus_present n none = n
plus_present n (some a) = n + 1

abbrev pub count_from {ℓ} : {A : Type ℓ} → ℕ → List (Option A) → ℕ
count_from n [] = n
count_from n (o ∷ os) = count_from (plus_present n o) os

module _ (p : Platform) (monitor : Monitor p.Json) (splittok : Text) (now : ℤ) where
  -- One element for the text and one for what stands behind each separator.
  abbrev pub elements : Text → List (Option (RawValue p.Double))
  elements value_buf = map (token_value p monitor splittok now) (suffixes splittok value_buf)

  abbrev pub vector_of : Text → MonitorValue p.Double
  vector_of value_buf =
      let children = elements value_buf in
      MonitorValue.array children (
        split_op_value p 1024 monitor.splitop (sum_from p p.zero_double children)
          (count_from 0 children) now)

-- A text with a byte is a first byte and the others.
at_token {ℓ} :
    (P : Text → Type ℓ) → ((x : ℕ) (sep : Text) → P (x ∷ sep)) → (s : Text) → s ≢ [] → P s
at_token P h [] k = absurd (k refl)
at_token P h (x ∷ sep) k = h x sep

module _ (p : Platform) (monitor : Monitor p.Json) (x : ℕ) (sep : Text) (now : ℤ) where
  abbrev value_of : Text → Option (RawValue p.Double)
  value_of = token_value p monitor (x ∷ sep) now

  store_child-append :
      (done rest : List (Option (RawValue p.Double))) (v : RawValue p.Double) (sum : p.Double)
      (n : ℕ)
      → store_child p
          (length done)
          v
          (record { children = done ++ none ∷ rest; sum = sum; mean_count = n })
        ≡ ret (record {
          children = done ++ some v ∷ rest;
          sum = p.add sum v.value;
          mean_count = n + 1;
        })
  unfolding store_child
  store_child-append done rest v sum n =
      let inside : ltb (length done) (length (done ++ none ∷ rest)) ≡ true =
        ground (arith, length-append done (none ∷ rest)) in
      rw (inside, set-append done none (some v) rest)

  -- A round fills in the element that is next.
  round-append :
      (tok : Text) (count : ℕ) (done rest : List (Option (RawValue p.Double))) (sum : p.Double)
      (n : ℕ)
      → count ≡ length done
      → vector_round p monitor
          (x ∷ sep)
          now
          tok
          count
          (record { children = done ++ none ∷ rest; sum = sum; mean_count = n })
        ≡ ret (record {
          children = done ++ value_of tok ∷ rest;
          sum = plus_value p sum (value_of tok);
          mean_count = plus_present n (value_of tok);
        })
  unfolding vector_round
  round-append tok count done rest sum n c = elim (Option-cases (value_of tok)) [
    | inl e ↦ rw (e, vector_round)
    | inr (v, e) ↦ rw (e, vector_round) (rw c (store_child-append done rest v sum n))
  ]

  abbrev done_and :
      List (Option (RawValue p.Double))
      → List (Option (RawValue p.Double))
      → p.Double
      → ℕ
      → Progress p
  done_and done rest sum n = record { children = done ++ rest; sum = sum; mean_count = n }

  -- The text at which the round of this count starts.
  abbrev start : ℕ → Text → Text
  start count tok = if ltb 0 count then drop (suc (length sep)) tok else tok

  start-suc : (count : ℕ) (tok : Text) → start (count + 1) tok ≡ drop (suc (length sep)) tok
  start-suc count tok = ground arith

  -- From any round on, the loop fills in the elements that are still to come.
  loop-elements :
      (fuel : ℕ) (tok here : Text) (count : ℕ) (done : List (Option (RawValue p.Double)))
      (sum : p.Double) (n : ℕ)
      → count ≡ length done
      → start count tok ≡ here
      → length here < fuel
      → vector_loop p monitor
          (x ∷ sep)
          now
          fuel
          tok
          count
          (done_and done (replicate (length (suffixes (x ∷ sep) here)) none) sum n)
        ≡ ret (
            done_and done
              (map value_of (suffixes (x ∷ sep) here))
              (sum_from p sum (map value_of (suffixes (x ∷ sep) here)))
              (count_from n (map value_of (suffixes (x ∷ sep) here))))
  unfolding vector_loop
  loop-elements zero tok here count done sum n c s h = elim h [ ]
  loop-elements (suc fuel) tok here count done sum n c s h =
      elim (Option-cases (strstr here (x ∷ sep))) [
        | inl e ↦ rw (scan-strstr, s, e, round-append here count done _ sum n c)
        | inr (t, e) ↦
            let o = value_of here in
            let ih =
              loop-elements fuel t (drop (suc (length sep)) t) (count + 1) (done ++ o ∷ [])
                (plus_value p sum o) (plus_present n o)
                (omega (arith, c, length-append {0} done (o ∷ []))) (start-suc count t)
                (omega (arith, drop-strstr-lt x sep here t e)) in
            rw (scan-strstr, s, e, round-append here count done _ sum n c) (simp append_assoc at ih)
      ]

  process-elements :
      (fuel : ℕ) (value_buf : Text)
      → length value_buf < fuel
      → process_vector_monitor p monitor (x ∷ sep) now fuel value_buf
        ≡ ret (vector_of p monitor (x ∷ sep) now value_buf)
  unfolding process_vector_monitor new_monitor_value_array
  process-elements fuel value_buf h =
      rw (vector_elements-scan (x ∷ sep) fuel value_buf (λ e. cc e) h)
        (rw (loop-elements fuel value_buf value_buf 0 [] p.zero_double 0 refl refl h))

module _ (p : Platform) (monitor : Monitor p.Json) (splittok : Text) (now : ℤ) where
  -- With a split token that has a byte, and fuel for each byte of the response and one more,
  -- process_vector_monitor ends without a write outside its array. It returns the array that has,
  -- for the response and for what stands behind each split token in it, the value of the token at
  -- that place, and the aggregate of the values that are there, added from left to right.
  pub process_vector_monitor-elements :
      (fuel : ℕ) (value_buf : Text)
      → splittok ≢ []
      → length value_buf < fuel
      → process_vector_monitor p monitor splittok now fuel value_buf
        ≡ ret (vector_of p monitor splittok now value_buf)
  process_vector_monitor-elements fuel value_buf some_byte h =
      at_token
        (λ sep.
          process_vector_monitor p monitor sep now fuel value_buf
          ≡ ret (vector_of p monitor sep now value_buf))
        (λ x sep. process-elements p monitor x sep now fuel value_buf h) splittok some_byte
