-- ===== src/Array/Parse/Present.antt =====
-- The loop of Array.Parse, against the list of what the descriptions parse to.
use mathlib.Core.List.{append_assoc, append-nil}
use rb_monitor.Prelude.{
  present, some_each, ℕ, ◌+◌, ◌≤◌, ◌≡◌, refl, sym, subst, ap, ◌∙◌, false, Option, none, some, List,
  [], ◌∷◌, ◌++◌, arith, Outcome, ret, >>=-eq-ret, length,
}
use rb_monitor.Array.{RbArray, rb_array_new, rb_array_full, rb_array_add, contents, IsValid}
use rb_monitor.Array.Contents.{rb_array_new-IsValid, rb_array_add-IsValid, contents-add}
use rb_monitor.Array.Parse.{add_parsed, parse_loop, parse_elements}

-- Each element satisfies the predicate.
abbrev pub AllOf : {A : Type 0} → (A → Type 0) → List A → Type 0
AllOf P [] = Unit {0}
AllOf P (m ∷ ms) = P m × AllOf P ms

module _ {D A : Type 0} (parse : D → Outcome (Option A)) where
  -- Each description parses, to an element or to null.
  abbrev pub ParseAll : List D → List (Option A) → Type 0
  ParseAll [] [] = Unit {0}
  ParseAll [] (r ∷ rs) = ⊥
  ParseAll (j ∷ js) [] = ⊥
  ParseAll (j ∷ js) (r ∷ rs) = (parse j ≡ ret r) × ParseAll js rs

  -- The array has room for `n` more elements.
  abbrev HasRoom : RbArray A → ℕ → Type 0
  HasRoom a n = IsValid a × (a.count + n ≤ a.size)

  room_not_full : (a : RbArray A) (n : ℕ) → a.count + (n + 1) ≤ a.size → rb_array_full a ≡ false
  unfolding rb_array_full
  room_not_full a n h = ground arith

  add_parsed-HasRoom :
      (a : RbArray A) (r : Option A) (n : ℕ) → HasRoom a (n + 1) → HasRoom (add_parsed a r) n
  unfolding add_parsed rb_array_add
  add_parsed-HasRoom a none n (v, h) = (v, omega arith)
  add_parsed-HasRoom a (some m) n (v, h) = (rb_array_add-IsValid a (some m) v, ground arith)

  contents-add_parsed :
      (a : RbArray A) (r : Option A) (rs : List (Option A)) (n : ℕ)
      → HasRoom a (n + 1)
      → contents (add_parsed a r) ++ some_each (present rs)
        ≡ contents a ++ some_each (present (r ∷ rs))
  unfolding add_parsed
  contents-add_parsed a none rs n h = refl
  contents-add_parsed a (some m) rs n (v, h) =
      ap (λ l. l ++ some_each (present rs)) (contents-add a (some m) v (room_not_full a n h))
      ∙ append_assoc (contents a) (some m ∷ []) (some_each (present rs))

  parse_loop-present :
      (js : List D) (rs : List (Option A)) (a : RbArray A)
      → HasRoom a (length js)
      → ParseAll js rs
      → (r : RbArray A) × (parse_loop parse js a ≡ ret r)
        × (contents r ≡ contents a ++ some_each (present rs))
        × IsValid r
  unfolding parse_loop
  parse_loop-present [] [] a h all = (a, refl, sym (append-nil (contents a)), h.0)
  parse_loop-present [] (r ∷ rs) a h all = elim all [ ]
  parse_loop-present (j ∷ js) [] a h all = elim all [ ]
  parse_loop-present (j ∷ js) (r ∷ rs) a (v, h) all =
      let enough : a.count + (length js + 1) ≤ a.size = omega arith in
      let (b, q, c, w) =
        parse_loop-present js rs (add_parsed a r) (add_parsed-HasRoom a r (length js) (v, enough))
          all.1 in
      (
        b,
        rw (room_not_full a (length js) enough, all.0) q,
        c ∙ contents-add_parsed a r rs (length js) (v, enough),
        w,
      )

  -- The loop returns only if each description parses.
  parse_loop-ParseAll :
      (js : List D) (a r : RbArray A)
      → HasRoom a (length js)
      → parse_loop parse js a ≡ ret r
      → (rs : List (Option A)) × ParseAll js rs
  unfolding parse_loop
  parse_loop-ParseAll [] a r h e = ([], tt)
  parse_loop-ParseAll (j ∷ js) a r (v, h) e =
      let enough : a.count + (length js + 1) ≤ a.size = omega arith in
      let (m, parsed, back) =
        >>=-eq-ret (parse j) _ (rw (room_not_full a (length js) enough) at e) in
      let (rs, all) =
        parse_loop-ParseAll js (add_parsed a m) r (add_parsed-HasRoom a m (length js) (v, enough))
          back in
      (m ∷ rs, (parsed, all))

  new-HasRoom : (n : ℕ) → HasRoom (rb_array_new n) n
  unfolding rb_array_new
  new-HasRoom n = (rb_array_new-IsValid n, omega arith)

  -- The descriptions all parse: the array then has what they gave, in order.
  pub parse_elements-present :
      (js : List D) (rs : List (Option A))
      → ParseAll js rs
      → (r : RbArray A) × (parse_elements parse js ≡ ret r)
        × (contents r ≡ some_each (present rs))
        × IsValid r
  unfolding parse_elements rb_array_new
  parse_elements-present js rs all =
      parse_loop-present js rs (rb_array_new (length js)) (new-HasRoom (length js)) all

  -- If an array is returned, they all parsed.
  pub parse_elements-ParseAll :
      (js : List D) (r : RbArray A)
      → parse_elements parse js ≡ ret r
      → (rs : List (Option A)) × ParseAll js rs
  unfolding parse_elements
  parse_elements-ParseAll js r h =
      parse_loop-ParseAll js (rb_array_new (length js)) r (new-HasRoom (length js)) h

  -- What is true of whatever parses is true of all that was parsed.
  pub ParseAll-AllOf :
      (P : A → Type 0) (js : List D) (rs : List (Option A))
      → ((j : D) (m : A) → parse j ≡ ret (some m) → P m)
      → ParseAll js rs
      → AllOf P (present rs)
  ParseAll-AllOf P [] [] h all = tt
  ParseAll-AllOf P [] (r ∷ rs) h all = elim all [ ]
  ParseAll-AllOf P (j ∷ js) [] h all = elim all [ ]
  ParseAll-AllOf P (j ∷ js) (none ∷ rs) h all = ParseAll-AllOf P js rs h all.1
  ParseAll-AllOf P (j ∷ js) (some m ∷ rs) h all = (h j m all.0, ParseAll-AllOf P js rs h all.1)

  -- What is true of whatever parses is true of all elements of the array, and none is null.
  pub parse_elements-AllOf :
      (P : A → Type 0) (js : List D) (r : RbArray A)
      → ((j : D) (m : A) → parse j ≡ ret (some m) → P m)
      → parse_elements parse js ≡ ret r
      → (ms : List A) × (contents r ≡ some_each ms) × AllOf P ms × IsValid r
  parse_elements-AllOf P js r h run =
      let (rs, all) = parse_elements-ParseAll js r run in
      let (r', q, c, v) = parse_elements-present js rs all in
      let same : r' ≡ r = cc (q, run) in
      (
        present rs,
        subst (λ a. contents a ≡ some_each (present rs)) same c,
        ParseAll-AllOf P js rs h all,
        subst IsValid same v,
      )
