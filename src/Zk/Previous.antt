-- ===== src/Zk/Previous.antt =====
-- src/rb_zk.c: what leader_previous_string finds.
use rb_monitor.Prelude.{
  ℕ, zero, suc, ◌≡◌, ◌⊎◌, inl, inr, refl, true, false, Option, none, some, List, [], ◌∷◌, get_elem?,
  sym, subst, Bool-cases, arith,
}
use mathlib.Core.Option.{some-injective}
use rb_monitor.Prelude.Text.{Text}
use rb_monitor.Prelude.Text.Order.{
  text_lt, text_lt_irrefl, text_lt-between, text_lt-not_trans, strrchr, strrchr-last,
}
use rb_monitor.Zk.{slash, is_closer, previous_loop, leader_previous_string}
use rb_monitor.Zk.Names.{node_path}

-- The string is one of the array's.
abbrev pub Has : Text → List (Option Text) → Type 0
Has s strings = (i : ℕ) × (get_elem? strings i ≡ some (some s))

-- The answer is the greatest string below `name`, or none if there is no string below.
abbrev pub IsPrevious : List (Option Text) → Text → Option Text → Type 0
IsPrevious strings name none = (s : Text) → Has s strings → text_lt s name ≡ false
IsPrevious strings name (some b) =
    Has b strings
    × (text_lt b name ≡ true)
    × ((s : Text) → Has s strings → text_lt s name ≡ true → text_lt b s ≡ false)

pub later :
    (o : Option Text) (strings : List (Option Text)) (s : Text)
    → Has s strings
    → Has s (o ∷ strings)
later o strings s (i, e) = (suc i, e)

pub Has-cases :
    (o : Option Text) (strings : List (Option Text)) (s : Text)
    → Has s (o ∷ strings)
    → (o ≡ some s) ⊎ Has s strings
Has-cases o strings s (zero, e) = inl (some-injective o (some s) e)
Has-cases o strings s (suc i, e) = inr (i, e)

-- What the loop returns is the candidate that it began with or a string of the rest; it is below
-- `name` if the first candidate is; and no string below `name`, nor the candidate, is above it.
record Found (strings : List (Option Text)) (name : Text) (bef r : Option Text) : Type 0 where
  source : (r ≡ bef) ⊎ ((s : Text) × (r ≡ some s) × Has s strings × (text_lt s name ≡ true))
  some_stays : (b : Text) → bef ≡ some b → (s : Text) × (r ≡ some s) × (text_lt s b ≡ false)
  greatest :
      (s : Text)
      → Has s strings
      → text_lt s name ≡ true
      → (b : Text) × (r ≡ some b) × (text_lt b s ≡ false)

-- A null pointer changes nothing.
Found-none :
    {rest : List (Option Text)} {name : Text} {bef r : Option Text}
    → Found rest name bef r
    → Found (none ∷ rest) name bef r
Found-none {rest} f = record {
  source = elim f.source [
    | inl e ↦ inl e
    | inr found ↦ let (s, e, at, under) = found in inr (s, e, later none rest s at, under)
  ];
  some_stays = f.some_stays;
  greatest =
      λ s h low. elim (Has-cases none rest s h) [ inl e ↦ cc | inr at ↦ f.greatest s at low ];
}

low_of_closer :
    (x name : Text) (bef : Option Text) → is_closer x name bef ≡ true → text_lt x name ≡ true
low_of_closer x name none h = h
low_of_closer x name (some b) h = ground arith

-- A string below `name` that is no better candidate is not above the candidate that there is.
not_closer :
    (x name : Text) (bef : Option Text)
    → is_closer x name bef ≡ false
    → text_lt x name ≡ true
    → (b : Text) × (bef ≡ some b) × (text_lt b x ≡ false)
not_closer x name none h low = cc
not_closer x name (some b) h low = (b, refl, ground arith)

above_of_closer : (x name b : Text) → is_closer x name (some b) ≡ true → text_lt b x ≡ true
above_of_closer x name b h = ground arith

-- A string that is closer becomes the candidate.
Found-closer :
    {rest : List (Option Text)} {name x : Text} {bef r : Option Text}
    → is_closer x name bef ≡ true
    → Found rest name (some x) r
    → Found (some x ∷ rest) name bef r
Found-closer {rest} {name} {x} {bef} {r} closer f = record {
  source = elim f.source [
    | inl e ↦ inr (x, e, (0, refl), low)
    | inr found ↦ let (s, e, at, under) = found in inr (s, e, later (some x) rest s at, under)
  ];
  some_stays = λ b e.
      let (s, q, above) = f.some_stays x refl in
      (
        s,
        q,
        text_lt-between b s x
            (above_of_closer x name b (subst (λ o. is_closer x name o ≡ true) e closer)) above,
      );
  greatest = λ s h low. elim (Has-cases (some x) rest s h) [
    | inl e ↦
        let (t, q, above) = f.some_stays x refl in
        (t, q, subst (λ k. text_lt t k ≡ false) (some-injective x s e) above)
    | inr at ↦ f.greatest s at low
  ];
}
  where
    low : text_lt x name ≡ true
    low = low_of_closer x name bef closer

-- Any other string changes nothing.
Found-kept :
    {rest : List (Option Text)} {name x : Text} {bef r : Option Text}
    → is_closer x name bef ≡ false
    → Found rest name bef r
    → Found (some x ∷ rest) name bef r
Found-kept {rest} {name} {x} {bef} {r} kept f = record {
  source = elim f.source [
    | inl e ↦ inl e
    | inr found ↦ let (s, e, at, under) = found in inr (s, e, later (some x) rest s at, under)
  ];
  some_stays = f.some_stays;
  greatest = λ s h low. elim (Has-cases (some x) rest s h) [
    | inl e ↦
        let same : s ≡ x = sym (some-injective x s e) in
        let (b, q, ge) = not_closer x name bef kept (subst (λ k. text_lt k name ≡ true) same low) in
        let (t, qt, above) = f.some_stays b q in
        (t, qt, subst (λ k. text_lt t k ≡ false) (sym same) (text_lt-not_trans t b x above ge))
    | inr at ↦ f.greatest s at low
  ];
}

previous_loop-Found :
    (strings : List (Option Text)) (name : Text) (bef : Option Text)
    → Found strings name bef (previous_loop strings name bef)
unfolding previous_loop
previous_loop-Found [] name bef = record {
  source = inl refl;
  some_stays = λ b e. (b, e, text_lt_irrefl b);
  greatest = λ s h. cc;
}
previous_loop-Found (none ∷ rest) name bef = Found-none (previous_loop-Found rest name bef)
previous_loop-Found (some x ∷ rest) name bef = elim (Bool-cases (is_closer x name bef)) [
  | inl e ↦ rw e (Found-closer e (previous_loop-Found rest name (some x)))
  | inr e ↦ rw e (Found-kept e (previous_loop-Found rest name bef))
]

Found-IsPrevious :
    (strings : List (Option Text)) (name : Text) (r : Option Text)
    → Found strings name none r
    → IsPrevious strings name r
Found-IsPrevious strings name none f = λ s h. elim (Bool-cases (text_lt s name)) [
  | inl low ↦ let (b, e, ge) = f.greatest s h low in cc
  | inr high ↦ high
]
Found-IsPrevious strings name (some b) f =
    let (at, low) = found in
    (
      at,
      low,
      λ s h under.
          (let (t, e, ge) = f.greatest s h under in
            subst (λ k. text_lt k s ≡ false) (sym (some-injective b t e)) ge),
    )
  where
    found : Has b strings × (text_lt b name ≡ true)
    found = elim f.source [
      | inl e ↦ cc
      | inr other ↦
          let (s, e, at, low) = other in
          subst (λ k. Has k strings × (text_lt k name ≡ true)) (sym (some-injective b s e))
            (at, low)
    ]

-- If the path of a mutex is a node of a directory, leader_previous_string finds, of the children of
-- that directory, the greatest name below the node's own, whatever the order of the children and the
-- null pointers between them, and finds none exactly if no child is below.
pub leader_previous_string-IsPrevious :
    (strings : List (Option Text)) (dir name : Text)
    → strrchr name slash ≡ none
    → IsPrevious strings name (leader_previous_string strings (node_path dir name) none)
unfolding leader_previous_string
leader_previous_string-IsPrevious strings dir name h =
    rw (leader_previous_string, strrchr-last dir name slash h)
      (Found-IsPrevious strings name (previous_loop strings name none)
        (previous_loop-Found strings name none))
