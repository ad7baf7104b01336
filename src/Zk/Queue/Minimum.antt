-- ===== src/Zk/Queue/Minimum.antt =====
-- src/rb_zk.c: what min_str finds.
use rb_monitor.Prelude.{
  ◌≡◌, ◌⊎◌, inl, inr, refl, sym, subst, ◌∙◌, true, false, Option, none, some, List, [], ◌∷◌,
  Bool-cases,
}
use mathlib.Core.Option.{some-injective}
use rb_monitor.Prelude.Text.{Text}
use rb_monitor.Prelude.Text.Order.{text_lt, text_lt_irrefl, text_lt-between, text_lt-not_trans}
use rb_monitor.Zk.Previous.{Has, later, Has-cases}
use rb_monitor.Zk.Queue.{is_less, min_loop, min_str}

-- The answer is the least string of the array, or none if there is no string.
abbrev pub IsMinimum : List (Option Text) → Option Text → Type 0
IsMinimum strings none = (s : Text) → ¬ Has s strings
IsMinimum strings (some b) = Has b strings × ((s : Text) → Has s strings → text_lt s b ≡ false)

-- What the loop returns is the minimum that it began with or a string of the rest, and it is not
-- above any of them.
record Found (strings : List (Option Text)) (minimum r : Option Text) : Type 0 where
  source : (r ≡ minimum) ⊎ ((s : Text) × (r ≡ some s) × Has s strings)
  not_above : (b : Text) → minimum ≡ some b → (t : Text) × (r ≡ some t) × (text_lt b t ≡ false)
  least : (s : Text) → Has s strings → (t : Text) × (r ≡ some t) × (text_lt s t ≡ false)

source_later :
    (rest : List (Option Text)) {minimum r : Option Text} (o : Option Text)
    → (r ≡ minimum) ⊎ ((s : Text) × (r ≡ some s) × Has s rest)
    → (r ≡ minimum) ⊎ ((s : Text) × (r ≡ some s) × Has s (o ∷ rest))
source_later rest o (inl e) = inl e
source_later rest o (inr (s, e, at)) = inr (s, e, later o rest s at)

Found-none :
    {rest : List (Option Text)} {minimum r : Option Text}
    → Found rest minimum r
    → Found (none ∷ rest) minimum r
Found-none {rest} f = record {
  source = source_later rest none f.source;
  not_above = f.not_above;
  least = λ s h. elim (Has-cases none rest s h) [ inl e ↦ cc | inr at ↦ f.least s at ];
}

less_than :
    (x b : Text) (minimum : Option Text) → minimum ≡ some b → is_less x minimum ≡ text_lt x b
less_than x b minimum e = rw e refl

-- A string that is less becomes the minimum.
Found-less :
    {rest : List (Option Text)} {x : Text} {minimum r : Option Text}
    → is_less x minimum ≡ true
    → Found rest (some x) r
    → Found (some x ∷ rest) minimum r
Found-less {rest} {x} {minimum} {r} less f = record {
  source = elim f.source [
    | inl e ↦ inr (x, e, (0, refl))
    | inr other ↦ let (s, e, at) = other in inr (s, e, later (some x) rest s at)
  ];
  not_above = λ b e.
      (let (t, q, above) = f.not_above x refl in
        let under : text_lt x b ≡ true = sym (less_than x b minimum e) ∙ less in
        (t, q, text_lt-not_trans b x t (below b under) above));
  least = λ s h. elim (Has-cases (some x) rest s h) [
    | inl e ↦
        let (t, q, above) = f.not_above x refl in
        (t, q, subst (λ k. text_lt k t ≡ false) (some-injective x s e) above)
    | inr at ↦ f.least s at
  ];
}
  where
    below : (b : Text) → text_lt x b ≡ true → text_lt b x ≡ false
    below b h = text_lt-between x b b h (text_lt_irrefl b)

-- Any other string changes nothing.
Found-kept :
    {rest : List (Option Text)} {x : Text} {minimum r : Option Text}
    → is_less x minimum ≡ false
    → Found rest minimum r
    → Found (some x ∷ rest) minimum r
Found-kept {rest} {x} {minimum} {r} kept f = record {
  source = source_later rest (some x) f.source;
  not_above = f.not_above;
  least = λ s h. elim (Has-cases (some x) rest s h) [
    | inl e ↦
        subst (λ k. (t : Text) × (r ≡ some t) × (text_lt k t ≡ false)) (some-injective x s e)
          (first minimum kept f.not_above)
    | inr at ↦ f.least s at
  ];
}
  where
    first :
        (o : Option Text)
        → is_less x o ≡ false
        → ((b : Text) → o ≡ some b → (t : Text) × (r ≡ some t) × (text_lt b t ≡ false))
        → (t : Text) × (r ≡ some t) × (text_lt x t ≡ false)
    first none k h = cc
    first (some b) k h = let (t, q, above) = h b refl in (t, q, text_lt-not_trans x b t k above)

min_loop-Found :
    (strings : List (Option Text)) (minimum : Option Text)
    → Found strings minimum (min_loop strings minimum)
unfolding min_loop
min_loop-Found [] minimum = record {
  source = inl refl;
  not_above = λ b e. (b, e, text_lt_irrefl b);
  least = λ s h. cc;
}
min_loop-Found (none ∷ rest) minimum = Found-none (min_loop-Found rest minimum)
min_loop-Found (some x ∷ rest) minimum = elim (Bool-cases (is_less x minimum)) [
  | inl e ↦ rw e (Found-less e (min_loop-Found rest (some x)))
  | inr e ↦ rw e (Found-kept e (min_loop-Found rest minimum))
]

Found-IsMinimum :
    (strings : List (Option Text)) (r : Option Text) → Found strings none r → IsMinimum strings r
Found-IsMinimum strings none f = λ s h. (let (t, e, above) = f.least s h in cc)
Found-IsMinimum strings (some b) f = (
  there,
  λ s h.
      (let (t, e, above) = f.least s h in
        subst (λ k. text_lt s k ≡ false) (sym (some-injective b t e)) above),
)
  where
    there : Has b strings
    there = elim f.source [
      | inl e ↦ cc
      | inr other ↦
          let (s, e, at) = other in subst (λ k. Has k strings) (sym (some-injective b s e)) at
    ]

-- min_str returns the least string of the array, and none exactly if there is no string.
pub min_str-IsMinimum : (strings : List (Option Text)) → IsMinimum strings (min_str strings)
unfolding min_str
min_str-IsMinimum strings = Found-IsMinimum strings (min_str strings) (min_loop-Found strings none)
