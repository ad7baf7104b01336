-- ===== src/Zk/Queue/Fifo/Nodes.antt =====
-- src/rb_zk.c: the nodes of a queue, and what the server answers of them.
use rb_monitor.Prelude.{
  ◌≡◌, ◌⊎◌, refl, ap, sym, subst, inl, inr, true, some, List, [], ◌∷◌, ◌++◌, some_each, arith,
}
use mathlib.Core.Option.{some-injective}
use rb_monitor.Prelude.Text.{Text}
use rb_monitor.Prelude.Text.Order.{text_lt, text_lt_irrefl}
use rb_monitor.Zk.Previous.{Has, Has-cases, later}
use rb_monitor.Zk.Queue.Minimum.{IsMinimum}
use rb_monitor.Zk.Election.{In, IsAbove}
use rb_monitor.Zk.Queue.Fifo.{names, values}

-- Each name is below those behind it.
abbrev pub Ascending : List Text → Type 0
Ascending [] = Unit
Ascending (x ∷ xs) = ((y : Text) → In y xs → text_lt x y ≡ true) × Ascending xs

pub names-append : (a b : List (Text × Text)) → names (a ++ b) ≡ names a ++ names b
names-append [] b = refl
names-append ((n, v) ∷ a) b = ap (λ l. n ∷ l) (names-append a b)

pub values-append : (a b : List (Text × Text)) → values (a ++ b) ≡ values a ++ values b
values-append [] b = refl
values-append ((n, v) ∷ a) b = ap (λ l. v ∷ l) (values-append a b)

In-snoc : (y x : Text) (xs : List Text) → In y (xs ++ x ∷ []) → In y xs ⊎ (y ≡ x)
In-snoc y x [] (inl e) = inr e
In-snoc y x [] (inr at) = elim at [ ]
In-snoc y x (z ∷ xs) (inl e) = inl (inl e)
In-snoc y x (z ∷ xs) (inr at) = elim (In-snoc y x xs at) [
  | inl there ↦ inl (inr there)
  | inr e ↦ inr e
]

pub Ascending-snoc :
    (xs : List Text) (x : Text) → Ascending xs → IsAbove x xs → Ascending (xs ++ x ∷ [])
Ascending-snoc [] x asc above = ((λ y h. elim h [ ]), tt)
Ascending-snoc (z ∷ xs) x (first, asc) above = (
  λ y h. elim (In-snoc y x xs h) [
    | inl at ↦ first y at
    | inr e ↦ subst (λ t. text_lt z t ≡ true) (sym e) (above z (inl refl))
  ],
  Ascending-snoc xs x asc (λ s at. above s (inr at)),
)

In-middle :
    (x : Text) (before after : List (Text × Text)) (v : Text)
    → In x (names (before ++ (x, v) ∷ after))
In-middle x [] after v = inl refl
In-middle x ((n, w) ∷ before) after v = inr (In-middle x before after v)

In-append : (s : Text) (a b : List Text) → In s a → In s (a ++ b)
In-append s [] b at = elim at [ ]
In-append s (x ∷ a) b (inl e) = inl e
In-append s (x ∷ a) b (inr at) = inr (In-append s a b at)

Has-In : (s : Text) (l : List Text) → Has s (some_each l) → In s l
Has-In s [] (i, e) = cc
Has-In s (x ∷ l) h = elim (Has-cases (some x) (some_each l) s h) [
  | inl e ↦ inl (sym (some-injective x s e))
  | inr at ↦ inr (Has-In s l at)
]

-- The node `name` is the first one.
abbrev pub IsFirst : List (Text × Text) → Text → Type 0
IsFirst nodes name = (value : Text) × (rest : List (Text × Text)) × (nodes ≡ (name, value) ∷ rest)

In-Has : (s : Text) (l : List Text) → In s l → Has s (some_each l)
In-Has s [] at = elim at [ ]
In-Has s (x ∷ l) (inl e) = (0, ap (λ t. some (some t)) (sym e))
In-Has s (x ∷ l) (inr at) = later (some x) (some_each l) s (In-Has s l at)

-- The answer has only nodes, and the first one if it has any.
pub record IsAnswer (nodes : List (Text × Text)) (children : List Text) : Type 0 where
  pub there : (s : Text) → In s children → In s (names nodes)
  pub first :
      (name value : Text) (rest : List (Text × Text))
      → nodes ≡ (name, value) ∷ rest
      → In name children ⊎ (children ≡ [])

-- The least of the nodes of an answer is the first one.
pub least-IsFirst :
    (nodes : List (Text × Text)) (children : List Text) (minimum : Text)
    → Ascending (names nodes)
    → IsAnswer nodes children
    → IsMinimum (some_each children) (some minimum)
    → IsFirst nodes minimum
least-IsFirst [] children minimum asc a (there, least) =
    elim (a.there minimum (Has-In minimum children there)) [ ]
least-IsFirst ((n, v) ∷ nodes) children minimum (first, asc) a (there, least) =
    elim (a.there minimum (Has-In minimum children there)) [
      | inl e ↦ (v, nodes, ap (λ t. (t, v) ∷ nodes) (sym e))
      | inr behind ↦ elim (a.first n v nodes refl) [
        | inl here ↦ absurd (ground (arith, least n (In-Has n children here), first minimum behind))
        | inr none_there ↦ elim (subst (In minimum) none_there (Has-In minimum children there)) [ ]
      ]
    ]

-- A push behind the nodes keeps the answer one.
pub IsAnswer-append :
    (nodes : List (Text × Text)) (children : List Text) (name value : Text)
    → IsAnswer nodes children
    → IsAnswer (nodes ++ (name, value) ∷ []) children
IsAnswer-append nodes children name value a = record {
  there = λ s at.
      subst (In s) (sym (names-append nodes ((name, value) ∷ [])))
        (In-append s (names nodes) (name ∷ []) (a.there s at));
  first = still nodes children a;
}
  where
    still :
        (nodes : List (Text × Text)) (children : List Text)
        → IsAnswer nodes children
        → (name' value' : Text) (rest : List (Text × Text))
        → nodes ++ (name, value) ∷ [] ≡ (name', value') ∷ rest
        → In name' children ⊎ (children ≡ [])
    still [] [] a name' value' rest e = inr refl
    still [] (c ∷ children) a name' value' rest e = elim (a.there c (inl refl)) [ ]
    still ((n, v) ∷ nodes) children a name' value' rest e =
        let same : n ≡ name' = cc in
        elim (a.first n v nodes refl) [
          | inl at ↦ inl (subst (λ t. In t children) same at)
          | inr none_there ↦ inr none_there
        ]

-- A node with the first name is the first one.
pub before_first :
    (nodes rest before after : List (Text × Text)) (name v value : Text)
    → Ascending (names nodes)
    → nodes ≡ (name, v) ∷ rest
    → nodes ≡ before ++ (name, value) ∷ after
    → before ≡ []
before_first nodes rest [] after name v value asc e q = refl
before_first nodes rest ((n, w) ∷ before) after name v value asc e q =
    let (first, others) = subst (λ l. Ascending (names l)) q asc in
    let same : n ≡ name = cc in
    let low =
      subst (λ t. text_lt t name ≡ true) same (first name (In-middle name before after value)) in
    absurd (ground (arith, low, text_lt_irrefl name))

pub IsFirst-append :
    (nodes more : List (Text × Text)) (name : Text)
    → IsFirst nodes name
    → IsFirst (nodes ++ more) name
IsFirst-append nodes more name (value, rest, e) = (value, rest ++ more, ap (λ l. l ++ more) e)
