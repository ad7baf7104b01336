-- ===== src/Zk/Election/Sound.antt =====
-- What a mutex may rely on about the nodes of its directory.
use rb_monitor.Prelude.{
  ℕ, ◌≡◌, refl, sym, ap, subst, inl, inr, true, false, Option, none, some, List, [], ◌∷◌, ◌++◌,
  Bool-cases, some_each, arith,
}
use mathlib.Core.Option.{some-injective}
use rb_monitor.Prelude.Text.{Text}
use rb_monitor.Prelude.Text.Order.{text_lt, text_lt_irrefl, text_lt_trans}
use rb_monitor.Zk.{Mutex, Call, acreate, aget_children, wexists, adelete, schange_cb, error_cb}
use rb_monitor.Zk.Names.{node_path, IsName}
use rb_monitor.Zk.Previous.{Has}
use rb_monitor.Zk.Election.{
  Stage, idle, creating, created, asking, answered, watching, resting, freed, called, after_mutex,
  after, node_of, In, IsAbove,
}

-- No node is below this one.
abbrev pub Least : List Text → Text → Type 0
Least nodes name = (s : Text) → In s nodes → text_lt s name ≡ false

-- A leader whose node there still is has the least node.
abbrev pub Leads : List Text → Text → Mutex → Type 0
Leads nodes name m = m.i_am_leader ≡ true → In name nodes → Least nodes name

-- An answer has each node below this one that there is.
abbrev pub SeenBelow : List Text → Text → List Text → Type 0
SeenBelow nodes name strings =
    In name nodes → (s : Text) → In s nodes → text_lt s name ≡ true → In s strings

abbrev pub Within : List Text → List Text → Type 0
Within strings given = (s : Text) → In s strings → In s given

pub record Holds (dir : Text) (nodes : List Text) (name : Text) (m : Mutex) : Type 0 where
  pub named : IsName dir name
  pub at : m.path ≡ node_path dir name
  pub leads : Leads nodes name m

-- The path of a node of the directory that is below `name`.
abbrev pub IsPathBelow : Text → Text → Text → Type 0
IsPathBelow dir name path =
    (b : Text) × IsName dir b × (text_lt b name ≡ true) × (path ≡ node_path dir b)

abbrev pub IsSound : Text → List Text → List Text → Stage → Type 0
IsSound dir nodes given idle = Unit
IsSound dir nodes given (creating m) = m.i_am_leader ≡ false
IsSound dir nodes given (created name m) = (m.i_am_leader ≡ false) × IsName dir name
IsSound dir nodes given (asking name path m) = Holds dir nodes name m × (path ≡ dir)
IsSound dir nodes given (answered name strings m) =
    Holds dir nodes name m × SeenBelow nodes name strings × Within strings given
IsSound dir nodes given (watching name path m) = Holds dir nodes name m × IsPathBelow dir name path
IsSound dir nodes given (resting name m) = Holds dir nodes name m
IsSound dir nodes given freed = Unit

pub node_of-called :
    (name : Text) (calls : List Call) (m : Mutex) → node_of (called name calls m) ≡ some name
node_of-called name [] m = refl
node_of-called name (aget_children p ∷ []) m = refl
node_of-called name (wexists p ∷ []) m = refl
node_of-called name (aget_children p ∷ c ∷ calls) m = node_of-called name (c ∷ calls) m
node_of-called name (wexists p ∷ c ∷ calls) m = node_of-called name (c ∷ calls) m
node_of-called name (acreate p ∷ calls) m = node_of-called name calls m
node_of-called name (adelete p ∷ calls) m = node_of-called name calls m
node_of-called name (schange_cb b ∷ calls) m = node_of-called name calls m
node_of-called name (error_cb c rc ∷ calls) m = node_of-called name calls m

pub node_of-after :
    (name : Text) (calls : List Call) (o : Option Mutex) (n : Text)
    → node_of (after_mutex name calls o) ≡ some n
    → name ≡ n
node_of-after name calls none n h = cc
node_of-after name calls (some m) n h = cc (node_of-called name calls m)

-- Nodes change: none appears below a node that stays.
pub record Later (nodes nodes' : List Text) (name : Text) : Type 0 where
  pub own : In name nodes' → In name nodes
  pub below : (s : Text) → In s nodes' → text_lt s name ≡ true → In s nodes

module _ {nodes nodes' : List Text} {name : Text} (l : Later nodes nodes' name) where
  Least-Later : Least nodes name → Least nodes' name
  Least-Later h s at = elim (Bool-cases (text_lt s name)) [
    | inl low ↦ absurd (ground (arith, h s (l.below s at low)))
    | inr high ↦ high
  ]

  Holds-Later : {dir : Text} {m : Mutex} → Holds dir nodes name m → Holds dir nodes' name m
  Holds-Later h = record {
    named = h.named;
    at = h.at;
    leads = λ led there. Least-Later (h.leads led (l.own there));
  }

  SeenBelow-Later :
      (strings : List Text) → SeenBelow nodes name strings → SeenBelow nodes' name strings
  SeenBelow-Later strings h there s at low = h (l.own there) s (l.below s at low) low

pub IsSound-Later :
    (dir : Text) (nodes nodes' given given' : List Text) (stage : Stage)
    → ((n : Text) → node_of stage ≡ some n → Later nodes nodes' n)
    → Within given given'
    → IsSound dir nodes given stage
    → IsSound dir nodes' given' stage
IsSound-Later dir nodes nodes' given given' idle l g h = tt
IsSound-Later dir nodes nodes' given given' (creating m) l g h = h
IsSound-Later dir nodes nodes' given given' (created name m) l g h = h
IsSound-Later dir nodes nodes' given given' (asking name path m) l g (h, e) =
    (Holds-Later (l name refl) h, e)
IsSound-Later dir nodes nodes' given given' (answered name strings m) l g (h, seen, within) = (
  Holds-Later (l name refl) h,
  SeenBelow-Later (l name refl) strings seen,
  λ s at. g s (within s at),
)
IsSound-Later dir nodes nodes' given given' (watching name path m) l g (h, e) =
    (Holds-Later (l name refl) h, e)
IsSound-Later dir nodes nodes' given given' (resting name m) l g h = Holds-Later (l name refl) h
IsSound-Later dir nodes nodes' given given' freed l g h = tt

-- A new node above all is below none.
pub Later-above :
    (nodes given : List Text) (new name : Text)
    → IsAbove new given
    → In name given
    → Later nodes (new ∷ nodes) name
Later-above nodes given new name above known = record {
  own = λ h. elim h [
    | inl e ↦
        absurd (ground (arith, above name known, text_lt_irrefl name, ap (λ t. text_lt name t) e))
    | inr at ↦ at
  ];
  below = λ s h low. elim h [
    | inl e ↦ absurd (
        ground (
          arith,
          text_lt_irrefl name,
          text_lt_trans name new name (above name known) (subst (λ t. text_lt t name ≡ true) e low),
        ))
    | inr at ↦ at
  ];
}

In-append :
    (s x : Text) (before after : List Text) → In s (before ++ after) → In s (before ++ x ∷ after)
In-append s x [] after h = inr h
In-append s x (b ∷ before) after h = elim h [
  | inl e ↦ inl e
  | inr at ↦ inr (In-append s x before after at)
]

-- A deleted node is below none.
pub In-deleted :
    (nodes : List Text) (s x : Text) (before after : List Text)
    → nodes ≡ before ++ x ∷ after
    → In s (before ++ after)
    → In s nodes
In-deleted nodes s x before after e h = subst (λ l. In s l) (sym e) (In-append s x before after h)

pub Has-some_each : (s : Text) (strings : List Text) → In s strings → Has s (some_each strings)
Has-some_each s [] h = elim h [ ]
Has-some_each s (x ∷ strings) h = elim h [
  | inl e ↦ (0, ap (λ t. some (some t)) (sym e))
  | inr at ↦ let (i, e) = Has-some_each s strings at in (ℕ.suc i, e)
]

pub In-Has : (s : Text) (strings : List Text) → Has s (some_each strings) → In s strings
In-Has s [] (i, e) = cc
In-Has s (x ∷ strings) (ℕ.zero, e) =
    inl (sym (some-injective x s (some-injective (some x) (some s) e)))
In-Has s (x ∷ strings) (ℕ.suc i, e) = inr (In-Has s strings (i, e))
