-- ===== src/Zk/Paths.antt =====
-- src/rb_zk.c: rb_zk_create_recursive_node, and zk_prepare of src/rb_monitor_zk.c.
use rb_monitor.Prelude.{
  ℕ, ◌≡◌, refl, ap, ◌∙◌, sym, Bool, true, false, List, [], ◌∷◌, ◌++◌, ◌==◌, Option, none, some,
  length, ltb, arith, Outcome, ret, fault, ◌>>=◌, if◌then◌else◌,
}
use mathlib.Core.List.{append_assoc, append-nil}
use rb_monitor.Prelude.Text.{Text, codes}
use rb_monitor.Prelude.Text.Order.{strrchr, or_here}
use rb_monitor.Zk.{slash}

-- strcpy into a buffer of `size` bytes: the text and its terminator have to fit.
unfoldable pub strcpy : ℕ → Text → Outcome Text
strcpy size s = if ltb (length s) size then ret s else fault

-- The paths that zoo_create is called with. `done` is the text in front of the cursor, which strchr
-- moves to the next '/'; the last call is for the whole path. The answers are only logged.
unfoldable pub create_paths : Text → Text → List Text
create_paths done [] = done ∷ []
create_paths done (c ∷ rest) =
    let further = create_paths (done ++ c ∷ []) rest in
    if c == slash then done ∷ further else further

-- The cursor begins behind the first byte. A path with no byte is read behind its end.
unfoldable pub create_each : Text → Outcome (List Text)
unfolding create_paths
create_each [] = fault
create_each (c ∷ rest) = ret (create_paths (c ∷ []) rest)

-- `aux_buf` has as many bytes as the path.
unfoldable pub rb_zk_create_recursive_node : Text → Outcome (List Text)
unfolding strcpy create_each
rb_zk_create_recursive_node node = strcpy (length node) node >>= create_each

-- The directories of rb_monitor. What rb_zk_create_recursive_node returns is never 0, so that all
-- three are created.
unfoldable pub zk_prepare : Outcome (List Text)
unfolding rb_zk_create_recursive_node
zk_prepare = rb_zk_create_recursive_node (codes "/rb_monitor/sensors") >>= λ sensors.
    rb_zk_create_recursive_node (codes "/rb_monitor/lock") >>= λ locks.
    rb_zk_create_recursive_node (codes "/rb_monitor/leader") >>= λ leaders.
    ret (sensors ++ (locks ++ leaders))

-- A path of components, each behind a '/'.
abbrev pub join : List Text → Text
join [] = []
join (c ∷ components) = slash ∷ c ++ join components

-- The path of the first component, of the first two, and so on, behind `base`.
abbrev pub parents_first : Text → List Text → List Text
parents_first base [] = []
parents_first base (c ∷ components) =
    (base ++ slash ∷ c) ∷ parents_first (base ++ slash ∷ c) components

or_here-none :
    (hit : Bool) (here : Text) (o : Option Text)
    → or_here hit here o ≡ none
    → (hit ≡ false) × (o ≡ none)
or_here-none true here none h = cc
or_here-none true here (some t) h = cc
or_here-none false here none h = (refl, refl)
or_here-none false here (some t) h = cc

-- No path ends inside a component.
create_paths-plain :
    (done c rest : Text)
    → strrchr c slash ≡ none
    → create_paths done (c ++ rest) ≡ create_paths (done ++ c) rest
unfolding create_paths strrchr
create_paths-plain done [] rest h = ap (λ d. create_paths d rest) (sym (append-nil done))
create_paths-plain done (x ∷ c) rest h =
    let (other, plain) = or_here-none (x == slash) (x ∷ c) (strrchr c slash) h in
    rw other (
      create_paths-plain (done ++ x ∷ []) c rest plain
      ∙ ap (λ d. create_paths d rest) (append_assoc done (x ∷ []) c))

-- Each component is a name with no '/'.
abbrev pub ArePlain : List Text → Type 0
ArePlain [] = Unit
ArePlain (c ∷ components) = (strrchr c slash ≡ none) × ArePlain components

create_paths-join :
    (done c : Text) (components : List Text)
    → strrchr c slash ≡ none
    → ArePlain components
    → create_paths done (c ++ join components) ≡ (done ++ c) ∷ parents_first (done ++ c) components
unfolding create_paths
create_paths-join done c [] h k = create_paths-plain done c [] h
create_paths-join done c (d ∷ components) h (k, ks) =
    create_paths-plain done c (slash ∷ (d ++ join components)) h
    ∙ ap (λ l. (done ++ c) ∷ l)
        (create_paths-join ((done ++ c) ++ slash ∷ []) d components k ks
          ∙ ap (λ b. b ∷ parents_first b components) (append_assoc (done ++ c) (slash ∷ []) d))

create_each-parents_first :
    (c : Text) (components : List Text)
    → ArePlain (c ∷ components)
    → create_each (join (c ∷ components)) ≡ ret (parents_first [] (c ∷ components))
unfolding create_each
create_each-parents_first c components (h, k) =
    ap ret (create_paths-join (slash ∷ []) c components h k)

overruns : (node : Text) → rb_zk_create_recursive_node node ≡ fault
unfolding rb_zk_create_recursive_node
overruns node = let full : ltb (length node) (length node) ≡ false = ground arith in rw full refl

-- For a path of components, the loop calls zoo_create for the first component, then for the first
-- two, and so on to the whole path: each directory before those in it. But the copy of the path that
-- rb_zk_create_recursive_node makes for the loop is one byte too short for the terminator, so strcpy
-- writes behind the buffer first.
pub create_each-rb_zk_create_recursive_node :
    (c : Text) (components : List Text)
    → ArePlain (c ∷ components)
    → (create_each (join (c ∷ components)) ≡ ret (parents_first [] (c ∷ components)))
      × (rb_zk_create_recursive_node (join (c ∷ components)) ≡ fault)
create_each-rb_zk_create_recursive_node c components h =
    (create_each-parents_first c components h, overruns (join (c ∷ components)))
