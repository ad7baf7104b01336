-- ===== src/Zk/Election/Safe.antt =====
-- src/rb_zk.c: what holds in every world that the mutexes and the server reach.
use rb_monitor.Prelude.{
  ret, ret-inj, Bool-cases, ℕ, ◌≡◌, ◌≢◌, sym, ap, subst, ◌⊎◌, ◌∙◌, inl, inr, true, Option, none,
  some, List, [], ◌∷◌, ◌++◌, ◌==◌, Bool-cases, some_each, arith,
}
use mathlib.Core.Option.{some-injective}
use rb_monitor.Prelude.Int.{ℤ, pos}
use rb_monitor.Prelude.Text.{Text}
use rb_monitor.Prelude.Text.Order.{text_lt, text_lt_irrefl, text_lt-connex}
use rb_monitor.Zk.{
  Mutex, Run, create_mutex_node_complete, leader_get_children_complete, previous_leader_watcher,
  Run, rb_zk_mutex_done, rb_zk_mutex_error_done, delete_mutex_completed, clean_mutex,
}
use rb_monitor.Zk.Names.{node_path, IsName}
use rb_monitor.Zk.Election.{
  Stage, idle, creating, created, asking, answered, watching, resting, freed, after, begun, node_of,
  mutex_of, In, World, update, put, IsAbove, Step, lock, make, not_made, complete, answer,
  not_answered, look, watch, delete, unlocked, disconnected, Reachable, start, next,
}
use rb_monitor.Zk.Election.Sound.{
  Least, Within, Holds, IsSound, node_of-after, IsSound-Later, Later-above, In-deleted,
}
use rb_monitor.Zk.Election.Moves.{
  lock-IsSound, complete-IsSound, not_answered-IsSound, watch-IsSound, look-IsSound,
}

pub record IsConsistent (dir : Text) (w : World) : Type 0 where
  pub sound : (i : ℕ) → IsSound dir w.nodes w.given (w.mutexes i)
  pub known : (i : ℕ) (n : Text) → node_of (w.mutexes i) ≡ some n → In n w.given
  pub names : (s : Text) → In s w.given → IsName dir s
  pub kept : Within w.nodes w.given
  pub distinct :
      (i j : ℕ) (n : Text) → node_of (w.mutexes i) ≡ some n → node_of (w.mutexes j) ≡ some n → i ≡ j

-- What holds of the new stage of one mutex and of the stages of the others holds of all.
at-update :
    (P : Stage → Type 0) (mutexes : ℕ → Stage) (i j : ℕ) (stage : Stage)
    → P stage
    → P (mutexes j)
    → P (update mutexes i stage j)
at-update P mutexes i j stage new old = elim (Bool-cases (i == j)) [
  | inl e ↦ rw e new
  | inr e ↦ rw e old
]

-- A mutex moves on, and does not get a node.
put-IsConsistent :
    (dir : Text) (w : World) (i : ℕ) (stage : Stage)
    → IsConsistent dir w
    → ((n : Text) → node_of stage ≡ some n → node_of (w.mutexes i) ≡ some n)
    → IsSound dir w.nodes w.given stage
    → IsConsistent dir (put w i stage)
put-IsConsistent dir w i stage c same sound = record {
  sound = λ j. at-update (IsSound dir w.nodes w.given) w.mutexes i j stage sound (c.sound j);
  known = λ j n h. c.known j n (back j n h);
  names = c.names;
  kept = c.kept;
  distinct = λ j k n h h'. c.distinct j k n (back j n h) (back k n h');
}
  where
    back :
        (j : ℕ) (n : Text)
        → node_of (update w.mutexes i stage j) ≡ some n
        → node_of (w.mutexes j) ≡ some n
    back j n = elim (Bool-cases (i == j)) [
      | inl e ↦
          let same_mutex : i ≡ j = ground (arith, e) in
          rw e (λ h. subst (λ k. node_of (w.mutexes k) ≡ some n) same_mutex (same n h))
      | inr e ↦ rw e (λ h. h)
    ]

-- The server makes a node.
make-IsConsistent :
    (dir : Text) (w : World) (i : ℕ) (name : Text) (m : Mutex)
    → IsConsistent dir w
    → w.mutexes i ≡ creating m
    → IsName dir name
    → IsAbove name w.given
    → IsConsistent dir (record {
      nodes = name ∷ w.nodes;
      given = name ∷ w.given;
      mutexes = update w.mutexes i (created name m);
    })
make-IsConsistent dir w i name m c e named above = record {
  sound = λ j.
      at-update (IsSound dir (name ∷ w.nodes) (name ∷ w.given)) w.mutexes i j (created name m)
        (subst (IsSound dir w.nodes w.given) e (c.sound i), named)
        (IsSound-Later dir w.nodes (name ∷ w.nodes) w.given (name ∷ w.given) (w.mutexes j)
          (λ n h. Later-above w.nodes w.given name n above (c.known j n h)) (λ s at. inr at)
          (c.sound j));
  known =
      λ j n h. elim (split j n h) [ inl mine ↦ inl (sym mine.1) | inr old ↦ inr (c.known j n old) ];
  names = λ s at. elim at [ inl q ↦ subst (IsName dir) (sym q) named | inr old ↦ c.names s old ];
  kept = λ s at. elim at [ inl q ↦ inl q | inr old ↦ inr (c.kept s old) ];
  distinct = λ j k n h h'. elim (split j n h) [
    | inl mine ↦ elim (split k n h') [
      | inl too ↦ sym mine.0 ∙ too.0
      | inr old ↦ absurd (fresh k n mine.1 old)
    ]
    | inr old ↦ elim (split k n h') [
      | inl too ↦ absurd (fresh j n too.1 old)
      | inr old' ↦ c.distinct j k n old old'
    ]
  ];
}
  where
    split :
        (j : ℕ) (n : Text)
        → node_of (update w.mutexes i (created name m) j) ≡ some n
        → ((i ≡ j) × (name ≡ n)) ⊎ (node_of (w.mutexes j) ≡ some n)
    split j n = elim (Bool-cases (i == j)) [
      | inl q ↦ rw q (λ h. inl (ground (arith, q), some-injective name n h))
      | inr q ↦ rw q (λ h. inr h)
    ]

    fresh : (j : ℕ) (n : Text) → name ≡ n → node_of (w.mutexes j) ≡ some n → ⊥
    fresh j n q h =
        ground
          (arith, text_lt_irrefl n, subst (λ t. text_lt n t ≡ true) q (above n (c.known j n h)))

delete-IsConsistent :
    (dir : Text) (w : World) (name : Text) (before after : List Text)
    → IsConsistent dir w
    → w.nodes ≡ before ++ name ∷ after
    → IsConsistent dir (record w { nodes = before ++ after })
delete-IsConsistent dir w name before after c e = record {
  sound = λ j.
      IsSound-Later dir w.nodes (before ++ after) w.given w.given (w.mutexes j)
        (λ n h. record {
          own = In-deleted w.nodes n name before after e;
          below = λ s at low. In-deleted w.nodes s name before after e at;
        })
        (λ s at. at) (c.sound j);
  known = c.known;
  names = c.names;
  kept = λ s at. c.kept s (In-deleted w.nodes s name before after e at);
  distinct = c.distinct;
}

no_node_begun : (o : Option Mutex) (n : Text) → node_of (begun o) ≢ some n
no_node_begun none n h = cc
no_node_begun (some m) n h = cc

-- A function that runs on the mutex of a node leaves it sound.
moved :
    (dir : Text) (w : World) (i : ℕ) (name : Text) (r : Run)
    → IsConsistent dir w
    → node_of (w.mutexes i) ≡ some name
    → IsSound dir w.nodes w.given (after name r)
    → IsConsistent dir (put w i (after name r))
moved dir w i name r c e sound =
    put-IsConsistent dir w i (after name r) c
      (λ n h. e ∙ ap some (node_of-after name r.calls r.mutex n h)) sound

-- So does one that runs on a mutex with no node, or frees it.
begun-IsConsistent :
    (dir : Text) (w : World) (i : ℕ) (o : Option Mutex)
    → IsConsistent dir w
    → IsSound dir w.nodes w.given (begun o)
    → IsConsistent dir (put w i (begun o))
begun-IsConsistent dir w i o c sound =
    put-IsConsistent dir w i (begun o) c (λ n h. absurd (no_node_begun o n h)) sound

clean_mutex-frees :
    (buf : Text) (state : ℤ) (m : Mutex) (r : Run)
    → clean_mutex buf state m ≡ ret r
    → r.mutex ≡ none
unfolding clean_mutex rb_zk_mutex_done rb_zk_mutex_error_done
clean_mutex-frees buf state m r = elim (Bool-cases m.error_cb) [
  | inl e ↦ rw e (λ h. ap (λ k. k.mutex) (sym (ret-inj h)))
  | inr e ↦ rw e (λ h. cc)
]

Step-IsConsistent :
    (dir leaf : Text) (w w' : World) → Step dir leaf w w' → IsConsistent dir w → IsConsistent dir w'
unfolding create_mutex_node_complete delete_mutex_completed
Step-IsConsistent dir leaf w w' (lock _ i rc cb e) c =
    begun-IsConsistent dir w i _ c (lock-IsSound dir w.nodes w.given rc leaf cb)
Step-IsConsistent dir leaf w w' (make _ i name m e named above) c =
    make-IsConsistent dir w i name m c e named above
Step-IsConsistent dir leaf w w' (not_made _ i rc rc' m e q) c =
    begun-IsConsistent dir w i _ c (rw q tt)
Step-IsConsistent dir leaf w w' (complete _ i rc name m e) c =
    let (unled, named) = subst (IsSound dir w.nodes w.given) e (c.sound i) in
    moved dir w i name (create_mutex_node_complete (pos 0) (some (node_path dir name)) rc m) c
      (ap node_of e) (complete-IsSound dir w.nodes w.given rc name m unled named)
Step-IsConsistent dir leaf w w' (answer _ i name m e) c =
    let (h, same) = subst (IsSound dir w.nodes w.given) e (c.sound i) in
    put-IsConsistent dir w i _ c (λ n q. ap node_of e ∙ q) (h, (λ there s at low. at), c.kept)
Step-IsConsistent dir leaf w w' (not_answered _ i rc name path m e q) c =
    let (h, same) = subst (IsSound dir w.nodes w.given) e (c.sound i) in
    moved dir w i name (leader_get_children_complete rc [] (pos 0) m) c (ap node_of e)
      (not_answered-IsSound dir w.nodes w.given rc name m h q)
Step-IsConsistent dir leaf w w' (look _ i rc name strings m e) c =
    let (h, seen, within) = subst (IsSound dir w.nodes w.given) e (c.sound i) in
    moved dir w i name (leader_get_children_complete (pos 0) (some_each strings) rc m) c
      (ap node_of e)
      (look-IsSound dir w.nodes w.given rc name strings m h seen (λ s at. c.names s (within s at)))
Step-IsConsistent dir leaf w w' (watch _ i name path m e) c =
    let (h, place) = subst (IsSound dir w.nodes w.given) e (c.sound i) in
    moved dir w i name (previous_leader_watcher path m) c (ap node_of e)
      (watch-IsSound dir w.nodes w.given name path m h place)
Step-IsConsistent dir leaf w w' (delete _ name before after e) c =
    delete-IsConsistent dir w name before after c e
Step-IsConsistent dir leaf w w' (unlocked _ i m e) c = begun-IsConsistent dir w i none c tt
Step-IsConsistent dir leaf w w' (disconnected _ i buf state m r e cleaned) c =
    subst (λ o. IsConsistent dir (put w i (begun o)))
      (sym (clean_mutex-frees buf state m r cleaned)) (begun-IsConsistent dir w i none c tt)

-- In every world that the mutexes and the server reach, whatever the order of their steps and
-- whichever calls fail, each mutex has the path of its own node, asks for the children of its
-- directory only, watches only a node of it that is below its own, and is the leader only if no
-- node that there is is below its own, or if its node is gone; and no two mutexes have the same
-- node.
pub reachable-IsConsistent :
    (dir leaf : Text) (w : World) → Reachable dir leaf w → IsConsistent dir w
reachable-IsConsistent dir leaf w start = record {
  sound = λ i. tt;
  known = λ i n. cc;
  names = λ s h. elim h [ ];
  kept = λ s h. h;
  distinct = λ i j n h h'. cc;
}
reachable-IsConsistent dir leaf w (next v _ r s) =
    Step-IsConsistent dir leaf v w s (reachable-IsConsistent dir leaf v r)

-- A mutex that is the leader, with a node that there is.
abbrev pub IsLeader : World → ℕ → Text → Mutex → Type 0
IsLeader w i name m =
    (node_of (w.mutexes i) ≡ some name)
    × (mutex_of (w.mutexes i) ≡ some m)
    × (m.i_am_leader ≡ true)
    × In name w.nodes

Holds-Least :
    (dir : Text) (nodes : List Text) (n name : Text) (m' m : Mutex)
    → Holds dir nodes n m'
    → some n ≡ some name
    → some m' ≡ some m
    → m.i_am_leader ≡ true
    → In name nodes
    → Least nodes name
Holds-Least dir nodes n name m' m h e q led there =
    let same : n ≡ name = some-injective n name e in
    let led' : m'.i_am_leader ≡ true = ap (λ k. k.i_am_leader) (some-injective m' m q) ∙ led in
    subst (Least nodes) same (h.leads led' (subst (λ t. In t nodes) (sym same) there))

leader-Least :
    (dir : Text) (nodes given : List Text) (stage : Stage) (name : Text) (m : Mutex)
    → IsSound dir nodes given stage
    → node_of stage ≡ some name
    → mutex_of stage ≡ some m
    → m.i_am_leader ≡ true
    → In name nodes
    → Least nodes name
leader-Least dir nodes given idle name m h e q led there = cc
leader-Least dir nodes given (creating m') name m h e q led there = cc
leader-Least dir nodes given (created n m') name m (unled, named) e q led there =
    cc (unled, led, some-injective m' m q)
leader-Least dir nodes given (asking n p m') name m (h, same) e q led there =
    Holds-Least dir nodes n name m' m h e q led there
leader-Least dir nodes given (answered n strings m') name m (h, seen, within) e q led there =
    Holds-Least dir nodes n name m' m h e q led there
leader-Least dir nodes given (watching n p m') name m (h, place) e q led there =
    Holds-Least dir nodes n name m' m h e q led there
leader-Least dir nodes given (resting n m') name m h e q led there =
    Holds-Least dir nodes n name m' m h e q led there
leader-Least dir nodes given freed name m h e q led there = cc

-- In no world that is reached are two mutexes the leader at a time, both with nodes that there are:
-- at most one process holds the lock.
pub reachable-one_leader :
    (dir leaf : Text) (w : World) (i j : ℕ) (name name' : Text) (m m' : Mutex)
    → Reachable dir leaf w
    → IsLeader w i name m
    → IsLeader w j name' m'
    → i ≡ j
reachable-one_leader dir leaf w i j name name' m m' r (e, q, led, there) (e', q', led', there') =
    let c = reachable-IsConsistent dir leaf w r in
    let least = leader-Least dir w.nodes w.given (w.mutexes i) name m (c.sound i) e q led there in
    let least' =
      leader-Least dir w.nodes w.given (w.mutexes j) name' m' (c.sound j) e' q' led' there' in
    let same : name ≡ name' = text_lt-connex name name' (least' name there) (least name' there') in
    c.distinct i j name e (e' ∙ ap some (sym same))
