-- ===== src/Zk/Election.antt =====
-- src/rb_zk.c: the mutexes of many processes on one directory of ZooKeeper, interleaved in any order.
-- What the server does is a step with no more in it than what ZooKeeper documents: the name of a new
-- sequence node is above each name that it gave before, and an answer lists the nodes there are.
pub mod Sound
pub mod Moves
pub mod Safe
use rb_monitor.Prelude.{
  ret, ℕ, ◌≡◌, ◌≢◌, refl, ◌⊎◌, Bool, true, false, Option, none, some, List, [], ◌∷◌, ◌++◌, ◌==◌,
  some_each, if◌then◌else◌,
}
use rb_monitor.Prelude.Int.{ℤ, pos, nonzero}
use rb_monitor.Prelude.Text.{Text}
use rb_monitor.Prelude.Text.Order.{text_lt}
use rb_monitor.Zk.{
  Mutex, Call, Run, acreate, aget_children, wexists, adelete, schange_cb, error_cb,
  rb_zk_mutex_create_entry, rb_zk_mutex_lock0, create_mutex_node_complete,
  leader_get_children_complete, previous_leader_watcher, delete_mutex_completed, clean_mutex,
}
use rb_monitor.Zk.Names.{node_path, IsName}

-- How far a mutex is. The first text is the name of its node: nothing is called yet; zoo_acreate is
-- called; the server has made the node and the completion has not run; the children of a directory
-- are asked for; the answer has not been looked at; a node is watched; nothing is called; freed.
pub data Stage : Type 0 where
  idle : Stage
  creating : Mutex → Stage
  created : Text → Mutex → Stage
  asking : Text → Text → Mutex → Stage
  answered : Text → List Text → Mutex → Stage
  watching : Text → Text → Mutex → Stage
  resting : Text → Mutex → Stage
  freed : Stage

-- What the calls of a function lead to, for the mutex on node `name`. A mutex asks or watches as its
-- last call says.
abbrev pub called : Text → List Call → Mutex → Stage
called name [] m = resting name m
called name (aget_children path ∷ []) m = asking name path m
called name (wexists path ∷ []) m = watching name path m
called name (_ ∷ calls) m = called name calls m

abbrev pub after_mutex : Text → List Call → Option Mutex → Stage
after_mutex name calls none = freed
after_mutex name calls (some m) = called name calls m

abbrev pub after : Text → Run → Stage
after name r = after_mutex name r.calls r.mutex

-- Before the node is made, there is a call for it or there is no mutex.
abbrev pub begun : Option Mutex → Stage
begun none = freed
begun (some m) = creating m

abbrev pub node_of : Stage → Option Text
node_of idle = none
node_of (creating m) = none
node_of (created name m) = some name
node_of (asking name path m) = some name
node_of (answered name strings m) = some name
node_of (watching name path m) = some name
node_of (resting name m) = some name
node_of freed = none

abbrev pub mutex_of : Stage → Option Mutex
mutex_of idle = none
mutex_of (creating m) = some m
mutex_of (created name m) = some m
mutex_of (asking name path m) = some m
mutex_of (answered name strings m) = some m
mutex_of (watching name path m) = some m
mutex_of (resting name m) = some m
mutex_of freed = none

abbrev pub In : Text → List Text → Type 0
In s [] = ⊥
In s (x ∷ xs) = (s ≡ x) ⊎ In s xs

-- The nodes of the directory, each name that was ever given, and the mutexes by number.
pub record World : Type 0 where
  pub nodes : List Text
  pub given : List Text
  pub mutexes : ℕ → Stage

abbrev pub update : (ℕ → Stage) → ℕ → Stage → ℕ → Stage
update mutexes i stage j = if i == j then stage else mutexes j

abbrev pub put : World → ℕ → Stage → World
put w i stage = record w { mutexes = update w.mutexes i stage }

abbrev pub IsAbove : Text → List Text → Type 0
IsAbove name given = (s : Text) → In s given → text_lt s name ≡ true

pub data Step (dir leaf : Text) : World → World → Type 0 where
  -- rb_zk_mutex_lock, up to zoo_acreate
  lock :
      (w : World) (i : ℕ) (acreate_rc : ℤ) (has_error_cb : Bool)
      → w.mutexes i ≡ idle
      → Step dir leaf w (
          put w i (
            begun
              (rb_zk_mutex_lock0 acreate_rc (rb_zk_mutex_create_entry leaf has_error_cb)).mutex))
  -- the server makes the node
  make :
      (w : World) (i : ℕ) (name : Text) (m : Mutex)
      → w.mutexes i ≡ creating m
      → IsName dir name
      → IsAbove name w.given
      → Step dir leaf w (record {
        nodes = name ∷ w.nodes;
        given = name ∷ w.given;
        mutexes = update w.mutexes i (created name m);
      })
  not_made :
      (w : World) (i : ℕ) (rc aget_children_rc : ℤ) (m : Mutex)
      → w.mutexes i ≡ creating m
      → nonzero rc ≡ true
      → Step dir leaf w
          (put w i (begun (create_mutex_node_complete rc none aget_children_rc m).mutex))
  complete :
      (w : World) (i : ℕ) (aget_children_rc : ℤ) (name : Text) (m : Mutex)
      → w.mutexes i ≡ created name m
      → Step dir leaf w (
          put w i (
            after name
              (create_mutex_node_complete (pos 0) (some (node_path dir name)) aget_children_rc m)))
  -- the server answers with the nodes there are, or fails
  answer :
      (w : World) (i : ℕ) (name : Text) (m : Mutex)
      → w.mutexes i ≡ asking name dir m
      → Step dir leaf w (put w i (answered name w.nodes m))
  not_answered :
      (w : World) (i : ℕ) (rc : ℤ) (name path : Text) (m : Mutex)
      → w.mutexes i ≡ asking name path m
      → nonzero rc ≡ true
      → Step dir leaf w (put w i (after name (leader_get_children_complete rc [] (pos 0) m)))
  look :
      (w : World) (i : ℕ) (wexists_rc : ℤ) (name : Text) (strings : List Text) (m : Mutex)
      → w.mutexes i ≡ answered name strings m
      → Step dir leaf w (
          put w i
            (after name (leader_get_children_complete (pos 0) (some_each strings) wexists_rc m)))
  -- an event of the watched node
  watch :
      (w : World) (i : ℕ) (name path : Text) (m : Mutex)
      → w.mutexes i ≡ watching name path m
      → Step dir leaf w (put w i (after name (previous_leader_watcher path m)))
  -- the server deletes a node, by zoo_adelete or because its session has ended
  delete :
      (w : World) (name : Text) (before after : List Text)
      → w.nodes ≡ before ++ name ∷ after
      → Step dir leaf w (record w { nodes = before ++ after })
  -- the completion of rb_zk_mutex_unlock, and zk_watcher_clean_mutex
  unlocked :
      (w : World) (i : ℕ) (m : Mutex)
      → mutex_of (w.mutexes i) ≡ some m
      → Step dir leaf w (put w i (begun (delete_mutex_completed m).mutex))
  disconnected :
      (w : World) (i : ℕ) (buf : Text) (state : ℤ) (m : Mutex) (r : Run)
      → mutex_of (w.mutexes i) ≡ some m
      → clean_mutex buf state m ≡ ret r
      → Step dir leaf w (put w i (begun r.mutex))

abbrev pub start_world : World
start_world = record { nodes = []; given = []; mutexes = λ i. idle }

pub data Reachable (dir leaf : Text) : World → Type 0 where
  start : Reachable dir leaf start_world
  next : (w w' : World) → Reachable dir leaf w → Step dir leaf w w' → Reachable dir leaf w'
