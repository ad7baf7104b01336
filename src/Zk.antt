-- ===== src/Zk.antt =====
-- src/rb_zk.c: the mutex on an ephemeral sequence node. Each function that the ZooKeeper client runs
-- when it is done with a call is a definition; what zoo_* answer is an argument.
pub mod Names
pub mod Previous
pub mod Election
pub mod Paths
pub mod Queue
pub mod Context
pub mod Client
use rb_monitor.Prelude.{
  Outcome, ret, fault, ℕ, ◌-◌, ◌&&◌, Bool, true, false, Option, none, some, List, [], ◌∷◌, ◌++◌,
  length, take, drop, if◌then◌else◌,
}
use rb_monitor.Prelude.Int.{ℤ, pos, nonzero}
use rb_monitor.Prelude.Text.{Text, codes}
use rb_monitor.Prelude.Text.Order.{text_lt, strrchr}

-- '/'
abbrev pub slash : ℕ
slash = 47

-- BUFSIZ of <stdio.h>
abbrev pub bufsiz : ℕ
bufsiz = 8192

-- snprintf(buf, sizeof(buf), "%s", s) into a buffer of BUFSIZ bytes
abbrev pub to_buf : Text → Text
to_buf s = take (bufsiz - 1) s

-- The struct, without the links of its lists. `error_cb` is whether there is such a callback.
pub record Mutex : Type 0 where
  pub path : Text
  pub i_am_leader : Bool
  pub error_cb : Bool

-- What a function calls: the ZooKeeper client, or a callback of the mutex (with the value of
-- rb_zk_mutex_obtained, or with the cause and the code of the error).
pub data Call : Type 0 where
  acreate : Text → Call
  aget_children : Text → Call
  wexists : Text → Call
  adelete : Text → Call
  schange_cb : Bool → Call
  error_cb : Text → ℤ → Call

-- The calls in their order, and the mutex, which is none once it is freed.
pub record Run : Type 0 where
  pub calls : List Call
  pub mutex : Option Mutex

unfoldable pub rb_zk_mutex_create_entry : Text → Bool → Mutex
rb_zk_mutex_create_entry leader_path has_error_cb = record {
  path = leader_path;
  i_am_leader = false;
  error_cb = has_error_cb;
}

unfoldable pub rb_zk_mutex_set_lock : Mutex → Mutex
rb_zk_mutex_set_lock mutex = record mutex { i_am_leader = true }

-- The callback runs before the mutex is freed.
unfoldable pub rb_zk_mutex_error_done : Mutex → ℤ → Text → Run
rb_zk_mutex_error_done mutex rc error = record {
  calls = if mutex.error_cb then error_cb error rc ∷ [] else [];
  mutex = none;
}

unfoldable pub rb_zk_mutex_done : Mutex → Run
unfolding rb_zk_mutex_error_done
rb_zk_mutex_done mutex = rb_zk_mutex_error_done (record mutex { error_cb = false }) (pos 0) []

-- The calls that are made first.
abbrev pub after_calls : List Call → Run → Run
after_calls calls r = record r { calls = calls ++ r.calls }

-- Cuts the path at its last '/', in place; the first result is whether there is one.
unfoldable pub parent_node : Text → Bool × Text
parent_node path = elim (strrchr path slash) [
  | none ↦ (false, path)
  | some last_separator ↦ (true, take (length path - length last_separator) path)
]

unfoldable pub previous_leader_watcher : Text → Mutex → Run
unfolding parent_node
previous_leader_watcher path mutex = record {
  calls = aget_children (parent_node (to_buf path)).1 ∷ [];
  mutex = some mutex;
}

-- Is `s` the better candidate: lower than `my_str`, and greater than the one so far?
abbrev pub is_closer : Text → Text → Option Text → Bool
is_closer s my_str none = text_lt s my_str
is_closer s my_str (some bef_str) = text_lt s my_str && text_lt bef_str s

-- The loop over the children. Null pointers in the array are passed over.
unfoldable pub previous_loop : List (Option Text) → Text → Option Text → Option Text
previous_loop [] my_str bef_str = bef_str
previous_loop (none ∷ rest) my_str bef_str = previous_loop rest my_str bef_str
previous_loop (some s ∷ rest) my_str bef_str =
    previous_loop rest my_str (if is_closer s my_str bef_str then some s else bef_str)

-- A path with no '/' is logged, and then no child is looked at.
unfoldable pub leader_previous_string : List (Option Text) → Text → Option Text → Option Text
unfolding previous_loop
leader_previous_string strings my_str bef_str = elim (strrchr my_str slash) [
  | none ↦ bef_str
  | some last_separator ↦ previous_loop strings (drop 1 last_separator) bef_str
]

-- snprintf(prev_node_path, sizeof(prev_node_path), "%s/%s", buf_path, bef_str)
unfoldable pub prev_node_path : Mutex → Text → Text
unfolding parent_node
prev_node_path mutex bef_str = to_buf ((parent_node (to_buf mutex.path)).1 ++ slash ∷ bef_str)

-- `wexists_rc` is the answer of zoo_wexists, which waits for the server.
unfoldable pub watch_previous : ℤ → Mutex → Text → Run
unfolding rb_zk_mutex_error_done prev_node_path
watch_previous wexists_rc mutex bef_str =
    after_calls (wexists (prev_node_path mutex bef_str) ∷ []) (
      if nonzero wexists_rc
      then rb_zk_mutex_error_done mutex wexists_rc (codes "Can't wget previous node")
      else record { calls = []; mutex = some mutex })

unfoldable pub leader_get_children_complete : ℤ → List (Option Text) → ℤ → Mutex → Run
unfolding leader_previous_string rb_zk_mutex_set_lock watch_previous
leader_get_children_complete rc strings wexists_rc mutex =
    if nonzero rc
    then record { calls = []; mutex = some mutex }
    else elim (leader_previous_string strings mutex.path none) [
      | none ↦ record { calls = schange_cb true ∷ []; mutex = some (rb_zk_mutex_set_lock mutex) }
      | some bef_str ↦ watch_previous wexists_rc mutex bef_str
    ]

-- The last part: the children of the directory of the node are asked for.
unfoldable pub ask_children : ℤ → Mutex → Run
unfolding parent_node rb_zk_mutex_error_done
ask_children aget_children_rc mutex =
    after_calls (aget_children (parent_node (to_buf mutex.path)).1 ∷ []) (
      if nonzero aget_children_rc
      then rb_zk_mutex_error_done mutex (pos 0) (codes "Couldn't aget children")
      else record { calls = []; mutex = some mutex })

-- `leader_node` is the path that the server gave the node; override_leader_node copies it, which
-- succeeds.
unfoldable pub create_mutex_node_complete : ℤ → Option Text → ℤ → Mutex → Run
unfolding rb_zk_mutex_error_done ask_children
create_mutex_node_complete rc leader_node aget_children_rc mutex =
    if nonzero rc
    then rb_zk_mutex_error_done mutex rc (codes "Couldn't create leader node.")
    else elim leader_node [
      | none ↦ rb_zk_mutex_error_done mutex rc (codes "NULL path when returning")
      | some path ↦ ask_children aget_children_rc (record mutex { path = path })
    ]

unfoldable pub rb_zk_mutex_lock0 : ℤ → Mutex → Run
unfolding rb_zk_mutex_error_done
rb_zk_mutex_lock0 acreate_rc mutex = after_calls (acreate mutex.path ∷ []) (
    if nonzero acreate_rc
    then rb_zk_mutex_error_done mutex acreate_rc (codes "Can't call acreate")
    else record { calls = []; mutex = some mutex })

unfoldable pub delete_mutex_completed : Mutex → Run
unfolding rb_zk_mutex_done
delete_mutex_completed mutex = rb_zk_mutex_done mutex

-- `connected` is zoo_state() == ZOO_CONNECTED_STATE. The path of a mutex is never null here.
unfoldable pub rb_zk_mutex_unlock : Bool → Mutex → Run
unfolding delete_mutex_completed
rb_zk_mutex_unlock connected mutex =
    if connected
    then record { calls = adelete mutex.path ∷ []; mutex = some mutex }
    else delete_mutex_completed mutex

-- What zk_watcher_clean_mutex does with each mutex that it took off the list. It calls error_cb with
-- no test, so that a null callback is a fault.
unfoldable pub clean_mutex : Text → ℤ → Mutex → Outcome Run
unfolding rb_zk_mutex_done
clean_mutex buf state mutex =
    if mutex.error_cb
    then ret (
        after_calls (schange_cb false ∷ error_cb buf state ∷ [])
          (rb_zk_mutex_done (record mutex { i_am_leader = false })))
    else fault
