-- ===== src/Zk/Context.antt =====
-- src/rb_zk.c: struct rb_zk with its lists of mutexes, and what follows a change of the connection.
pub mod Pending
use rb_monitor.Prelude.{
  ℕ, ◌+◌, ◌*◌, ◌≡◌, refl, ap, ◌∙◌, Bool, true, false, List, [], ◌∷◌, ◌++◌, ◌&&◌, map, length,
  Outcome, ret, fault, ◌>>=◌, if◌then◌else◌, arith,
}
use mathlib.Core.List.{append_assoc, append-nil}
use rb_monitor.Prelude.Int.{ℤ, nonzero}
use rb_monitor.Prelude.Text.{Text}
use rb_monitor.Zk.{
  Mutex, Call, acreate, Run, rb_zk_mutex_create_entry, rb_zk_mutex_lock0, clean_mutex,
}

-- `connected` is zoo_state() == ZOO_CONNECTED_STATE.
pub record Context : Type 0 where
  pub connected : Bool
  pub leaders_nodes_list : List Mutex
  pub pending_leaders : List Mutex

-- zk_watcher_do_pending_locks is queued for the thread of the context too.
unfoldable pub rb_zk_mutex_lock : Text → Bool → Context → Context
unfolding rb_zk_mutex_create_entry
rb_zk_mutex_lock leader_path has_error_cb zk = record zk {
  pending_leaders = zk.pending_leaders ++ rb_zk_mutex_create_entry leader_path has_error_cb ∷ [];
}

-- `acreate_rc` is what zoo_acreate answers for a path. If it fails, rb_zk_mutex_error_done takes
-- leaders_lock, which this thread holds: that is a fault.
unfoldable pub lock_each : (Text → ℤ) → List Mutex → List Mutex → Outcome (List Call × List Mutex)
unfolding rb_zk_mutex_lock0
lock_each acreate_rc [] leaders = ret ([], leaders)
lock_each acreate_rc (i ∷ pending) leaders =
    let rest = lock_each acreate_rc pending (leaders ++ i ∷ []) in
    if nonzero (acreate_rc i.path)
    then fault
    else rest >>= (λ r. ret ((rb_zk_mutex_lock0 (acreate_rc i.path) i).calls ++ r.0, r.1))

unfoldable pub zk_watcher_do_pending_locks : (Text → ℤ) → Context → Outcome (List Call × Context)
unfolding lock_each
zk_watcher_do_pending_locks acreate_rc context =
    if context.connected
    then lock_each acreate_rc context.pending_leaders context.leaders_nodes_list
      >>= (λ r. ret (r.0, record context { leaders_nodes_list = r.1; pending_leaders = [] }))
    else ret ([], context)

-- The loop of zk_watcher_clean_mutex over the list that it took.
unfoldable pub clean_each : Text → ℤ → List Mutex → Outcome (List Call)
unfolding clean_mutex
clean_each buf state [] = ret []
clean_each buf state (i ∷ rest) = clean_mutex buf state i >>= λ cleaned.
    clean_each buf state rest >>= λ calls. ret (cleaned.calls ++ calls)

-- `buf` is the message with the type and the state. The first result is whether the session has
-- expired, when rb_monitor_zk_async_reconnect is called.
unfoldable pub zk_watcher_clean_mutex :
    Text → Bool → Bool → ℤ → Context → Outcome (Bool × List Call × Context)
unfolding clean_each
zk_watcher_clean_mutex buf is_session_event is_expired state context =
    clean_each buf state context.leaders_nodes_list >>= λ calls.
    ret (is_session_event && is_expired, calls, record context { leaders_nodes_list = [] })

-- With a connection zk_watcher_do_pending_locks is queued for the thread of the context, which is the
-- first result; else the mutexes are cleaned.
unfoldable pub zk_watcher :
    Text → Bool → Bool → Bool → ℤ → Context → Outcome (Bool × Bool × List Call × Context)
unfolding zk_watcher_clean_mutex
zk_watcher buf is_session_event is_connected is_expired state context =
    if is_session_event && is_connected
    then ret (true, false, [], context)
    else (zk_watcher_clean_mutex buf is_session_event is_expired state context >>= λ cleaned.
        ret (false, cleaned.0, cleaned.1, cleaned.2))

abbrev pub lock_all : List Text → Context → Context
unfolding rb_zk_mutex_lock
lock_all [] zk = zk
lock_all (path ∷ paths) zk = lock_all paths (rb_zk_mutex_lock path true zk)
