-- ===== src/Zk/Context/Pending.antt =====
-- src/rb_zk.c: locks that are asked for before there is a connection.
use rb_monitor.Prelude.{◌≡◌, refl, ap, sym, ◌∙◌, true, false, List, [], ◌∷◌, ◌++◌, map, ret}
use mathlib.Core.List.{append_assoc, append-nil}
use rb_monitor.Prelude.Int.{ℤ, nonzero}
use rb_monitor.Prelude.Text.{Text}
use rb_monitor.Zk.{Mutex, acreate, rb_zk_mutex_create_entry}
use rb_monitor.Zk.Context.{
  Context, rb_zk_mutex_lock, lock_each, zk_watcher_do_pending_locks, lock_all,
}

abbrev pub entries : List Text → List Mutex
unfolding rb_zk_mutex_create_entry
entries [] = []
entries (path ∷ paths) = rb_zk_mutex_create_entry path true ∷ entries paths

pub lock_all_lem :
    (paths : List Text) (zk : Context)
    → lock_all paths zk ≡ record zk { pending_leaders = zk.pending_leaders ++ entries paths }
unfolding rb_zk_mutex_lock
lock_all_lem [] zk =
    ap (λ l. record zk { pending_leaders = l }) (sym (append-nil zk.pending_leaders))
lock_all_lem (path ∷ paths) zk =
    lock_all_lem paths (rb_zk_mutex_lock path true zk)
    ∙ ap (λ l. record zk { pending_leaders = l })
        (append_assoc zk.pending_leaders (rb_zk_mutex_create_entry path true ∷ []) (entries paths))

-- Each call of zoo_acreate is accepted.
abbrev pub AllAccepted : (Text → ℤ) → Type 0
AllAccepted acreate_rc = (path : Text) → nonzero (acreate_rc path) ≡ false

lock_each_lem :
    (acreate_rc : Text → ℤ) (paths : List Text) (leaders : List Mutex)
    → AllAccepted acreate_rc
    → lock_each acreate_rc (entries paths) leaders
      ≡ ret (map acreate paths, leaders ++ entries paths)
unfolding lock_each rb_zk_mutex_create_entry
lock_each_lem acreate_rc [] leaders h = ap (λ l. ret ([], l)) (sym (append-nil leaders))
lock_each_lem acreate_rc (path ∷ paths) leaders h =
    let waiting = rb_zk_mutex_create_entry path true in
    rw (h path) (
      rw (lock_each_lem acreate_rc paths (leaders ++ waiting ∷ []) h) (
        ap (λ l. ret (map acreate (path ∷ paths), l))
          (append_assoc leaders (waiting ∷ []) (entries paths))))

-- Locks that are asked for while there is no connection wait: zk_watcher_do_pending_locks makes no
-- call for them. Once it runs with a connection, and zoo_acreate accepts each call, it makes one for
-- each path in the order of the locks, and no lock is left waiting.
pub do_pending-lock_all :
    (acreate_rc : Text → ℤ) (paths : List Text) (zk : Context)
    → AllAccepted acreate_rc
    → zk.connected ≡ false
    → zk.pending_leaders ≡ []
    → (zk_watcher_do_pending_locks acreate_rc (lock_all paths zk) ≡ ret ([], lock_all paths zk))
      × (zk_watcher_do_pending_locks acreate_rc (record (lock_all paths zk) { connected = true })
          ≡ ret (
            map acreate paths,
            record {
              connected = true;
              leaders_nodes_list = zk.leaders_nodes_list ++ entries paths;
              pending_leaders = [];
            },
          ))
unfolding zk_watcher_do_pending_locks
do_pending-lock_all acreate_rc paths zk h down none_pending = (
  rw down_still refl,
  rw waiting (rw kept (rw (lock_each_lem acreate_rc paths zk.leaders_nodes_list h) refl)),
)
  where
    locked : lock_all paths zk ≡ record zk { pending_leaders = zk.pending_leaders ++ entries paths }
    locked = lock_all_lem paths zk

    down_still : (lock_all paths zk).connected ≡ false
    down_still = ap (λ k. k.connected) locked ∙ down

    waiting : (lock_all paths zk).pending_leaders ≡ entries paths
    waiting = ap (λ k. k.pending_leaders) locked ∙ ap (λ l. l ++ entries paths) none_pending

    kept : (lock_all paths zk).leaders_nodes_list ≡ zk.leaders_nodes_list
    kept = ap (λ k. k.leaders_nodes_list) locked
