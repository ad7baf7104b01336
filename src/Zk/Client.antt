-- ===== src/Zk/Client.antt =====
-- src/rb_zk.c: the handle of the ZooKeeper client, what is queued for the thread of struct rb_zk, and
-- the connection that is lost and made again.
pub mod Accounts
pub mod Accounted
use rb_monitor.Prelude.{
  ℕ, zero, suc, Bool, true, false, Option, none, some, List, [], ◌∷◌, ◌++◌, Outcome, ret, ◌>>=◌,
  if◌then◌else◌,
}
use rb_monitor.Prelude.Int.{ℤ}
use rb_monitor.Prelude.Text.{Text}
use rb_monitor.Zk.{Run, Mutex, delete_mutex_completed, rb_zk_mutex_error_done, Call}
use rb_monitor.Zk.Context.{Context, rb_zk_mutex_lock, zk_watcher_do_pending_locks, zk_watcher}

-- The functions that rd_thread_func_call1 queues.
pub data Queued : Type 0 where
  do_pending_locks : Queued
  reset_context : Queued

-- rb_zk_mutex_list_remove of the mutex at place `i`, if there is one.
abbrev pub put_back : Mutex → Option Mutex × List Mutex → Option Mutex × List Mutex
put_back m (o, rest) = (o, m ∷ rest)

abbrev pub take_out : ℕ → List Mutex → Option Mutex × List Mutex
take_out i [] = (none, [])
take_out zero (m ∷ list) = (some m, list)
take_out (suc i) (m ∷ list) = put_back m (take_out i list)

module _ {ℓ} (Handle : Type ℓ) where
  -- zookeeper_init stands with what it returns.
  pub data ClientCall : Type ℓ where
    zookeeper_close : Handle → ClientCall
    zookeeper_init : Option Handle → ClientCall

  pub record RbZk : Type ℓ where
    pub handler : Option Handle
    pub queued : List Queued
    pub context : Context

  -- `quiet` are the mutexes that were freed with no error for their callback.
  pub record Result : Type ℓ where
    pub calls : List Call
    pub client : List ClientCall
    pub quiet : List Mutex
    pub zk : RbZk

  abbrev pub close_handler : Option Handle → List ClientCall
  close_handler none = []
  close_handler (some handler) = zookeeper_close handler ∷ []

  unfoldable pub reset_zk_context : Option Handle → RbZk → Result
  reset_zk_context fresh context = record {
    calls = [];
    client = close_handler context.handler ++ zookeeper_init fresh ∷ [];
    quiet = [];
    zk = record context { handler = fresh };
  }

  -- Nothing is connected, so that zk_watcher_do_pending_locks has nothing to do.
  unfoldable pub rb_zk_init : Option Handle → Result
  unfolding reset_zk_context
  rb_zk_init fresh = reset_zk_context fresh (record {
    handler = none;
    queued = [];
    context = record { connected = false; leaders_nodes_list = []; pending_leaders = [] };
  })

  -- The mutexes of both lists are freed with no callback. zookeeper_close of a null handle does
  -- nothing.
  unfoldable pub rb_zk_done : RbZk → List ClientCall
  rb_zk_done zk = close_handler zk.handler

  -- A lock that is asked for, a call of the watcher, and a run of the first function that is queued,
  -- with zoo_state, the answers of zoo_acreate, and what zookeeper_init returns; and the end of the
  -- mutex at a place of leaders_nodes_list, by delete_mutex_completed or rb_zk_mutex_error_done.
  pub data Event : Type ℓ where
    locks : Text → Bool → Event
    watched : Text → Bool → Bool → Bool → ℤ → Event
    runs : Bool → (Text → ℤ) → Option Handle → Event
    unlocked : ℕ → Event
    failed : ℕ → ℤ → Text → Event

  abbrev pub queue_pending : Bool → List Queued
  queue_pending connects = if connects then do_pending_locks ∷ [] else []

  -- rb_monitor_zk_async_reconnect
  abbrev pub queue_reset : Bool → List Queued
  queue_reset reconnects = if reconnects then reset_context ∷ [] else []

  unfoldable pub run_queued :
      Bool → (Text → ℤ) → Option Handle → List Queued → RbZk → Outcome Result
  unfolding zk_watcher_do_pending_locks reset_zk_context
  run_queued connected acreate_rc fresh [] zk =
      ret (record { calls = []; client = []; quiet = []; zk = zk })
  run_queued connected acreate_rc fresh (do_pending_locks ∷ rest) zk =
      zk_watcher_do_pending_locks acreate_rc (record zk.context { connected = connected }) >>= λ r.
      ret (record {
        calls = r.0;
        client = [];
        quiet = [];
        zk = record zk { queued = rest; context = r.1 };
      })
  run_queued connected acreate_rc fresh (reset_context ∷ rest) zk =
      ret (reset_zk_context fresh (record zk { queued = rest }))

  abbrev pub end_mutex :
      (Mutex → Run) → (Mutex → List Mutex) → Option Mutex × List Mutex → RbZk → Result
  end_mutex ends quiet (none, rest) zk = record { calls = []; client = []; quiet = []; zk = zk }
  end_mutex ends quiet (some mutex, rest) zk = record {
    calls = (ends mutex).calls;
    client = [];
    quiet = quiet mutex;
    zk = record zk { context = record zk.context { leaders_nodes_list = rest } };
  }

  unfoldable pub step : Event → RbZk → Outcome Result
  unfolding rb_zk_mutex_lock zk_watcher run_queued delete_mutex_completed rb_zk_mutex_error_done
  step (locks leader_path has_error_cb) zk = ret (record {
    calls = [];
    client = [];
    quiet = [];
    zk = record zk {
      queued = zk.queued ++ do_pending_locks ∷ [];
      context = rb_zk_mutex_lock leader_path has_error_cb zk.context;
    };
  })
  step (watched buf is_session_event is_connected is_expired state) zk =
      zk_watcher buf is_session_event is_connected is_expired state zk.context >>= λ r.
      ret (record {
        calls = r.2;
        client = [];
        quiet = [];
        zk = record zk {
          queued = zk.queued ++ (queue_pending r.0 ++ queue_reset r.1);
          context = r.3;
        };
      })
  step (runs connected acreate_rc fresh) zk = run_queued connected acreate_rc fresh zk.queued zk
  step (unlocked i) zk = ret (
      end_mutex delete_mutex_completed (λ mutex. mutex ∷ [])
        (take_out i zk.context.leaders_nodes_list) zk)
  step (failed i rc error) zk = ret (
      end_mutex (λ mutex. rb_zk_mutex_error_done mutex rc error)
        (λ mutex. if mutex.error_cb then [] else mutex ∷ [])
        (take_out i zk.context.leaders_nodes_list) zk)

  unfoldable pub run : List Event → RbZk → Outcome Result
  unfolding step
  run [] zk = ret (record { calls = []; client = []; quiet = []; zk = zk })
  run (event ∷ events) zk = step event zk >>= λ now. run events now.zk >>= λ later. ret (record {
    calls = now.calls ++ later.calls;
    client = now.client ++ later.client;
    quiet = now.quiet ++ later.quiet;
    zk = later.zk;
  })
