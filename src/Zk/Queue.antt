-- ===== src/Zk/Queue.antt =====
-- src/rb_zk.c: the queue of values under a directory, of which one element is popped while a mutex is
-- held. What zoo_* answer is an argument of the function that runs then.
pub mod Minimum
pub mod Pop
pub mod Fifo
use rb_monitor.Prelude.{
  ℕ, ◌-◌, Bool, true, false, Option, none, some, List, [], ◌∷◌, ◌++◌, ◌==◌, if◌then◌else◌,
}
use rb_monitor.Prelude.Int.{ℤ, pos, nonzero, ltb_ℤ}
use rb_monitor.Prelude.Text.{Text, codes}
use rb_monitor.Prelude.Text.Order.{text_lt}
use rb_monitor.Zk.{slash, to_buf, parent_node}

-- The struct. Of the mutex, only whether there is one; the three callbacks are set.
pub record QueueElement : Type 0 where
  pub path : Text
  pub queue_element_path : Option Text
  pub should_ignore_watcher : Bool
  pub has_mutex : Bool
  pub refcnt : ℕ

-- What a function calls: the ZooKeeper client, a callback of the element, or rb_zk_mutex_unlock.
pub data QueueCall : Type 0 where
  aget_children : Text → QueueCall
  awget_children : Text → QueueCall
  aget : Text → QueueCall
  adelete : Text → QueueCall
  data_cb : ℤ → Text → QueueCall
  delete_cb : ℤ → QueueCall
  error_cb : Text → ℤ → QueueCall
  mutex_unlock : QueueCall

-- The calls in their order, and the element, which is none once it is freed.
pub record QueueRun : Type 0 where
  pub calls : List QueueCall
  pub element : Option QueueElement

-- The next function runs on the element that this one leaves, if it leaves one.
abbrev pub next_run : List QueueCall → Option QueueElement → (QueueElement → QueueRun) → QueueRun
next_run calls none next = record { calls = calls; element = none }
next_run calls (some qelm) next = record {
  calls = calls ++ (next qelm).calls;
  element = (next qelm).element;
}

infixl 5 ◌andthen◌
abbrev pub ◌andthen◌ : QueueRun → (QueueElement → QueueRun) → QueueRun
r andthen next = next_run r.calls r.element next

unfoldable pub rb_zk_queue_element_decref : QueueElement → Option QueueElement
rb_zk_queue_element_decref qelm =
    if qelm.refcnt - 1 == 0 then none else some (record qelm { refcnt = qelm.refcnt - 1 })

unfoldable pub new_queue_element : Text → QueueElement
new_queue_element path = record {
  path = path;
  queue_element_path = none;
  should_ignore_watcher = false;
  has_mutex = false;
  refcnt = 1;
}

-- The callback gets the error, and the reference is put.
unfoldable pub queue_error : Text → ℤ → QueueElement → QueueRun
unfolding rb_zk_queue_element_decref
queue_error cause rc qelm = record {
  calls = error_cb cause rc ∷ [];
  element = rb_zk_queue_element_decref qelm;
}

-- Is `s` less than the minimum so far?
abbrev pub is_less : Text → Option Text → Bool
is_less s none = true
is_less s (some minimum) = text_lt s minimum

unfoldable pub min_loop : List (Option Text) → Option Text → Option Text
min_loop [] minimum = minimum
min_loop (none ∷ rest) minimum = min_loop rest minimum
min_loop (some s ∷ rest) minimum = min_loop rest (if is_less s minimum then some s else minimum)

unfoldable pub min_str : List (Option Text) → Option Text
unfolding min_loop
min_str strings = min_loop strings none

unfoldable pub rb_zk_queue_delete_completed : ℤ → QueueElement → QueueRun
unfolding rb_zk_queue_element_decref
rb_zk_queue_delete_completed rc qelm = record {
  calls = delete_cb rc ∷ (if qelm.has_mutex then mutex_unlock ∷ [] else []);
  element = rb_zk_queue_element_decref qelm;
}

-- The path of the element of the queue, which is null only before the element is chosen.
abbrev pub path_or_empty : Option Text → Text
path_or_empty none = []
path_or_empty (some path) = path

-- An error of zoo_adelete reaches the callback with the code of the read, which is none.
unfoldable pub rb_zk_queue_get_element : ℤ → Text → ℤ → QueueElement → QueueRun
unfolding queue_error
rb_zk_queue_get_element rc value adelete_rc qelm =
    if ltb_ℤ rc (pos 0) then queue_error (codes "Error getting queue element") rc qelm else record {
      calls =
          data_cb rc value
          ∷ adelete (path_or_empty qelm.queue_element_path)
          ∷ (if ltb_ℤ adelete_rc (pos 0)
              then error_cb (codes "Error calling adelete") rc ∷ []
              else []);
      element = some qelm;
    }

-- The directory of the queue.
abbrev pub queue_dir : QueueElement → Text
queue_dir qelm = (parent_node (to_buf qelm.path)).1

unfoldable pub rb_zk_queue_pop_nolock : ℤ → QueueElement → QueueRun
unfolding parent_node queue_error
rb_zk_queue_pop_nolock aget_children_rc qelement =
    if ltb_ℤ aget_children_rc (pos 0)
    then record {
      calls =
          aget_children (queue_dir qelement)
          ∷ error_cb (codes "Can't call aget.") aget_children_rc
          ∷ [];
      element = (queue_error (codes "Can't call aget.") aget_children_rc qelement).element;
    }
    else record { calls = aget_children (queue_dir qelement) ∷ []; element = some qelement }

-- `is_child_event` is type == ZOO_CHILD_EVENT.
unfoldable pub rb_zk_queue_child_watcher : Bool → ℤ → QueueElement → QueueRun
unfolding rb_zk_queue_pop_nolock
rb_zk_queue_child_watcher is_child_event aget_children_rc qelm =
    if is_child_event
    then if qelm.should_ignore_watcher
      then record { calls = []; element = some qelm }
      else rb_zk_queue_pop_nolock aget_children_rc qelm
    else record { calls = []; element = some qelm }

-- The element with the path of the child that was chosen.
unfoldable pub choose : Text → Bool → QueueElement → QueueElement
unfolding parent_node
choose minimum watcher_setted qelm = record qelm {
  queue_element_path = some (queue_dir qelm ++ slash ∷ minimum);
  should_ignore_watcher = if watcher_setted then true else qelm.should_ignore_watcher;
}

unfoldable pub get_chosen : ℤ → QueueElement → QueueRun
unfolding queue_error
get_chosen aget_rc qelm =
    if nonzero aget_rc
    then record {
      calls =
          aget (path_or_empty qelm.queue_element_path)
          ∷ error_cb (codes "Can't do aget over min element queue") aget_rc
          ∷ [];
      element = (queue_error (codes "Can't do aget over min element queue") aget_rc qelm).element;
    }
    else record { calls = aget (path_or_empty qelm.queue_element_path) ∷ []; element = some qelm }

-- The minimum is asked for; else a watcher is set, or waited for.
unfoldable pub pop_chosen : Option Text → Bool → ℤ → QueueElement → QueueRun
unfolding choose get_chosen parent_node
pop_chosen (some minimum) watcher_setted aget_rc qelm =
    get_chosen aget_rc (choose minimum watcher_setted qelm)
pop_chosen none watcher_setted aget_rc qelm =
    if watcher_setted
    then record { calls = []; element = some qelm }
    else record { calls = awget_children (queue_dir qelm) ∷ []; element = some qelm }

unfoldable pub rb_zk_queue_pop_minimum0 :
    ℤ → List (Option Text) → Bool → ℤ → QueueElement → QueueRun
unfolding queue_error min_str pop_chosen
rb_zk_queue_pop_minimum0 rc strings watcher_setted aget_rc qelm =
    if ltb_ℤ rc (pos 0)
    then queue_error (codes "Error getting queue minimum") rc qelm
    else pop_chosen (min_str strings) watcher_setted aget_rc qelm

unfoldable pub rb_zk_queue_mutex_status_change : Bool → ℤ → QueueElement → QueueRun
unfolding rb_zk_queue_pop_nolock
rb_zk_queue_mutex_status_change mutex_obtained aget_children_rc qelm =
    if mutex_obtained
    then rb_zk_queue_pop_nolock aget_children_rc qelm
    else record { calls = []; element = some qelm }

unfoldable pub rb_zk_queue_mutex_error_cb : Text → ℤ → QueueElement → QueueRun
unfolding queue_error
rb_zk_queue_mutex_error_cb cause rc qelm = queue_error cause rc qelm

-- The part of rb_zk_queue_pop that changes the element; rb_zk_mutex_lock is called for `mutex_path`.
unfoldable pub rb_zk_queue_pop : QueueElement → QueueElement
rb_zk_queue_pop qelement = record qelement { has_mutex = true }
