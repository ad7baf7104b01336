-- ===== src/Zk/Queue/Fifo.antt =====
-- src/rb_zk.c: the queue under a directory, pushed and popped by many processes. A pop is made by the
-- process that holds the mutex, one at a time; pushes come at any moment. A pop is a step for each
-- function that runs, on what the server answers, and it ends when the mutex is unlocked.
pub mod Nodes
pub mod Stages
pub mod Order
use rb_monitor.Prelude.{
  ℕ, zero, suc, ◌≡◌, ◌⊎◌, refl, ap, sym, subst, ◌∙◌, inl, inr, Bool, true, false, Option, none,
  some, List, [], ◌∷◌, ◌++◌, drop, some_each, arith,
}
use mathlib.Core.List.{append_assoc, append-nil}
use rb_monitor.Prelude.Int.{ℤ, pos, ltb_ℤ}
use rb_monitor.Prelude.Text.{Text}
use rb_monitor.Prelude.Text.Order.{text_lt, text_lt_irrefl}
use rb_monitor.Zk.{slash}
use rb_monitor.Zk.Queue.{
  QueueElement, QueueCall, QueueRun, aget_children, awget_children, aget, adelete, data_cb,
  delete_cb, error_cb, mutex_unlock, queue_dir, min_str, rb_zk_queue_delete_completed,
  rb_zk_queue_get_element, rb_zk_queue_child_watcher, rb_zk_queue_pop_minimum0,
  rb_zk_queue_mutex_status_change,
}
use rb_monitor.Zk.Queue.Pop.{popping}
use rb_monitor.Zk.Queue.Minimum.{IsMinimum, min_str-IsMinimum}
use rb_monitor.Zk.Election.{In, IsAbove}

-- What the pop of the process that holds the mutex waits for: nothing, the children (with a watcher
-- or not), the function that gets them, a node of the queue, the deletion of one, or the watcher. A
-- pop that has ended with the mutex locked is stuck.
pub data Popping : Type 0 where
  free : Popping
  listing : Bool → QueueElement → Popping
  listed : Bool → List Text → QueueElement → Popping
  getting : Text → QueueElement → Popping
  deleting : Text → QueueElement → Popping
  watching : QueueElement → Popping
  stuck : Popping

-- What a function leaves, by its calls and the element.
abbrev pub ended : List QueueCall → Popping
ended [] = stuck
ended (mutex_unlock ∷ calls) = free
ended (_ ∷ calls) = ended calls

abbrev pub waits_for : List QueueCall → QueueElement → Popping
waits_for [] qelm = watching qelm
waits_for (aget_children dir ∷ calls) qelm = listing false qelm
waits_for (awget_children dir ∷ calls) qelm = listing true qelm
waits_for (aget path ∷ calls) qelm = getting path qelm
waits_for (adelete path ∷ []) qelm = deleting path qelm
waits_for (adelete path ∷ call ∷ calls) qelm = stuck
waits_for (_ ∷ calls) qelm = waits_for calls qelm

abbrev pub left_by : QueueRun → Popping
left_by r = elim r.element [ none ↦ ended r.calls | some qelm ↦ waits_for r.calls qelm ]

-- The values that data_cb gets.
abbrev pub delivered : List QueueCall → List Text
delivered [] = []
delivered (data_cb rc value ∷ calls) = value ∷ delivered calls
delivered (_ ∷ calls) = delivered calls

-- The nodes of the directory with their values, in the order in which the server made them; the
-- values of all pushes; and those that data_cb got.
pub record Queue : Type 0 where
  pub nodes : List (Text × Text)
  pub pushed : List Text
  pub popped : List Text
  pub stage : Popping

abbrev pub names : List (Text × Text) → List Text
names [] = []
names ((name, value) ∷ nodes) = name ∷ names nodes

abbrev pub values : List (Text × Text) → List Text
values [] = []
values ((name, value) ∷ nodes) = value ∷ values nodes

-- A function has run.
abbrev pub ran : QueueRun → Queue → Queue
ran r q = record q { popped = q.popped ++ delivered r.calls; stage = left_by r }

-- The directory of the queue of the path that rb_zk_queue_pop gets.
abbrev pub node_of_queue : Text → Text → Text
node_of_queue path name = queue_dir (popping path) ++ slash ∷ name

pub data Step (path : Text) : Queue → Queue → Type 0 where
  -- rb_zk_queue_push: the server names the node above those there are
  push :
      (q : Queue) (name value : Text)
      → IsAbove name (names q.nodes)
      → Step path q
          (record q { nodes = q.nodes ++ (name, value) ∷ []; pushed = q.pushed ++ value ∷ [] })
  -- a process has got the mutex
  obtain :
      (q : Queue) (aget_children_rc : ℤ)
      → q.stage ≡ free
      → Step path q (ran (rb_zk_queue_mutex_status_change true aget_children_rc (popping path)) q)
  -- the server answers with the nodes there are, in any order
  answer :
      (q : Queue) (watcher_setted : Bool) (children : List Text) (qelm : QueueElement)
      → q.stage ≡ listing watcher_setted qelm
      → ((s : Text) → In s children → In s (names q.nodes))
      → ((s : Text) → In s (names q.nodes) → In s children)
      → Step path q (record q { stage = listed watcher_setted children qelm })
  list :
      (q : Queue) (watcher_setted : Bool) (children : List Text) (aget_rc : ℤ) (qelm : QueueElement)
      → q.stage ≡ listed watcher_setted children qelm
      → Step path q (
          ran (rb_zk_queue_pop_minimum0 (pos 0) (some_each children) watcher_setted aget_rc qelm) q)
  not_answered :
      (q : Queue) (watcher_setted : Bool) (rc aget_rc : ℤ) (qelm : QueueElement)
      → q.stage ≡ listing watcher_setted qelm
      → ltb_ℤ rc (pos 0) ≡ true
      → Step path q (ran (rb_zk_queue_pop_minimum0 rc [] watcher_setted aget_rc qelm) q)
  -- an event of the watcher
  watch :
      (q : Queue) (is_child_event : Bool) (aget_children_rc : ℤ) (qelm : QueueElement)
      → q.stage ≡ watching qelm
      → Step path q (ran (rb_zk_queue_child_watcher is_child_event aget_children_rc qelm) q)
  -- the server reads a node, or fails; zoo_adelete accepts the call
  read :
      (q : Queue) (adelete_rc : ℤ) (name value : Text) (before after : List (Text × Text))
      (qelm : QueueElement)
      → q.stage ≡ getting (node_of_queue path name) qelm
      → q.nodes ≡ before ++ (name, value) ∷ after
      → ltb_ℤ adelete_rc (pos 0) ≡ false
      → Step path q (ran (rb_zk_queue_get_element (pos 0) value adelete_rc qelm) q)
  not_read :
      (q : Queue) (rc adelete_rc : ℤ) (node value : Text) (qelm : QueueElement)
      → q.stage ≡ getting node qelm
      → ltb_ℤ rc (pos 0) ≡ true
      → Step path q (ran (rb_zk_queue_get_element rc value adelete_rc qelm) q)
  -- the server deletes a node
  delete :
      (q : Queue) (name value : Text) (before after : List (Text × Text)) (qelm : QueueElement)
      → q.stage ≡ deleting (node_of_queue path name) qelm
      → q.nodes ≡ before ++ (name, value) ∷ after
      → Step path q
          (ran (rb_zk_queue_delete_completed (pos 0) qelm) (record q { nodes = before ++ after }))

abbrev pub empty_queue : Queue
empty_queue = record { nodes = []; pushed = []; popped = []; stage = free }

pub data Reachable (path : Text) : Queue → Type 0 where
  start : Reachable path empty_queue
  next : (q q' : Queue) → Reachable path q → Step path q q' → Reachable path q'
