-- ===== src/Zk/Queue/Fifo/Order.antt =====
-- src/rb_zk.c: the order in which values leave the queue, by every step of pushes and pops.
use rb_monitor.Prelude.{
  ◌≡◌, refl, ap, sym, subst, ◌∙◌, inl, Bool, false, List, [], ◌∷◌, ◌++◌, drop, some_each,
}
use mathlib.Core.List.{append_assoc, append-nil, append_cancel_left}
use rb_monitor.Prelude.Int.{ℤ, pos, ltb_ℤ}
use rb_monitor.Prelude.Text.{Text}
use rb_monitor.Zk.{slash}
use rb_monitor.Zk.Queue.{
  QueueElement, QueueRun, queue_dir, rb_zk_queue_delete_completed, rb_zk_queue_get_element,
  rb_zk_queue_child_watcher, rb_zk_queue_pop_nolock, rb_zk_queue_pop_minimum0,
  rb_zk_queue_mutex_status_change,
}
use rb_monitor.Zk.Queue.Pop.{popping}
use rb_monitor.Zk.Election.{In, IsAbove}
use rb_monitor.Zk.Queue.Fifo.{
  Popping, listing, listed, getting, deleting, left_by, Queue, names, values, ran, node_of_queue,
  Step, push, obtain, answer, list, not_answered, watch, read, not_read, delete, Reachable, start,
  next,
}
use rb_monitor.Zk.Queue.Fifo.Nodes.{
  Ascending, names-append, values-append, Ascending-snoc, before_first,
}
use rb_monitor.Zk.Queue.Fifo.Stages.{
  to_get, AtFirst, IsSound, Quiet, popping-Mine, nolock-Quiet, watcher-Quiet, minimum-Quiet,
  IsSound-append, to_get-append, not_answered-Quiet, not_read-Quiet, deleted_lem,
}

module _ (path : Text) where
  record IsFifo (q : Queue) : Type 0 where
    pub ascending : Ascending (names q.nodes)
    pub order : q.popped ++ values (to_get q.stage q.nodes) ≡ q.pushed
    pub sound : IsSound path q.nodes q.stage

  Quiet-IsFifo :
      (q : Queue) (r : QueueRun)
      → IsFifo q
      → to_get q.stage q.nodes ≡ q.nodes
      → Quiet path q.nodes r
      → IsFifo (ran r q)
  Quiet-IsFifo q r f kept quiet = record {
    ascending = f.ascending;
    order =
        ap (λ l. (q.popped ++ l) ++ values (to_get (left_by r) q.nodes)) quiet.nothing
        ∙ ap (λ l. l ++ values (to_get (left_by r) q.nodes)) (append-nil q.popped)
        ∙ ap (λ l. q.popped ++ values l) (quiet.all ∙ sym kept)
        ∙ f.order;
    sound = quiet.sound;
  }

  same_name : (a b : Text) → node_of_queue path a ≡ node_of_queue path b → a ≡ b
  same_name a b e =
      ap (drop 1) (append_cancel_left (queue_dir (popping path)) (slash ∷ a) (slash ∷ b) e)

  push-IsFifo :
      (q : Queue) (name value : Text)
      → IsAbove name (names q.nodes)
      → IsFifo q
      → IsFifo (record q { nodes = q.nodes ++ (name, value) ∷ []; pushed = q.pushed ++ value ∷ [] })
  push-IsFifo q name value above f = record {
    ascending =
        subst Ascending (sym (names-append q.nodes ((name, value) ∷ [])))
          (Ascending-snoc (names q.nodes) name f.ascending above);
    order =
        ap (λ l. q.popped ++ values l) (to_get-append path q.nodes (name, value) q.stage f.sound)
        ∙ ap (λ l. q.popped ++ l) (values-append (to_get q.stage q.nodes) ((name, value) ∷ []))
        ∙ sym (append_assoc q.popped (values (to_get q.stage q.nodes)) (value ∷ []))
        ∙ ap (λ l. l ++ value ∷ []) f.order;
    sound = IsSound-append path q.nodes name value q.stage f.sound;
  }

  answer-IsFifo :
      (q : Queue) (watcher_setted : Bool) (children : List Text) (qelm : QueueElement)
      → q.stage ≡ listing watcher_setted qelm
      → ((s : Text) → In s children → In s (names q.nodes))
      → ((s : Text) → In s (names q.nodes) → In s children)
      → IsFifo q
      → IsFifo (record q { stage = listed watcher_setted children qelm })
  unfolding IsSound
  answer-IsFifo q watcher_setted children qelm e only all f = record {
    ascending = f.ascending;
    order = ap (λ s. q.popped ++ values (to_get s q.nodes)) (sym e) ∙ f.order;
    sound = (
      subst (IsSound path q.nodes) e f.sound,
      record {
        there = only;
        first = λ name value rest at.
            inl (all name (subst (λ l. In name (names l)) (sym at) (inl refl)));
      },
    );
  }

  -- The node that is read is the first one: its value is the next one, and its deletion is awaited.
  read-IsFifo :
      (q : Queue) (adelete_rc : ℤ) (name value : Text) (before after : List (Text × Text))
      (qelm : QueueElement)
      → q.stage ≡ getting (node_of_queue path name) qelm
      → q.nodes ≡ before ++ (name, value) ∷ after
      → ltb_ℤ adelete_rc (pos 0) ≡ false
      → IsFifo q
      → IsFifo (ran (rb_zk_queue_get_element (pos 0) value adelete_rc qelm) q)
  unfolding rb_zk_queue_get_element IsSound AtFirst
  read-IsFifo q adelete_rc name value before after qelm e there accepted f =
      let (m, path_set, (other, (v, rest, first), same)) = subst (IsSound path q.nodes) e f.sound in
      let named : other ≡ name = sym (same_name name other same) in
      let at : q.nodes ≡ (name, v) ∷ rest = first ∙ ap (λ t. (t, v) ∷ rest) named in
      let none_before = before_first q.nodes rest before after name v value f.ascending at there in
      let head : q.nodes ≡ (name, value) ∷ after =
        there ∙ ap (λ l. l ++ (name, value) ∷ after) none_before in
      simp (accepted, path_set)
        (record {
          ascending = f.ascending;
          order =
              append_assoc q.popped (value ∷ []) (values (drop 1 q.nodes))
              ∙ ap (λ l. q.popped ++ value ∷ values (drop 1 l)) head
              ∙ ap (λ l. q.popped ++ values l) (sym head)
              ∙ ap (λ s. q.popped ++ values (to_get s q.nodes)) (sym e)
              ∙ f.order;
          sound = (m, (name, (value, after, head), refl));
        })

  Ascending-drop : (l : List Text) → Ascending l → Ascending (drop 1 l)
  Ascending-drop [] asc = tt
  Ascending-drop (x ∷ l) (first, asc) = asc

  delete-IsFifo :
      (q : Queue) (name value : Text) (before after : List (Text × Text)) (qelm : QueueElement)
      → q.stage ≡ deleting (node_of_queue path name) qelm
      → q.nodes ≡ before ++ (name, value) ∷ after
      → IsFifo q
      → IsFifo
          (ran (rb_zk_queue_delete_completed (pos 0) qelm) (record q { nodes = before ++ after }))
  unfolding IsSound AtFirst
  delete-IsFifo q name value before after qelm e there f =
      let (m, (other, (v, rest, first), same)) = subst (IsSound path q.nodes) e f.sound in
      let named : other ≡ name = sym (same_name name other same) in
      let at : q.nodes ≡ (name, v) ∷ rest = first ∙ ap (λ t. (t, v) ∷ rest) named in
      let none_before = before_first q.nodes rest before after name v value f.ascending at there in
      let head : q.nodes ≡ (name, value) ∷ after =
        there ∙ ap (λ l. l ++ (name, value) ∷ after) none_before in
      let left : before ++ after ≡ after = ap (λ l. l ++ after) none_before in
      let quiet = deleted_lem path (before ++ after) qelm m in
      record {
        ascending =
            subst Ascending (ap (λ l. drop 1 (names l)) head ∙ ap names (sym left))
              (Ascending-drop (names q.nodes) f.ascending);
        order =
            ap
              (λ l.
                (q.popped ++ l)
                ++ values (
                    to_get (left_by (rb_zk_queue_delete_completed (pos 0) qelm)) (before ++ after)))
              quiet.nothing
            ∙ ap
                (λ l.
                  l
                  ++ values (
                      to_get (left_by (rb_zk_queue_delete_completed (pos 0) qelm))
                        (before ++ after)))
                (append-nil q.popped)
            ∙ ap (λ l. q.popped ++ values l) (quiet.all ∙ left ∙ ap (drop 1) (sym head))
            ∙ ap (λ s. q.popped ++ values (to_get s q.nodes)) (sym e)
            ∙ f.order;
        sound = quiet.sound;
      }

  -- All nodes are to be got, unless a deletion is awaited.
  kept :
      (q : Queue) {stage : Popping}
      → q.stage ≡ stage
      → to_get stage q.nodes ≡ q.nodes
      → to_get q.stage q.nodes ≡ q.nodes
  kept q e all = ap (λ s. to_get s q.nodes) e ∙ all

  -- Every step keeps it.
  step-IsFifo : (q q' : Queue) → Step path q q' → IsFifo q → IsFifo q'
  unfolding IsSound rb_zk_queue_mutex_status_change
  step-IsFifo _ _ (push q name value above) f = push-IsFifo q name value above f
  step-IsFifo _ _ (obtain q rc e) f =
      Quiet-IsFifo q (rb_zk_queue_pop_nolock rc (popping path)) f (kept q e refl)
        (nolock-Quiet path q.nodes rc (popping path) (popping-Mine path))
  step-IsFifo _ _ (answer q w children qelm e only all) f =
      answer-IsFifo q w children qelm e only all f
  step-IsFifo _ _ (list q w children rc qelm e) f =
      let (m, seen) = subst (IsSound path q.nodes) e f.sound in
      Quiet-IsFifo q (rb_zk_queue_pop_minimum0 (pos 0) (some_each children) w rc qelm) f
        (kept q e refl) (minimum-Quiet path q.nodes children w rc qelm f.ascending m seen)
  step-IsFifo _ _ (not_answered q w rc aget_rc qelm e bad) f =
      Quiet-IsFifo q (rb_zk_queue_pop_minimum0 rc [] w aget_rc qelm) f (kept q e refl) (
        not_answered-Quiet path q.nodes rc aget_rc w qelm (subst (IsSound path q.nodes) e f.sound)
          bad)
  step-IsFifo _ _ (watch q event rc qelm e) f =
      Quiet-IsFifo q (rb_zk_queue_child_watcher event rc qelm) f (kept q e refl)
        (watcher-Quiet path q.nodes event rc qelm (subst (IsSound path q.nodes) e f.sound))
  step-IsFifo _ _ (read q rc name value before after qelm e there ok) f =
      read-IsFifo q rc name value before after qelm e there ok f
  step-IsFifo _ _ (not_read q rc adelete_rc node value qelm e bad) f =
      let (m, path_set, at) = subst (IsSound path q.nodes) e f.sound in
      Quiet-IsFifo q (rb_zk_queue_get_element rc value adelete_rc qelm) f (kept q e refl)
        (not_read-Quiet path q.nodes rc adelete_rc value qelm m bad)
  step-IsFifo _ _ (delete q name value before after qelm e there) f =
      delete-IsFifo q name value before after qelm e there f

  reachable-IsFifo : (q : Queue) → Reachable path q → IsFifo q
  unfolding IsSound
  reachable-IsFifo _ start = record { ascending = tt; order = refl; sound = tt }
  reachable-IsFifo _ (next q q' before step) = step-IsFifo q q' step (reachable-IsFifo q before)

-- The queue under a path, over any sequence of pushes by anyone, each of a node whose name is above
-- those that there are, and of pops, one at a time, by whoever holds the mutex, each function of a pop
-- at its own moment and with any answer of the server (the children in any order), failed ones
-- included, but for zoo_adelete: the call is accepted, and if it is answered, the node is deleted.
-- Whatever a failed pop leaves, the
-- values that data_cb got are, in the order in which they were pushed, the first ones of those that
-- were pushed, each got once; the others are still there, but for that of a node that is read and not
-- yet deleted, which has been got.
pub reachable-fifo :
    (path : Text) (q : Queue)
    → Reachable path q
    → q.popped ++ values (to_get q.stage q.nodes) ≡ q.pushed
reachable-fifo path q r = (reachable-IsFifo path q r).order
