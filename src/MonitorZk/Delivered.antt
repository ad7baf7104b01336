-- ===== src/MonitorZk/Delivered.antt =====
-- src/rb_monitor_zk.c: the way of a sensor from the ZooKeeper queue to the queue of the workers.
use rb_monitor.Prelude.{
  ℕ, zero, suc, ◌≤◌, ◌≡◌, refl, ap, sym, ◌∙◌, true, false, List, [], ◌∷◌, ◌++◌, map, length, take,
  le→leb, length-snoc, present, Option-cases, inl, inr, arith, Outcome, ret,
}
use mathlib.Core.List.{append_assoc, append-nil}
use rb_monitor.Prelude.Int.{ℤ, pos, negsuc}
use rb_monitor.Prelude.Text.{Text}
use rb_monitor.Platform.{Platform}
use rb_monitor.MonitorZk.{
  StringList, string_list_append, string_list_append_const, string_list_foreach_arg,
  string_list_move, ZkCall, MonitorZk, rb_monitor_zk_add_sensor_to_monitor_queue,
  rb_monitor_zk_add_popped_sensors_to_monitor_queue, rb_zk_pop_data_cb, leader_lock_status_chage_cb,
  to_size, Event, overlapped, popped, work, status, tick, lock_failed, pop_failed, pop_deleted,
  worked, step, run,
}

-- The strings of a list, the view that forgets lengths and flags.
abbrev pub texts : StringList → List Text
texts [] = []
texts (node ∷ list) = node.str ∷ texts list

pub texts-append : (a b : StringList) → texts (a ++ b) ≡ texts a ++ texts b
texts-append [] b = refl
texts-append (x ∷ a) b = ap (λ l. x.str ∷ l) (texts-append a b)

module _ (p : Platform) where
  -- What ZooKeeper gave, in the order of the callbacks.
  abbrev pub received : List (Event p) → List Text
  received [] = []
  received (popped value len ∷ events) = take (to_size len) value ∷ received events
  received (_ ∷ events) = received events

  abbrev pub parse_all : List Text → List p.Json
  parse_all ts = present (map p.json_parse ts)

  -- The sensors that are queued for the workers, and behind them those that wait for the worker
  -- thread.
  abbrev pub arrived : MonitorZk p → List p.Json
  arrived z = z.workers_queue ++ parse_all (texts z.pop_sensors_list)

  -- Each value has as many bytes as it is said to have, which is not negative, and none comes while
  -- the worker thread moves the list.
  abbrev pub IsWhole : Text → ℤ → Type 0
  IsWhole value (pos n) = n ≤ length value
  IsWhole value (negsuc n) = ⊥

  abbrev pub AreSafe : List (Event p) → Type 0
  AreSafe [] = Unit
  AreSafe (popped value len ∷ events) = IsWhole value len × AreSafe events
  AreSafe (overlapped value len ∷ events) = ⊥
  AreSafe (_ ∷ events) = AreSafe events

  parse_all-append : (a b : List Text) → parse_all (a ++ b) ≡ parse_all a ++ parse_all b
  parse_all-append [] b = refl
  parse_all-append (t ∷ a) b = elim (Option-cases (p.json_parse t)) [
    | inl e ↦ rw e (parse_all-append a b)
    | inr found ↦ let (j, e) = found in rw e (ap (λ l. j ∷ l) (parse_all-append a b))
  ]

  pub foreach_lem :
      (l : StringList) (z : MonitorZk p)
      → string_list_foreach_arg l (rb_monitor_zk_add_sensor_to_monitor_queue p) z
        ≡ record z { workers_queue = z.workers_queue ++ parse_all (texts l) }
  unfolding string_list_foreach_arg rb_monitor_zk_add_sensor_to_monitor_queue
  foreach_lem [] z = ap (λ q. record z { workers_queue = q }) (sym (append-nil z.workers_queue))
  foreach_lem (node ∷ l) z = elim (Option-cases (p.json_parse node.str)) [
    | inl e ↦ rw e (foreach_lem l z)
    | inr found ↦
        let (j, e) = found in
        rw e (
          foreach_lem l (record z { workers_queue = z.workers_queue ++ j ∷ [] })
          ∙ ap (λ q. record z { workers_queue = q })
              (append_assoc z.workers_queue (j ∷ []) (parse_all (texts l))))
  ]

  -- The events run; what has arrived grows by what ZooKeeper gave; and while a string waits, the
  -- worker thread is scheduled.
  record Arrives (events : List (Event p)) (z : MonitorZk p)
      (r : Outcome (MonitorZk p × List ZkCall)) : Type 0 where
    state : MonitorZk p
    calls : List ZkCall
    runs : r ≡ ret (state, calls)
    more : arrived state ≡ arrived z ++ parse_all (received events)
    work_left : length state.pop_sensors_list ≤ state.scheduled

  same_state :
      (event : Event p) (z : MonitorZk p) (calls : List ZkCall)
      → received (event ∷ []) ≡ []
      → length z.pop_sensors_list ≤ z.scheduled
      → Arrives (event ∷ []) z (ret (z, calls))
  same_state event z calls none_new h = record {
    state = z;
    calls = calls;
    runs = refl;
    more = sym (ap (λ l. arrived z ++ parse_all l) none_new ∙ append-nil (arrived z));
    work_left = h;
  }

  data_cb_lem :
      (value : Text) (len : ℤ) (z : MonitorZk p)
      → IsWhole value len
      → rb_zk_pop_data_cb p value len z
        ≡ ret (record z {
          pop_sensors_list =
              z.pop_sensors_list
              ++ record {
                str = take (to_size len) value;
                len = to_size len;
                copy = true;
                free = false;
              }
                ∷ [];
          scheduled = suc z.scheduled;
        })
  unfolding rb_zk_pop_data_cb string_list_append_const string_list_append
  data_cb_lem value (pos n) z h = rw (le→leb n (length value) h) refl
  data_cb_lem value (negsuc n) z h = elim h [ ]

  -- The worker thread takes all that waits.
  worked-Arrives :
      (n : ℕ) (z : MonitorZk p)
      → z.scheduled ≡ n
      → length z.pop_sensors_list ≤ z.scheduled
      → Arrives (work ∷ []) z (ret (worked p n z, []))
  unfolding rb_monitor_zk_add_popped_sensors_to_monitor_queue string_list_move
  worked-Arrives zero z e h = same_state work z [] refl h
  worked-Arrives (suc n) z e h = record {
    state = record z {
      workers_queue = z.workers_queue ++ parse_all (texts z.pop_sensors_list);
      pop_sensors_list = [];
      scheduled = n;
    };
    calls = [];
    runs =
        ap (λ k. ret (k, []))
          (foreach_lem z.pop_sensors_list (record z { pop_sensors_list = []; scheduled = n }));
    more = refl;
    work_left = omega arith;
  }

  step-Arrives :
      (event : Event p) (z : MonitorZk p)
      → AreSafe (event ∷ [])
      → length z.pop_sensors_list ≤ z.scheduled
      → Arrives (event ∷ []) z (step p event z)
  unfolding step
  step-Arrives (popped value len) z (whole, _) h =
      let new : StringList =
        record { str = take (to_size len) value; len = to_size len; copy = true; free = false }
        ∷ [] in
      rw (data_cb_lem value len z whole) (record {
        state = record z {
          pop_sensors_list = z.pop_sensors_list ++ new;
          scheduled = suc z.scheduled;
        };
        calls = [];
        runs = refl;
        more =
            ap (λ l. z.workers_queue ++ l)
              (ap parse_all (texts-append z.pop_sensors_list new)
                ∙ parse_all-append (texts z.pop_sensors_list) (take (to_size len) value ∷ []))
            ∙ sym (append_assoc z.workers_queue (parse_all (texts z.pop_sensors_list)) _);
        work_left = omega (arith, h, length-snoc z.pop_sensors_list _);
      })
  step-Arrives (overlapped value len) z unsafe h = elim unsafe [ ]
  step-Arrives work z _ h = worked-Arrives z.scheduled z refl h
  step-Arrives (status obtained) z _ h = record {
    state = leader_lock_status_chage_cb p obtained z;
    calls = [];
    runs = refl;
    more = sym (append-nil (arrived z));
    work_left = h;
  }
  step-Arrives tick z _ h = same_state tick z _ refl h
  step-Arrives lock_failed z _ h = same_state lock_failed z _ refl h
  step-Arrives pop_failed z _ h = same_state pop_failed z _ refl h
  step-Arrives pop_deleted z _ h = same_state pop_deleted z _ refl h

  received-cons :
      (event : Event p) (events : List (Event p))
      → received (event ∷ events) ≡ received (event ∷ []) ++ received events
  received-cons (popped value len) events = refl
  received-cons (overlapped value len) events = refl
  received-cons work events = refl
  received-cons (status obtained) events = refl
  received-cons tick events = refl
  received-cons lock_failed events = refl
  received-cons pop_failed events = refl
  received-cons pop_deleted events = refl

  AreSafe-cons :
      (event : Event p) (events : List (Event p))
      → AreSafe (event ∷ events)
      → AreSafe (event ∷ []) × AreSafe events
  AreSafe-cons (popped value len) events (h, hs) = ((h, tt), hs)
  AreSafe-cons (overlapped value len) events h = elim h [ ]
  AreSafe-cons work events h = (tt, h)
  AreSafe-cons (status obtained) events h = (tt, h)
  AreSafe-cons tick events h = (tt, h)
  AreSafe-cons lock_failed events h = (tt, h)
  AreSafe-cons pop_failed events h = (tt, h)
  AreSafe-cons pop_deleted events h = (tt, h)

  run-Arrives :
      (events : List (Event p)) (z : MonitorZk p)
      → AreSafe events
      → length z.pop_sensors_list ≤ z.scheduled
      → Arrives events z (run p events z)
  unfolding run
  run-Arrives [] z whole h = record {
    state = z;
    calls = [];
    runs = refl;
    more = sym (append-nil (arrived z));
    work_left = h;
  }
  run-Arrives (event ∷ events) z whole h =
      let (first, others) = AreSafe-cons event events whole in
      let a = step-Arrives event z first h in
      let b = run-Arrives events a.state others a.work_left in
      record {
        state = b.state;
        calls = a.calls ++ b.calls;
        runs = rw a.runs (rw b.runs refl);
        more =
            b.more
            ∙ ap (λ l. l ++ parse_all (received events)) a.more
            ∙ append_assoc (arrived z) (parse_all (received (event ∷ [])))
                (parse_all (received events))
            ∙ ap (λ l. arrived z ++ l)
                (sym (parse_all-append (received (event ∷ [])) (received events))
                  ∙ ap parse_all (sym (received-cons event events)));
        work_left = b.work_left;
      }

  -- Whatever the order of the callbacks, the worker thread and the timer, a run from a state with no
  -- string waiting returns, if each value has the length that it is said to have, which is not
  -- negative, and none comes while the worker thread moves the list, since string_list_append takes
  -- no lock. The queue of the
  -- workers, with the sensors that wait behind it, has then grown by the values that ZooKeeper gave,
  -- in their order, each once, less those that are no JSON; and for each string that waits the worker
  -- thread is still scheduled, so that none is left when it has no more to do.
  pub run-arrived :
      (events : List (Event p)) (z : MonitorZk p)
      → AreSafe events
      → z.pop_sensors_list ≡ []
      → (z' : MonitorZk p) × (calls : List ZkCall) × (run p events z ≡ ret (z', calls))
        × (arrived z' ≡ z.workers_queue ++ parse_all (received events))
        × (length z'.pop_sensors_list ≤ z'.scheduled)
  run-arrived events z whole none_waits =
      let r = run-Arrives events z whole (omega (arith, ap length none_waits)) in
      (
        r.state,
        r.calls,
        r.runs,
        r.more
            ∙ ap (λ l. l ++ parse_all (received events))
                (ap (λ l. z.workers_queue ++ parse_all (texts l)) none_waits
                  ∙ append-nil z.workers_queue),
        r.work_left,
      )
