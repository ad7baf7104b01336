-- ===== src/MonitorZk/Leader.antt =====
-- src/rb_monitor_zk.c: the sensors that the leader pushes.
use rb_monitor.Prelude.{
  ℕ, zero, suc, ◌*◌, ◌≡◌, refl, ap, sym, subst, ◌∙◌, Bool, true, false, Option, none, some, List,
  [], ◌∷◌, ◌++◌, map, length, leb, take-length, present, Option-cases, inl, inr, arith, Outcome,
  ret, fault, out_of_fuel, ◌>>=◌, >>=-eq-ret, ret-inj, if◌then◌else◌,
}
use mathlib.Core.List.{append_assoc, append-nil}
use rb_monitor.Prelude.Int.{ℤ}
use rb_monitor.Prelude.Text.{Text}
use rb_monitor.Platform.{Platform}
use rb_monitor.MonitorZk.Delivered.{foreach_lem}
use rb_monitor.MonitorZk.{
  try_to_be_master, sensors_queue_poll_loop_start, Node, StringList, string_list_append,
  string_list_append_const, string_list_foreach_arg, string_list_move, ZkCall, queue_push,
  zookeeper_tasks_path_leaf, MonitorZk, rb_monitor_zk_add_popped_sensors_to_monitor_queue,
  rb_zk_pop_data_cb, rb_monitor_push_sensor, rb_monitor_leader_push_sensors, sensor_text,
  rb_monitor_zk_parse_sensors, leader_lock_status_chage_cb, init_state, to_size, Event, overlapped,
  popped, work, status, tick, lock_failed, pop_failed, pop_deleted, worked, ticked, step, run,
}

-- A text that is copied whole.
abbrev pub whole_node : Text → Node
whole_node t = record { str = t; len = length t; copy = true; free = false }

abbrev first_calls : List ZkCall
unfolding try_to_be_master sensors_queue_poll_loop_start
first_calls = try_to_be_master ++ sensors_queue_poll_loop_start

append_whole :
    (l : StringList) (t : Text)
    → string_list_append_const l t (length t) true false ≡ ret (l ++ whole_node t ∷ [])
unfolding string_list_append_const string_list_append
append_whole l t =
    let fits : leb (length t) (length t) ≡ true = ground arith in rw fits (rw (take-length t) refl)

push_each :
    (ts : List Text) (calls : List ZkCall)
    → string_list_foreach_arg (map whole_node ts) rb_monitor_push_sensor calls
      ≡ calls ++ map (queue_push zookeeper_tasks_path_leaf) ts
unfolding string_list_foreach_arg rb_monitor_push_sensor
push_each [] calls = sym (append-nil calls)
push_each (t ∷ ts) calls =
    rw (string_list_foreach_arg, take-length t)
      (push_each ts (calls ++ queue_push zookeeper_tasks_path_leaf t ∷ [])
        ∙ append_assoc calls (queue_push zookeeper_tasks_path_leaf t ∷ []) _)

module _ (p : Platform) where
  -- The texts of the sensors in the array.
  abbrev pub sensor_texts : List (Option p.Json) → List Text
  sensor_texts elements = present (map (sensor_text p) elements)

  -- The list of sensors to push has the text of each element of the array that is not null and has
  -- one, behind those that there were, in their order and whole; parsing always returns.
  pub rb_monitor_zk_parse_sensors_lem :
      (elements : List (Option p.Json)) (l : StringList)
      → rb_monitor_zk_parse_sensors p elements l ≡ ret (l ++ map whole_node (sensor_texts elements))
  unfolding rb_monitor_zk_parse_sensors
  rb_monitor_zk_parse_sensors_lem [] l = ap ret (sym (append-nil l))
  rb_monitor_zk_parse_sensors_lem (value ∷ rest) l = elim (Option-cases (sensor_text p value)) [
    | inl e ↦ rw e (rb_monitor_zk_parse_sensors_lem rest l)
    | inr found ↦
        let (t, e) = found in
        rw e (
          rw (append_whole l t) (
            rb_monitor_zk_parse_sensors_lem rest (l ++ whole_node t ∷ [])
            ∙ ap ret (append_assoc l (whole_node t ∷ []) _)))
  ]

  abbrev pub interval : Bool → ℕ → Option ℕ
  interval true push_timeout = some (push_timeout * 1000)
  interval false push_timeout = none

  -- The timer runs exactly while this process is the leader, and the list of sensors to push and the
  -- timeout are those of the start.
  record Steady (push_timeout : ℕ) (l : StringList) (leader : Bool) (z : MonitorZk p) : Type 0 where
    timeout : z.push_timeout ≡ push_timeout
    sensors : z.push_sensors_list ≡ l
    leads : z.i_am_leader ≡ leader
    timer : z.timer ≡ interval leader push_timeout

  -- Whether the mutex was obtained when its status changed last.
  abbrev pub last_status : Bool → List (Event p) → Bool
  last_status obtained [] = obtained
  last_status obtained (status b ∷ events) = last_status b events
  last_status obtained (_ ∷ events) = last_status obtained events

  module _ (push_timeout : ℕ) (l : StringList) where
    status-Steady :
        (b leader : Bool) (z : MonitorZk p)
        → Steady push_timeout l leader z
        → Steady push_timeout l b (leader_lock_status_chage_cb p b z)
    unfolding leader_lock_status_chage_cb
    status-Steady true leader z s = record {
      timeout = s.timeout;
      sensors = s.sensors;
      leads = refl;
      timer = ap (λ n. some (n * 1000)) s.timeout;
    }
    status-Steady false leader z s = record {
      timeout = s.timeout;
      sensors = s.sensors;
      leads = refl;
      timer = refl;
    }

    worked-Steady :
        (n : ℕ) (leader : Bool) (z : MonitorZk p)
        → Steady push_timeout l leader z
        → Steady push_timeout l leader (worked p n z)
    unfolding rb_monitor_zk_add_popped_sensors_to_monitor_queue string_list_move
    worked-Steady zero leader z s = s
    worked-Steady (suc n) leader z s =
        subst (Steady push_timeout l leader)
          (sym
            (foreach_lem p z.pop_sensors_list (record z { pop_sensors_list = []; scheduled = n })))
          (record { timeout = s.timeout; sensors = s.sensors; leads = s.leads; timer = s.timer })

    appended-Steady :
        (leader : Bool) (z z' : MonitorZk p) (o : Outcome StringList)
        → (o >>= (λ pops. ret (record z { pop_sensors_list = pops; scheduled = suc z.scheduled })))
          ≡ ret z'
        → Steady push_timeout l leader z
        → Steady push_timeout l leader z'
    appended-Steady leader z z' (ret pops) e s =
        subst (Steady push_timeout l leader) (ret-inj e)
          (record { timeout = s.timeout; sensors = s.sensors; leads = s.leads; timer = s.timer })
    appended-Steady leader z z' fault e s = cc
    appended-Steady leader z z' out_of_fuel e s = cc

    data_cb-Steady :
        (value : Text) (len : ℤ) (leader : Bool) (z z' : MonitorZk p)
        → rb_zk_pop_data_cb p value len z ≡ ret z'
        → Steady push_timeout l leader z
        → Steady push_timeout l leader z'
    unfolding rb_zk_pop_data_cb
    data_cb-Steady value len leader z z' e s =
        appended-Steady leader z z'
          (string_list_append_const z.pop_sensors_list value (to_size len) true false) e s

    step-Steady :
        (event : Event p) (leader : Bool) (z z' : MonitorZk p) (calls : List ZkCall)
        → step p event z ≡ ret (z', calls)
        → Steady push_timeout l leader z
        → Steady push_timeout l (last_status leader (event ∷ [])) z'
    unfolding step
    step-Steady (popped value len) leader z z' calls e s =
        let (z1, took, same) = >>=-eq-ret (rb_zk_pop_data_cb p value len z) _ e in
        subst (Steady push_timeout l leader) (ap (λ r. r.0) (ret-inj same))
          (data_cb-Steady value len leader z z1 took s)
    step-Steady (overlapped value len) leader z z' calls e s = cc
    step-Steady work leader z z' calls e s =
        subst (Steady push_timeout l leader) (ap (λ r. r.0) (ret-inj e))
          (worked-Steady z.scheduled leader z s)
    step-Steady (status b) leader z z' calls e s =
        subst (Steady push_timeout l b) (ap (λ r. r.0) (ret-inj e)) (status-Steady b leader z s)
    step-Steady tick leader z z' calls e s =
        subst (Steady push_timeout l leader) (ap (λ r. r.0) (ret-inj e)) s
    step-Steady lock_failed leader z z' calls e s =
        subst (Steady push_timeout l leader) (ap (λ r. r.0) (ret-inj e)) s
    step-Steady pop_failed leader z z' calls e s =
        subst (Steady push_timeout l leader) (ap (λ r. r.0) (ret-inj e)) s
    step-Steady pop_deleted leader z z' calls e s =
        subst (Steady push_timeout l leader) (ap (λ r. r.0) (ret-inj e)) s

    last_status-cons :
        (event : Event p) (events : List (Event p)) (leader : Bool)
        → last_status (last_status leader (event ∷ [])) events ≡ last_status leader (event ∷ events)
    last_status-cons (popped value len) events leader = refl
    last_status-cons (overlapped value len) events leader = refl
    last_status-cons work events leader = refl
    last_status-cons (status b) events leader = refl
    last_status-cons tick events leader = refl
    last_status-cons lock_failed events leader = refl
    last_status-cons pop_failed events leader = refl
    last_status-cons pop_deleted events leader = refl

    run-Steady :
        (events : List (Event p)) (leader : Bool) (z z' : MonitorZk p) (calls : List ZkCall)
        → run p events z ≡ ret (z', calls)
        → Steady push_timeout l leader z
        → Steady push_timeout l (last_status leader events) z'
    unfolding run
    run-Steady [] leader z z' calls e s =
        subst (Steady push_timeout l leader) (ap (λ r. r.0) (ret-inj e)) s
    run-Steady (event ∷ events) leader z z' calls e s =
        let (r, one, rest) = >>=-eq-ret (step p event z) _ e in
        let (r', others, same) = >>=-eq-ret (run p events r.0) _ rest in
        subst (λ b. Steady push_timeout l b z') (last_status-cons event events leader)
          (subst (Steady push_timeout l _) (ap (λ k. k.0) (ret-inj same))
            (run-Steady events _ r.0 r'.0 r'.1 others (step-Steady event leader z r.0 r.1 one s)))

  init-Steady :
      (push_timeout : ℕ) (zk_sensors : List (Option p.Json)) (workers_queue : List p.Json)
      (z : MonitorZk p) (first : List ZkCall)
      → init_state p push_timeout zk_sensors workers_queue ≡ ret (z, first)
      → Steady push_timeout (map whole_node (sensor_texts zk_sensors)) false z
  unfolding init_state
  init-Steady push_timeout zk_sensors workers_queue z first begin =
      subst (Steady push_timeout (map whole_node (sensor_texts zk_sensors)) false)
        (ap (λ r. r.0) (ret-inj (sym made ∙ begin)))
        (record { timeout = refl; sensors = refl; leads = refl; timer = refl })
    where
      made :
          init_state p push_timeout zk_sensors workers_queue
          ≡ ret (
            record {
              push_timeout = push_timeout;
              pop_sensors_list = [];
              push_sensors_list = map whole_node (sensor_texts zk_sensors);
              i_am_leader = false;
              timer = none;
              workers_queue = workers_queue;
              scheduled = 0;
            },
            first_calls,
          )
      made = rw (init_state, rb_monitor_zk_parse_sensors_lem zk_sensors []) refl

  ticked-Steady :
      (push_timeout : ℕ) (ts : List Text) (leader : Bool) (z : MonitorZk p)
      → Steady push_timeout (map whole_node ts) leader z
      → ticked p z.timer z ≡ (if leader then map (queue_push zookeeper_tasks_path_leaf) ts else [])
  unfolding rb_monitor_leader_push_sensors
  ticked-Steady push_timeout ts true z s = rw (s.timer) (rw (s.sensors) (push_each ts []))
  ticked-Steady push_timeout ts false z s = rw (s.timer) refl

  -- After any run from the start, a tick of the timer changes nothing, and pushes to the ZooKeeper
  -- queue the text of each sensor of the configuration, whole and in order, if the mutex was obtained
  -- when its status changed last, and nothing otherwise.
  pub tick_pushes :
      (push_timeout : ℕ) (zk_sensors : List (Option p.Json)) (workers_queue : List p.Json)
      (events : List (Event p)) (z z' : MonitorZk p) (first calls : List ZkCall)
      → init_state p push_timeout zk_sensors workers_queue ≡ ret (z, first)
      → run p events z ≡ ret (z', calls)
      → step p tick z'
        ≡ ret (
          z',
          if last_status false events
              then map (queue_push zookeeper_tasks_path_leaf) (sensor_texts zk_sensors)
              else [],
        )
  unfolding step
  tick_pushes push_timeout zk_sensors workers_queue events z z' first calls begin runs =
      let s =
        run-Steady push_timeout _ events false z z' calls runs
          (init-Steady push_timeout zk_sensors workers_queue z first begin) in
      ap (λ c. ret (z', c)) (ticked-Steady push_timeout (sensor_texts zk_sensors) _ z' s)
