-- ===== src/MonitorZk.antt =====
-- src/rb_monitor_zk.c: the sensors that a process takes from the ZooKeeper queue and, if it is the
-- leader, puts there.
pub mod Delivered
pub mod Leader
use rb_monitor.Prelude.{
  ◌-◌, ◌^◌, ℕ, zero, suc, ◌+◌, ◌*◌, Bool, true, false, Option, none, some, List, [], ◌∷◌, ◌++◌,
  length, take, leb, Outcome, ret, fault, ◌>>=◌, if◌then◌else◌,
}
use rb_monitor.Prelude.Int.{negsuc, ℤ, ltb_ℤ, pos}
use rb_monitor.Prelude.Text.{Text, codes}
use rb_monitor.Platform.{Platform}

-- A node of a string list: its string and its `len`, and the flags STRING_LIST_STR_F_COPY and
-- STRING_LIST_STR_F_FREE.
pub record Node : Type 0 where
  pub str : Text
  pub len : ℕ
  pub copy : Bool
  pub free : Bool

abbrev pub StringList : Type 0
StringList = List Node

-- With `copy`, `len` bytes of the string are copied, which is a fault if it has less.
unfoldable pub string_list_append : StringList → Text → ℕ → Bool → Bool → Outcome StringList
string_list_append l str len copy free =
    if copy
    then if leb len (length str)
      then ret (l ++ record { str = take len str; len = len; copy = copy; free = free } ∷ [])
      else fault
    else ret (l ++ record { str = str; len = len; copy = copy; free = free } ∷ [])

-- Its assertion is compiled out.
unfoldable pub string_list_append_const : StringList → Text → ℕ → Bool → Bool → Outcome StringList
unfolding string_list_append
string_list_append_const l str len copy free = string_list_append l str len copy free

-- The conversion of an int to a size_t.
abbrev pub to_size : ℤ → ℕ
to_size (pos n) = n
to_size (negsuc n) = 2 ^ 64 - 1 - n

-- The function sees each string with its length, in order, and changes a state.
unfoldable pub string_list_foreach_arg {ℓ} : {S : Type ℓ} → StringList → (Text → ℕ → S → S) → S → S
string_list_foreach_arg [] function arg = arg
string_list_foreach_arg (node ∷ list) function arg =
    string_list_foreach_arg list function (function node.str node.len arg)

-- Both lists after the move of `l2` to the end of `l1`.
unfoldable pub string_list_move : StringList → StringList → StringList × StringList
string_list_move l1 l2 = (l1 ++ l2, [])

-- What the functions of the file call elsewhere: rb_zk_mutex_lock and rb_zk_queue_pop with their
-- paths, and rb_zk_queue_push with its path and value.
pub data ZkCall : Type 0 where
  mutex_lock : Text → ZkCall
  queue_pop : Text → Text → ZkCall
  queue_push : Text → Text → ZkCall

abbrev pub zookeeper_tasks_path_leaf : Text
zookeeper_tasks_path_leaf = codes "/rb_monitor/sensors/sensor_"

abbrev pub zookeeper_mutex_path_leaf : Text
zookeeper_mutex_path_leaf = codes "/rb_monitor/lock/sensors_list_"

abbrev pub zookeeper_leader_leaf_name : Text
zookeeper_leader_leaf_name = codes "/rb_monitor/leader/leader_prop_"

unfoldable pub sensors_queue_poll_loop_start : List ZkCall
sensors_queue_poll_loop_start = queue_pop zookeeper_tasks_path_leaf zookeeper_mutex_path_leaf ∷ []

unfoldable pub rb_zk_pop_error_cb : List ZkCall
unfolding sensors_queue_poll_loop_start
rb_zk_pop_error_cb = sensors_queue_poll_loop_start

unfoldable pub rb_zk_pop_delete_completed_cb : List ZkCall
unfolding sensors_queue_poll_loop_start
rb_zk_pop_delete_completed_cb = sensors_queue_poll_loop_start

unfoldable pub rb_monitor_push_sensor : Text → ℕ → List ZkCall → List ZkCall
rb_monitor_push_sensor str len calls =
    calls ++ queue_push zookeeper_tasks_path_leaf (take len str) ∷ []

unfoldable pub try_to_be_master : List ZkCall
try_to_be_master = mutex_lock zookeeper_leader_leaf_name ∷ []

unfoldable pub leader_lock_error_cb : List ZkCall
unfolding try_to_be_master
leader_lock_error_cb = try_to_be_master

module _ (p : Platform) where
  -- The struct. `timer` is the interval of the timer in ms while it runs; `scheduled` is how often
  -- the worker thread still has to run rb_monitor_zk_add_popped_sensors_to_monitor_queue.
  pub record MonitorZk : Type 0 where
    pub push_timeout : ℕ
    pub pop_sensors_list : StringList
    pub push_sensors_list : StringList
    pub i_am_leader : Bool
    pub timer : Option ℕ
    pub workers_queue : List p.Json
    pub scheduled : ℕ

  -- queue_sensor, with the parsed object; a text that is no JSON is logged.
  abbrev pub queue_parsed : Option p.Json → MonitorZk → MonitorZk
  queue_parsed none rb_mzk = rb_mzk
  queue_parsed (some obj) rb_mzk = record rb_mzk {
    workers_queue = rb_mzk.workers_queue ++ obj ∷ [];
  }

  unfoldable pub rb_monitor_zk_add_sensor_to_monitor_queue : Text → ℕ → MonitorZk → MonitorZk
  rb_monitor_zk_add_sensor_to_monitor_queue str len rb_mzk = queue_parsed (p.json_parse str) rb_mzk

  unfoldable pub rb_monitor_zk_add_popped_sensors_to_monitor_queue : MonitorZk → MonitorZk
  unfolding string_list_move string_list_foreach_arg rb_monitor_zk_add_sensor_to_monitor_queue
  rb_monitor_zk_add_popped_sensors_to_monitor_queue rb_mzk =
      let moved = string_list_move [] rb_mzk.pop_sensors_list in
      string_list_foreach_arg moved.0 rb_monitor_zk_add_sensor_to_monitor_queue
        (record rb_mzk { pop_sensors_list = moved.1 })

  -- An error code is logged, and the value is appended all the same. `value_len` is an int, -1 for a
  -- null value.
  unfoldable pub rb_zk_pop_data_cb : Text → ℤ → MonitorZk → Outcome MonitorZk
  unfolding string_list_append_const
  rb_zk_pop_data_cb value value_len rb_mzk =
      string_list_append_const rb_mzk.pop_sensors_list value (to_size value_len) true false
      >>= (λ l. ret (record rb_mzk { pop_sensors_list = l; scheduled = suc rb_mzk.scheduled }))

  -- The callback of the timer.
  unfoldable pub rb_monitor_leader_push_sensors : MonitorZk → List ZkCall
  unfolding string_list_foreach_arg rb_monitor_push_sensor
  rb_monitor_leader_push_sensors rb_mzk =
      string_list_foreach_arg rb_mzk.push_sensors_list rb_monitor_push_sensor []

  -- `obtained` is rb_zk_mutex_obtained.
  unfoldable pub leader_lock_status_chage_cb : Bool → MonitorZk → MonitorZk
  leader_lock_status_chage_cb obtained monitor_zk = record monitor_zk {
    i_am_leader = obtained;
    timer = if obtained then some (monitor_zk.push_timeout * 1000) else none;
  }

  abbrev pub append_sensor : Option Text → StringList → Outcome StringList
  append_sensor none l = ret l
  append_sensor (some sensor_str) l =
      string_list_append_const l sensor_str (length sensor_str) true false

  abbrev pub sensor_text : Option p.Json → Option Text
  sensor_text none = none
  sensor_text (some value) = p.json_to_text value

  -- The list of sensors to push, from the elements of the array; a null element, and one with no
  -- text, is logged. The result of the C function, the length of the array, is not used.
  unfoldable pub rb_monitor_zk_parse_sensors :
      List (Option p.Json) → StringList → Outcome StringList
  unfolding string_list_append_const
  rb_monitor_zk_parse_sensors [] l = ret l
  rb_monitor_zk_parse_sensors (value ∷ rest) l =
      append_sensor (sensor_text value) l >>= rb_monitor_zk_parse_sensors rest

  -- The part of init_rbmon_zk that makes the state, and the calls behind zk_prepare.
  unfoldable pub init_state :
      ℕ → List (Option p.Json) → List p.Json → Outcome (MonitorZk × List ZkCall)
  unfolding rb_monitor_zk_parse_sensors try_to_be_master sensors_queue_poll_loop_start
  init_state push_timeout zk_sensors workers_queue =
      rb_monitor_zk_parse_sensors zk_sensors [] >>= (λ l. ret (
        record {
          push_timeout = push_timeout;
          pop_sensors_list = [];
          push_sensors_list = l;
          i_am_leader = false;
          timer = none;
          workers_queue = workers_queue;
          scheduled = 0;
        },
        try_to_be_master ++ sensors_queue_poll_loop_start,
      ))

  -- What runs next, to its end: a callback, the worker thread, or the callback of the timer. In
  -- `overlapped` rb_zk_pop_data_cb runs while the worker thread is in string_list_move.
  pub data Event : Type 0 where
    popped : Text → ℤ → Event
    overlapped : Text → ℤ → Event
    work : Event
    status : Bool → Event
    tick : Event
    lock_failed : Event
    pop_failed : Event
    pop_deleted : Event

  -- The worker thread runs what is scheduled, the timer while it runs.
  abbrev pub worked : ℕ → MonitorZk → MonitorZk
  unfolding rb_monitor_zk_add_popped_sensors_to_monitor_queue
  worked zero rb_mzk = rb_mzk
  worked (suc scheduled) rb_mzk =
      rb_monitor_zk_add_popped_sensors_to_monitor_queue (record rb_mzk { scheduled = scheduled })

  abbrev pub ticked : Option ℕ → MonitorZk → List ZkCall
  unfolding rb_monitor_leader_push_sensors
  ticked none rb_mzk = []
  ticked (some interval) rb_mzk = rb_monitor_leader_push_sensors rb_mzk

  unfoldable pub step : Event → MonitorZk → Outcome (MonitorZk × List ZkCall)
  unfolding rb_zk_pop_data_cb leader_lock_status_chage_cb leader_lock_error_cb rb_zk_pop_error_cb
      rb_zk_pop_delete_completed_cb
  step (popped value len) z = rb_zk_pop_data_cb value len z >>= (λ z'. ret (z', []))
  -- string_list_append takes no lock: a data race on the list
  step (overlapped value len) z = fault
  step work z = ret (worked z.scheduled z, [])
  step (status obtained) z = ret (leader_lock_status_chage_cb obtained z, [])
  step tick z = ret (z, ticked z.timer z)
  step lock_failed z = ret (z, leader_lock_error_cb)
  step pop_failed z = ret (z, rb_zk_pop_error_cb)
  step pop_deleted z = ret (z, rb_zk_pop_delete_completed_cb)

  -- The state after the events, and each call in order.
  unfoldable pub run : List Event → MonitorZk → Outcome (MonitorZk × List ZkCall)
  unfolding step
  run [] z = ret (z, [])
  run (event ∷ events) z =
      step event z >>= (λ r. run events r.0 >>= (λ r'. ret (r'.0, r.1 ++ r'.1)))
