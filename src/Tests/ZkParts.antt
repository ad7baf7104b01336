-- ===== src/Tests/ZkParts.antt =====
-- Paths, queues, pending locks and the sensors of the ZooKeeper part at concrete inputs.
use rb_monitor.Prelude.{
  length, ◌≤◌, ◌≡◌, refl, true, false, Option, none, some, List, [], ◌∷◌, ◌++◌, ret, fault, arith,
}
use rb_monitor.Prelude.Int.{pos, negsuc}
use rb_monitor.Prelude.Text.{Text, codes}
use rb_monitor.Prelude.Text.Order.{text_lt, strrchr}
use rb_monitor.Zk.Paths.{
  create_each, rb_zk_create_recursive_node, create_each-rb_zk_create_recursive_node,
}
use rb_monitor.Zk.Queue.{
  aget, ◌andthen◌, min_loop, min_str, rb_zk_queue_pop_minimum0, rb_zk_queue_child_watcher,
}
use rb_monitor.Zk.Queue.Minimum.{IsMinimum}
use rb_monitor.Zk.Queue.Pop.{
  PopAnswers, pop_once, popping, chosen_path, pop_once_takes_minimum, taking, errors, unlocks,
  pop_once_fails, watched_pops_once,
}
use rb_monitor.MonitorZk.{
  MonitorZk, ZkCall, queue_push, zookeeper_tasks_path_leaf, Event, popped, work, status, tick, step,
  run, init_state, rb_monitor_zk_parse_sensors, string_list_append_const, string_list_append,
  leader_lock_status_chage_cb, try_to_be_master, sensors_queue_poll_loop_start,
}
use rb_monitor.MonitorZk.Delivered.{arrived, run-arrived}
use rb_monitor.MonitorZk.Leader.{whole_node, tick_pushes}
use rb_monitor.Tests.Setup.{sums}
use rb_monitor.Tests.JsonData.{JsonData, text}

create_each-rb_zk_create_recursive_node_example :
    (create_each (codes "/rb/lock") ≡ ret (codes "/rb" ∷ codes "/rb/lock" ∷ []))
    × (rb_zk_create_recursive_node (codes "/rb/lock") ≡ fault)
unfolding strrchr
create_each-rb_zk_create_recursive_node_example =
    create_each-rb_zk_create_recursive_node (codes "rb") (codes "lock" ∷ []) (refl, (refl, tt))

abbrev children : List (Option Text)
children = some (codes "s3") ∷ none ∷ some (codes "s1") ∷ some (codes "s2") ∷ []

abbrev good : PopAnswers
good = record {
  aget_children_rc = pos 0;
  children_rc = pos 0;
  children = children;
  aget_rc = pos 0;
  value_rc = pos 0;
  value = codes "a";
  adelete_rc = pos 0;
  deleted_rc = pos 0;
}

abbrev path : Text
path = codes "/q/s"

pop_once_takes_minimum_example :
    (minimum : Text) × IsMinimum children (some minimum)
    × (pop_once good (popping path) ≡ record { calls = taking path minimum good; element = none })
pop_once_takes_minimum_example = pop_once_takes_minimum path (codes "s3") good (0, refl) refl refl

the_first_of_the_queue : min_str children ≡ some (codes "s1")
unfolding min_str min_loop text_lt
the_first_of_the_queue = refl

abbrev unread : PopAnswers
unread = record good { value_rc = negsuc 3 }

pop_once_fails_example :
    (errors (pop_once unread (popping path)).calls ≡ 1)
    × (unlocks (pop_once unread (popping path)).calls ≡ 0)
    × ((pop_once unread (popping path)).element ≡ none)
unfolding min_str min_loop text_lt
pop_once_fails_example = pop_once_fails path (codes "s1") unread refl refl

watched_pops_once_example :
    (rb_zk_queue_pop_minimum0 (pos 0) children true (pos 0) (popping path)
      andthen rb_zk_queue_child_watcher true (pos 0)).calls
    ≡ aget (chosen_path path (codes "s1")) ∷ []
unfolding min_str min_loop text_lt
watched_pops_once_example = watched_pops_once path (pos 0) (pos 0) children refl refl

abbrev fresh : MonitorZk sums
fresh = record {
  push_timeout = 10;
  pop_sensors_list = [];
  push_sensors_list = [];
  i_am_leader = false;
  timer = none;
  workers_queue = [];
  scheduled = 0;
}

-- One value that can be parsed and one that cannot, before the worker thread runs twice.
abbrev arrivals : List (Event sums)
arrivals = popped (codes "ab") (pos 2) ∷ popped (codes "?") (pos 1) ∷ work ∷ status true ∷ work ∷ []

run-arrived_example :
    (z' : MonitorZk sums) × (calls : List ZkCall) × (run sums arrivals fresh ≡ ret (z', calls))
    × (arrived sums z' ≡ text (codes "ab") ∷ [])
    × (length z'.pop_sensors_list ≤ z'.scheduled)
run-arrived_example = run-arrived sums arrivals fresh (omega arith, (omega arith, tt)) refl

abbrev sensors : List (Option JsonData)
sensors = some (text (codes "ab")) ∷ none ∷ []

abbrev begun : MonitorZk sums
begun = record fresh { push_sensors_list = whole_node (codes "ab") ∷ [] }

abbrev leading : MonitorZk sums
leading = record begun { i_am_leader = true; timer = some 10000 }

tick_pushes_example :
    step sums tick leading ≡ ret (leading, queue_push zookeeper_tasks_path_leaf (codes "ab") ∷ [])
unfolding init_state rb_monitor_zk_parse_sensors string_list_append_const string_list_append run
    step leader_lock_status_chage_cb
tick_pushes_example =
    tick_pushes sums 10 sensors [] (status true ∷ []) begun leading
      (try_to_be_master ++ sensors_queue_poll_loop_start) [] refl refl
