-- ===== src/Lib.antt =====
-- rb_monitor: it asks sensors for values, over SNMP, by shell commands and by operations on other
-- values, and sends each value that is new as a JSON message to Kafka or HTTP.
--
-- A worker takes a sensor and makes one pass over its monitors (process_monitors_array). For each
-- monitor in turn it selects the values that an operation reads, gets a new value from the shell, an
-- SNMP agent or libmatheval, compares it with the last known one, and prints and sends what changed.
-- Later monitors of the pass read the values of earlier ones.
--
-- Files and code:
--   Array: src/rb_array.h, src/rb_array.c. The memory behind the struct is a list of cells.
--   Value: struct monitor_value and new_monitor_value_array (src/rb_value.h, src/rb_value.c);
--     Value.Select: rb_monitor_value_array_select; Value.Print: print_monitor_value and the message
--     array of src/rb_message_list.h.
--   Monitor: struct rb_monitor_s and process_novector_monitor (src/rb_sensor_monitor.c);
--     Monitor.Vector: vector_elements, extract_vector_value, process_vector_monitor;
--     Monitor.Operation: op_libmatheval_vars and rb_monitor_op_*, with src/rb_libmatheval.h;
--     Monitor.External: rb_monitor_get_external_value and process_sensor_monitor;
--     Monitor.Parse: parse_rb_monitor, a monitor from its description.
--   Json: the getters of src/rb_json.h, and src/rb_json.c.
--   Sensor: parse_rb_sensor and process_rb_sensor (src/rb_sensor.c).
--   System: trim_end and system_solve_response (src/rb_system.h).
--   Snmp: snmp_solve_response and net_snmp_version (src/rb_snmp.c); Snmp.Session: new_snmp_session.
--   Monitors: src/rb_sensor_monitor_array.c. Monitors.Dependencies: find_monitor_pos and
--     get_monitors_dependencies; Monitors.Parse: parse_rb_monitors; Monitors.Update:
--     process_monitor_value; Monitors.Pass: process_monitors_array, its state the last known values,
--     the values of this pass and the messages that were sent; Monitors.Pass.Sessions: its session.
--   Sensors: parse_sensors (src/main.c). It and parse_rb_monitors share a loop, Array.Parse.
--   Workers: the main loop and the workers of src/main.c, with the lock and the reference count of a
--     sensor: the state that they share, and a relation with a step for each operation on it, taken
--     by one thread at a time in any order.
--   Config: parse_json_config (src/main.c), its two structs one record; Config.Zookeeper:
--     parse_zookeeper_json, and Config.Zookeeper.Given what a section gives. Main: the options, the
--     ZooKeeper section and the exits of main; Main.Pause: the pauses of its loop; Main.Http: process_rb_http_options; Main.Shutdown: the end of main. Send: the sending of
--     messages.
--   Zk: the mutex of src/rb_zk.c, each function with the answers of the client as arguments and
--     its calls as a list; Zk.Election: many mutexes on one directory, with a step for each
--     function that runs and for what the server does; Zk.Queue: the queue element;
--     Zk.Queue.Fifo: a queue that many processes push to and pop from, one pop at a time, with a
--     step for each function of a pop that runs; Zk.Context: the lists of struct rb_zk and the locks that wait; Zk.Client: the
--     handle of the client, and the events that change the connection; Zk.Paths:
--     rb_zk_create_recursive_node.
--   MonitorZk: src/rb_monitor_zk.c, its state changed by a list of events: the callbacks, the worker
--     thread and the timer.
--   Platform: what the program calls and does not define. Double arithmetic, strtod, sscanf and
--     printf at a double, librd, libmatheval and json-c are fields of a record that every definition
--     takes as an argument. What the shell and the SNMP agent answer is the record Outside of
--     Monitor.External, another one for each monitor of a pass.
--   Prelude: lists and texts over the native numbers, integers, and the outcome of a run.
--   Tests: runs at concrete inputs.
--
-- How C is modelled. A run returns, or it is a fault (a read or a write outside the memory of an
-- array or a buffer, a member of a union that was not written, a null pointer that is read, a lock
-- that the thread holds and takes again), or the fuel of a `while` runs out.
-- A message array has the messages that are asked for, and beside them the bytes that are allocated,
-- which are fewer: the writes behind them are not faults here. An event of the ZooKeeper client runs
-- to its end before the next one, and a data race of two threads on a list is a fault.
-- The build defines NDEBUG, so assertions are compiled out and the model has none. Allocation
-- succeeds, and memory is never reused: freeing is not modelled. C strings are lists of bytes with
-- no terminator. The children and the aggregate of an array value are always plain values, since
-- process_novector_monitor makes all of them. Timestamps are integers, and the difference of two is
-- taken to fit. A pass takes an array of monitors as the list of its elements, which are never null.
-- A JSON object is a value: that a sensor's enrichment is a part of the description, and changes it,
-- is not seen, since nothing reads the description again.
--
-- Fuel. Only the loops over a split response take fuel, a round for each byte of the response and
-- one more: each round but the last passes the split token, which has a byte.
--
-- ZooKeeper. The server is not code of the repository: a step of Zk.Election may give any name to a
-- new node that is above each name given before, has no '/' and fits a buffer with its directory; an
-- answer lists the nodes there are at that moment; nodes may go at any time, and any call may fail.
-- A mutex is a value that is passed on, so that a callback never runs on a freed one.
--
-- Not modelled: signals, and the threads that poll for reports, which only call libraries.
-- leaders_avl of src/rb_zk.c is left out, since nothing is inserted there. The pass of a worker
-- has no step of its own in Workers: it changes only what the lock of the sensor guards.
pub mod Prelude
pub mod Platform
pub mod Value
pub mod Monitor
pub mod Array
pub mod Monitors
pub mod System
pub mod Json
pub mod Snmp
pub mod Sensor
pub mod Sensors
pub mod Workers
pub mod Zk
pub mod MonitorZk
pub mod Config
pub mod Send
pub mod Main
pub mod Tests
