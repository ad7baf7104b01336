-- ===== src/Tests/Sensors.antt =====
-- A sensor from its description: two monitors and one that has no name.
use rb_monitor.Prelude.{
  arith, false, ◌≡◌, refl, true, Option, none, some, [], ◌∷◌, Outcome, ret, present, some_each, ℕ,
}
use rb_monitor.Prelude.Int.{pos}
use rb_monitor.Prelude.Text.{Text, codes, text_eq}
use rb_monitor.Array.{rb_array_new, RbArray, contents, IsValid}
use rb_monitor.Json.{
  parse_child0, parse_child_int64, parse_child_str, json_object_copy0_childs,
  json_object_object_copy,
}
use rb_monitor.Monitor.{Monitor}
use rb_monitor.Monitor.External.{Outside}
use rb_monitor.Monitor.Parse.{
  extract_from, extract_monitor_cmd, parse_rb_monitor, parse_rb_monitor0, monitor_enrichment,
  add_monitor_enrichment,
}
use rb_monitor.Monitor.Parse.Parsed.{IsParsed, parse_rb_monitor-IsParsed}
use rb_monitor.Monitors.Parse.{parse_rb_monitors}
use rb_monitor.Monitors.Parse.Contents.{parse_rb_monitors-present}
use rb_monitor.Array.Parse.Present.{AllOf}
use rb_monitor.Sensors.{parse_sensors}
use rb_monitor.Sensors.Runnable.{RunsIfItMay, parse_sensors-present}
use rb_monitor.Sensor.{zero_sensor, Sensor, parse_rb_sensor}
use rb_monitor.Sensor.Parsed.{AllSplitAndShort, parse_rb_sensor-IsRunnable}
use rb_monitor.Workers.{Shared}
use rb_monitor.Workers.Process.{Worked, worker_process_sensor-Worked}
use rb_monitor.Sensor.Runs.{IsRunnable}
use rb_monitor.Tests.JsonData.{
  JsonData, text, integer, object, listed, last_member, member, last_element, element,
}
use rb_monitor.Tests.Setup.{sums, sums-PrintsShort, split_monitor}

abbrev location : JsonData
location = object (member (codes "rack") (integer (pos 4)) last_member)

-- A system monitor with an enrichment of its own.
abbrev cpu_json : JsonData
cpu_json = object (
    member (codes "name") (text (codes "cpu")) (
      member (codes "system") (text (codes "cpus")) (
        member (codes "split") (text (codes ";")) (
          member (codes "unit") (text (codes "%"))
            (member (codes "enrichment") location last_member)))))

abbrev unnamed_json : JsonData
unnamed_json = object (member (codes "oid") (text (codes "1.3")) last_member)

abbrev monitors_json : JsonData
monitors_json = listed (element cpu_json (element unnamed_json last_element))

abbrev room : JsonData
room = object (member (codes "room") (text (codes "b")) last_member)

abbrev result_or : {A : Type 0} → A → Outcome (Option A) → A
result_or default (Outcome.ret (some a)) = a
result_or default (Outcome.ret none) = default
result_or default Outcome.fault = default
result_or default Outcome.out_of_fuel = default

abbrev cpu_monitor : Monitor sums.Json
cpu_monitor = result_or split_monitor (parse_rb_monitor sums (some cpu_json) room)

parse_rb_monitor-IsParsed_example : IsParsed sums cpu_monitor
unfolding parse_rb_monitor extract_monitor_cmd extract_from parse_rb_monitor0 parse_child_str
    parse_child0 text_eq monitor_enrichment json_object_object_copy json_object_copy0_childs
    add_monitor_enrichment
parse_rb_monitor-IsParsed_example =
    parse_rb_monitor-IsParsed sums (some cpu_json) room cpu_monitor refl

parse_rb_monitors-present_example :
    (monitors : RbArray (Monitor sums.Json)) × (parse_rb_monitors sums room monitors_json
      ≡ ret monitors)
    × (contents monitors ≡ some_each (present (some cpu_monitor ∷ none ∷ [])))
    × IsValid monitors
unfolding parse_rb_monitor extract_monitor_cmd extract_from parse_rb_monitor0 parse_child_str
    parse_child0 text_eq monitor_enrichment json_object_object_copy json_object_copy0_childs
    add_monitor_enrichment
parse_rb_monitors-present_example =
    parse_rb_monitors-present sums room monitors_json (some cpu_json ∷ some unnamed_json ∷ [])
      (some cpu_monitor ∷ none ∷ []) refl (refl, (refl, tt))

abbrev sensor_json : JsonData
sensor_json = object (
    member (codes "sensor_name") (text (codes "s")) (
      member (codes "sensor_ip") (text (codes "host")) (
        member (codes "community") (text (codes "public"))
          (member (codes "monitors") monitors_json last_member))))

abbrev the_sensor : Sensor sums
the_sensor = result_or (zero_sensor sums) (parse_rb_sensor sums (pos 5) (some sensor_json))

abbrev no_monitors : RbArray (Monitor sums.Json)
no_monitors = record { size = 0; count = 0; elms = [] }

abbrev or_no_monitors : Option (RbArray (Monitor sums.Json)) → RbArray (Monitor sums.Json)
or_no_monitors none = no_monitors
or_no_monitors (some monitors) = monitors

abbrev the_monitors : RbArray (Monitor sums.Json)
the_monitors = or_no_monitors the_sensor.monitors

the_sensor_is_parsed : parse_rb_sensor sums (pos 5) (some sensor_json) ≡ ret (some the_sensor)
unfolding parse_rb_monitor extract_monitor_cmd extract_from parse_rb_monitor0 parse_child_str
    parse_child0 text_eq monitor_enrichment json_object_object_copy json_object_copy0_childs
    add_monitor_enrichment parse_rb_sensor parse_child_int64 parse_rb_monitors rb_array_new
the_sensor_is_parsed = refl

the_monitors_are_there : the_sensor.monitors ≡ some the_monitors
unfolding parse_rb_monitor extract_monitor_cmd extract_from parse_rb_monitor0 parse_child_str
    parse_child0 text_eq monitor_enrichment json_object_object_copy json_object_copy0_childs
    add_monitor_enrichment parse_rb_sensor parse_child_int64 parse_rb_monitors rb_array_new
the_monitors_are_there = refl

splits : AllSplitAndShort sums (present (contents the_monitors))
unfolding parse_rb_monitor extract_monitor_cmd extract_from parse_rb_monitor0 parse_child_str
    parse_child0 text_eq monitor_enrichment json_object_object_copy json_object_copy0_childs
    add_monitor_enrichment parse_rb_sensor parse_child_int64 parse_rb_monitors rb_array_new
splits = (λ e. cc e, λ e. sums-PrintsShort (codes "cpus"), tt)

the_sensor_runs : IsRunnable sums the_sensor
the_sensor_runs =
    parse_rb_sensor-IsRunnable sums (pos 5) (some sensor_json) the_sensor the_monitors
      the_sensor_is_parsed the_monitors_are_there splits

parse_rb_sensor-IsRunnable_example : IsRunnable sums the_sensor
parse_rb_sensor-IsRunnable_example =
    parse_rb_sensor-IsRunnable sums (pos 5) (some sensor_json) the_sensor the_monitors
      the_sensor_is_parsed the_monitors_are_there splits

abbrev the_outside : ℕ → Outside
the_outside i = record {
  shell = λ command. some (codes "1;2;3");
  snmp = λ oid. none;
  now = pos 100;
}

-- The reference of the array of sensors and that of the worker.
abbrev shared_twice : Shared
shared_twice = record { refcnt = 2; locked = false; freed = false }

worker_process_sensor-Worked_example :
    Worked sums true false the_outside true shared_twice the_sensor
worker_process_sensor-Worked_example =
    worker_process_sensor-Worked sums true false the_outside true shared_twice the_sensor
      (omega arith) the_sensor_runs

abbrev config : JsonData
config = object (member (codes "sensors") (listed (element sensor_json last_element)) last_member)

parse_sensors-present_example :
    (sensors : RbArray (Sensor sums)) × (parse_sensors sums (pos 5) config ≡ ret (some sensors))
    × (contents sensors ≡ some_each (present (some the_sensor ∷ [])))
    × AllOf (RunsIfItMay sums (pos 5)) (present (some the_sensor ∷ []))
unfolding text_eq
parse_sensors-present_example =
    parse_sensors-present sums (pos 5) config (listed (element sensor_json last_element))
      (some sensor_json ∷ []) (some the_sensor ∷ []) refl refl (the_sensor_is_parsed, tt)
