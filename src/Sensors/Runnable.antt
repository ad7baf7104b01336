-- ===== src/Sensors/Runnable.antt =====
-- src/main.c: the array that parse_sensors returns.
use rb_monitor.Prelude.{◌≡◌, refl, present, some_each, Option, some, List, ret}
use rb_monitor.Prelude.Int.{ℤ}
use rb_monitor.Prelude.Text.{codes}
use rb_monitor.Platform.{Platform}
use rb_monitor.Array.{RbArray, contents}
use rb_monitor.Array.Parse.Present.{ParseAll, AllOf, parse_elements-present, ParseAll-AllOf}
use rb_monitor.Monitor.{Monitor}
use rb_monitor.Sensor.{Sensor, parse_rb_sensor}
use rb_monitor.Sensor.Parsed.{AllSplitAndShort, parse_rb_sensor-IsRunnable}
use rb_monitor.Sensor.Runs.{IsRunnable}
use rb_monitor.Sensors.{parse_sensors, parse_sensors_value}

module _ (p : Platform) (timeout : ℤ) where
  -- The sensor can be processed, if its monitors split and print as they must.
  abbrev pub RunsIfItMay : Sensor p → Type 0
  RunsIfItMay s =
      (array : RbArray (Monitor p.Json))
      → s.monitors ≡ some array
      → AllSplitAndShort p (present (contents array))
      → IsRunnable p s

  -- Let the configuration have an array of sensors, and let each description in it parse, to a sensor
  -- or to null. Then parse_sensors returns an array that holds exactly the sensors, in the order of
  -- their descriptions, and each of them can be processed, if none of its monitors has an empty split
  -- token, and each normal result of its operations prints in fewer than 64 bytes.
  pub parse_sensors-present :
      (config json_sensors : p.Json) (js : List (Option p.Json)) (rs : List (Option (Sensor p)))
      → p.json_member config (codes "sensors") ≡ some (some json_sensors)
      → p.json_elements json_sensors ≡ some js
      → ParseAll (parse_rb_sensor p timeout) js rs
      → (sensors : RbArray (Sensor p)) × (parse_sensors p timeout config ≡ ret (some sensors))
        × (contents sensors ≡ some_each (present rs))
        × AllOf RunsIfItMay (present rs)
  unfolding parse_sensors parse_sensors_value
  parse_sensors-present config json_sensors js rs e e' all =
      let (sensors, q, c, v) = parse_elements-present (parse_rb_sensor p timeout) js rs all in
      (
        sensors,
        rw (parse_sensors, e) (rw (parse_sensors_value, e') (rw q refl)),
        c,
        ParseAll-AllOf (parse_rb_sensor p timeout) RunsIfItMay js rs
            (λ j s h array m split. parse_rb_sensor-IsRunnable p timeout j s array h m split) all,
      )
