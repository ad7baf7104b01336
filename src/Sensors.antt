-- ===== src/Sensors.antt =====
-- src/main.c: parse_sensors, the sensors of the configuration.
pub mod Runnable
use rb_monitor.Prelude.{Option, none, some, Outcome, ret, ◌>>=◌}
use rb_monitor.Prelude.Int.{ℤ}
use rb_monitor.Prelude.Text.{codes}
use rb_monitor.Platform.{Platform}
use rb_monitor.Array.{RbArray}
use rb_monitor.Array.Parse.{parse_elements}
use rb_monitor.Sensor.{Sensor, parse_rb_sensor}

module _ (p : Platform) (timeout : ℤ) where
  -- What stands behind CONFIG_SENSORS_KEY; null if that is no array.
  unfoldable pub parse_sensors_value : Option p.Json → Outcome (Option (RbArray (Sensor p)))
  unfolding parse_elements
  parse_sensors_value none = ret none
  parse_sensors_value (some json_sensors) = elim (p.json_elements json_sensors) [
    | none ↦ ret none
    | some jsons ↦
        parse_elements (parse_rb_sensor p timeout) jsons >>= λ sensors. ret (some sensors)
  ]

  unfoldable pub parse_sensors : p.Json → Outcome (Option (RbArray (Sensor p)))
  unfolding parse_sensors_value
  parse_sensors config = elim (p.json_member config (codes "sensors")) [
    | none ↦ ret none
    | some json_sensors ↦ parse_sensors_value json_sensors
  ]
