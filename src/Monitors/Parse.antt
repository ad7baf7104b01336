-- ===== src/Monitors/Parse.antt =====
-- src/rb_sensor_monitor_array.c: parse_rb_monitors, the monitors of a sensor from their JSON array.
pub mod Contents
use rb_monitor.Prelude.{none, some, Outcome, fault}
use rb_monitor.Platform.{Platform}
use rb_monitor.Array.{RbArray}
use rb_monitor.Array.Parse.{parse_elements}
use rb_monitor.Monitor.{Monitor}
use rb_monitor.Monitor.Parse.{parse_rb_monitor}

-- The length of what is no array is not defined.
unfoldable pub parse_rb_monitors :
    (p : Platform) → p.Json → p.Json → Outcome (RbArray (Monitor p.Json))
unfolding parse_elements
parse_rb_monitors p sensor_enrichment monitors_array_json =
    elim (p.json_elements monitors_array_json) [
      | none ↦ fault
      | some jsons ↦ parse_elements (λ json. parse_rb_monitor p json sensor_enrichment) jsons
    ]
