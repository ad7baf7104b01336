-- ===== src/Monitors/Parse/Contents.antt =====
-- src/rb_sensor_monitor_array.c: the array that parse_rb_monitors returns.
use rb_monitor.Prelude.{◌≡◌, present, some_each, inl, inr, Option, some, List, ret, Option-cases}
use rb_monitor.Platform.{Platform}
use rb_monitor.Array.{RbArray, contents, IsValid}
use rb_monitor.Array.Parse.Present.{ParseAll, AllOf, parse_elements-present, parse_elements-AllOf}
use rb_monitor.Monitor.{Monitor}
use rb_monitor.Monitor.Parse.{parse_rb_monitor}
use rb_monitor.Monitor.Parse.Parsed.{IsParsed, parse_rb_monitor-IsParsed}
use rb_monitor.Monitors.Parse.{parse_rb_monitors}

module _ (p : Platform) (sensor_enrichment : p.Json) where
  -- Let each description of the array parse, to a monitor or to null. Then parse_rb_monitors
  -- returns an array that holds exactly the monitors, in the order of their descriptions: the array
  -- is never full before the last of them.
  pub parse_rb_monitors-present :
      (monitors_array_json : p.Json) (js : List (Option p.Json))
      (rs : List (Option (Monitor p.Json)))
      → p.json_elements monitors_array_json ≡ some js
      → ParseAll (λ json. parse_rb_monitor p json sensor_enrichment) js rs
      → (monitors : RbArray (Monitor p.Json)) × (parse_rb_monitors p sensor_enrichment
            monitors_array_json
          ≡ ret monitors)
        × (contents monitors ≡ some_each (present rs))
        × IsValid monitors
  unfolding parse_rb_monitors
  parse_rb_monitors-present monitors_array_json js rs e all =
      let (r, q, c, v) =
        parse_elements-present (λ json. parse_rb_monitor p json sensor_enrichment) js rs all in
      (r, rw (parse_rb_monitors, e) q, c, v)

  -- What is returned holds parsed monitors and no null.
  pub parse_rb_monitors-AllOf :
      (monitors_array_json : p.Json) (monitors : RbArray (Monitor p.Json))
      → parse_rb_monitors p sensor_enrichment monitors_array_json ≡ ret monitors
      → (ms : List (Monitor p.Json)) × (contents monitors ≡ some_each ms)
        × AllOf (IsParsed p) ms
        × IsValid monitors
  unfolding parse_rb_monitors
  parse_rb_monitors-AllOf monitors_array_json monitors h =
      elim (Option-cases (p.json_elements monitors_array_json)) [
        | inl e ↦ let h' = rw (parse_rb_monitors, e) at h in cc h'
        | inr (js, e) ↦
            let (ms, c, all, v) =
              parse_elements-AllOf (λ json. parse_rb_monitor p json sensor_enrichment) (IsParsed p)
                js monitors (λ j m q. parse_rb_monitor-IsParsed p j sensor_enrichment m q)
                (rw (parse_rb_monitors, e) at h) in
            (ms, c, all, v)
      ]
