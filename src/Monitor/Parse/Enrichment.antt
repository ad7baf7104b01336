-- ===== src/Monitor/Parse/Enrichment.antt =====
-- src/rb_sensor_monitor.c: where the members of a parsed monitor's enrichment come from.
use rb_monitor.Prelude.{◌≡◌, ◌⊎◌, true, Option, none, some, List, []}
use rb_monitor.Prelude.Text.{Text, codes}
use rb_monitor.Platform.{Platform}
use rb_monitor.Json.{parse_child_str}
use rb_monitor.Monitor.{MonitorCmdType}
use rb_monitor.Monitor.Parse.{enrichment_add}

module _ (p : Platform) (json_monitor : p.Json) where
  -- The members of the enrichment that the description gives, if it gives one.
  abbrev pub OwnMembers : List (Text × Option p.Json) → Type 0
  OwnMembers own =
      ((p.json_member json_monitor (codes "enrichment") ≡ none) × (own ≡ []))
      ⊎ ((e : p.Json) × (p.json_member json_monitor (codes "enrichment") ≡ some (some e))
          × (p.json_is_object e ≡ true)
          × (own ≡ p.json_members e))

  -- The type, and the unit and the name of the group that the description gives.
  abbrev pub added_members : MonitorCmdType → List (Text × Option p.Json)
  added_members type =
      enrichment_add p type (parse_child_str p json_monitor (codes "unit"))
        (parse_child_str p json_monitor (codes "group_name"))
