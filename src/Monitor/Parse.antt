-- ===== src/Monitor/Parse.antt =====
-- src/rb_sensor_monitor.c: parse_rb_monitor, a monitor from its JSON description.
pub mod Enrichment
pub mod Parsed
use mathlib.Core.Option
use rb_monitor.Prelude.{
  Bool, true, false, ◌||◌, Option, none, some, List, [], ◌∷◌, ◌++◌, Outcome, ret, fault, ◌>>=◌,
  if◌then◌else◌,
}
use rb_monitor.Prelude.Int.{ℤ, pos, nonzero, to_int}
use rb_monitor.Prelude.Text.{Text, codes, text_eq}
use rb_monitor.Platform.{Platform}
use rb_monitor.Json.{
  parse_child_int64, parse_child_str, json_object_copy0_childs, json_object_object_copy,
}
use rb_monitor.Monitor.{Monitor, MonitorCmdType}

-- The keys of MONITOR_CMDS_X, in the order in which they are tried.
abbrev pub cmd_keys : List (Text × MonitorCmdType)
cmd_keys =
    (codes "system", MonitorCmdType.system)
    ∷ (codes "oid", MonitorCmdType.oid)
    ∷ (codes "op", MonitorCmdType.op)
    ∷ []

-- The type that an enrichment shows.
unfoldable pub rb_monitor_type : MonitorCmdType → Text
rb_monitor_type MonitorCmdType.system = codes "system"
rb_monitor_type MonitorCmdType.oid = codes "snmp"
rb_monitor_type MonitorCmdType.op = codes "op"

unfoldable pub valid_split_op : Text → Bool
valid_split_op split_op = text_eq (codes "sum") split_op || text_eq (codes "mean") split_op

-- An invalid split operation is dropped.
unfoldable pub kept_split_op : Option Text → Option Text
unfolding valid_split_op
kept_split_op none = none
kept_split_op (some split_op) = if valid_split_op split_op then some split_op else none

-- An operation has no timestamps.
unfoldable pub kept_timestamp : MonitorCmdType → ℤ → ℤ
kept_timestamp MonitorCmdType.system given = given
kept_timestamp MonitorCmdType.oid given = given
kept_timestamp MonitorCmdType.op given = pos 0

module _ (p : Platform) where
  -- The loop over the keys. A key that is there decides, also if its value is null.
  unfoldable pub extract_from :
      List (Text × MonitorCmdType) → p.Json → Option (MonitorCmdType × Text)
  extract_from [] json_monitor = none
  extract_from ((key, type) ∷ rest) json_monitor = elim (p.json_member json_monitor key) [
    | none ↦ extract_from rest json_monitor
    | some none ↦ none
    | some (some json_cmd_arg) ↦ some (type, p.json_string json_cmd_arg)
  ]

  unfoldable pub extract_monitor_cmd : p.Json → Option (MonitorCmdType × Text)
  unfolding extract_from
  extract_monitor_cmd json_monitor = extract_from cmd_keys json_monitor

  -- The enrichment of the monitor is added to the copy of the sensor's. The loop reads through a
  -- null pointer if it is no object.
  unfoldable pub add_monitor_enrichment : p.Json → p.Json → Outcome p.Json
  add_monitor_enrichment json_monitor enrichment =
      elim (p.json_member json_monitor (codes "enrichment")) [
        | none ↦ ret enrichment
        | some none ↦ fault
        | some (some monitor_enrichment) ↦
            if p.json_is_object monitor_enrichment
            then ret (json_object_copy0_childs p enrichment (p.json_members monitor_enrichment))
            else fault
      ]

  -- An entry of enrichment_add: one with a null text has no key and is not added.
  unfoldable pub enrichment_str : Text → Option Text → List (Text × Option p.Json)
  enrichment_str mkey none = []
  enrichment_str mkey (some mval) = (mkey, some (p.json_new_string mval)) ∷ []

  -- enrichment_add: the type, and the unit and the group's name if they are given.
  unfoldable pub enrichment_add :
      MonitorCmdType → Option Text → Option Text → List (Text × Option p.Json)
  unfolding rb_monitor_type enrichment_str
  enrichment_add type unit group_name =
      (codes "type", some (p.json_new_string (rb_monitor_type type)))
        ∷ enrichment_str (codes "unit") unit
      ++ enrichment_str (codes "group_name") group_name

  -- The enrichment of a monitor that has a name; null if the sensor's enrichment is no object.
  unfoldable pub monitor_enrichment : MonitorCmdType → p.Json → p.Json → Outcome (Option p.Json)
  unfolding add_monitor_enrichment enrichment_add
  monitor_enrichment type json_monitor sensor_enrichment =
      elim (json_object_object_copy p sensor_enrichment) [
        | none ↦ ret none
        | some copy ↦ add_monitor_enrichment json_monitor copy >>= λ enrichment. ret (
            some (
              json_object_copy0_childs p enrichment (
                enrichment_add type (parse_child_str p json_monitor (codes "unit"))
                  (parse_child_str p json_monitor (codes "group_name")))))
      ]

  -- The members of a monitor, without its name and its enrichment. `argument` is never set.
  unfoldable pub monitor_of : MonitorCmdType → Text → p.Json → Text → p.Json → Monitor p.Json
  unfolding kept_split_op kept_timestamp
  monitor_of type cmd_arg json_monitor name enrichment = record {
    type = type;
    name = name;
    argument = none;
    name_split_suffix = parse_child_str p json_monitor (codes "name_split_suffix");
    instance_prefix = parse_child_str p json_monitor (codes "instance_prefix");
    group_id = parse_child_str p json_monitor (codes "group_id");
    send = nonzero (parse_child_int64 p json_monitor (codes "send") (pos 1));
    timestamp_given = nonzero (
        kept_timestamp type
          (to_int (parse_child_int64 p json_monitor (codes "timestamp_given") (pos 0))));
    integer = nonzero (parse_child_int64 p json_monitor (codes "integer") (pos 0));
    splittok = parse_child_str p json_monitor (codes "split");
    splitop = kept_split_op (parse_child_str p json_monitor (codes "split_op"));
    cmd_arg = cmd_arg;
    enrichment = some enrichment;
  }

  unfoldable pub parse_rb_monitor0 :
      MonitorCmdType → Text → p.Json → p.Json → Outcome (Option (Monitor p.Json))
  unfolding monitor_enrichment monitor_of
  parse_rb_monitor0 type cmd_arg json_monitor sensor_enrichment =
      elim (parse_child_str p json_monitor (codes "name")) [
        | none ↦ ret none
        | some name ↦ monitor_enrichment type json_monitor sensor_enrichment >>= λ enrichment.
            ret (Option.map (monitor_of type cmd_arg json_monitor name) enrichment)
      ]

  -- A null description has no members.
  unfoldable pub parse_rb_monitor : Option p.Json → p.Json → Outcome (Option (Monitor p.Json))
  unfolding extract_monitor_cmd parse_rb_monitor0
  parse_rb_monitor none sensor_enrichment = ret none
  parse_rb_monitor (some json_monitor) sensor_enrichment = elim (extract_monitor_cmd json_monitor) [
    | none ↦ ret none
    | some (type, cmd_arg) ↦ parse_rb_monitor0 type cmd_arg json_monitor sensor_enrichment
  ]
