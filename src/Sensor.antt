-- ===== src/Sensor.antt =====
-- src/rb_sensor.c: a sensor, its description in JSON, and a pass over its monitors.
pub mod Parsed
pub mod Runs
use rb_monitor.Prelude.{
  ℕ, ◌+◌, ◌-◌, Bool, true, false, ◌&&◌, Option, none, some, List, Outcome, ret, fault, ◌>>=◌,
  is_some, present, ◌==◌, if◌then◌else◌,
}
use rb_monitor.Prelude.Int.{ℤ, pos, ltb_ℤ, to_int}
use rb_monitor.Prelude.Text.{Text, codes}
use rb_monitor.Platform.{Platform}
use rb_monitor.Array.{RbArray, rb_array_new, contents}
use rb_monitor.Json.{parse_child_int64, parse_child_str, add_json_child0}
use rb_monitor.Snmp.{SnmpVersion, net_snmp_version}
use rb_monitor.Value.{MonitorValue}
use rb_monitor.Value.Print.{Message}
use rb_monitor.Monitor.{Monitor}
use rb_monitor.Monitor.External.{Outside}
use rb_monitor.Monitors.Dependencies.{get_monitors_dependencies}
use rb_monitor.Monitors.Parse.{parse_rb_monitors}
use rb_monitor.Monitors.Pass.{SnmpParams, process_monitors_array}

-- check_setted: a null pointer clears the flag.
unfoldable pub check_setted : {A : Type 0} → Option A → Bool → Bool
check_setted ptr aok = aok && is_some ptr

-- session.version stays as it is if no version is given.
unfoldable pub given_version : Option Text → SnmpVersion → SnmpVersion
unfolding net_snmp_version
given_version none version = version
given_version (some string_version) version = net_snmp_version (some string_version)

module _ (p : Platform) where
  -- struct rb_sensor_s, with sensor_data_t in it.
  pub record Sensor : Type 0 where
    pub enrichment : Option p.Json
    pub snmp_params : SnmpParams
    pub monitors : Option (RbArray (Monitor p.Json))
    pub last_vals : Option (RbArray (MonitorValue p.Double))
    pub op_vars : Option (List (Option (List ℤ)))
    pub refcnt : ℕ

  -- calloc: the version 0 is SNMP_VERSION_1.
  abbrev pub zero_sensor : Sensor
  zero_sensor = record {
    enrichment = none;
    snmp_params = record {
      peername = none;
      community = none;
      timeout = pos 0;
      version = SnmpVersion.version_1;
    };
    monitors = none;
    last_vals = none;
    op_vars = none;
    refcnt = 0;
  }

  unfoldable pub sensor_set_defaults : ℤ → Sensor → Sensor
  sensor_set_defaults timeout sensor = record sensor {
    snmp_params = record sensor.snmp_params { timeout = to_int timeout };
    refcnt = 1;
  }

  -- The name, and the id if it is greater than 0.
  unfoldable pub sensor_create_enrichment : Text → ℤ → p.Json → Outcome (Bool × p.Json)
  unfolding add_json_child0
  sensor_create_enrichment sensor_name sensor_id enrichment =
      add_json_child0 p enrichment (codes "sensor_name") (some (p.json_new_string sensor_name))
      >>= λ named.
          if named.0 && ltb_ℤ (pos 0) sensor_id
          then add_json_child0 p named.1 (codes "sensor_id") (some (p.json_new_int64 sensor_id))
          else ret named

  -- The sensor's enrichment is the object of the description itself, or a new one.
  unfoldable pub given_enrichment : p.Json → p.Json
  given_enrichment sensor_info = elim (p.json_member sensor_info (codes "enrichment")) [
    | none ↦ p.json_new_object
    | some none ↦ p.json_new_object
    | some (some enrichment) ↦ enrichment
  ]

  unfoldable pub parse_snmp_params : p.Json → SnmpParams → SnmpParams
  unfolding given_version
  parse_snmp_params sensor_info params = record {
    peername = parse_child_str p sensor_info (codes "sensor_ip");
    community = parse_child_str p sensor_info (codes "community");
    timeout = to_int (parse_child_int64 p sensor_info (codes "timeout") params.timeout);
    version = given_version (parse_child_str p sensor_info (codes "snmp_version")) params.version;
  }

  -- The monitors, their dependencies, and a null last value for each.
  unfoldable pub with_monitors : RbArray (Monitor p.Json) → Sensor → Sensor
  with_monitors monitors sensor = record sensor {
    monitors = some monitors;
    op_vars = some (get_monitors_dependencies p (present (contents monitors)));
    last_vals = some (record (rb_array_new monitors.count) { count = monitors.count });
  }

  -- What is done with a description that has a name and monitors.
  unfoldable pub parse_named : p.Json → Text → p.Json → Sensor → Outcome (Bool × Sensor)
  unfolding sensor_create_enrichment given_enrichment parse_snmp_params with_monitors
  parse_named sensor_info sensor_name sensor_monitors sensor =
      sensor_create_enrichment sensor_name
        (parse_child_int64 p sensor_info (codes "sensor_id") (pos 0)) (given_enrichment sensor_info)
      >>= λ created. parse_rb_monitors p created.1 sensor_monitors >>= λ monitors.
          let sensor' = record sensor {
            snmp_params = parse_snmp_params sensor_info sensor.snmp_params;
            enrichment = some created.1;
          } in
          if created.0
          then ret (true, with_monitors monitors sensor')
          else ret (false, record sensor' { monitors = some monitors })

  unfoldable pub sensor_common_attrs_parse_json : p.Json → Sensor → Outcome (Bool × Sensor)
  unfolding parse_named
  sensor_common_attrs_parse_json sensor_info sensor =
      elim (parse_child_str p sensor_info (codes "sensor_name")) [
        | none ↦ ret (false, sensor)
        | some sensor_name ↦ elim (p.json_member sensor_info (codes "monitors")) [
          | none ↦ ret (false, sensor)
          | some none ↦ ret (false, sensor)
          | some (some sensor_monitors) ↦ parse_named sensor_info sensor_name sensor_monitors sensor
        ]
      ]

  unfoldable pub sensor_common_attrs_check_sensor : Sensor → Bool
  unfolding check_setted
  sensor_common_attrs_check_sensor sensor =
      check_setted sensor.monitors
        (check_setted sensor.snmp_params.community (check_setted sensor.snmp_params.peername true))

  unfoldable pub sensor_common_attrs : p.Json → Sensor → Outcome (Bool × Sensor)
  unfolding sensor_common_attrs_parse_json sensor_common_attrs_check_sensor
  sensor_common_attrs sensor_info sensor =
      sensor_common_attrs_parse_json sensor_info sensor >>= λ r.
      ret (r.0 && sensor_common_attrs_check_sensor r.1, r.1)

  -- A sensor that is not right is put, and with it goes its only reference. A null description has
  -- no name.
  unfoldable pub parse_rb_sensor : ℤ → Option p.Json → Outcome (Option Sensor)
  unfolding sensor_common_attrs sensor_set_defaults
  parse_rb_sensor timeout none = ret none
  parse_rb_sensor timeout (some sensor_info) =
      sensor_common_attrs sensor_info (sensor_set_defaults timeout zero_sensor) >>= λ r.
      if r.0 then ret (some r.1) else ret none

  -- A pass, on what a sensor holds; a null array is read through.
  unfoldable pub process_arrays :
      (ℕ → Outside)
      → Bool
      → Sensor
      → Option (RbArray (Monitor p.Json))
      → Option (RbArray (MonitorValue p.Double))
      → Option (List (Option (List ℤ)))
      → Outcome (Bool × (Sensor × List Message))
  process_arrays outside session sensor none last_vals op_vars = fault
  process_arrays outside session sensor (some monitors) none op_vars = fault
  process_arrays outside session sensor (some monitors) (some last_vals) none = fault
  process_arrays outside session sensor (some monitors) (some last_vals) (some op_vars) =
      process_monitors_array p outside session (present (contents monitors)) last_vals.elms op_vars
        sensor.snmp_params
      >>= λ r. ret (
        r.0,
        (record sensor { last_vals = some (record last_vals { elms = r.1.last_known }) }, r.1.sent),
      )

  -- The last known values change in place; the messages are those that were sent.
  unfoldable pub process_rb_sensor :
      (ℕ → Outside) → Bool → Sensor → Outcome (Bool × (Sensor × List Message))
  unfolding process_arrays
  process_rb_sensor outside session sensor =
      process_arrays outside session sensor sensor.monitors sensor.last_vals sensor.op_vars
