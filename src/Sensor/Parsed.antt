-- ===== src/Sensor/Parsed.antt =====
-- src/rb_sensor.c: the sensor that parse_rb_sensor returns.
use mathlib.Core.Option.{some-injective}
use rb_monitor.Prelude.{
  and_true, ◌≡◌, ◌≢◌, refl, sym, subst, ap, ◌∙◌, Bool, true, false, ◌&&◌, inl, inr, Option-cases,
  Option, none, some, List, [], ◌∷◌, arith, Outcome, ret, >>=-eq-ret, is_some, present, some_each,
  present-some_each, length-some_each, length, length-take, replicate, if◌then◌else◌,
}
use rb_monitor.Prelude.Int.{ℤ, pos}
use rb_monitor.Prelude.Text.{Text, codes}
use rb_monitor.Platform.{Platform}
use rb_monitor.Array.{RbArray, rb_array_new, contents, IsValid}
use rb_monitor.Json.{parse_child_int64, parse_child_str}
use rb_monitor.Monitor.{Monitor, MonitorCmdType}
use rb_monitor.Monitor.Operation.Safe.{PrintsShort}
use rb_monitor.Monitors.Dependencies.{get_monitors_dependencies}
use rb_monitor.Monitors.Parse.{parse_rb_monitors}
use rb_monitor.Array.Parse.Present.{AllOf}
use rb_monitor.Monitor.Parse.Parsed.{IsParsed}
use rb_monitor.Monitors.Parse.Contents.{parse_rb_monitors-AllOf}
use rb_monitor.Monitors.Pass.Fits.{AllFit}
use rb_monitor.Monitors.Pass.Safe.{AllWellFormed}
use rb_monitor.Sensor.{
  Sensor, zero_sensor, sensor_set_defaults, sensor_create_enrichment, given_enrichment,
  parse_snmp_params, with_monitors, parse_named, check_setted, sensor_common_attrs_parse_json,
  sensor_common_attrs_check_sensor, sensor_common_attrs, parse_rb_sensor,
}
use rb_monitor.Sensor.Runs.{IsRunnable}

true_branch :
    {A : Type 0} (b : Bool) (x y s : A)
    → if◌then◌else◌ {A = Outcome (Bool × A)} b (ret (true, x)) (ret (false, y)) ≡ ret (true, s)
    → x ≡ s
true_branch true x y s h = cc
true_branch false x y s h = cc

some_branch :
    {A : Type 0} (b : Bool) (x s : A)
    → (if b then ret (some x) else ret none) ≡ ret (some s)
    → (b ≡ true) × (x ≡ s)
some_branch true x s h = (refl, cc)
some_branch false x s h = cc

module _ (p : Platform) where
  -- No monitor has an empty split token, and each normal result of an operation prints in fewer than
  -- 64 bytes.
  abbrev pub AllSplitAndShort : List (Monitor p.Json) → Type 0
  AllSplitAndShort [] = Unit {0}
  AllSplitAndShort (m ∷ ms) =
      (m.splittok ≢ some [])
      × (m.type ≡ MonitorCmdType.op → PrintsShort p m.cmd_arg)
      × AllSplitAndShort ms

  parsed-AllWellFormed :
      (enrichment : p.Json) (ms : List (Monitor p.Json))
      → AllOf (IsParsed p) ms
      → AllSplitAndShort ms
      → AllWellFormed p ms
  parsed-AllWellFormed enrichment [] parsed h = tt
  parsed-AllWellFormed enrichment (m ∷ ms) parsed h = (
    record { token = h.0; op_timestamp = parsed.0.op_timestamp; short = h.1 },
    parsed-AllWellFormed enrichment ms parsed.1 h.2,
  )

  replicate-AllFit : (ms : List (Monitor p.Json)) → AllFit p ms (replicate (length ms) none)
  replicate-AllFit [] = tt
  replicate-AllFit (m ∷ ms) = (tt, replicate-AllFit ms)

  -- The sensor has parsed monitors with their dependencies, and a null last value for each.
  abbrev HasMonitors : Sensor p → Type 0
  HasMonitors s =
      (array : RbArray (Monitor p.Json)) × (ms : List (Monitor p.Json)) × (enrichment : p.Json)
      × (s.monitors ≡ some array)
      × (s.op_vars ≡ some (get_monitors_dependencies p (present (contents array))))
      × (s.last_vals ≡ some (record (rb_array_new array.count) { count = array.count }))
      × (contents array ≡ some_each ms)
      × AllOf (IsParsed p) ms
      × IsValid array

  parse_named-HasMonitors :
      (sensor_info : p.Json) (sensor_name : Text) (sensor_monitors : p.Json) (sensor s : Sensor p)
      → parse_named p sensor_info sensor_name sensor_monitors sensor ≡ ret (true, s)
      → HasMonitors s
  unfolding parse_named with_monitors
  parse_named-HasMonitors sensor_info sensor_name sensor_monitors sensor s h =
      let (created, e0, h1) =
        >>=-eq-ret
          (sensor_create_enrichment p sensor_name
            (parse_child_int64 p sensor_info (codes "sensor_id") (pos 0))
            (given_enrichment p sensor_info))
          _ h in
      let (array, e1, h2) = >>=-eq-ret (parse_rb_monitors p created.1 sensor_monitors) _ h1 in
      let (ms, c, parsed, v) = parse_rb_monitors-AllOf p created.1 sensor_monitors array e1 in
      let same =
        true_branch created.0
          (with_monitors p array (record sensor {
            snmp_params = parse_snmp_params p sensor_info sensor.snmp_params;
            enrichment = some created.1;
          }))
          _ s h2 in
      subst HasMonitors same (array, ms, created.1, refl, refl, refl, c, parsed, v)

  parse_json-HasMonitors :
      (sensor_info : p.Json) (sensor s : Sensor p)
      → sensor_common_attrs_parse_json p sensor_info sensor ≡ ret (true, s)
      → HasMonitors s
  unfolding sensor_common_attrs_parse_json
  parse_json-HasMonitors sensor_info sensor s h =
      elim (Option-cases (parse_child_str p sensor_info (codes "sensor_name"))) [
        | inl e ↦ let h' = rw (sensor_common_attrs_parse_json, e) at h in cc h'
        | inr (name, e) ↦ elim (Option-cases (p.json_member sensor_info (codes "monitors"))) [
          | inl e1 ↦ let h' = rw (sensor_common_attrs_parse_json, e, e1) at h in cc h'
          | inr (member, e1) ↦ elim (Option-cases member) [
            | inl e2 ↦ let h' = rw (sensor_common_attrs_parse_json, e, e1, e2) at h in cc h'
            | inr (sensor_monitors, e2) ↦
                parse_named-HasMonitors sensor_info name sensor_monitors sensor s
                  (rw (sensor_common_attrs_parse_json, e, e1, e2) at h)
          ]
        ]
      ]

  -- The check finds a peername and a community.
  check-both :
      (s : Sensor p)
      → sensor_common_attrs_check_sensor p s ≡ true
      → (is_some s.snmp_params.peername ≡ true) × (is_some s.snmp_params.community ≡ true)
  unfolding sensor_common_attrs_check_sensor check_setted
  check-both s h =
      let peername = is_some s.snmp_params.peername in
      let community = is_some s.snmp_params.community in
      let (both, monitors) = and_true (peername && community) (is_some s.monitors) h in
      and_true peername community both

  common_attrs-HasMonitors :
      (sensor_info : p.Json) (sensor s : Sensor p)
      → sensor_common_attrs p sensor_info sensor ≡ ret (true, s)
      → HasMonitors s × (sensor_common_attrs_check_sensor p s ≡ true)
  unfolding sensor_common_attrs
  common_attrs-HasMonitors sensor_info sensor s h =
      let (r, e, h1) = >>=-eq-ret (sensor_common_attrs_parse_json p sensor_info sensor) _ h in
      let both : r.0 && sensor_common_attrs_check_sensor p r.1 ≡ true = cc h1 in
      let same : r.1 ≡ s = cc h1 in
      let (parsed, checked) = and_true r.0 (sensor_common_attrs_check_sensor p r.1) both in
      (
        parse_json-HasMonitors sensor_info sensor s (e ∙ ap ret (λ i. (parsed i, same i))),
        subst (λ x. sensor_common_attrs_check_sensor p x ≡ true) same checked,
      )

  fresh-AllFit :
      (array : RbArray (Monitor p.Json)) (ms : List (Monitor p.Json))
      → contents array ≡ some_each ms
      → IsValid array
      → AllFit p ms (replicate array.count none)
  fresh-AllFit array ms c v =
      let count : length ms ≡ array.count = omega (
        arith,
        length-some_each ms,
        ap length c,
        length-take array.count array.elms,
        v.count_fits,
        v.memory,
      ) in
      subst (λ n. AllFit p ms (replicate n none)) count (replicate-AllFit ms)

  HasMonitors-IsRunnable :
      (s : Sensor p) (array : RbArray (Monitor p.Json))
      → HasMonitors s
      → sensor_common_attrs_check_sensor p s ≡ true
      → s.monitors ≡ some array
      → AllSplitAndShort (present (contents array))
      → IsRunnable p s
  unfolding rb_array_new
  HasMonitors-IsRunnable s array
        (array', ms, enrichment, monitors, op_vars, last_vals, c, parsed, v) checked m split =
      let same : array ≡ array' = some-injective array array' (sym m ∙ monitors) in
      let listed : ms ≡ present (contents array') = sym (ap present c ∙ present-some_each ms) in
      let (peername, community) = check-both s checked in
      record {
        array = array';
        values = record {
          size = array'.count;
          count = array'.count;
          elms = replicate array'.count none;
        };
        monitors = monitors;
        last_vals = last_vals;
        op_vars = op_vars;
        well_formed =
            parsed-AllWellFormed enrichment (present (contents array'))
              (subst (AllOf (IsParsed p)) listed parsed)
              (subst (λ (a : RbArray (Monitor p.Json)). AllSplitAndShort (present (contents a)))
                same split);
        fits =
            subst (λ l. AllFit p l (replicate array'.count none)) listed
              (fresh-AllFit array' ms c v);
        peername = peername;
        community = community;
      }

  -- Whatever the description, a sensor that parse_rb_sensor returns can be processed, if none of its
  -- monitors has an empty split token, and each normal result of its operations prints in fewer than
  -- 64 bytes.
  pub parse_rb_sensor-IsRunnable :
      (timeout : ℤ) (sensor_info : Option p.Json) (s : Sensor p) (array : RbArray (Monitor p.Json))
      → parse_rb_sensor p timeout sensor_info ≡ ret (some s)
      → s.monitors ≡ some array
      → AllSplitAndShort (present (contents array))
      → IsRunnable p s
  unfolding parse_rb_sensor
  parse_rb_sensor-IsRunnable timeout none s array h m split = cc
  parse_rb_sensor-IsRunnable timeout (some sensor_info) s array h m split =
      let (r, e, h1) =
        >>=-eq-ret
          (sensor_common_attrs p sensor_info (sensor_set_defaults p timeout (zero_sensor p))) _ h in
      let (ok, same) = some_branch r.0 r.1 s h1 in
      let (has, checked) =
        common_attrs-HasMonitors sensor_info (sensor_set_defaults p timeout (zero_sensor p)) s
          (e ∙ ap ret (λ i. (ok i, same i))) in
      HasMonitors-IsRunnable s array has checked m split
