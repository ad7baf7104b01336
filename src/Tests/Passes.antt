-- ===== src/Tests/Passes.antt =====
-- A pass over three monitors: an oid, a command with a split response, and an operation.
use rb_monitor.Array.{RbArray, contents}
use rb_monitor.Value.Select.{rb_monitor_value_array_select}
use rb_monitor.Monitors.Dependencies.Selected.{value_at, select-dependencies}
use rb_monitor.Prelude.{map, ◌≡◌, refl, true, Option, none, some, List, [], ◌∷◌, arith, ret, ◌+◌, ℕ}
use rb_monitor.Prelude.Int.{pos, negsuc}
use rb_monitor.Prelude.Text.{codes, text_eq}
use rb_monitor.Value.{RawValue, MonitorValue, value, array}
use rb_monitor.Snmp.{Variable, SnmpVersion}
use rb_monitor.Monitor.{Monitor}
use rb_monitor.Monitor.External.{Outside}
use rb_monitor.Monitors.Dependencies.{
  get_monitors_dependencies, find_monitor_pos, rb_monitor_get_op_variables,
  get_monitor_dependencies, dependencies_loop,
}
use rb_monitor.Monitors.Dependencies.Found.{FirstNamed, find_monitor_pos-FirstNamed}
use rb_monitor.Monitors.Update.{Updated, process_monitor_value}
use rb_monitor.Monitors.Update.Changes.{
  pushed, saved_of, messages_of, process_monitor_value-Updates, process_monitor_value_again,
  aggregate_messages,
}
use rb_monitor.Monitors.Pass.{SnmpParams, Pass, process_monitors_array}
use rb_monitor.Monitors.Pass.Fits.{AllFit}
use rb_monitor.Monitors.Pass.Safe.{AllWellFormed, process_monitors_array_returns}
use rb_monitor.Tests.Setup.{
  sums, sums-PrintsShort, load_monitor, split_monitor, sum_monitor, timed_monitor, raw,
}

abbrev three_monitors : List (Monitor sums.Json)
three_monitors = load_monitor ∷ split_monitor ∷ sum_monitor ∷ []

abbrev outside : ℕ → Outside
outside i = record {
  shell = λ command. some (codes "1;2;3");
  snmp = λ oid. some (Variable.gauge (pos 4));
  now = pos (100 + i);
}

abbrev params : SnmpParams
params = record {
  peername = some (codes "host");
  community = some (codes "public");
  timeout = pos 5;
  version = SnmpVersion.version_2c;
}

abbrev nothing_known : List (Option (MonitorValue ℕ))
nothing_known = none ∷ none ∷ none ∷ []

three_monitors_well_formed : AllWellFormed sums three_monitors
three_monitors_well_formed = (
  record { token = λ e. cc e; op_timestamp = λ e. refl; short = λ e. sums-PrintsShort _ },
  (
    record { token = λ e. cc e; op_timestamp = λ e. refl; short = λ e. sums-PrintsShort _ },
    (record { token = λ e. cc e; op_timestamp = λ e. refl; short = λ e. sums-PrintsShort _ }, tt),
  ),
)

process_monitors_array_returns_example :
    (st : Pass sums) × (process_monitors_array sums outside true three_monitors nothing_known
        (get_monitors_dependencies sums three_monitors)
        params
      ≡ ret (true, st))
    × AllFit sums three_monitors st.last_known
process_monitors_array_returns_example =
    process_monitors_array_returns sums three_monitors outside true nothing_known params
      three_monitors_well_formed (tt, (tt, (tt, tt)))

abbrev two_children : MonitorValue ℕ
two_children = array (some (raw 1) ∷ some (raw 2) ∷ []) (some (raw 3))

abbrev other_children : MonitorValue ℕ
other_children = array (some (raw 1) ∷ some (raw 5) ∷ []) none

process_monitor_value-Updates_example :
    (r : Updated ℕ) × (process_monitor_value sums timed_monitor other_children (some two_children)
      ≡ ret r)
    × (r.saved ≡ saved_of sums timed_monitor other_children (some two_children))
    × (pushed r.msgs ≡ messages_of sums timed_monitor other_children (some two_children))
process_monitor_value-Updates_example =
    process_monitor_value-Updates sums timed_monitor other_children (some two_children) tt

process_monitor_value_again_example :
    (r : Updated ℕ) × (process_monitor_value sums timed_monitor two_children (some two_children)
      ≡ ret r)
    × (r.saved ≡ two_children)
    × (pushed r.msgs ≡ aggregate_messages sums timed_monitor two_children)
process_monitor_value_again_example =
    process_monitor_value_again sums timed_monitor two_children (refl, (refl, tt)) refl

find_monitor_pos-FirstNamed_example :
    FirstNamed (codes "c") none three_monitors (find_monitor_pos three_monitors (codes "c") none)
find_monitor_pos-FirstNamed_example = find_monitor_pos-FirstNamed (codes "c") none three_monitors

abbrev news : List (Option (RawValue ℕ))
news = some (raw 1) ∷ some (raw 5) ∷ []

abbrev olds : List (Option (RawValue ℕ))
olds = some (raw 1) ∷ []

abbrev three_values : RbArray (MonitorValue ℕ)
three_values = record { size = 3; count = 3; elms = some (value (raw 4)) ∷ none ∷ none ∷ [] }

select-dependencies_example :
    (selected : RbArray (MonitorValue ℕ)) × (rb_monitor_value_array_select three_values
        (some (pos 0 ∷ pos 0 ∷ negsuc 0 ∷ []))
      ≡ ret (some selected))
    × (contents selected
        ≡ map
            (λ name.
              value_at three_values (find_monitor_pos three_monitors name sum_monitor.group_id))
            (rb_monitor_get_op_variables sums sum_monitor))
unfolding get_monitor_dependencies dependencies_loop text_eq
select-dependencies_example =
    select-dependencies sums three_monitors three_values sum_monitor (pos 0 ∷ pos 0 ∷ negsuc 0 ∷ [])
      (omega arith) refl
