-- ===== src/Monitors/Pass.antt =====
-- src/rb_sensor_monitor_array.c: process_monitors_array, one pass over the monitors of a sensor.
pub mod Fits
pub mod OneMonitor
pub mod Safe
pub mod Sessions
use rb_monitor.Prelude.{
  ℕ, zero, suc, Bool, true, false, ◌&&◌, Option, none, some, List, [], ◌∷◌, ◌++◌, Outcome, ret,
  fault, ◌>>=◌, is_some, ltb, take, if◌then◌else◌, length, get_elem?, set, write,
}
use rb_monitor.Prelude.Int.{ℤ}
use rb_monitor.Prelude.Text.{Text}
use rb_monitor.Platform.{Platform}
use rb_monitor.Array.{RbArray}
use rb_monitor.Snmp.{SnmpVersion}
use rb_monitor.Value.{MonitorValue}
use rb_monitor.Value.Print.{Message}
use rb_monitor.Value.Select.{rb_monitor_value_array_select}
use rb_monitor.Monitor.{Monitor}
use rb_monitor.Monitor.External.{Outside, process_sensor_monitor}
use rb_monitor.Monitors.Update.{process_monitor_value}
use rb_monitor.Monitors.Update.Changes.{pushed}

-- struct snmp_params_s. The timeout and the version go to net-snmp when a session is opened.
pub record SnmpParams : Type 0 where
  pub peername : Option Text
  pub community : Option Text
  pub timeout : ℤ
  pub version : SnmpVersion

module _ (p : Platform) where
  -- last_known_monitor_values->elms, current_iteration_values, and the messages sent so far.
  pub record Pass : Type 0 where
    pub last_known : List (Option (MonitorValue p.Double))
    pub current : RbArray (MonitorValue p.Double)
    pub sent : List Message

  -- What is done with the value of monitor `i`: nothing if it is null.
  unfoldable pub keep_value :
      Monitor p.Json → ℕ → Option (MonitorValue p.Double) → Pass → Outcome Pass
  keep_value monitor i none st = ret st
  keep_value monitor i (some new) st = elim (get_elem? st.last_known i) [
    | none ↦ fault
    | some old ↦ process_monitor_value p monitor new old >>= λ updated. ret (record st {
      last_known = set st.last_known i (some updated.saved);
      sent = st.sent ++ pushed updated.msgs;
    })
  ]

  -- current_iteration_values->elms[i] = last_known_monitor_values->elms[i]
  unfoldable pub copy_value : ℕ → Pass → Outcome Pass
  copy_value i st = elim (get_elem? st.last_known i) [
    | none ↦ fault
    | some v ↦ write st.current.elms i v >>= λ elms.
        ret (record st { current = record st.current { elms = elms } })
  ]

  -- One round of the loop; the messages are sent at its end.
  unfoldable pub pass_round : Monitor p.Json → Option (List ℤ) → Outside → ℕ → Pass → Outcome Pass
  pass_round monitor deps outside i st =
      rb_monitor_value_array_select st.current deps >>= λ op_vars.
      process_sensor_monitor p monitor outside op_vars >>= λ new.
      keep_value monitor i new st >>= λ st'. copy_value i st'

  -- The loop from monitor `i` on, with the dependencies that are still to be read.
  unfoldable pub pass_loop :
      (ℕ → Outside) → List (Monitor p.Json) → List (Option (List ℤ)) → ℕ → Pass → Outcome Pass
  pass_loop outside [] deps i st = ret st
  pass_loop outside (monitor ∷ monitors) [] i st = fault
  pass_loop outside (monitor ∷ monitors) (dep ∷ deps) i st =
      pass_round monitor dep (outside i) i st >>= λ st'. pass_loop outside monitors deps (suc i) st'

  -- current_iteration_values starts as a copy of as many last known values as there are monitors.
  unfoldable pub start_pass : ℕ → List (Option (MonitorValue p.Double)) → Pass
  start_pass n last_known = record {
    last_known = last_known;
    current = record { size = n; count = n; elms = take n last_known };
    sent = [];
  }

  -- `session` tells whether net-snmp opens a session. The first result is the return value.
  unfoldable pub process_monitors_array :
      (ℕ → Outside)
      → Bool
      → List (Monitor p.Json)
      → List (Option (MonitorValue p.Double))
      → List (Option (List ℤ))
      → SnmpParams
      → Outcome (Bool × Pass)
  process_monitors_array outside session monitors last_known deps params =
      let st = start_pass (length monitors) last_known in
      if ltb (length last_known) (length monitors)
      then fault
      else if is_some params.peername && (is_some params.community && session)
      then (pass_loop outside monitors deps 0 st >>= λ st'. ret (true, st'))
      else ret (false, st)
