-- ===== src/Monitors/Pass/OneMonitor.antt =====
-- src/rb_sensor_monitor.c: process_sensor_monitor on a well-formed monitor.

use rb_monitor.System.{system_solve_response}
use rb_monitor.Snmp.{snmp_solve_response}
use rb_monitor.Prelude.{
  ◌≡◌, refl, ap, false, Option, none, some, ◌⊎◌, inl, inr, arith, Outcome, ret, length, length-take,
}
use rb_monitor.Prelude.Int.{ℤ}
use rb_monitor.Platform.{Platform}
use rb_monitor.Array.{RbArray, contents}
use rb_monitor.Value.{MonitorValue}
use rb_monitor.Monitor.{Monitor, MonitorCmdType}
use rb_monitor.Monitor.External.{
  bufsiz, Outside, rb_monitor_get_system_external_value, rb_monitor_get_snmp_external_value,
  process_sensor_monitor,
}
use rb_monitor.Monitor.Operation.{rb_monitor_get_op_result}
use rb_monitor.Monitor.Operation.Safe.{rb_monitor_get_op_result-Returns}
use rb_monitor.Monitors.Dependencies.{rb_monitor_get_op_variables}
use rb_monitor.Monitors.Pass.Fits.{OfType, FitsIfKnown, IsWellFormed, external_OfType}

type_cases :
    (t : MonitorCmdType)
    → (t ≡ MonitorCmdType.system) ⊎ ((t ≡ MonitorCmdType.oid) ⊎ (t ≡ MonitorCmdType.op))
type_cases MonitorCmdType.system = inl refl
type_cases MonitorCmdType.oid = inr (inl refl)
type_cases MonitorCmdType.op = inr (inr refl)

module _ (p : Platform) (m : Monitor p.Json) (wf : IsWellFormed p m) where
  op_Fits : m.timestamp_given ≡ false → (new : Option (MonitorValue p.Double)) → FitsIfKnown p m new
  op_Fits no_time none = tt
  op_Fits no_time (some mv) = λ given. cc

  -- As many values are selected as the operation has variables.
  abbrev pub OnePerVariable : Option (RbArray (MonitorValue p.Double)) → Type 0
  OnePerVariable selected =
      (values : RbArray (MonitorValue p.Double))
      → selected ≡ some values
      → length (contents values) ≡ length (rb_monitor_get_op_variables p m)

  op_variables_of :
      (f : p.Evaluator)
      → m.type ≡ MonitorCmdType.op
      → p.evaluator_create m.cmd_arg ≡ some f
      → rb_monitor_get_op_variables p m ≡ p.evaluator_variables f
  unfolding rb_monitor_get_op_variables
  op_variables_of f t e = rw (rb_monitor_get_op_variables, t, e)

  op_returns :
      (selected : Option (RbArray (MonitorValue p.Double))) (now : ℤ)
      → m.type ≡ MonitorCmdType.op
      → OnePerVariable selected
      → (new : Option (MonitorValue p.Double)) × (rb_monitor_get_op_result p m selected now
          ≡ ret new)
  unfolding rb_monitor_get_op_result
  op_returns none now t one = (none, refl)
  op_returns (some values) now t one =
      rb_monitor_get_op_result-Returns p m values now (wf.short t)
        (λ f e. omega (arith, one values refl, ap length (op_variables_of f t e)))
        (omega (arith, length-take values.count values.elms))

  -- A value from outside is of the type that the split token asks for.
  abbrev Typed : Outcome (MonitorValue p.Double) → Type 0
  Typed run = (mv : MonitorValue p.Double) × (run ≡ ret mv) × OfType m.splittok mv

  system_Typed : (outside : Outside) → Typed (rb_monitor_get_system_external_value p m outside)
  unfolding rb_monitor_get_system_external_value
  system_Typed outside =
      external_OfType p m (system_solve_response p bufsiz (outside.shell m.cmd_arg)) outside.now wf

  snmp_Typed : (outside : Outside) → Typed (rb_monitor_get_snmp_external_value p m outside)
  unfolding rb_monitor_get_snmp_external_value
  snmp_Typed outside =
      external_OfType p m (snmp_solve_response p bufsiz (outside.snmp m.cmd_arg)) outside.now wf

  pub sensor_returns :
      (selected : Option (RbArray (MonitorValue p.Double))) (outside : Outside)
      → OnePerVariable selected
      → (new : Option (MonitorValue p.Double)) × (process_sensor_monitor p m outside selected
          ≡ ret new)
        × FitsIfKnown p m new
  unfolding process_sensor_monitor
  sensor_returns selected outside one = elim (type_cases m.type) [
    | inl t ↦
        let (mv, e, fits) = system_Typed outside in
        (some mv, rw (process_sensor_monitor, t, e) refl, λ _. fits)
    | inr (inl t) ↦
        let (mv, e, fits) = snmp_Typed outside in
        (some mv, rw (process_sensor_monitor, t, e) refl, λ _. fits)
    | inr (inr t) ↦
        let (new, e) = op_returns selected outside.now t one in
        (new, rw (process_sensor_monitor, t, e), op_Fits (wf.op_timestamp t) new)
  ]
