-- ===== src/Monitor/External.antt =====
-- src/rb_sensor_monitor.c: the value of a response from outside, and the dispatch on the type of a
-- monitor (rb_monitor_get_external_value, process_sensor_monitor).
use rb_monitor.Prelude.{
  ℕ, suc, Option, none, some, Outcome, ret, ◌>>=◌, ◌==◌, if◌then◌else◌, length,
}
use rb_monitor.Prelude.Int.{ℤ}
use rb_monitor.Prelude.Text.{Text}
use rb_monitor.Platform.{Platform}
use rb_monitor.Array.{RbArray}
use rb_monitor.Value.{MonitorValue, value}
use rb_monitor.System.{Answer, zero_answer, system_solve_response}
use rb_monitor.Snmp.{Variable, snmp_solve_response}
use rb_monitor.Monitor.{Monitor, MonitorCmdType, process_novector_monitor}
use rb_monitor.Monitor.Vector.{process_vector_monitor}
use rb_monitor.Monitor.Operation.{rb_monitor_get_op_result}

-- BUFSIZ of <stdio.h>
abbrev pub bufsiz : ℕ
bufsiz = 8192

-- What is outside at the time of one monitor: the output of a shell command (null if popen fails),
-- the answer to an oid (null if the request fails), and time(NULL).
pub record Outside : Type 0 where
  pub shell : Text → Option Text
  pub snmp : Text → Option Variable
  pub now : ℤ

module _ (p : Platform) (monitor : Monitor p.Json) where
  -- An empty buffer is taken for a 0.
  unfoldable pub forced : Answer p.Double → Answer p.Double
  forced answer = if length answer.buffer == 0 then zero_answer p else answer

  -- The fuel is that of process_vector_monitor: a round for each byte, and one more.
  unfoldable pub vector_or_value :
      Option Text → Answer p.Double → ℤ → Outcome (MonitorValue p.Double)
  vector_or_value none answer now =
      ret (value (process_novector_monitor answer.buffer answer.number now))
  vector_or_value (some splittok) answer now =
      process_vector_monitor p monitor splittok now (suc (length answer.buffer)) answer.buffer

  unfoldable pub rb_monitor_get_external_value :
      Answer p.Double → ℤ → Outcome (MonitorValue p.Double)
  unfolding forced vector_or_value
  rb_monitor_get_external_value answer now = vector_or_value monitor.splittok (forced answer) now

  unfoldable pub rb_monitor_get_system_external_value : Outside → Outcome (MonitorValue p.Double)
  unfolding rb_monitor_get_external_value system_solve_response
  rb_monitor_get_system_external_value outside =
      rb_monitor_get_external_value (system_solve_response p bufsiz (outside.shell monitor.cmd_arg))
        outside.now

  unfoldable pub rb_monitor_get_snmp_external_value : Outside → Outcome (MonitorValue p.Double)
  unfolding rb_monitor_get_external_value snmp_solve_response
  rb_monitor_get_snmp_external_value outside =
      rb_monitor_get_external_value (snmp_solve_response p bufsiz (outside.snmp monitor.cmd_arg))
        outside.now

  unfoldable pub process_sensor_monitor :
      Outside → Option (RbArray (MonitorValue p.Double)) → Outcome (Option (MonitorValue p.Double))
  process_sensor_monitor outside op_vars = elim monitor.type [
    | MonitorCmdType.system ↦ rb_monitor_get_system_external_value outside >>= λ mv. ret (some mv)
    | MonitorCmdType.oid ↦ rb_monitor_get_snmp_external_value outside >>= λ mv. ret (some mv)
    | MonitorCmdType.op ↦ rb_monitor_get_op_result p monitor op_vars outside.now
  ]
