-- ===== src/Tests/Parts.antt =====
-- Responses, operations and messages at concrete inputs.

use mathlib.Core.Option.{some-injective}
use rb_monitor.Prelude.{
  ◌+◌, ◌*◌, ◌≡◌, ◌≤◌, refl, subst, Option, none, some, List, [], ◌∷◌, arith, ret, out_of_fuel,
  ◌>>=◌, ℕ, length,
}
use rb_monitor.Prelude.Int.{pos, negsuc}
use rb_monitor.Prelude.Text.{codes}
use rb_monitor.Prelude.Text.Search.{suffixes}
use rb_monitor.Array.{RbArray}
use rb_monitor.Value.{MonitorValue, value, array}
use rb_monitor.Value.Print.{MessageArray, sizeof_message_array, sizeof_message, print_monitor_value}
use rb_monitor.Value.Print.Messages.{used, messages, print_monitor_value-messages}
use rb_monitor.Snmp.{Variable, snmp_solve_response}
use rb_monitor.Snmp.Numbers.{Spells, snmp_solve_response-Spells}
use rb_monitor.Monitor.Vector.{vector_elements, process_vector_monitor}
use rb_monitor.Monitor.Vector.Elements.{vector_of, process_vector_monitor-elements}
use rb_monitor.Monitor.Vector.Termination.{vector_elements-scan, vector_elements_diverges}
use rb_monitor.Monitor.Operation.{as_value, rb_monitor_op_value0, rb_monitor_get_op_result}
use rb_monitor.Monitor.Operation.Scalars.{evaluated, plain_operation}
use rb_monitor.Monitor.Operation.Safe.{Returns, rb_monitor_get_op_result-Returns}
use rb_monitor.Monitor.Operation.Vectors.{IsEmptyVector, vector_operation-IsEmptyVector}
use rb_monitor.Tests.Setup.{sums, sums-PrintsShort, split_monitor, sum_monitor, raw}

vector_elements-scan_example :
    vector_elements 10 (codes "1;;3") (codes ";")
    ≡ ret (length (suffixes (codes ";") (codes "1;;3")))
vector_elements-scan_example =
    vector_elements-scan (codes ";") 10 (codes "1;;3") (λ e. cc e) (omega arith)

vector_elements_diverges_example : vector_elements 10 (codes "1;2") [] ≡ out_of_fuel
vector_elements_diverges_example = vector_elements_diverges 10 (codes "1;2")

process_vector_monitor-elements_example :
    process_vector_monitor sums split_monitor (codes ";") (pos 7) 6 (codes "1;;3")
    ≡ ret (vector_of sums split_monitor (codes ";") (pos 7) (codes "1;;3"))
process_vector_monitor-elements_example =
    process_vector_monitor-elements sums split_monitor (codes ";") (pos 7) 6 (codes "1;;3")
      (λ e. cc e) (omega arith)

abbrev vector : MonitorValue ℕ
vector = array (some (raw 1) ∷ some (raw 2) ∷ []) none

print_monitor_value-messages_example :
    (a : MessageArray) × (print_monitor_value sums split_monitor vector ≡ ret a)
    × (used a ≡ messages sums split_monitor vector)
    × (a.allocated + 16 ≡ sizeof_message_array + length a.msgs * sizeof_message)
print_monitor_value-messages_example = print_monitor_value-messages sums split_monitor vector

abbrev two_of : MonitorValue ℕ → RbArray (MonitorValue ℕ)
two_of mv = record { size = 2; count = 2; elms = some mv ∷ some mv ∷ [] }

abbrev plain_pair : RbArray (MonitorValue ℕ)
plain_pair = record { size = 2; count = 2; elms = some (value (raw 3)) ∷ some (value (raw 4)) ∷ [] }

two_variables :
    (f : sums.Evaluator)
    → sums.evaluator_create sum_monitor.cmd_arg ≡ some f
    → 2 ≤ length (sums.evaluator_variables f)
two_variables f e =
    subst (λ g. 2 ≤ length (sums.evaluator_variables g)) (some-injective sum_monitor.cmd_arg f e)
      (omega arith)

vector_operation-IsEmptyVector_example :
    (r : Option (MonitorValue ℕ)) × (rb_monitor_get_op_result sums sum_monitor
        (some (two_of vector))
        (pos 9)
      ≡ ret r)
    × IsEmptyVector (some (raw 1) ∷ some (raw 2) ∷ []) r
vector_operation-IsEmptyVector_example =
    vector_operation-IsEmptyVector sums (some (raw 1) ∷ some (raw 2) ∷ []) none (some vector ∷ [])
      (pos 9) sum_monitor (two_of vector) refl (omega arith) two_variables

plain_operation_example : rb_monitor_get_op_result sums sum_monitor (some plain_pair) (pos 9) ≡ (
    rb_monitor_op_value0 sums
      (codes "aa")
      (evaluated sums (sums.evaluator_variables (codes "aa")) (raw 3 ∷ raw 4 ∷ []))
      (pos 9)
    >>= λ r. ret (as_value r))
plain_operation_example =
    plain_operation sums sum_monitor plain_pair (codes "aa") (raw 3) (raw 4 ∷ []) (pos 9) refl refl
      refl refl

rb_monitor_get_op_result-Returns_example :
    Returns (rb_monitor_get_op_result sums sum_monitor (some plain_pair) (pos 9))
rb_monitor_get_op_result-Returns_example =
    rb_monitor_get_op_result-Returns sums sum_monitor plain_pair (pos 9)
      (sums-PrintsShort sum_monitor.cmd_arg) two_variables (omega arith)

abbrev some_numbers : List (Option ℕ)
some_numbers = some 5 ∷ none ∷ some 6 ∷ []

snmp_solve_response-Spells_example :
    Spells (negsuc 41) (snmp_solve_response sums 8192 (some (Variable.integer (negsuc 41)))).buffer
snmp_solve_response-Spells_example =
    snmp_solve_response-Spells sums 8192 (Variable.integer (negsuc 41)) (negsuc 41) refl tt
      (omega arith, omega arith)
