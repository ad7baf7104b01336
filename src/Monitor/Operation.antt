-- ===== src/Monitor/Operation.antt =====
-- src/rb_libmatheval.h, src/rb_libmatheval.c, and the op monitors of src/rb_sensor_monitor.c: an
-- operation over the values of other monitors.
pub mod Vectors
pub mod Scalars
pub mod Safe
use rb_monitor.Prelude.{
  ℕ, zero, suc, ◌+◌, ◌-◌, Bool, true, false, not, Option, none, some, List, [], ◌∷◌, Outcome, ret,
  fault, ◌>>=◌, ltb, ◌==◌, if◌then◌else◌, length, get_elem?, set, replicate, write,
}
use rb_monitor.Prelude.Int.{ℤ}
use rb_monitor.Prelude.Text.{Text}
use rb_monitor.Platform.{Platform}
use rb_monitor.Array.{RbArray, contents}
use rb_monitor.Value.{RawValue, MonitorValue, value, array, new_monitor_value_array}
use rb_monitor.Monitor.{Monitor, process_novector_monitor}
use rb_monitor.Monitor.Vector.{split_op_value}

-- struct libmatheval_vars
pub record LibmathevalVars (Double : Type 0) : Type 0 where
  pub names : List (Option Text)
  pub values : List Double
  pub count : ℕ

unfoldable pub new_libmatheval_vars : (p : Platform) → ℕ → LibmathevalVars p.Double
new_libmatheval_vars p new_size = record {
  names = replicate new_size none;
  values = replicate new_size p.zero_double;
  count = 0;
}

-- array.children_count of an array.
unfoldable pub children_count : {Double : Type 0} → MonitorValue Double → Option ℕ
children_count (value v) = none
children_count (array children split_op) = some (length children)

-- Is the size of the vector another than that of the first? A value of type VALUE has no size.
unfoldable pub size_differs : Option ℕ → ℕ → Bool
size_differs none expected = false
size_differs (some n) expected = not (n == expected)

unfoldable pub size_or_zero : Option ℕ → ℕ
size_or_zero none = 0
size_or_zero (some n) = n

-- The result of an operation on values, as a struct monitor_value or null.
abbrev pub as_value : {Double : Type 0} → Option (RawValue Double) → Option (MonitorValue Double)
as_value none = none
as_value (some v) = some (value v)

module _ (p : Platform) where
  abbrev pub Elements : Type 0
  Elements = List (Option (MonitorValue p.Double))

  -- The loop of op_libmatheval_vars from the variable `i` on. A null value is passed over; vectors
  -- of two sizes give null.
  unfoldable pub op_vars_loop :
      List Text
      → ℕ
      → Elements
      → ℕ
      → LibmathevalVars p.Double
      → Outcome (Option (LibmathevalVars p.Double))
  op_vars_loop names i [] expected vars = ret (some vars)
  op_vars_loop names i (none ∷ rest) expected vars = op_vars_loop names (suc i) rest expected vars
  op_vars_loop names i (some mv ∷ rest) expected vars =
      let is_first = vars.count == 0 in
      let expected' = if is_first then size_or_zero (children_count mv) else expected in
      elim (get_elem? names i) [
        | none ↦ fault
        | some name ↦ write vars.names i (some name) >>= λ names'.
            let next =
              op_vars_loop names (suc i) rest expected'
                (record vars { names = names'; count = vars.count + 1 }) in
            if is_first
            then next
            else if size_differs (children_count mv) expected
            then ret none
            else next
      ]

  unfoldable pub op_libmatheval_vars :
      RbArray (MonitorValue p.Double) → List Text → Outcome (Option (LibmathevalVars p.Double))
  op_libmatheval_vars op_vars names =
      op_vars_loop names 0 (contents op_vars) 0 (new_libmatheval_vars p op_vars.count)

  -- sprintf to a buffer of 64 bytes: a text that does not fit is written behind it.
  unfoldable pub rb_monitor_op_value0 :
      p.Evaluator → LibmathevalVars p.Double → ℤ → Outcome (Option (RawValue p.Double))
  rb_monitor_op_value0 f vars now =
      let number = p.evaluator_evaluate f vars.count vars.names vars.values in
      if p.is_normal number
      then if ltb (length (p.print_lf number)) 64
        then ret (some (process_novector_monitor (p.print_lf number) number now))
        else fault
      else ret none

  -- The values of the variables from `v` on; null if one of them is missing or is an array.
  unfoldable pub fill_values : ℕ → Elements → List p.Double → Outcome (Option (List p.Double))
  fill_values v [] values = ret (some values)
  fill_values v (none ∷ rest) values = ret none
  fill_values v (some (array children split_op) ∷ rest) values = ret none
  fill_values v (some (value mv_v) ∷ rest) values =
      write values v mv_v.value >>= λ values'. fill_values (suc v) rest values'

  unfoldable pub rb_monitor_op_value :
      p.Evaluator → Elements → LibmathevalVars p.Double → ℤ → Outcome (Option (RawValue p.Double))
  rb_monitor_op_value f op_vars vars now = fill_values 0 op_vars vars.values >>= λ filled.
      elim filled [
        | none ↦ ret none
        | some values ↦ rb_monitor_op_value0 f (record vars { values = values }) now
      ]

  -- Behind the test for MONITOR_VALUE_T__VALUE the code reads the children of the value: that member
  -- of the union is not the one that was written.
  unfoldable pub rb_monitor_op_vector_i :
      p.Evaluator
      → Elements
      → LibmathevalVars p.Double
      → ℕ
      → ℤ
      → Outcome (Option (RawValue p.Double))
  rb_monitor_op_vector_i f [] vars v_pos now = rb_monitor_op_value0 f vars now
  rb_monitor_op_vector_i f (none ∷ rest) vars v_pos now = ret none
  rb_monitor_op_vector_i f (some (array children split_op) ∷ rest) vars v_pos now = ret none
  rb_monitor_op_vector_i f (some (value mv_v) ∷ rest) vars v_pos now = fault

  -- children, sum and count in the loop of rb_monitor_op_vector.
  pub record VectorResult : Type 0 where
    pub children : List (Option (RawValue p.Double))
    pub sum : p.Double
    pub count : ℕ

  unfoldable pub add_result : Option (RawValue p.Double) → VectorResult → VectorResult
  add_result none st = record st { children = st.children }
  add_result (some child) st = record st { sum = p.add st.sum child.value; count = st.count + 1 }

  -- `left` members of the vector are still to do.
  unfoldable pub op_vector_loop :
      p.Evaluator
      → Elements
      → LibmathevalVars p.Double
      → ℤ
      → ℕ
      → ℕ
      → VectorResult
      → Outcome VectorResult
  op_vector_loop f op_vars vars now zero i st = ret st
  op_vector_loop f op_vars vars now (suc left) i st =
      rb_monitor_op_vector_i f op_vars vars i now >>= λ child.
      write st.children i child >>= λ children.
      op_vector_loop f op_vars vars now left (suc i)
        (add_result child (record st { children = children }))

  unfoldable pub rb_monitor_op_vector :
      p.Evaluator
      → Elements
      → LibmathevalVars p.Double
      → Monitor p.Json
      → ℕ
      → ℤ
      → Outcome (MonitorValue p.Double)
  rb_monitor_op_vector f op_vars vars monitor size now =
      op_vector_loop f op_vars vars now size 0
        (record { children = replicate size none; sum = p.zero_double; count = 0 })
      >>= λ st. ret (
          new_monitor_value_array st.children
            (split_op_value p 64 monitor.splitop st.sum st.count now))

  -- The dispatch on the type of the first value.
  unfoldable pub op_dispatch :
      p.Evaluator
      → Elements
      → LibmathevalVars p.Double
      → Monitor p.Json
      → ℤ
      → Outcome (Option (MonitorValue p.Double))
  op_dispatch f [] vars monitor now = ret none
  op_dispatch f (none ∷ rest) vars monitor now = ret none
  op_dispatch f (some (array children split_op) ∷ rest) vars monitor now =
      rb_monitor_op_vector f (some (array children split_op) ∷ rest) vars monitor (length children)
        now
      >>= λ mv. ret (some mv)
  op_dispatch f (some (value v) ∷ rest) vars monitor now =
      rb_monitor_op_value f (some (value v) ∷ rest) vars now >>= λ result. ret (as_value result)

  unfoldable pub op_result :
      Monitor p.Json
      → RbArray (MonitorValue p.Double)
      → p.Evaluator
      → ℤ
      → Outcome (Option (MonitorValue p.Double))
  op_result monitor op_vars f now =
      op_libmatheval_vars op_vars (p.evaluator_variables f) >>= λ prepared. elim prepared [
        | none ↦ ret none
        | some vars ↦ op_dispatch f (contents op_vars) vars monitor now
      ]

  unfoldable pub rb_monitor_get_op_result :
      Monitor p.Json
      → Option (RbArray (MonitorValue p.Double))
      → ℤ
      → Outcome (Option (MonitorValue p.Double))
  rb_monitor_get_op_result monitor none now = ret none
  rb_monitor_get_op_result monitor (some op_vars) now =
      if op_vars.count == 0 then ret none else elim (p.evaluator_create monitor.cmd_arg) [
        | none ↦ ret none
        | some f ↦ op_result monitor op_vars f now
      ]
