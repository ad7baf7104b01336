-- ===== src/Monitor/Operation/Safe.antt =====
-- src/rb_sensor_monitor.c: the memory that an operation reads and writes.
use mathlib.Core.Option.{some-injective}
use rb_monitor.Prelude.{
  ℕ, suc, ◌+◌, ◌≤◌, ◌<◌, ◌≡◌, refl, ap, sym, ◌∙◌, Bool, true, false, Option, none, some, List, [],
  ◌∷◌, inl, inr, arith, Outcome, ret, lt→ltb, ◌==◌, if◌then◌else◌, Bool-cases, Option-cases, length,
  get_elem?_in_range, set, length-set, length-replicate, write_in_range,
}
use rb_monitor.Prelude.Int.{ℤ}
use rb_monitor.Prelude.Text.{Text}
use rb_monitor.Platform.{Platform}
use rb_monitor.Array.{RbArray, contents}
use rb_monitor.Value.{MonitorValue, value, array}
use rb_monitor.Monitor.{Monitor}
use rb_monitor.Monitor.Operation.{
  as_value, LibmathevalVars, new_libmatheval_vars, children_count, size_differs, Elements,
  op_vars_loop, op_libmatheval_vars, fill_values, rb_monitor_op_value0, rb_monitor_op_value,
  op_dispatch, op_result, rb_monitor_get_op_result,
}
use rb_monitor.Monitor.Operation.Vectors.{
  with_name, expected_after, op_vars_round, op_dispatch_empty,
}

-- The run returns.
abbrev pub Returns {ℓ} : {A : Type ℓ} → Outcome A → Type ℓ
Returns {A} run = (r : A) × (run ≡ ret r)

module _ (p : Platform) where
  -- Every normal result of the evaluator prints in fewer than 64 bytes.
  abbrev pub ShortResults : p.Evaluator → Type 0
  ShortResults f =
      (vars : LibmathevalVars p.Double)
      → p.is_normal (p.evaluator_evaluate f vars.count vars.names vars.values) ≡ true
      → length (p.print_lf (p.evaluator_evaluate f vars.count vars.names vars.values)) < 64

  -- Every normal result of the operation prints in fewer than 64 bytes.
  abbrev pub PrintsShort : Text → Type 0
  PrintsShort operation = (f : p.Evaluator) → p.evaluator_create operation ≡ some f → ShortResults f

  op_value0-Returns :
      (f : p.Evaluator) (vars : LibmathevalVars p.Double) (now : ℤ)
      → ShortResults f
      → Returns (rb_monitor_op_value0 p f vars now)
  unfolding rb_monitor_op_value0
  op_value0-Returns f vars now short =
      let d = p.evaluator_evaluate f vars.count vars.names vars.values in
      elim (Bool-cases (p.is_normal d)) [
        | inl e ↦ rw (e, lt→ltb (length (p.print_lf d)) 64 (short vars e)) (_, refl)
        | inr e ↦ rw e (none, refl)
      ]

  fill_values-Returns :
      (v : ℕ) (elms : Elements p) (values : List p.Double)
      → v + length elms ≤ length values
      → Returns (fill_values p v elms values)
  unfolding fill_values
  fill_values-Returns v [] values h = (some values, refl)
  fill_values-Returns v (none ∷ rest) values h = (none, refl)
  fill_values-Returns v (some (array cs sp) ∷ rest) values h = (none, refl)
  fill_values-Returns v (some (value x) ∷ rest) values h =
      rw (write_in_range values v x.value (omega arith)) (
        fill_values-Returns (suc v) rest (set values v x.value)
          (omega (arith, length-set {0} values v x.value)))

  -- The cells for the values stay as they were allocated.
  abbrev HasCells : ℕ → Outcome (Option (LibmathevalVars p.Double)) → Type 0
  HasCells n run =
      (r : Option (LibmathevalVars p.Double)) × (run ≡ ret r)
      × ((vars : LibmathevalVars p.Double) → r ≡ some vars → length vars.values ≡ n)

  either-HasCells :
      (b d : Bool) {m : Outcome (Option (LibmathevalVars p.Double))} {n : ℕ}
      → HasCells n m
      → HasCells n (if b then m else if d then ret none else m)
  either-HasCells true d h = h
  either-HasCells false true h = (none, refl, λ vars e. cc e)
  either-HasCells false false h = h

  op_vars_loop_cells :
      (names : List Text) (i : ℕ) (elms : Elements p) (expected : ℕ)
      (vars : LibmathevalVars p.Double)
      → i + length elms ≤ length names
      → i + length elms ≤ length vars.names
      → HasCells (length vars.values) (op_vars_loop p names i elms expected vars)
  unfolding op_vars_loop
  op_vars_loop_cells names i [] expected vars h k = (
    some vars,
    refl,
    λ v e. sym (ap (λ (x : LibmathevalVars p.Double). length x.values) (some-injective vars v e)),
  )
  op_vars_loop_cells names i (none ∷ rest) expected vars h k =
      op_vars_loop_cells names (suc i) rest expected vars (omega arith) (omega arith)
  op_vars_loop_cells names i (some mv ∷ rest) expected vars h k =
      let (name, q) = get_elem?_in_range names i (omega arith) in
      let rest_has =
        op_vars_loop_cells names (suc i) rest (expected_after p mv expected vars)
          (with_name p name i vars) (omega arith)
          (omega (arith, length-set {0} vars.names i (some name))) in
      let (r, e, cells) =
        either-HasCells (vars.count == 0) (size_differs (children_count mv) expected) rest_has in
      (r, op_vars_round p names i mv rest expected vars name q (omega arith) ∙ e, cells)

  op_value-Returns :
      (f : p.Evaluator) (elms : Elements p) (vars : LibmathevalVars p.Double) (now : ℤ)
      → ShortResults f
      → length elms ≤ length vars.values
      → Returns (rb_monitor_op_value p f elms vars now)
  unfolding rb_monitor_op_value
  op_value-Returns f elms vars now short h =
      let (r, e) = fill_values-Returns 0 elms vars.values (omega arith) in rw e (with_values r)
    where
      with_values :
          (r : Option (List p.Double))
          → Returns (elim r [
            | none ↦ ret none
            | some values ↦ rb_monitor_op_value0 p f (record vars { values = values }) now
          ])
      with_values none = (none, refl)
      with_values (some values) = op_value0-Returns f (record vars { values = values }) now short

  op_dispatch-Returns :
      (f : p.Evaluator) (elms : Elements p) (vars : LibmathevalVars p.Double)
      (monitor : Monitor p.Json) (now : ℤ)
      → ShortResults f
      → length elms ≤ length vars.values
      → Returns (op_dispatch p f elms vars monitor now)
  unfolding op_dispatch
  op_dispatch-Returns f [] vars monitor now short h = (none, refl)
  op_dispatch-Returns f (none ∷ rest) vars monitor now short h = (none, refl)
  op_dispatch-Returns f (some (array cs sp) ∷ rest) vars monitor now short h =
      (_, op_dispatch_empty p f cs sp rest now vars monitor)
  op_dispatch-Returns f (some (value v) ∷ rest) vars monitor now short h =
      let (r, e) = op_value-Returns f (some (value v) ∷ rest) vars now short h in
      rw e (as_value r, refl)

  op_result-Returns :
      (monitor : Monitor p.Json) (op_vars : RbArray (MonitorValue p.Double)) (f : p.Evaluator)
      (now : ℤ)
      → ShortResults f
      → length (contents op_vars) ≤ length (p.evaluator_variables f)
      → length (contents op_vars) ≤ op_vars.count
      → Returns (op_result p monitor op_vars f now)
  unfolding op_result op_libmatheval_vars new_libmatheval_vars
  op_result-Returns monitor op_vars f now short h k =
      let vars = new_libmatheval_vars p op_vars.count in
      let (r, e, cells) =
        op_vars_loop_cells (p.evaluator_variables f) 0 (contents op_vars) 0 vars (omega arith)
          (omega (arith, length-replicate {A = Option Text} op_vars.count none)) in
      rw e (
        with_vars r (λ v q. omega (arith, cells v q, length-replicate op_vars.count p.zero_double)))
    where
      with_vars :
          (r : Option (LibmathevalVars p.Double))
          → ((v : LibmathevalVars p.Double)
              → r ≡ some v
              → length (contents op_vars) ≤ length v.values)
          → Returns (elim r [
            | none ↦ ret none
            | some v ↦ op_dispatch p f (contents op_vars) v monitor now
          ])
      with_vars none h = (none, refl)
      with_vars (some v) h = op_dispatch-Returns f (contents op_vars) v monitor now short (h v refl)

  -- Let every normal result of the operation print in fewer than 64 bytes, and let libmatheval name at least as many
  -- variables for the operation as values are given. Then the operation runs to its end without a
  -- read or a write outside its memory, whatever is missing among the values and whatever their
  -- types.
  pub rb_monitor_get_op_result-Returns :
      (monitor : Monitor p.Json) (op_vars : RbArray (MonitorValue p.Double)) (now : ℤ)
      → PrintsShort monitor.cmd_arg
      → ((f : p.Evaluator)
          → p.evaluator_create monitor.cmd_arg ≡ some f
          → length (contents op_vars) ≤ length (p.evaluator_variables f))
      → length (contents op_vars) ≤ op_vars.count
      → Returns (rb_monitor_get_op_result p monitor (some op_vars) now)
  unfolding rb_monitor_get_op_result
  rb_monitor_get_op_result-Returns monitor op_vars now short h k =
      elim (Bool-cases (op_vars.count == 0)) [
        | inl z ↦ rw z (none, refl)
        | inr z ↦ elim (Option-cases (p.evaluator_create monitor.cmd_arg)) [
          | inl e ↦ rw (z, e) (none, refl)
          | inr (f, e) ↦ rw (z, e) (op_result-Returns monitor op_vars f now (short f e) (h f e) k)
        ]
      ]
