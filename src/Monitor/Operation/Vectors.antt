-- ===== src/Monitor/Operation/Vectors.antt =====
-- src/rb_sensor_monitor.c: an operation on vectors.
use rb_monitor.Prelude.{
  ℕ, zero, suc, ◌+◌, ◌≤◌, ◌<◌, ◌≡◌, refl, ap, ◌∙◌, Bool, true, false, Option, none, some, List, [],
  ◌∷◌, ◌⊎◌, inl, inr, arith, Outcome, ret, ◌==◌, if◌then◌else◌, length, get_elem?,
  get_elem?_in_range, set, length-set, replicate, length-replicate, write_in_range, set-replicate,
}
use rb_monitor.Prelude.Int.{ℤ}
use rb_monitor.Prelude.Text.{Text}
use rb_monitor.Platform.{Platform}
use rb_monitor.Array.{RbArray, contents}
use rb_monitor.Value.{RawValue, MonitorValue, array, new_monitor_value_array}
use rb_monitor.Monitor.{Monitor}
use rb_monitor.Monitor.Vector.{split_op_value}
use rb_monitor.Monitor.Operation.{
  LibmathevalVars, new_libmatheval_vars, children_count, size_differs, size_or_zero, Elements,
  op_vars_loop, op_libmatheval_vars, rb_monitor_op_vector_i, op_vector_loop, rb_monitor_op_vector,
  add_result, op_dispatch, op_result, rb_monitor_get_op_result,
}

-- Null, or an array with null at each place of the vector and no aggregate.
abbrev pub IsEmptyVector :
    {Double : Type 0} → List (Option (RawValue Double)) → Option (MonitorValue Double) → Type 0
IsEmptyVector cs r = (r ≡ none) ⊎ (r ≡ some (array (replicate (length cs) none) none))

-- Whatever the tests say, the rest is returned or null is.
either_returns {ℓ} :
    {A : Type ℓ} (b d : Bool) {m : Outcome (Option A)} {r : Option A}
    → m ≡ ret r
    → (r' : Option A) × ((if b then m else if d then ret none else m) ≡ ret r')
either_returns true d {r = r} e = (r, e)
either_returns false true e = (none, refl)
either_returns false false {r = r} e = (r, e)

module _ (p : Platform) where
  -- The state with which the loop goes on behind a value.
  abbrev pub with_name : Text → ℕ → LibmathevalVars p.Double → LibmathevalVars p.Double
  with_name name i vars = record vars {
    names = set vars.names i (some name);
    count = vars.count + 1;
  }

  abbrev pub expected_after : MonitorValue p.Double → ℕ → LibmathevalVars p.Double → ℕ
  expected_after mv expected vars =
      if vars.count == 0 then size_or_zero (children_count mv) else expected

  -- One round of the loop at a value that is there.
  pub op_vars_round :
      (names : List Text) (i : ℕ) (mv : MonitorValue p.Double) (rest : Elements p) (expected : ℕ)
      (vars : LibmathevalVars p.Double) (name : Text)
      → get_elem? names i ≡ some name
      → i < length vars.names
      → let next =
          op_vars_loop p names
            (suc i)
            rest
            (expected_after mv expected vars)
            (with_name name i vars) in
        op_vars_loop p names i (some mv ∷ rest) expected vars ≡ (
          if vars.count == 0
          then next
          else if size_differs (children_count mv) expected
          then ret none
          else next)
  unfolding op_vars_loop
  op_vars_round names i mv rest expected vars name q h =
      rw (q, op_vars_loop, write_in_range vars.names i (some name) h)

  -- With a name and a cell for each variable the names are filled in with no fault.
  pub op_vars_loop_safe :
      (names : List Text) (i : ℕ) (elms : Elements p) (expected : ℕ)
      (vars : LibmathevalVars p.Double)
      → i + length elms ≤ length names
      → i + length elms ≤ length vars.names
      → (r : Option (LibmathevalVars p.Double)) × (op_vars_loop p names i elms expected vars
          ≡ ret r)
  unfolding op_vars_loop
  op_vars_loop_safe names i [] expected vars h k = (some vars, refl)
  op_vars_loop_safe names i (none ∷ rest) expected vars h k =
      op_vars_loop_safe names (suc i) rest expected vars (omega arith) (omega arith)
  op_vars_loop_safe names i (some mv ∷ rest) expected vars h k =
      let (name, q) = get_elem?_in_range names i (omega arith) in
      let (r, e) =
        op_vars_loop_safe names (suc i) rest (expected_after mv expected vars)
          (with_name name i vars) (omega arith)
          (omega (arith, length-set {0} vars.names i (some name))) in
      let round = op_vars_round names i mv rest expected vars name q (omega arith) in
      let (r', e') =
        either_returns (vars.count == 0) (size_differs (children_count mv) expected) e in
      (r', round ∙ e')

  module _ (f : p.Evaluator) (cs : List (Option (RawValue p.Double)))
      (sp : Option (RawValue p.Double)) (rest : Elements p) (now : ℤ) where
    op_vector_loop_empty :
        (vars : LibmathevalVars p.Double) (left i n : ℕ) (sum : p.Double) (count : ℕ)
        → i + left ≤ n
        → op_vector_loop p f
            (some (array cs sp) ∷ rest)
            vars
            now
            left
            i
            (record { children = replicate n none; sum = sum; count = count })
          ≡ ret (record { children = replicate n none; sum = sum; count = count })
    unfolding op_vector_loop rb_monitor_op_vector_i add_result
    op_vector_loop_empty vars zero i n sum count h = refl
    op_vector_loop_empty vars (suc left) i n sum count h =
        rw
          (
            write_in_range {A = Option (RawValue p.Double)} (replicate n none) i none
                (omega (arith, length-replicate {0} {A = Option (RawValue p.Double)} n none)),
            set-replicate {A = Option (RawValue p.Double)} n i none,
          )
          (op_vector_loop_empty vars left (suc i) n sum count (omega arith))

    no_aggregate : (splitop : Option Text) → split_op_value p 64 splitop p.zero_double 0 now ≡ none
    unfolding split_op_value
    no_aggregate none = refl
    no_aggregate (some op) = refl

    op_vector_empty :
        (vars : LibmathevalVars p.Double) (monitor : Monitor p.Json) (n : ℕ)
        → rb_monitor_op_vector p f (some (array cs sp) ∷ rest) vars monitor n now
          ≡ ret (array (replicate n none) none)
    unfolding rb_monitor_op_vector new_monitor_value_array
    op_vector_empty vars monitor n =
        rw (op_vector_loop_empty vars n 0 n p.zero_double 0 (omega arith), no_aggregate)

    pub op_dispatch_empty :
        (vars : LibmathevalVars p.Double) (monitor : Monitor p.Json)
        → op_dispatch p f (some (array cs sp) ∷ rest) vars monitor now
          ≡ ret (some (array (replicate (length cs) none) none))
    unfolding op_dispatch
    op_dispatch_empty vars monitor = rw (op_vector_empty vars monitor (length cs))

    op_result_prepared :
        (monitor : Monitor p.Json) (op_vars : RbArray (MonitorValue p.Double))
        (prepared : Option (LibmathevalVars p.Double))
        → contents op_vars ≡ some (array cs sp) ∷ rest
        → op_libmatheval_vars p op_vars (p.evaluator_variables f) ≡ ret prepared
        → (r : Option (MonitorValue p.Double)) × (op_result p monitor op_vars f now ≡ ret r)
          × IsEmptyVector cs r
    unfolding op_result
    op_result_prepared monitor op_vars none e q = (none, rw q, inl refl)
    op_result_prepared monitor op_vars (some vars) e q = (
      some (array (replicate (length cs) none) none),
      rw (q, e) (op_dispatch_empty vars monitor),
      inr refl,
    )

module _ (p : Platform) where
  -- With a name and an allocated cell for each element the names are filled in with no fault.
  pub op_libmatheval_vars_safe :
      (op_vars : RbArray (MonitorValue p.Double)) (names : List Text)
      → length (contents op_vars) ≤ length names
      → length (contents op_vars) ≤ op_vars.count
      → (r : Option (LibmathevalVars p.Double)) × (op_libmatheval_vars p op_vars names ≡ ret r)
  unfolding op_libmatheval_vars new_libmatheval_vars
  op_libmatheval_vars_safe op_vars names h k =
      op_vars_loop_safe p names 0 (contents op_vars) 0 (new_libmatheval_vars p op_vars.count)
        (omega arith) (omega (arith, length-replicate {A = Option Text} op_vars.count none))

  module _ (cs : List (Option (RawValue p.Double))) (sp : Option (RawValue p.Double))
      (rest : Elements p) (now : ℤ) where
    created :
        (monitor : Monitor p.Json) (op_vars : RbArray (MonitorValue p.Double))
        (evaluator : Option p.Evaluator)
        → p.evaluator_create monitor.cmd_arg ≡ evaluator
        → op_vars.count == 0 ≡ false
        → contents op_vars ≡ some (array cs sp) ∷ rest
        → length (contents op_vars) ≤ op_vars.count
        → ((f : p.Evaluator)
            → evaluator ≡ some f
            → length (contents op_vars) ≤ length (p.evaluator_variables f))
        → (r : Option (MonitorValue p.Double)) × (rb_monitor_get_op_result p monitor
              (some op_vars)
              now
            ≡ ret r)
          × IsEmptyVector cs r
    unfolding rb_monitor_get_op_result
    created monitor op_vars none c z e k h = (none, rw (z, c), inl refl)
    created monitor op_vars (some f) c z e k h =
        let (prepared, q) =
          op_libmatheval_vars_safe op_vars (p.evaluator_variables f) (h f refl) k in
        let (r, s, empty) = op_result_prepared p f cs sp rest now monitor op_vars prepared e q in
        (r, rw (z, c) s, empty)

    -- Let the first value that an operation reads be a vector, and let libmatheval name at least as
    -- many variables as there are values. Then the operation runs with no fault, and whatever the
    -- vectors hold, its result is null or has null at every place of the vector and no aggregate.
    pub vector_operation-IsEmptyVector :
        (monitor : Monitor p.Json) (op_vars : RbArray (MonitorValue p.Double))
        → contents op_vars ≡ some (array cs sp) ∷ rest
        → length (contents op_vars) ≤ op_vars.count
        → ((f : p.Evaluator)
            → p.evaluator_create monitor.cmd_arg ≡ some f
            → length (contents op_vars) ≤ length (p.evaluator_variables f))
        → (r : Option (MonitorValue p.Double)) × (rb_monitor_get_op_result p monitor
              (some op_vars)
              now
            ≡ ret r)
          × IsEmptyVector cs r
    vector_operation-IsEmptyVector monitor op_vars e k h =
        let z : op_vars.count == 0 ≡ false = ground (arith, ap length e) in
        created monitor op_vars (p.evaluator_create monitor.cmd_arg) refl z e k h
