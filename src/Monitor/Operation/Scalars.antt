-- ===== src/Monitor/Operation/Scalars.antt =====
-- src/rb_sensor_monitor.c: an operation on plain values.
use mathlib.Core.List.{append_assoc, append-nil, map-append}
use native.Mathlib.Nat.{add-zero}
use rb_monitor.Prelude.{
  ℕ, suc, ◌+◌, ◌<◌, ◌≡◌, refl, ap, sym, ◌∙◌, Bool, true, false, Option, none, some, List, [], ◌∷◌,
  ◌++◌, map, arith, ret, ◌>>=◌, ◌==◌, if◌then◌else◌, length, length-append, length-snoc, length-map,
  get_elem?-append, set, set-append, replicate, write-append,
}
use rb_monitor.Prelude.Int.{ℤ}
use rb_monitor.Prelude.Text.{Text}
use rb_monitor.Platform.{Platform}
use rb_monitor.Array.{RbArray, contents}
use rb_monitor.Value.{RawValue, MonitorValue, value}
use rb_monitor.Monitor.{Monitor}
use rb_monitor.Monitor.Operation.{
  as_value, LibmathevalVars, new_libmatheval_vars, children_count, size_differs, Elements,
  op_vars_loop, op_libmatheval_vars, fill_values, rb_monitor_op_value0, rb_monitor_op_value,
  op_dispatch, op_result, rb_monitor_get_op_result,
}
use rb_monitor.Monitor.Operation.Vectors.{with_name, expected_after, op_vars_round}

same_branch {ℓ} : {A : Type ℓ} (b : Bool) (m k : A) → (if b then m else if false then k else m) ≡ m
same_branch true m k = refl
same_branch false m k = refl

module _ (p : Platform) where
  abbrev pub plain : List (RawValue p.Double) → Elements p
  plain = map (λ v. some (value v))

  abbrev pub numbers : List (RawValue p.Double) → List p.Double
  numbers = map (λ v. v.value)

  abbrev some_names : List Text → List (Option Text)
  some_names = map some

  -- The variables that are passed to libmatheval: all names, all values.
  abbrev pub evaluated : List Text → List (RawValue p.Double) → LibmathevalVars p.Double
  evaluated names vs = record { names = some_names names; values = numbers vs; count = length vs }

  fill_values-numbers :
      (done : List p.Double) (vs : List (RawValue p.Double))
      → fill_values p (length done) (plain vs) (done ++ replicate (length vs) p.zero_double)
        ≡ ret (some (done ++ numbers vs))
  unfolding fill_values
  fill_values-numbers done [] = refl
  fill_values-numbers done (v ∷ vs) =
      let ih = fill_values-numbers (done ++ v.value ∷ []) vs in
      rw (write-append done p.zero_double v.value (replicate (length vs) p.zero_double))
        (simp (length-snoc, append_assoc) at ih)

  -- The state of the loop when the names `done` are filled in.
  abbrev filled : List Text → List (Option Text) → List p.Double → LibmathevalVars p.Double
  filled done rest values = record {
    names = some_names done ++ rest;
    values = values;
    count = length done;
  }

  filled-snoc :
      (done : List Text) (name : Text) (rest : List (Option Text)) (values : List p.Double)
      → with_name p name (length done) (filled done (none ∷ rest) values)
        ≡ filled (done ++ name ∷ []) rest values
  filled-snoc done name rest values =
      λ i. record { names = cells i; values = values; count = counted i }
    where
      cells :
          set (some_names done ++ none ∷ rest) (length done) (some name)
          ≡ some_names (done ++ name ∷ []) ++ rest
      cells =
          ap (λ k. set (some_names done ++ none ∷ rest) k (some name)) (sym (length-map done some))
          ∙ set-append (some_names done) none (some name) rest
          ∙ sym (
              ap (λ l. l ++ rest) (map-append some done (name ∷ []))
              ∙ append_assoc (some_names done) (some name ∷ []) rest)

      counted : length done + 1 ≡ length (done ++ name ∷ [])
      counted = omega (arith, length-snoc {0} done name)

  -- The loop fills in the names of the values that are still to come.
  op_vars_loop-plain :
      (done todo : List Text) (vs : List (RawValue p.Double)) (expected : ℕ)
      (values : List p.Double)
      → length todo ≡ length vs
      → op_vars_loop p
          (done ++ todo)
          (length done)
          (plain vs)
          expected
          (filled done (replicate (length vs) none) values)
        ≡ ret (
            some (record {
              names = some_names (done ++ todo);
              values = values;
              count = length done + length vs;
            }))
  unfolding op_vars_loop size_differs children_count
  op_vars_loop-plain done [] [] expected values h = simp (append-nil, add-zero)
  op_vars_loop-plain done (name ∷ todo) [] expected values h = absurd (omega arith)
  op_vars_loop-plain done [] (v ∷ vs) expected values h = absurd (omega arith)
  op_vars_loop-plain done (name ∷ todo) (v ∷ vs) expected values h =
      let state = filled done (none ∷ replicate (length vs) none) values in
      let e' = expected_after p (value v) expected state in
      let next =
        op_vars_loop p (done ++ name ∷ todo) (suc (length done)) (plain vs) e'
          (with_name p name (length done) state) in
      let inside : length done < length state.names = omega (
        arith,
        length-append (some_names done) (none ∷ replicate (length vs) none),
        length-map done (λ (n : Text). some n),
      ) in
      let round =
        op_vars_round p (done ++ name ∷ todo) (length done) (value v) (plain vs) expected state name
          (get_elem?-append done name todo) inside in
      let names : done ++ name ∷ todo ≡ (done ++ name ∷ []) ++ todo =
        sym (append_assoc done (name ∷ []) todo) in
      let step = filled-snoc done name (replicate (length vs) none) values in
      let ih = op_vars_loop-plain (done ++ name ∷ []) todo vs e' values (omega arith) in
      let counted : length (done ++ name ∷ []) + length vs ≡ length done + suc (length vs) =
        omega (arith, length-snoc {0} done name) in
      round
      ∙ same_branch (state.count == 0) next (ret none)
      ∙ rw (names, step, ← length-snoc done name)
          (ih
            ∙ ap
                (λ (n : ℕ). ret (
                  some (record {
                    names = some_names ((done ++ name ∷ []) ++ todo);
                    values = values;
                    count = n;
                  })))
                counted)

  module _ (names : List Text) (vs : List (RawValue p.Double))
      (matched : length names ≡ length vs) where
    op_libmatheval_vars-plain :
        (op_vars : RbArray (MonitorValue p.Double))
        → contents op_vars ≡ plain vs
        → op_vars.count ≡ length vs
        → op_libmatheval_vars p op_vars names
          ≡ ret
              (some (record (evaluated names vs) { values = replicate (length vs) p.zero_double }))
    unfolding op_libmatheval_vars new_libmatheval_vars
    op_libmatheval_vars-plain op_vars e c =
        rw (e, c)
          (op_vars_loop-plain [] names vs 0 (replicate (length vs) p.zero_double) matched
            ∙ ap
                (λ (n : ℕ). ret (
                  some (record (evaluated names vs) {
                    values = replicate (length vs) p.zero_double;
                    count = n;
                  })))
                (omega arith))

    op_value-plain :
        (f : p.Evaluator) (now : ℤ)
        → rb_monitor_op_value p f
            (plain vs)
            (record (evaluated names vs) { values = replicate (length vs) p.zero_double })
            now
          ≡ rb_monitor_op_value0 p f (evaluated names vs) now
    unfolding rb_monitor_op_value
    op_value-plain f now = rw (fill_values-numbers [] vs)

  -- An operation that libmatheval accepts, on plain values, one for each variable and at least one:
  -- its result is what libmatheval evaluates with all the names and all the numbers in order, as
  -- rb_monitor_op_value0 makes a value of it.
  pub plain_operation :
      (monitor : Monitor p.Json) (op_vars : RbArray (MonitorValue p.Double)) (f : p.Evaluator)
      (v : RawValue p.Double) (vs : List (RawValue p.Double)) (now : ℤ)
      → contents op_vars ≡ plain (v ∷ vs)
      → op_vars.count ≡ length (v ∷ vs)
      → p.evaluator_create monitor.cmd_arg ≡ some f
      → length (p.evaluator_variables f) ≡ length (v ∷ vs)
      → rb_monitor_get_op_result p monitor (some op_vars) now ≡ (
          rb_monitor_op_value0 p f (evaluated (p.evaluator_variables f) (v ∷ vs)) now >>= λ r.
          ret (as_value r))
  unfolding rb_monitor_get_op_result op_result op_dispatch
  plain_operation monitor op_vars f v vs now e c created matched =
      let some_var : op_vars.count == 0 ≡ false = ground (arith, c) in
      rw
        (
          some_var,
          created,
          op_libmatheval_vars-plain (p.evaluator_variables f) (v ∷ vs) matched op_vars e c,
          e,
        )
        (rw (op_value-plain (p.evaluator_variables f) (v ∷ vs) matched f now))
