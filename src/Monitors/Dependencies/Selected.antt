-- ===== src/Monitors/Dependencies/Selected.antt =====
-- The positions of get_monitor_dependencies as an argument of rb_monitor_value_array_select.
use mathlib.Core.Option.{some-injective}
use mathlib.Core.List.{foldl}
use rb_monitor.Prelude.{
  ℕ, ◌≤◌, ◌<◌, ◌≡◌, refl, sym, ap, subst, ◌∙◌, Option, none, some, List, [], ◌∷◌, map, inl, inr,
  arith, ret, Option-cases, List-cases, length, get_elem?, get_elem?_in_range, take, take-length,
  length-map,
}
use rb_monitor.Prelude.Int.{ℤ, pos, negsuc}
use rb_monitor.Prelude.Text.{Text}
use rb_monitor.Platform.{Platform}
use rb_monitor.Array.{RbArray, rb_array_new, rb_array_add, contents}
use rb_monitor.Array.Contents.{contents-add_all}
use rb_monitor.Value.Select.{
  is_end, pos_array_length, elm_at, select_loop, rb_monitor_value_array_select,
}
use rb_monitor.Monitor.{Monitor}
use rb_monitor.Monitors.Dependencies.{
  find_monitor_pos, rb_monitor_get_op_variables, dependencies_loop, get_monitor_dependencies,
}
use rb_monitor.Monitors.Dependencies.Found.{find_monitor_pos_range}

-- The element at a position, none if it is out of the array.
abbrev pub value_at : {V : Type 0} → RbArray V → ℤ → Option V
value_at values (negsuc n) = none
value_at values (pos n) = elim (get_elem? values.elms n) [ none ↦ none | some e ↦ e ]

elm_at_in_range :
    {V : Type 0} (values : RbArray V) (i : ℕ)
    → i < length values.elms
    → elm_at values (pos i) ≡ ret (value_at values (pos i))
unfolding elm_at
elm_at_in_range values i h =
    let (x, q) = get_elem?_in_range values.elms i h in rw (q, elm_at, value_at)

module _ {V : Type 0} (p : Platform) (monitors : List (Monitor p.Json)) (values : RbArray V)
    (fits : length monitors ≤ length values.elms) (group_id : Option Text) where
  abbrev pos_of : Text → ℤ
  pos_of name = find_monitor_pos monitors name group_id

  -- A list of dependencies selects the values of the variables, in order.
  abbrev Selects : List Text → List ℤ → Type 0
  Selects vars ps =
      (pos_array_length ps ≡ ret (length vars))
      × ((selected : RbArray V)
          → select_loop values ps selected
            ≡ ret (foldl rb_array_add selected (map (λ name. value_at values (pos_of name)) vars)))

  Selects-cons :
      (var : Text) (vars : List Text) (i : ℕ) (ps : List ℤ)
      → pos_of var ≡ pos i
      → i < length monitors
      → Selects vars ps
      → Selects (var ∷ vars) (pos i ∷ ps)
  unfolding pos_array_length select_loop is_end
  Selects-cons var vars i ps e h (len, sel) = (
    rw len,
    λ selected. rw e (
        rw (elm_at_in_range values i (omega arith))
          (sel (rb_array_add selected (value_at values (pos i))))),
  )

  dependencies_loop-Selects :
      (vars : List Text) (ps : List ℤ)
      → dependencies_loop p monitors group_id vars ≡ some ps
      → Selects vars ps
  unfolding dependencies_loop pos_array_length select_loop
  dependencies_loop-Selects [] ps h =
      subst (Selects []) (some-injective _ _ h) (refl, λ selected. refl)
  dependencies_loop-Selects (var ∷ vars) ps h =
      elim (find_monitor_pos_range var group_id monitors) [
        | inl e ↦ let h' = rw e at h in cc h'
        | inr (i, e, inside) ↦ elim (Option-cases (dependencies_loop p monitors group_id vars)) [
          | inl n ↦ let h' = rw (e, n) at h in cc h'
          | inr (qs, n) ↦
              subst (Selects (var ∷ vars)) (some-injective _ _ (rw (e, n) at h))
                (Selects-cons var vars i qs e inside (dependencies_loop-Selects vars qs n))
        ]
      ]

  select-Selects :
      (vars : List Text) (ps : List ℤ)
      → Selects vars ps
      → (selected : RbArray V) × (rb_monitor_value_array_select values (some ps)
          ≡ ret (some selected))
        × (contents selected ≡ map (λ name. value_at values (pos_of name)) vars)
  unfolding rb_monitor_value_array_select
  select-Selects vars ps (len, sel) =
      let elms = map (λ name. value_at values (pos_of name)) vars in
      (
        foldl rb_array_add (rb_array_new (length vars)) elms,
        rw len (rw (sel (rb_array_new (length vars)))),
        contents-add_all (length vars) elms
            ∙ ap (λ n. take n elms) (sym (length-map vars (λ name. value_at values (pos_of name))))
            ∙ take-length elms,
      )

module _ {V : Type 0} (p : Platform) (monitors : List (Monitor p.Json)) (values : RbArray V) where
  -- Where get_monitor_dependencies finds the variables of an operation among the monitors,
  -- rb_monitor_value_array_select reads neither behind the array of values nor behind the positions,
  -- if there is a value, null or not, for each monitor. It returns one element for each variable of
  -- the operation, in order: the value of the first monitor with the variable's name and the
  -- operation's group.
  pub select-dependencies :
      (monitor : Monitor p.Json) (ps : List ℤ)
      → length monitors ≤ length values.elms
      → get_monitor_dependencies p monitors monitor ≡ some ps
      → (selected : RbArray V) × (rb_monitor_value_array_select values (some ps)
          ≡ ret (some selected))
        × (contents selected
            ≡ map
                (λ name. value_at values (find_monitor_pos monitors name monitor.group_id))
                (rb_monitor_get_op_variables p monitor))
  unfolding get_monitor_dependencies
  select-dependencies monitor ps fits h =
      elim (List-cases (rb_monitor_get_op_variables p monitor)) [
        | inl e ↦ let h' = rw (e, get_monitor_dependencies) at h in cc h'
        | inr (var, vars, e) ↦ rw e (
            select-Selects p monitors values fits monitor.group_id (var ∷ vars) ps (
              dependencies_loop-Selects p monitors values fits monitor.group_id (var ∷ vars) ps
                (rw (e, get_monitor_dependencies) at h)))
      ]
