-- ===== src/Value/Select.antt =====
-- src/rb_value.c: rb_monitor_value_array_select, which picks the values that an operation reads.
use rb_monitor.Prelude.{
  ℕ, zero, suc, Bool, true, false, Option, none, some, List, [], ◌∷◌, Outcome, ret, fault, ◌>>=◌,
  if◌then◌else◌, get_elem?,
}
use rb_monitor.Prelude.Int.{ℤ, pos, negsuc}
use rb_monitor.Array.{RbArray, rb_array_new, rb_array_add}

-- The -1 that ends a list of positions.
unfoldable pub is_end : ℤ → Bool
is_end (pos n) = false
is_end (negsuc zero) = true
is_end (negsuc (suc n)) = false

-- `pos` is the memory from the pointer on: the loop runs out of it if no -1 stands there.
unfoldable pub pos_array_length : List ℤ → Outcome ℕ
unfolding is_end
pos_array_length [] = fault
pos_array_length (z ∷ zs) =
    let rest = pos_array_length zs >>= λ n. ret (suc n) in if is_end z then ret 0 else rest

module _ {A : Type 0} where
  -- array->elms[z]: an index outside the memory is a fault.
  unfoldable pub elm_at : RbArray A → ℤ → Outcome (Option A)
  elm_at array (negsuc n) = fault
  elm_at array (pos n) = elim (get_elem? array.elms n) [ none ↦ fault | some e ↦ ret e ]

  unfoldable pub select_loop : RbArray A → List ℤ → RbArray A → Outcome (RbArray A)
  unfolding is_end
  select_loop array [] selected = fault
  select_loop array (z ∷ zs) selected =
      let rest = elm_at array z >>= λ e. select_loop array zs (rb_array_add selected e) in
      if is_end z then ret selected else rest

  -- A null list of positions selects nothing: the result is null.
  unfoldable pub rb_monitor_value_array_select :
      RbArray A → Option (List ℤ) → Outcome (Option (RbArray A))
  rb_monitor_value_array_select array none = ret none
  rb_monitor_value_array_select array (some positions) = pos_array_length positions >>= λ ret_size.
      select_loop array positions (rb_array_new ret_size) >>= λ selected. ret (some selected)
