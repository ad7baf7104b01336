-- ===== src/Array/Parse.antt =====
-- The loop of src/rb_sensor_monitor_array.c: parse_rb_monitors and of src/main.c: parse_sensors, which
-- adds to a new array what is parsed of each element of a JSON array.
pub mod Present
use rb_monitor.Prelude.{
  Option, none, some, List, [], ◌∷◌, Outcome, ret, ◌>>=◌, if◌then◌else◌, length,
}
use rb_monitor.Array.{RbArray, rb_array_new, rb_array_full, rb_array_add}

-- An element that could not be parsed is left out.
unfoldable pub add_parsed : {A : Type 0} → RbArray A → Option A → RbArray A
unfolding rb_array_add
add_parsed array none = array
add_parsed array (some elm) = rb_array_add array (some elm)

module _ {D A : Type 0} (parse : D → Outcome (Option A)) where
  -- The loop over the descriptions, which stops at a full array.
  unfoldable pub parse_loop : List D → RbArray A → Outcome (RbArray A)
  unfolding add_parsed
  parse_loop [] array = ret array
  parse_loop (json ∷ jsons) array =
      let rest = parse json >>= λ elm. parse_loop jsons (add_parsed array elm) in
      if rb_array_full array then ret array else rest

  -- From an array that has a cell for each description.
  unfoldable pub parse_elements : List D → Outcome (RbArray A)
  unfolding parse_loop
  parse_elements jsons = parse_loop jsons (rb_array_new (length jsons))
