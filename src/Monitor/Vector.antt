-- ===== src/Monitor/Vector.antt =====
-- src/rb_sensor_monitor.c: a response that is split at a token (vector_elements,
-- extract_vector_value, process_vector_monitor).
pub mod Termination
pub mod Elements
use rb_monitor.Prelude.{
  ℕ, zero, suc, ◌+◌, ◌-◌, true, false, Option, none, some, List, Outcome, ret, fault, out_of_fuel,
  ◌>>=◌, ltb, leb, ◌==◌, if◌then◌else◌, length, drop, take, set, replicate,
}
use rb_monitor.Prelude.Int.{ℤ, pos, nonzero}
use rb_monitor.Prelude.Text.{Text, codes, text_eq, strstr}
use rb_monitor.Platform.{Platform}
use rb_monitor.Value.{RawValue, MonitorValue, new_monitor_value_array}
use rb_monitor.Monitor.{Monitor, process_novector_monitor}

abbrev pub default_timestamp_sep : Text
default_timestamp_sep = codes ":"

-- The loop of vector_elements, from the haystack and the count that it has reached.
unfoldable pub vector_elements_loop : ℕ → Text → Text → ℕ → Outcome ℕ
vector_elements_loop zero haystack splittok n = out_of_fuel
vector_elements_loop (suc fuel) haystack splittok n = elim (strstr haystack splittok) [
  | none ↦ ret n
  | some found ↦ vector_elements_loop fuel (drop (length splittok) found) splittok (n + 1)
]

unfoldable pub vector_elements : ℕ → Text → Text → Outcome ℕ
unfolding vector_elements_loop
vector_elements fuel haystack splittok = vector_elements_loop fuel haystack splittok 1

-- What extract_vector_value writes through its pointers.
pub record Extracted (Double : Type 0) : Type 0 where
  pub str_value : Text
  pub str_size : ℕ
  pub number : Double
  pub timestamp : ℤ

-- end_token - vector_values
unfoldable pub end_token : Text → Text → ℕ
end_token vector_values splittok = elim (strstr vector_values splittok) [
  | none ↦ length vector_values
  | some found ↦ length vector_values - length found
]

-- How the aggregate of a vector is made: the sum, or for any other operation the mean.
unfoldable pub split_op_number : (p : Platform) → Text → p.Double → ℕ → p.Double
split_op_number p splitop sum count =
    if text_eq (codes "sum") splitop then sum else p.divide sum (p.of_size count)

-- The aggregate, printed in a buffer of `size` bytes.
unfoldable pub split_op_value :
    (p : Platform) → ℕ → Option Text → p.Double → ℕ → ℤ → Option (RawValue p.Double)
unfolding split_op_number process_novector_monitor
split_op_value p size none sum count now = none
split_op_value p size (some splitop) sum count now =
    if ltb 0 count
    then (let result = split_op_number p splitop sum count in
        some (process_novector_monitor (take (size - 1) (p.print_lf result)) result now))
    else none

module _ (p : Platform) where
  -- The timestamp in front of a value, and the text behind it. What sscanf cannot convert leaves
  -- the timestamp at 0.
  unfoldable pub extract_timestamp : Text → ℕ → Option Text → Option (Text × ℤ)
  extract_timestamp vector_values end none = some (vector_values, pos 0)
  extract_timestamp vector_values end (some timestamp_sep) =
      elim (strstr vector_values timestamp_sep) [
        | none ↦ none
        | some timestamp_end ↦
            if leb end (length vector_values - length timestamp_end)
            then none
            else some (
              drop (length timestamp_sep) timestamp_end,
              elim (p.scan_time vector_values) [ none ↦ pos 0 | some t ↦ t ],
            )
      ]

  unfoldable pub extract_vector_value : Text → Text → Option Text → Option (Extracted p.Double)
  unfolding extract_timestamp end_token
  extract_vector_value vector_values splittok timestamp_sep =
      elim (extract_timestamp vector_values (end_token vector_values splittok) timestamp_sep) [
        | none ↦ none
        | some (rest, timestamp) ↦
            if (p.strtod rest).range_error
            then none
            else some (record {
              str_value = rest;
              str_size = end_token vector_values splittok - (length vector_values - length rest);
              number = (p.strtod rest).number;
              timestamp = timestamp;
            })
      ]

  -- children, sum and mean_count in the loop of process_vector_monitor.
  pub record Progress : Type 0 where
    pub children : List (Option (RawValue p.Double))
    pub sum : p.Double
    pub mean_count : ℕ

  -- children[count] = ..., with the sum and the count. A write behind the array is a fault.
  unfoldable pub store_child : ℕ → RawValue p.Double → Progress → Outcome Progress
  store_child count child st =
      if ltb count (length st.children)
      then ret (record st {
        children = set st.children count (some child);
        sum = p.add st.sum child.value;
        mean_count = st.mean_count + 1;
      })
      else fault

  module _ (monitor : Monitor p.Json) (splittok : Text) (now : ℤ) where
    -- The value of the token at the start of `tok`.
    unfoldable pub token_value : Text → Option (RawValue p.Double)
    unfolding extract_vector_value process_novector_monitor
    token_value tok =
        if text_eq tok splittok
        then none
        else elim (extract_vector_value tok splittok
            (if monitor.timestamp_given then some default_timestamp_sep else none)) [
              | none ↦ none
              | some e ↦ some (
                  process_novector_monitor e.str_value e.number
                    (if nonzero e.timestamp then e.timestamp else now))
            ]

    -- One round of the loop of process_vector_monitor, without its last step.
    unfoldable pub vector_round : Text → ℕ → Progress → Outcome Progress
    vector_round tok count st = elim (token_value tok) [
      | none ↦ ret st
      | some child ↦ store_child count child st
    ]

    -- The loop, from the tok and the count that it has reached.
    unfoldable pub vector_loop : ℕ → Text → ℕ → Progress → Outcome Progress
    vector_loop zero tok count st = out_of_fuel
    vector_loop (suc fuel) tok count st =
        let here = if ltb 0 count then drop (length splittok) tok else tok in
        vector_round here count st >>= λ st'. elim (strstr here splittok) [
          | none ↦ ret st'
          | some next ↦ vector_loop fuel next (count + 1) st'
        ]

    unfoldable pub process_vector_monitor : ℕ → Text → Outcome (MonitorValue p.Double)
    process_vector_monitor fuel value_buf =
        vector_elements fuel value_buf splittok >>= λ n_children.
        vector_loop fuel value_buf 0
          (record { children = replicate n_children none; sum = p.zero_double; mean_count = 0 })
        >>= λ st. ret (
            new_monitor_value_array st.children
              (split_op_value p 1024 monitor.splitop st.sum st.mean_count now))
