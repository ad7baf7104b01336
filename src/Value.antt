-- ===== src/Value.antt =====
-- src/rb_value.h and src/rb_value.c: the values that a monitor has.
pub mod Select
pub mod Print
use rb_monitor.Prelude.{Bool, List, Option}
use rb_monitor.Prelude.Int.{ℤ, ◌-ℤ◌}
use rb_monitor.Prelude.Text.{Text}

-- The `value` member of the union: what a struct monitor_value of type MONITOR_VALUE_T__VALUE holds.
pub record RawValue (Double : Type 0) : Type 0 where
  pub timestamp : ℤ
  pub value : Double
  pub bad_value : Bool
  pub string_value : Text

-- struct monitor_value. The children and the split result of an array are always of type
-- MONITOR_VALUE_T__VALUE: process_novector_monitor makes all of them.
pub data MonitorValue (Double : Type 0) : Type 0 where
  value : RawValue Double → MonitorValue Double
  array : List (Option (RawValue Double)) → Option (RawValue Double) → MonitorValue Double

module _ {Double : Type 0} where
  unfoldable pub new_monitor_value_array :
      List (Option (RawValue Double)) → Option (RawValue Double) → MonitorValue Double
  new_monitor_value_array children split_op = array children split_op

  -- The difference of the two timestamps.
  unfoldable pub rb_monitor_value_cmp_timestamp : RawValue Double → RawValue Double → ℤ
  unfolding ◌-ℤ◌
  rb_monitor_value_cmp_timestamp m1 m2 = m1.timestamp -ℤ m2.timestamp
