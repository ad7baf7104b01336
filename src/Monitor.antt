-- ===== src/Monitor.antt =====
-- src/rb_sensor_monitor.c: the monitor itself, and the value that a text stands for.
pub mod Vector
pub mod Operation
pub mod External
pub mod Parse
use rb_monitor.Prelude.{Bool, Option, false}
use rb_monitor.Prelude.Int.{ℤ}
use rb_monitor.Prelude.Text.{Text}
use rb_monitor.Value.{RawValue}

-- enum monitor_cmd_type
pub data MonitorCmdType : Type 0 where
  system oid op : MonitorCmdType

-- struct rb_monitor_s
pub record Monitor (Json : Type 0) : Type 0 where
  pub type : MonitorCmdType
  pub name : Text
  pub argument : Option Text
  pub name_split_suffix : Option Text
  pub instance_prefix : Option Text
  pub group_id : Option Text
  pub send : Bool
  pub timestamp_given : Bool
  pub integer : Bool
  pub splittok : Option Text
  pub splitop : Option Text
  pub cmd_arg : Text
  pub enrichment : Option Json

-- The whole rest of the buffer becomes the string, also behind the next separator.
unfoldable pub process_novector_monitor : {Double : Type 0} → Text → Double → ℤ → RawValue Double
process_novector_monitor value_buf number now = record {
  timestamp = now;
  value = number;
  bad_value = false;
  string_value = value_buf;
}
