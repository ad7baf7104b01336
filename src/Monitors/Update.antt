-- ===== src/Monitors/Update.antt =====
-- src/rb_sensor_monitor_array.c: what is sent of a new value, and what is kept for the next pass
-- (process_monitor_value_v_print, process_monitor_value_v, process_monitor_value).
pub mod Changes
use rb_monitor.Prelude.{
  Bool, true, false, not, ◌||◌, Option, none, some, List, [], ◌∷◌, Outcome, ret, fault, ◌>>=◌,
  if◌then◌else◌,
}
use rb_monitor.Prelude.Int.{pos, ltb_ℤ}
use rb_monitor.Platform.{Platform}
use rb_monitor.Value.{RawValue, MonitorValue, value, array, rb_monitor_value_cmp_timestamp}
use rb_monitor.Value.Print.{MessageArray, print_monitor_value}
use rb_monitor.Monitor.{Monitor}

-- What process_monitor_value returns and the messages that it pushes.
pub record Updated (Double : Type 0) : Type 0 where
  pub saved : MonitorValue Double
  pub msgs : Option MessageArray

module _ (p : Platform) where
  -- Is the new value later than the old one, or another number?
  unfoldable pub differs : RawValue p.Double → RawValue p.Double → Bool
  unfolding rb_monitor_value_cmp_timestamp
  differs old new =
      ltb_ℤ (rb_monitor_value_cmp_timestamp old new) (pos 0) || p.rd_dne old.value new.value

  -- A new child that is printed against the old one.
  unfoldable pub updated_child :
      Option (RawValue p.Double) → Option (RawValue p.Double) → Option (RawValue p.Double)
  unfolding differs
  updated_child none old = none
  updated_child (some new) none = some new
  updated_child (some new) (some old) = if differs old new then some new else none

  -- print_children of process_monitor_value_v_print: the changes, and all children behind the end
  -- of the old array.
  unfoldable pub updated_children :
      List (Option (RawValue p.Double))
      → List (Option (RawValue p.Double))
      → List (Option (RawValue p.Double))
  unfolding updated_child
  updated_children [] olds = []
  updated_children (new ∷ news) [] = new ∷ updated_children news []
  updated_children (new ∷ news) (old ∷ olds) = updated_child new old ∷ updated_children news olds

  module _ (monitor : Monitor p.Json) where
    unfoldable pub print_if_sent : MonitorValue p.Double → Outcome (Option MessageArray)
    print_if_sent mv =
        if monitor.send
        then (print_monitor_value p monitor mv >>= λ msgs. ret (some msgs))
        else ret none

    -- The children of the two arrays are swapped and the new array, now with the old children, is
    -- freed: what stays has the new children and the old aggregate.
    unfoldable pub process_monitor_value_v :
        List (Option (RawValue p.Double))
        → Option (RawValue p.Double)
        → List (Option (RawValue p.Double))
        → Option (RawValue p.Double)
        → Outcome (Updated p.Double)
    process_monitor_value_v new_children new_split old_children old_split =
        print_if_sent (array (updated_children new_children old_children) new_split) >>= λ msgs.
        ret (record { saved = array new_children old_split; msgs = msgs })

    unfoldable pub replace : MonitorValue p.Double → Outcome (Updated p.Double)
    replace mv = print_if_sent mv >>= λ msgs. ret (record { saved = mv; msgs = msgs })

    -- The comparison with an old value, where timestamps come with the response. The assertions of
    -- process_monitor_value_v are compiled out, so an array against a value reads the wrong member
    -- of the union.
    unfoldable pub compare_and_update :
        MonitorValue p.Double → MonitorValue p.Double → Outcome (Updated p.Double)
    unfolding differs
    compare_and_update (value new) (value old) =
        if differs old new
        then replace (value new)
        else ret (record { saved = value old; msgs = none })
    compare_and_update (value new) (array old_children old_split) = fault
    compare_and_update (array new_children new_split) (value old) = fault
    compare_and_update (array new_children new_split) (array old_children old_split) =
        process_monitor_value_v new_children new_split old_children old_split

    unfoldable pub process_monitor_value :
        MonitorValue p.Double → Option (MonitorValue p.Double) → Outcome (Updated p.Double)
    process_monitor_value monitor_value none = replace monitor_value
    process_monitor_value monitor_value (some old_mv) =
        if not monitor.timestamp_given
        then replace monitor_value
        else compare_and_update monitor_value old_mv
