-- ===== src/Monitors/Dependencies.antt =====
-- src/rb_sensor_monitor_array.c: which monitors an operation reads (find_monitor_pos,
-- get_monitor_dependencies), and src/rb_sensor_monitor.c: rb_monitor_get_op_variables.
pub mod Found
pub mod Selected
use rb_monitor.Prelude.{
  ℕ, suc, Bool, true, false, ◌&&◌, Option, none, some, List, [], ◌∷◌, map, if◌then◌else◌,
}
use rb_monitor.Prelude.Int.{ℤ, pos, negsuc}
use rb_monitor.Prelude.Text.{Text, text_eq}
use rb_monitor.Platform.{Platform}
use rb_monitor.Value.Select.{is_end}
use rb_monitor.Monitor.{Monitor, MonitorCmdType}
use mathlib.Core.Option

-- Both have no group, or both have the same.
unfoldable pub same_group : Option Text → Option Text → Bool
same_group none none = true
same_group none (some g) = false
same_group (some i) none = false
same_group (some i) (some g) = text_eq g i

module _ {Json : Type 0} where
  -- The test of find_monitor_pos.
  unfoldable pub is_named : Text → Option Text → Monitor Json → Bool
  unfolding same_group
  is_named name group_id m = text_eq name m.name && same_group m.group_id group_id

  unfoldable pub find_from : ℕ → List (Monitor Json) → Text → Option Text → ℤ
  unfolding is_named
  find_from i [] name group_id = negsuc 0
  find_from i (m ∷ ms) name group_id =
      let rest = find_from (suc i) ms name group_id in
      if is_named name group_id m then pos i else rest

  unfoldable pub find_monitor_pos : List (Monitor Json) → Text → Option Text → ℤ
  unfolding find_from
  find_monitor_pos monitors name group_id = find_from 0 monitors name group_id

-- The variables of an operation, as libmatheval lists them; none for another type of monitor or an
-- operation that libmatheval refuses.
unfoldable pub rb_monitor_get_op_variables : (p : Platform) → Monitor p.Json → List Text
rb_monitor_get_op_variables p monitor = elim monitor.type [
  | MonitorCmdType.system ↦ []
  | MonitorCmdType.oid ↦ []
  | MonitorCmdType.op ↦ elim (p.evaluator_create monitor.cmd_arg) [
    | none ↦ []
    | some evaluator ↦ p.evaluator_variables evaluator
  ]
]

module _ (p : Platform) (monitors : List (Monitor p.Json)) where
  -- ret[i] = find_monitor_pos(...) for each variable, and the -1 at the end. One variable that is
  -- not found discards the whole array.
  unfoldable pub dependencies_loop : Option Text → List Text → Option (List ℤ)
  unfolding find_monitor_pos is_end
  dependencies_loop group_id [] = some (negsuc 0 ∷ [])
  dependencies_loop group_id (var ∷ vars) =
      let rest = dependencies_loop group_id vars in
      if is_end (find_monitor_pos monitors var group_id)
      then none
      else Option.map (λ l. find_monitor_pos monitors var group_id ∷ l) rest

  unfoldable pub get_monitor_dependencies : Monitor p.Json → Option (List ℤ)
  unfolding rb_monitor_get_op_variables
  get_monitor_dependencies monitor = elim (rb_monitor_get_op_variables p monitor) [
    | [] ↦ none
    | var ∷ vars ↦ dependencies_loop monitor.group_id (var ∷ vars)
  ]

  unfoldable pub get_monitors_dependencies : List (Option (List ℤ))
  get_monitors_dependencies = map get_monitor_dependencies monitors
