-- ===== src/Json.antt =====
-- src/rb_json.h and src/rb_json.c: reading the members of a json-c object, and copying an object.
pub mod Members
use rb_monitor.Prelude.{
  Bool, true, false, Option, none, some, List, [], ◌∷◌, Outcome, ret, fault, ◌>>=◌, if◌then◌else◌,
}
use rb_monitor.Prelude.Int.{ℤ}
use rb_monitor.Prelude.Text.{Text}
use rb_monitor.Platform.{Platform}

module _ (p : Platform) where
  -- PARSE_CJSON_CHILD0: the default for a member that is absent or null.
  unfoldable pub parse_child0 {ℓ} : {A : Type ℓ} → p.Json → Text → (p.Json → A) → A → A
  parse_child0 base child_key cb default_value = elim (p.json_member base child_key) [
    | none ↦ default_value
    | some none ↦ default_value
    | some (some child) ↦ cb child
  ]

  unfoldable pub parse_child_int64 : p.Json → Text → ℤ → ℤ
  unfolding parse_child0
  parse_child_int64 base child_key default_value =
      parse_child0 base child_key p.json_int64 default_value

  -- PARSE_CJSON_CHILD_STR and PARSE_CJSON_CHILD_DUP_STR with NULL for a default.
  unfoldable pub parse_child_str : p.Json → Text → Option Text
  unfolding parse_child0
  parse_child_str base child_key =
      parse_child0 base child_key (λ child. some (p.json_string child)) none

  -- json_object_object_add: on what is no object it writes through the wrong member of a union.
  unfoldable pub object_add : p.Json → Text → Option p.Json → Outcome p.Json
  object_add root key child =
      if p.json_is_object root then ret (p.json_add root key child) else fault

  -- json_object_copy0_childs, from some members on; `dst` is an object.
  unfoldable pub json_object_copy0_childs : p.Json → List (Text × Option p.Json) → p.Json
  json_object_copy0_childs dst [] = dst
  json_object_copy0_childs dst ((key, val) ∷ rest) =
      json_object_copy0_childs (p.json_add dst key val) rest

  -- Null for what is no object.
  unfoldable pub json_object_object_copy : p.Json → Option p.Json
  unfolding json_object_copy0_childs
  json_object_object_copy orig =
      if p.json_is_object orig
      then some (json_object_copy0_childs p.json_new_object (p.json_members orig))
      else none

  -- A null child is an error and adds nothing.
  unfoldable pub add_json_child0 : p.Json → Text → Option p.Json → Outcome (Bool × p.Json)
  unfolding object_add
  add_json_child0 root key none = ret (false, root)
  add_json_child0 root key (some child) =
      object_add root key (some child) >>= λ root'. ret (true, root')
