-- ===== src/Tests/JsonData.antt =====
-- JSON values for the tests, with the operations of json-c that the program calls.
use rb_monitor.Prelude.{
  ℕ, Bool, true, false, Option, none, some, List, [], ◌∷◌, ◌≡◌, refl, leb, if◌then◌else◌,
}
use rb_monitor.Prelude.Int.{ℤ, pos}
use rb_monitor.Prelude.Text.{Text, codes, text_eq}
use rb_monitor.Platform.{JsonField}
use rb_monitor.Json.Members.{over}

mutual
  pub data JsonData : Type 0 where
    text : Text → JsonData
    integer : ℤ → JsonData
    object : Members → JsonData
    listed : Elements → JsonData

  pub data Members : Type 0 where
    last_member : Members
    member : Text → JsonData → Members → Members
    null_member : Text → Members → Members

  pub data Elements : Type 0 where
    last_element : Elements
    element : JsonData → Elements → Elements

abbrev pub members_of : Members → List (Text × Option JsonData)
members_of last_member = []
members_of (member k v ms) = (k, some v) ∷ members_of ms
members_of (null_member k ms) = (k, none) ∷ members_of ms

abbrev pub snoc : Members → Text → Option JsonData → Members
snoc last_member k none = null_member k last_member
snoc last_member k (some v) = member k v last_member
snoc (member k' v' ms) k v = member k' v' (snoc ms k v)
snoc (null_member k' ms) k v = null_member k' (snoc ms k v)

abbrev pub elements_of : Elements → List (Option JsonData)
elements_of last_element = []
elements_of (element v es) = some v ∷ elements_of es

abbrev pub is_object : JsonData → Bool
is_object (text t) = false
is_object (integer z) = false
is_object (object ms) = true
is_object (listed es) = false

abbrev pub members : JsonData → List (Text × Option JsonData)
members (text t) = []
members (integer z) = []
members (object ms) = members_of ms
members (listed es) = []

abbrev pub add : JsonData → Text → Option JsonData → JsonData
add (text t) k v = text t
add (integer z) k v = integer z
add (object ms) k v = object (snoc ms k v)
add (listed es) k v = listed es

abbrev pub elements : JsonData → Option (List (Option JsonData))
elements (text t) = none
elements (integer z) = none
elements (object ms) = none
elements (listed es) = some (elements_of es)

abbrev pub string_of : JsonData → Text
string_of (text t) = t
string_of (integer z) = codes "0"
string_of (object ms) = codes "{}"
string_of (listed es) = codes "[]"

abbrev pub int64_of : JsonData → ℤ
int64_of (text t) = pos 0
int64_of (integer z) = z
int64_of (object ms) = pos 0
int64_of (listed es) = pos 0

abbrev pub field_of : Option JsonData → JsonField ℕ
field_of none = JsonField.null
field_of (some (text t)) = JsonField.string (some t)
field_of (some (integer z)) = JsonField.int (some z)
field_of (some (object ms)) = JsonField.nested
field_of (some (listed es)) = JsonField.nested

pub over-members_of :
    (ms : Members) (before : Option (Option JsonData)) (k k' : Text) (v : Option JsonData)
    → over before (members_of (snoc ms k v)) k'
      ≡ (if text_eq k' k then some v else over before (members_of ms) k')
over-members_of last_member before k k' none = refl
over-members_of last_member before k k' (some v) = refl
over-members_of (member k1 v1 ms) before k k' v =
    over-members_of ms (if text_eq k' k1 then some (some v1) else before) k k' v
over-members_of (null_member k1 ms) before k k' v =
    over-members_of ms (if text_eq k' k1 then some none else before) k k' v

-- Not JSON: a text that begins with a letter is a string, any other cannot be parsed.
abbrev pub parse : Text → Option JsonData
parse [] = none
parse (c ∷ s) = if leb 97 c then some (text (c ∷ s)) else none

abbrev pub unparse : JsonData → Text
unparse (text t) = t
unparse (integer z) = []
unparse (object ms) = []
unparse (listed es) = []
