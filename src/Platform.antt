-- ===== src/Platform.antt =====
-- What the program calls and does not define: the double arithmetic of the machine, strtod, sscanf
-- and printf at a double, the librd comparison rd_dne, GNU libmatheval, and json-c objects.
use rb_monitor.Prelude.{ℕ, Bool, List, Option}
use rb_monitor.Prelude.Int.{ℤ}
use rb_monitor.Prelude.Text.{Text}

-- The answer of strtod: the number, how many bytes it read, and whether it set errno.
pub record Parsed (Double : Type 0) : Type 0 where
  pub number : Double
  pub read : ℕ
  pub range_error : Bool

-- A member of a json-c object as the program reads it, by json_object_get_type: a string (null if
-- it has none), an integer (none if errno is set), and so on; `nested` is an object or an array.
pub data JsonField (Double : Type 0) : Type 0 where
  string : Option Text → JsonField Double
  int : Option ℤ → JsonField Double
  null : JsonField Double
  boolean : Bool → JsonField Double
  double : Double → JsonField Double
  nested : JsonField Double

pub record Platform : Type 1 where
  pub Double : Type 0
  pub zero_double : Double
  pub add : Double → Double → Double
  pub divide : Double → Double → Double
  -- (double) of a size_t and of a long
  pub of_size : ℕ → Double
  pub of_long : ℤ → Double
  -- isnormal of <math.h>, rd_dne of librd
  pub is_normal : Double → Bool
  pub rd_dne : Double → Double → Bool
  pub strtod : Text → Parsed Double
  -- sscanf with "%tu": `none` if nothing is converted
  pub scan_time : Text → Option ℤ
  -- printf with "%lf", and with PRId64 at the number cast to int64_t
  pub print_lf : Double → Text
  pub print_int64 : Double → Text
  -- libmatheval: evaluator_create, evaluator_get_variables and evaluator_evaluate, which is given
  -- the count, the names and the values
  pub Evaluator : Type 0
  pub evaluator_create : Text → Option Evaluator
  pub evaluator_variables : Evaluator → List Text
  pub evaluator_evaluate : Evaluator → ℕ → List (Option Text) → List Double → Double
  -- an object of json-c. Null is no object: `none` stands for it.
  pub Json : Type 0
  -- the members that an enrichment prints, in the order of the iterator
  pub json_fields : Json → List (Text × JsonField Double)
  pub json_is_object : Json → Bool
  -- json_object_object_get_ex: `none` if it returns false, else the value, which may be null
  pub json_member : Json → Text → Option (Option Json)
  -- the members of an object in the order of the iterator
  pub json_members : Json → List (Text × Option Json)
  -- json_object_array_length and json_object_array_get_idx; `none` for what is no array
  pub json_elements : Json → Option (List (Option Json))
  pub json_string : Json → Text
  pub json_int64 : Json → ℤ
  pub json_new_object : Json
  pub json_new_string : Text → Json
  pub json_new_int64 : ℤ → Json
  -- json_object_object_add on an object
  pub json_add : Json → Text → Option Json → Json
  -- json_tokener_parse_verbose and json_object_to_json_string: `none` if they return null
  pub json_parse : Text → Option Json
  pub json_to_text : Json → Option Text
  -- whether json_object_get_int64 sets errno
  pub json_int64_fails : Json → Bool
