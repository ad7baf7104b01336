-- ===== src/Tests/Setup.antt =====
-- A concrete platform, and monitors for the tests.
use rb_monitor.Prelude.{
  ◌≡◌, Option, refl, if◌then◌else◌, ℕ, suc, ◌+◌, ◌*◌, ◌-◌, true, false, not, ◌&&◌, none, some, [],
  ◌∷◌, map, arith, leb, ◌==◌, length-take, take,
}
use mathlib.Core.List.{foldl}
use rb_monitor.Prelude.Int.{ℤ, pos, negsuc}
use rb_monitor.Prelude.Text.{Text, codes, text_eq}
use rb_monitor.Prelude.Text.Decimal.{decimal}
use rb_monitor.Json.Members.{over, JsonObjects}
use rb_monitor.Tests.JsonData.{
  JsonData, text, integer, object, listed, last_member, members, add, parse, unparse, elements,
  string_of, int64_of, is_object, field_of, over-members_of,
}
use rb_monitor.Platform.{Parsed, Platform}
use rb_monitor.Value.{RawValue}
use rb_monitor.Monitor.{Monitor, MonitorCmdType}
use rb_monitor.Monitor.Operation.Safe.{PrintsShort}

abbrev pub read_number : ℕ → ℕ → Text → Parsed ℕ
read_number n k [] = record { number = n; read = k; range_error = false }
read_number n k (c ∷ s) =
    let rest = read_number (n * 10 + (c - 48)) (suc k) s in
    if leb 48 c && leb c 57 then rest else record { number = n; read = k; range_error = false }

abbrev pub absolute : ℤ → ℕ
absolute (pos n) = n
absolute (negsuc n) = suc n

abbrev pub sums : Platform
sums = record {
  Double = ℕ;
  zero_double = 0;
  add = λ x y. x + y;
  divide = λ x y. x;
  of_size = λ n. n;
  of_long = absolute;
  is_normal = λ d. not (d == 0);
  rd_dne = λ x y. not (x == y);
  strtod = read_number 0 0;
  scan_time = λ t. some (pos (read_number 0 0 t).number);
  print_lf = λ d. take 20 (decimal d);
  print_int64 = decimal;
  Evaluator = Text;
  evaluator_create = λ t. some t;
  evaluator_variables = map (λ c. c ∷ []);
  evaluator_evaluate = λ f n names values. foldl (λ x y. x + y) 0 values;
  Json = JsonData;
  json_fields = λ j. map (λ m. (m.0, field_of m.1)) (members j);
  json_is_object = is_object;
  json_member = λ j k. over none (members j) k;
  json_members = members;
  json_elements = elements;
  json_string = string_of;
  json_int64 = int64_of;
  json_new_object = object last_member;
  json_new_string = text;
  json_new_int64 = integer;
  json_add = add;
  json_int64_fails = λ j. false;
  json_parse = parse;
  json_to_text = λ j. some (unparse j);
}

pub sums-PrintsShort : (operation : Text) → PrintsShort sums operation
sums-PrintsShort operation f e vars h =
    omega (
      arith,
      length-take 20 (decimal (sums.evaluator_evaluate f vars.count vars.names vars.values)),
    )

sums-add_object :
    (o : JsonData) (k : Text) (v : Option JsonData)
    → is_object o ≡ true
    → is_object (add o k v) ≡ true
sums-add_object (text t) k v h = cc
sums-add_object (integer z) k v h = cc
sums-add_object (object ms) k v h = refl
sums-add_object (listed es) k v h = cc

sums-add_member :
    (o : JsonData) (k k' : Text) (v : Option JsonData)
    → is_object o ≡ true
    → over none (members (add o k v)) k'
      ≡ (if text_eq k' k then some v else over none (members o) k')
sums-add_member (text t) k k' v h = cc
sums-add_member (integer z) k k' v h = cc
sums-add_member (object ms) k k' v h = over-members_of ms none k k' v
sums-add_member (listed es) k k' v h = cc

pub sums-JsonObjects : JsonObjects sums
sums-JsonObjects = record {
  new_object = refl;
  new_member = λ k. refl;
  add_object = sums-add_object;
  add_member = sums-add_member;
  members = λ o k h. refl;
}

abbrev pub a_monitor : MonitorCmdType → Text → Text → Monitor sums.Json
a_monitor type name arg = record {
  type = type;
  name = name;
  argument = some arg;
  name_split_suffix = none;
  instance_prefix = none;
  group_id = none;
  send = true;
  timestamp_given = false;
  integer = false;
  splittok = none;
  splitop = none;
  cmd_arg = arg;
  enrichment = none;
}

-- A shell command whose output is split at each `;`.
abbrev pub split_monitor : Monitor sums.Json
split_monitor = record (a_monitor MonitorCmdType.system (codes "b") (codes "cpus")) {
  splittok = some (codes ";");
  splitop = some (codes "sum");
  instance_prefix = some (codes "cpu-");
}

abbrev pub load_monitor : Monitor sums.Json
load_monitor = a_monitor MonitorCmdType.oid (codes "a") (codes "1.3.6")

abbrev pub sum_monitor : Monitor sums.Json
sum_monitor = a_monitor MonitorCmdType.op (codes "c") (codes "aa")

abbrev pub timed_monitor : Monitor sums.Json
timed_monitor = record split_monitor { timestamp_given = true }

abbrev pub raw : ℕ → RawValue ℕ
raw n = record { timestamp = pos 7; value = n; bad_value = false; string_value = decimal n }
