-- ===== src/Value/Print.antt =====
-- src/rb_value.c: print_monitor_value, the JSON messages of a value, and src/rb_message_list.h.
pub mod Messages
use rb_monitor.Prelude.{
  ℕ, zero, suc, ◌+◌, ◌*◌, ◌-◌, ◌^◌, Bool, true, false, Option, none, some, List, [], ◌∷◌, ◌++◌,
  Outcome, ret, fault, ◌>>=◌, if◌then◌else◌, length, take, replicate, write,
}
use rb_monitor.Prelude.Int.{ℤ, pos, negsuc}
use rb_monitor.Prelude.Text.{Text, codes}
use rb_monitor.Prelude.Text.Decimal.{decimal, decimal_ℤ}
use rb_monitor.Platform.{Platform, JsonField}
use rb_monitor.Value.{RawValue, MonitorValue, value, array}
use rb_monitor.Monitor.{Monitor}

-- An rb_message: its payload, null in a new array, and its length.
pub record Message : Type 0 where
  pub payload : Option Text
  pub len : ℕ

-- An rb_message_array_t: as many messages as `count` says are in use. `allocated` is the size of its
-- memory. The elements of `msgs` are the ones that the code counts with, whether or not the memory
-- reaches as far.
pub record MessageArray : Type 0 where
  pub count : ℕ
  pub msgs : List Message
  pub allocated : ℕ

-- sizeof of a pointer, of rb_message_array_t (two pointers and a size_t), and of librdkafka's
-- rd_kafka_message_t, on a machine of 64 bits.
abbrev pub sizeof_pointer : ℕ
sizeof_pointer = 8

abbrev pub sizeof_message_array : ℕ
sizeof_message_array = 24

abbrev pub sizeof_message : ℕ
sizeof_message = 72

abbrev pub empty_message : Message
empty_message = record { payload = none; len = 0 }

-- sizeof(ret) is that of the pointer.
unfoldable pub new_messages_array : ℕ → MessageArray
new_messages_array s = record {
  count = s;
  msgs = replicate s empty_message;
  allocated = sizeof_pointer + s * sizeof_message;
}

-- printf with "%lu" at a signed 64-bit number.
unfoldable pub unsigned_decimal : ℤ → Text
unfolding decimal
unsigned_decimal (pos n) = decimal n
unsigned_decimal (negsuc n) = decimal (2 ^ 64 - suc n)

module _ (p : Platform) where
  -- `,"key":` and what stands behind it. Texts are printed as they are, with no escapes.
  unfoldable pub enrichment_field : Text → JsonField p.Double → Text
  unfolding decimal_ℤ
  enrichment_field key (JsonField.string none) = []
  enrichment_field key (JsonField.string (some str)) =
      codes ",\"" ++ (key ++ (codes "\":\"" ++ (str ++ codes "\"")))
  enrichment_field key (JsonField.int none) = []
  enrichment_field key (JsonField.int (some z)) =
      codes ",\"" ++ (key ++ (codes "\":" ++ decimal_ℤ z))
  enrichment_field key JsonField.null = codes ",\"" ++ (key ++ codes "\":null")
  enrichment_field key (JsonField.boolean b) =
      codes ",\"" ++ (key ++ (codes "\":" ++ (if b then codes "true" else codes "false")))
  enrichment_field key (JsonField.double d) = codes ",\"" ++ (key ++ (codes "\":" ++ p.print_lf d))
  enrichment_field key JsonField.nested = []

  unfoldable pub print_monitor_value_enrichment : List (Text × JsonField p.Double) → Text
  unfolding enrichment_field
  print_monitor_value_enrichment [] = []
  print_monitor_value_enrichment ((key, val) ∷ fields) =
      enrichment_field key val ++ print_monitor_value_enrichment fields

  module _ (monitor : Monitor p.Json) where
    -- `instance` is null for NO_INSTANCE.
    unfoldable pub print_name : Option ℕ → Option Text → Text
    print_name none suffix = codes ",\"monitor\":\"" ++ (monitor.name ++ codes "\"")
    print_name (some i) none = codes ",\"monitor\":\"" ++ (monitor.name ++ codes "\"")
    print_name (some i) (some suffix) =
        codes ",\"monitor\":\"" ++ (monitor.name ++ (suffix ++ codes "\""))

    unfoldable pub print_instance : Option ℕ → Option Text → Text
    unfolding decimal
    print_instance none prefix = []
    print_instance (some i) none = []
    print_instance (some i) (some prefix) =
        codes ",\"instance\":\"" ++ (prefix ++ (decimal i ++ codes "\""))

    unfoldable pub print_number : p.Double → Text
    print_number number =
        if monitor.integer
        then codes ",\"value\":" ++ p.print_int64 number
        else codes ",\"value\":\"" ++ (p.print_lf number ++ codes "\"")

    unfoldable pub print_group : Option Text → Text
    print_group none = []
    print_group (some group_id) = codes ",\"group_id\":" ++ group_id

    unfoldable pub print_enrichment : Option p.Json → Text
    unfolding print_monitor_value_enrichment
    print_enrichment none = []
    print_enrichment (some enrichment) = print_monitor_value_enrichment (p.json_fields enrichment)

    unfoldable pub print_text : RawValue p.Double → Option ℕ → Text
    unfolding unsigned_decimal print_name print_instance print_number print_group print_enrichment
    print_text v instance_no =
        codes "{\"timestamp\":"
        ++ (unsigned_decimal v.timestamp
            ++ (print_name instance_no monitor.name_split_suffix
                ++ (print_instance instance_no monitor.instance_prefix
                    ++ (print_number v.value
                        ++ (print_group monitor.group_id
                            ++ (print_enrichment monitor.enrichment ++ codes "}"))))))

    unfoldable pub print_monitor_value0 : RawValue p.Double → Option ℕ → Message
    print_monitor_value0 v instance_no =
        let text = print_text v instance_no in record { payload = some text; len = length text }

    -- The loop over the children, at the child `i` with `i_msgs` messages printed.
    unfoldable pub print_children :
        List (Option (RawValue p.Double)) → ℕ → ℕ → List Message → Outcome (ℕ × List Message)
    print_children [] i i_msgs msgs = ret (i_msgs, msgs)
    print_children (none ∷ rest) i i_msgs msgs = print_children rest (suc i) i_msgs msgs
    print_children (some child ∷ rest) i i_msgs msgs =
        write msgs i_msgs (print_monitor_value0 child (some i)) >>= λ msgs'.
        print_children rest (suc i) (suc i_msgs) msgs'

    unfoldable pub print_split :
        Option (RawValue p.Double) → ℕ → ℕ → List Message → Outcome MessageArray
    print_split none allocated i_msgs msgs =
        ret (record { count = i_msgs; msgs = msgs; allocated = allocated })
    print_split (some split) allocated i_msgs msgs =
        write msgs i_msgs (print_monitor_value0 split none) >>= λ msgs'.
        ret (record { count = suc i_msgs; msgs = msgs'; allocated = allocated })

    unfoldable pub print_monitor_value : MonitorValue p.Double → Outcome MessageArray
    unfolding new_messages_array
    print_monitor_value (value v) =
        let ret_array = new_messages_array 1 in
        write ret_array.msgs 0 (print_monitor_value0 v none) >>= λ msgs.
        ret (record { count = 1; msgs = msgs; allocated = ret_array.allocated })
    print_monitor_value (array children none) =
        let ret_array = new_messages_array (length children) in
        print_children children 0 0 ret_array.msgs >>= λ r.
        print_split none ret_array.allocated r.0 r.1
    print_monitor_value (array children (some split)) =
        let ret_array = new_messages_array (length children + 1) in
        print_children children 0 0 ret_array.msgs >>= λ r.
        print_split (some split) ret_array.allocated r.0 r.1
