-- ===== src/Config.antt =====
-- src/main.c: the configuration of the program, with librbhttp. The fields of struct _main_info and
-- struct _worker_info that it sets are one record.
pub mod Last
pub mod Usable
pub mod Zookeeper
use rb_monitor.Prelude.{
  ℕ, ◌-◌, ◌^◌, ◌%◌, Bool, true, false, ◌&&◌, Option, none, some, List, [], ◌∷◌, ◌++◌, drop, ◌==◌,
  if◌then◌else◌,
}
use rb_monitor.Prelude.Int.{ℤ, pos, negsuc, pos_part, ltb_ℤ}
use rb_monitor.Prelude.Text.{Text, codes, text_eq, starts_with}
use rb_monitor.Platform.{Platform}

-- RB_HTTP_NORMAL_MODE and CHUNKED_MODE of librbhttp, or the 0 of the start.
pub data HttpMode : Type 0 where
  no_mode : HttpMode
  normal_mode : HttpMode
  chunked_mode : HttpMode

-- rd_kafka_topic_conf_set and rd_kafka_conf_set, with the name and the value, and what they answer.
pub data KafkaCall : Type 0 where
  topic_conf_set : Text → Option Text → KafkaCall
  conf_set : Text → Option Text → KafkaCall

pub data KafkaResult : Type 0 where
  conf_ok : KafkaResult
  conf_unknown : KafkaResult
  conf_invalid : KafkaResult

-- `severity` is the last argument of rd_log_set_severity, `kafka_calls` the calls of librdkafka.
pub record Config : Type 0 where
  pub severity : Option ℤ
  pub threads : ℕ
  pub sleep_main : ℕ
  pub timeout : ℤ
  pub max_snmp_fails : ℤ
  pub max_kafka_fails : Option Text
  pub kafka_broker : Option Text
  pub kafka_topic : Option Text
  pub kafka_timeout : ℤ
  pub sleep_worker : ℤ
  pub http_endpoint : Option Text
  pub http_max_total_connections : ℤ
  pub http_timeout : ℤ
  pub http_connttimeout : ℤ
  pub http_verbose : ℤ
  pub http_insecure : ℤ
  pub rb_http_max_messages : ℤ
  pub http_mode : HttpMode
  pub kafka_calls : List KafkaCall

-- The branches of parse_json_config.
pub data Key : Type 0 where
  debug_key : Key
  stdout_key : Key
  syslog_key : Key
  threads_key : Key
  timeout_key : Key
  max_snmp_fails_key : Key
  max_kafka_fails_key : Key
  sleep_main_key : Key
  kafka_broker_key : Key
  kafka_topic_key : Key
  kafka_timeout_key : Key
  sleep_worker_key : Key
  http_endpoint_key : Key
  rdkafka_key : Key
  http_max_total_connections_key : Key
  http_timeout_key : Key
  http_connttimeout_key : Key
  http_verbose_key : Key
  http_insecure_key : Key
  rb_http_max_messages_key : Key
  rb_http_mode_key : Key
  unknown_key : Key

-- The key of librdkafka's options is CONFIG_RDKAFKA_KEY, compared whole.
unfoldable pub config_key : Text → Key
config_key key =
    if text_eq key (codes "debug")
    then debug_key
    else if text_eq key (codes "stdout")
    then stdout_key
    else if text_eq key (codes "syslog")
    then syslog_key
    else if text_eq key (codes "threads")
    then threads_key
    else if text_eq key (codes "timeout")
    then timeout_key
    else if text_eq key (codes "max_snmp_fails")
    then max_snmp_fails_key
    else if text_eq key (codes "max_kafka_fails")
    then max_kafka_fails_key
    else if text_eq key (codes "sleep_main")
    then sleep_main_key
    else if text_eq key (codes "kafka_broker")
    then kafka_broker_key
    else if text_eq key (codes "kafka_topic")
    then kafka_topic_key
    else if text_eq key (codes "kafka_timeout")
    then kafka_timeout_key
    else if text_eq key (codes "sleep_worker")
    then sleep_worker_key
    else if text_eq key (codes "http_endpoint")
    then http_endpoint_key
    else if text_eq key (codes "rdkafka.")
    then rdkafka_key
    else if text_eq key (codes "http_max_total_connections")
    then http_max_total_connections_key
    else if text_eq key (codes "http_timeout")
    then http_timeout_key
    else if text_eq key (codes "http_connttimeout")
    then http_connttimeout_key
    else if text_eq key (codes "http_verbose")
    then http_verbose_key
    else if text_eq key (codes "http_insecure")
    then http_insecure_key
    else if text_eq key (codes "rb_http_max_messages")
    then rb_http_max_messages_key
    else if text_eq key (codes "rb_http_mode")
    then rb_http_mode_key
    else unknown_key

-- Is the setting taken from json_object_get_int64, which may set errno?
abbrev pub reads_int64 : Key → Bool
reads_int64 debug_key = true
reads_int64 stdout_key = false
reads_int64 syslog_key = false
reads_int64 threads_key = true
reads_int64 timeout_key = true
reads_int64 max_snmp_fails_key = true
reads_int64 max_kafka_fails_key = false
reads_int64 sleep_main_key = true
reads_int64 kafka_broker_key = false
reads_int64 kafka_topic_key = false
reads_int64 kafka_timeout_key = true
reads_int64 sleep_worker_key = true
reads_int64 http_endpoint_key = false
reads_int64 rdkafka_key = false
reads_int64 http_max_total_connections_key = true
reads_int64 http_timeout_key = true
reads_int64 http_connttimeout_key = true
reads_int64 http_verbose_key = true
reads_int64 http_insecure_key = true
reads_int64 rb_http_max_messages_key = true
reads_int64 rb_http_mode_key = false
reads_int64 unknown_key = false

-- A number is taken if it is positive.
abbrev pub positive_or : ℕ → ℤ → ℕ
positive_or kept z = if ltb_ℤ (pos 0) z then pos_part z else kept

abbrev pub mode_or : HttpMode → Option Text → HttpMode
mode_or kept none = kept
mode_or kept (some sval) =
    if text_eq sval (codes "normal")
    then normal_mode
    else if text_eq sval (codes "deflated")
    then chunked_mode
    else kept

-- Where a topic property is not known, it is tried as a global one.
abbrev pub fall_through : KafkaResult → Text → Option Text → List KafkaCall
fall_through conf_ok name value = []
fall_through conf_unknown name value = conf_set name value ∷ []
fall_through conf_invalid name value = []

unfoldable pub parse_rdkafka_keyval_config :
    (Text → Option Text → KafkaResult) → Text → Option Text → List KafkaCall
unfolding starts_with
parse_rdkafka_keyval_config topic_set key value =
    let name = drop 8 key in
    if starts_with (codes "topic.") name
    then topic_conf_set (drop 6 name) value
      ∷ fall_through (topic_set (drop 6 name) value) name value
    else conf_set name value ∷ []

module _ (p : Platform) (topic_set : Text → Option Text → KafkaResult) where
  -- json_object_get_int64 and json_object_get_string, also of null
  abbrev pub get_int64 : Option p.Json → ℤ
  get_int64 none = pos 0
  get_int64 (some val) = p.json_int64 val

  abbrev pub get_string : Option p.Json → Option Text
  get_string none = none
  get_string (some val) = some (p.json_string val)

  abbrev pub int64_fails : Option p.Json → Bool
  int64_fails none = false
  int64_fails (some val) = p.json_int64_fails val

  -- The body of one branch. `stdout` and `syslog` are taken and do nothing.
  unfoldable pub set_config : Key → Text → Option p.Json → Config → Config
  unfolding parse_rdkafka_keyval_config
  set_config debug_key key val c = record c { severity = some (get_int64 val) }
  set_config stdout_key key val c = c
  set_config syslog_key key val c = c
  set_config threads_key key val c = record c { threads = positive_or c.threads (get_int64 val) }
  set_config timeout_key key val c = record c { timeout = get_int64 val }
  set_config max_snmp_fails_key key val c = record c { max_snmp_fails = get_int64 val }
  set_config max_kafka_fails_key key val c = record c { max_kafka_fails = get_string val }
  set_config sleep_main_key key val c = record c {
    sleep_main = positive_or c.sleep_main (get_int64 val);
  }
  set_config kafka_broker_key key val c = record c { kafka_broker = get_string val }
  set_config kafka_topic_key key val c = record c { kafka_topic = get_string val }
  set_config kafka_timeout_key key val c = record c { kafka_timeout = get_int64 val }
  set_config sleep_worker_key key val c = record c { sleep_worker = get_int64 val }
  set_config http_endpoint_key key val c = record c { http_endpoint = get_string val }
  set_config rdkafka_key key val c = record c {
    kafka_calls = c.kafka_calls ++ parse_rdkafka_keyval_config topic_set key (get_string val);
  }
  set_config http_max_total_connections_key key val c = record c {
    http_max_total_connections = get_int64 val;
  }
  set_config http_timeout_key key val c = record c { http_timeout = get_int64 val }
  set_config http_connttimeout_key key val c = record c { http_connttimeout = get_int64 val }
  set_config http_verbose_key key val c = record c { http_verbose = get_int64 val }
  set_config http_insecure_key key val c = record c { http_insecure = get_int64 val }
  set_config rb_http_max_messages_key key val c = record c { rb_http_max_messages = get_int64 val }
  set_config rb_http_mode_key key val c = record c {
    http_mode = mode_or c.http_mode (get_string val);
  }
  set_config unknown_key key val c = c

  -- errno is set to 0 for each member.
  abbrev pub member_fails : Key → Option p.Json → Bool
  member_fails key val = reads_int64 key && int64_fails val

  unfoldable pub parse_json_config : List (Text × Option p.Json) → Bool → Config → Bool × Config
  unfolding set_config config_key
  parse_json_config [] ret c = (ret, c)
  parse_json_config ((key, val) ∷ rest) ret c =
      parse_json_config rest (if member_fails (config_key key) val then false else ret)
        (set_config (config_key key) key val c)
