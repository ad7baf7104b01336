-- ===== src/Config/Last.antt =====
-- src/main.c: which member of the configuration decides a setting.
use rb_monitor.Prelude.{
  ℕ, ◌≡◌, refl, ap, ◌∙◌, Bool, Option, some, List, [], ◌∷◌, ◌++◌, ◌==◌, if◌then◌else◌,
}
use rb_monitor.Prelude.Int.{ℤ}
use rb_monitor.Prelude.Text.{Text}
use rb_monitor.Platform.{Platform}
use rb_monitor.Config.{
  Config, Key, KafkaResult, config_key, positive_or, mode_or, parse_rdkafka_keyval_config,
  get_int64, get_string, set_config, parse_json_config, debug_key, stdout_key, syslog_key,
  threads_key, timeout_key, max_snmp_fails_key, max_kafka_fails_key, sleep_main_key,
  kafka_broker_key, kafka_topic_key, kafka_timeout_key, sleep_worker_key, http_endpoint_key,
  rdkafka_key, http_max_total_connections_key, http_timeout_key, http_connttimeout_key,
  http_verbose_key, http_insecure_key, rb_http_max_messages_key, rb_http_mode_key, unknown_key,
}

-- The branches by number.
abbrev pub index : Key → ℕ
index debug_key = 0
index stdout_key = 1
index syslog_key = 2
index threads_key = 3
index timeout_key = 4
index max_snmp_fails_key = 5
index max_kafka_fails_key = 6
index sleep_main_key = 7
index kafka_broker_key = 8
index kafka_topic_key = 9
index kafka_timeout_key = 10
index sleep_worker_key = 11
index http_endpoint_key = 12
index rdkafka_key = 13
index http_max_total_connections_key = 14
index http_timeout_key = 15
index http_connttimeout_key = 16
index http_verbose_key = 17
index http_insecure_key = 18
index rb_http_max_messages_key = 19
index rb_http_mode_key = 20
index unknown_key = 21

module _ (p : Platform) (topic_set : Text → Option Text → KafkaResult) where
  abbrev pub Members : Type 0
  Members = List (Text × Option p.Json)

  -- A setting after the members: each member of this key, in order, makes the next value of the last.
  abbrev pub over {ℓ} : {A : Type ℓ} → Key → (Text → Option p.Json → A → A) → Members → A → A
  over k take [] a = a
  over k take ((key, val) ∷ rest) a =
      over k take rest (if index (config_key key) == index k then take key val a else a)

  abbrev pub last_int : Key → Members → ℤ → ℤ
  last_int k = over k (λ key val a. get_int64 p topic_set val)

  abbrev pub last_string : Key → Members → Option Text → Option Text
  last_string k = over k (λ key val a. get_string p topic_set val)

  abbrev pub last_positive : Key → Members → ℕ → ℕ
  last_positive k = over k (λ key val a. positive_or a (get_int64 p topic_set val))

  -- Each setting on its own.
  abbrev pub settled : Members → Config → Config
  settled members c = record {
    severity = over debug_key (λ key val a. some (get_int64 p topic_set val)) members c.severity;
    threads = last_positive threads_key members c.threads;
    sleep_main = last_positive sleep_main_key members c.sleep_main;
    timeout = last_int timeout_key members c.timeout;
    max_snmp_fails = last_int max_snmp_fails_key members c.max_snmp_fails;
    kafka_timeout = last_int kafka_timeout_key members c.kafka_timeout;
    sleep_worker = last_int sleep_worker_key members c.sleep_worker;
    http_max_total_connections =
        last_int http_max_total_connections_key members c.http_max_total_connections;
    http_timeout = last_int http_timeout_key members c.http_timeout;
    http_connttimeout = last_int http_connttimeout_key members c.http_connttimeout;
    http_verbose = last_int http_verbose_key members c.http_verbose;
    http_insecure = last_int http_insecure_key members c.http_insecure;
    rb_http_max_messages = last_int rb_http_max_messages_key members c.rb_http_max_messages;
    max_kafka_fails = last_string max_kafka_fails_key members c.max_kafka_fails;
    kafka_broker = last_string kafka_broker_key members c.kafka_broker;
    kafka_topic = last_string kafka_topic_key members c.kafka_topic;
    http_endpoint = last_string http_endpoint_key members c.http_endpoint;
    http_mode =
        over rb_http_mode_key (λ key val a. mode_or a (get_string p topic_set val)) members
          c.http_mode;
    kafka_calls =
        over rdkafka_key
          (λ key val a. a ++ parse_rdkafka_keyval_config topic_set key (get_string p topic_set val))
          members c.kafka_calls;
  }

  -- One member, of the branch `k`, on each setting.
  abbrev settled_by : Key → Text → Option p.Json → Config → Config
  settled_by k key val c = record {
    severity = if index k == index debug_key then some (get_int64 p topic_set val) else c.severity;
    threads =
        if index k == index threads_key
        then positive_or c.threads (get_int64 p topic_set val)
        else c.threads;
    sleep_main =
        if index k == index sleep_main_key
        then positive_or c.sleep_main (get_int64 p topic_set val)
        else c.sleep_main;
    timeout = if index k == index timeout_key then get_int64 p topic_set val else c.timeout;
    max_snmp_fails =
        if index k == index max_snmp_fails_key then get_int64 p topic_set val else c.max_snmp_fails;
    kafka_timeout =
        if index k == index kafka_timeout_key then get_int64 p topic_set val else c.kafka_timeout;
    sleep_worker =
        if index k == index sleep_worker_key then get_int64 p topic_set val else c.sleep_worker;
    http_max_total_connections =
        if index k == index http_max_total_connections_key
        then get_int64 p topic_set val
        else c.http_max_total_connections;
    http_timeout =
        if index k == index http_timeout_key then get_int64 p topic_set val else c.http_timeout;
    http_connttimeout =
        if index k == index http_connttimeout_key
        then get_int64 p topic_set val
        else c.http_connttimeout;
    http_verbose =
        if index k == index http_verbose_key then get_int64 p topic_set val else c.http_verbose;
    http_insecure =
        if index k == index http_insecure_key then get_int64 p topic_set val else c.http_insecure;
    rb_http_max_messages =
        if index k == index rb_http_max_messages_key
        then get_int64 p topic_set val
        else c.rb_http_max_messages;
    max_kafka_fails =
        if index k == index max_kafka_fails_key
        then get_string p topic_set val
        else c.max_kafka_fails;
    kafka_broker =
        if index k == index kafka_broker_key then get_string p topic_set val else c.kafka_broker;
    kafka_topic =
        if index k == index kafka_topic_key then get_string p topic_set val else c.kafka_topic;
    http_endpoint =
        if index k == index http_endpoint_key then get_string p topic_set val else c.http_endpoint;
    http_mode =
        if index k == index rb_http_mode_key
        then mode_or c.http_mode (get_string p topic_set val)
        else c.http_mode;
    kafka_calls =
        if index k == index rdkafka_key
        then c.kafka_calls ++ parse_rdkafka_keyval_config topic_set key (get_string p topic_set val)
        else c.kafka_calls;
  }

  set_config_lem :
      (k : Key) (key : Text) (val : Option p.Json) (c : Config)
      → set_config p topic_set k key val c ≡ settled_by k key val c
  unfolding set_config
  set_config_lem debug_key key val c = refl
  set_config_lem stdout_key key val c = refl
  set_config_lem syslog_key key val c = refl
  set_config_lem threads_key key val c = refl
  set_config_lem timeout_key key val c = refl
  set_config_lem max_snmp_fails_key key val c = refl
  set_config_lem max_kafka_fails_key key val c = refl
  set_config_lem sleep_main_key key val c = refl
  set_config_lem kafka_broker_key key val c = refl
  set_config_lem kafka_topic_key key val c = refl
  set_config_lem kafka_timeout_key key val c = refl
  set_config_lem sleep_worker_key key val c = refl
  set_config_lem http_endpoint_key key val c = refl
  set_config_lem rdkafka_key key val c = refl
  set_config_lem http_max_total_connections_key key val c = refl
  set_config_lem http_timeout_key key val c = refl
  set_config_lem http_connttimeout_key key val c = refl
  set_config_lem http_verbose_key key val c = refl
  set_config_lem http_insecure_key key val c = refl
  set_config_lem rb_http_max_messages_key key val c = refl
  set_config_lem rb_http_mode_key key val c = refl
  set_config_lem unknown_key key val c = refl

  pub parse_json_config-settled :
      (members : Members) (ret : Bool) (c : Config)
      → (parse_json_config p topic_set members ret c).1 ≡ settled members c
  unfolding parse_json_config
  parse_json_config-settled [] ret c = refl
  parse_json_config-settled ((key, val) ∷ rest) ret c =
      parse_json_config-settled rest _ (set_config p topic_set (config_key key) key val c)
      ∙ ap (settled rest) (set_config_lem (config_key key) key val c)
