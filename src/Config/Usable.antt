-- ===== src/Config/Usable.antt =====
-- src/main.c: the threads and the sleep of the main loop, after the default configuration and that of
-- the file.
use rb_monitor.Prelude.{
  ℕ, ◌<◌, ◌≡◌, ap, ◌∙◌, true, Option, none, some, List, [], ◌∷◌, ◌==◌, Bool-cases, inl, inr, arith,
}
use rb_monitor.Prelude.Int.{ℤ, pos, negsuc}
use rb_monitor.Prelude.Text.{Text, codes, text_eq}
use rb_monitor.Platform.{Platform}
use rb_monitor.Config.{
  Config, no_mode, Key, KafkaResult, config_key, positive_or, get_int64, parse_json_config,
  threads_key, sleep_main_key,
}
use rb_monitor.Config.Last.{index, last_positive, settled, parse_json_config-settled}

-- memset of the two structs
abbrev pub zero_config : Config
zero_config = record {
  severity = none;
  threads = 0;
  sleep_main = 0;
  timeout = pos 0;
  max_snmp_fails = pos 0;
  max_kafka_fails = none;
  kafka_broker = none;
  kafka_topic = none;
  kafka_timeout = pos 0;
  sleep_worker = pos 0;
  http_endpoint = none;
  http_max_total_connections = pos 0;
  http_timeout = pos 0;
  http_connttimeout = pos 0;
  http_verbose = pos 0;
  http_insecure = pos 0;
  rb_http_max_messages = pos 0;
  http_mode = no_mode;
  kafka_calls = [];
}

positive_or-pos : (a : ℕ) (z : ℤ) → 0 < a → 0 < positive_or a z
positive_or-pos a (pos n) h = ground arith
positive_or-pos a (negsuc n) h = ground arith

positive : {a b : ℕ} → a ≡ b → 0 < b → 0 < a
positive e h = omega arith

ten : {a : ℕ} → a ≡ 10 → 0 < a
ten e = omega arith

module _ (p : Platform) (topic_set : Text → Option Text → KafkaResult) where
  -- The members of str_default_config.
  abbrev pub str_default_config : List (Text × Option p.Json)
  str_default_config =
      (codes "debug", some (p.json_new_int64 (pos 100)))
      ∷ (codes "syslog", some (p.json_new_int64 (pos 0)))
      ∷ (codes "stdout", some (p.json_new_int64 (pos 1)))
      ∷ (codes "threads", some (p.json_new_int64 (pos 10)))
      ∷ (codes "timeout", some (p.json_new_int64 (pos 5)))
      ∷ (codes "max_snmp_fails", some (p.json_new_int64 (pos 2)))
      ∷ (codes "sleep_main", some (p.json_new_int64 (pos 10)))
      ∷ (codes "sleep_worker", some (p.json_new_int64 (pos 2)))
      ∷ []

  -- What main makes of the default configuration and then of the members of "conf".
  unfoldable pub configured : List (Text × Option p.Json) → Config
  unfolding parse_json_config
  configured members =
      (parse_json_config p topic_set members true
        (parse_json_config p topic_set str_default_config true zero_config).1).1

  last_positive-pos :
      (k : Key) (members : List (Text × Option p.Json)) (a : ℕ)
      → 0 < a
      → 0 < last_positive p topic_set k members a
  last_positive-pos k [] a h = h
  last_positive-pos k ((key, val) ∷ rest) a h =
      elim (Bool-cases (index (config_key key) == index k)) [
        | inl e ↦
            rw e (last_positive-pos k rest _ (positive_or-pos a (get_int64 p topic_set val) h))
        | inr e ↦ rw e (last_positive-pos k rest a h)
      ]

  defaults :
      ((n : ℕ) → p.json_int64 (p.json_new_int64 (pos n)) ≡ pos n)
      → (last_positive p topic_set threads_key str_default_config 0 ≡ 10)
        × (last_positive p topic_set sleep_main_key str_default_config 0 ≡ 10)
  unfolding config_key text_eq
  defaults reads = (ap (positive_or 0) (reads 10), ap (positive_or 0) (reads 10))

  configured-settled :
      (members : List (Text × Option p.Json))
      → configured members
        ≡ settled p topic_set members (settled p topic_set str_default_config zero_config)
  unfolding configured
  configured-settled members =
      parse_json_config-settled p topic_set members true _
      ∙ ap (settled p topic_set members)
          (parse_json_config-settled p topic_set str_default_config true zero_config)

  -- Neither the threads nor the sleep are 0.
  pub configured-IsUsable :
      (members : List (Text × Option p.Json))
      → ((n : ℕ) → p.json_int64 (p.json_new_int64 (pos n)) ≡ pos n)
      → (0 < (configured members).threads) × (0 < (configured members).sleep_main)
  configured-IsUsable members reads =
      let (threads, sleep) = defaults reads in
      let each = configured-settled members in
      (
        positive (ap (λ c. c.threads) each) (last_positive-pos threads_key members _ (ten threads)),
        positive (ap (λ c. c.sleep_main) each)
            (last_positive-pos sleep_main_key members _ (ten sleep)),
      )
