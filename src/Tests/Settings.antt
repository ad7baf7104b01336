-- ===== src/Tests/Settings.antt =====
-- A configuration, a ZooKeeper section, and the exit status, at concrete inputs.
use rb_monitor.Prelude.{◌≡◌, refl, Bool, true, false, Option, none, some, List, [], ◌∷◌, ret}
use rb_monitor.Prelude.Int.{pos, negsuc}
use rb_monitor.Prelude.Text.{Text, codes, text_eq}
use rb_monitor.Config.{KafkaResult, conf_ok, config_key, set_config, parse_json_config}
use rb_monitor.Config.Usable.{zero_config}
use rb_monitor.Config.Zookeeper.{
  ZkStart, zookeeper_members, parse_zookeeper_json, set_zookeeper, zookeeper_start, AllRead,
}
use rb_monitor.Config.Zookeeper.Given.{IsGiven, parse_zookeeper_json-IsGiven}
use rb_monitor.Main.{
  opt_h, opt_g, MainAnswers, parse_options, first_options, with_options, with_path, main_status,
}
use rb_monitor.Main.Status.{Ends, main_status-Ends}
use rb_monitor.Tests.Setup.{sums}
use rb_monitor.Tests.JsonData.{JsonData, text, integer}

abbrev no_kafka : Text → Option Text → KafkaResult
no_kafka name value = conf_ok

-- The threads are given twice, the second time not usable.
abbrev settings : List (Text × Option JsonData)
settings =
    (codes "threads", some (integer (pos 4)))
    ∷ (codes "timeout", some (integer (pos 7)))
    ∷ (codes "threads", some (integer (pos 0)))
    ∷ (codes "what", none)
    ∷ []

four_threads : (parse_json_config sums no_kafka settings true zero_config).1.threads ≡ 4
unfolding parse_json_config set_config config_key text_eq
four_threads = refl

abbrev section : List (Text × Option JsonData)
section =
    (codes "host", some (text (codes "zk")))
    ∷ (codes "push_timeout", some (integer (pos 30)))
    ∷ (codes "pop_watcher_timeout", some (integer (negsuc 0)))
    ∷ []

-- The pop timeout of -1 is used as 2^64 - 1.
abbrev starting : ZkStart sums
starting = record {
  host = codes "zk";
  pop_watcher_timeout = 18446744073709551615;
  push_timeout = 30;
  sensors = none;
}

parse_zookeeper_json-IsGiven_example :
    IsGiven sums section starting × (◌≡◌ {A = Bool} false false) × AllRead sums section
unfolding parse_zookeeper_json zookeeper_members set_zookeeper zookeeper_start text_eq
parse_zookeeper_json-IsGiven_example = parse_zookeeper_json-IsGiven sums section false starting refl

abbrev answers : MainAnswers sums
answers = record {
  file = λ path. none;
  kafka_new = true;
  brokers_added = 1;
  http_created = true;
  report_thread = true;
  has_memory = true;
  errno = false;
}

main_status-Ends_example :
    Ends sums no_kafka
      (main_status sums no_kafka answers (opt_g ∷ opt_h ∷ []))
      (parse_options (opt_g ∷ opt_h ∷ []) first_options)
main_status-Ends_example = main_status-Ends sums no_kafka answers (opt_g ∷ opt_h ∷ []) (λ n. refl)

-- With no configuration file the status is 1.
no_file : main_status sums no_kafka answers [] ≡ ret 1
unfolding main_status parse_options with_options with_path
no_file = refl
