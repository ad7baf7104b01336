-- ===== src/Main.antt =====
-- src/main.c: the options, and how main ends.
pub mod Status
pub mod Http
pub mod Shutdown
pub mod Pause
use rb_monitor.Prelude.{
  ℕ, Bool, true, false, ◌&&◌, Option, none, some, List, [], ◌∷◌, ◌==◌, is_some, ◌≡◌, refl, Outcome,
  ret, fault, ◌>>=◌, if◌then◌else◌,
}
use rb_monitor.Prelude.Int.{ℤ, pos}
use rb_monitor.Prelude.Text.{Text, codes}
use rb_monitor.Platform.{Platform}
use rb_monitor.Array.{RbArray}
use rb_monitor.Sensor.{Sensor}
use rb_monitor.Sensors.{parse_sensors}
use rb_monitor.Config.{Config, KafkaResult, parse_json_config}
use rb_monitor.Zk.Paths.{zk_prepare}
use rb_monitor.MonitorZk.{MonitorZk, ZkCall, init_state}
use rb_monitor.Config.Zookeeper.{ZkStart, parse_zookeeper_json}
use rb_monitor.Config.Usable.{zero_config, str_default_config}

-- What getopt returns for "gc:hvd:": -v is known to it and to no case of main.
pub data Opt : Type 0 where
  opt_h : Opt
  opt_g : Opt
  opt_c : Text → Opt
  opt_d : ℤ → Opt
  opt_v : Opt
  opt_unknown : Opt

pub record Options : Type 0 where
  pub config_path : Option Text
  pub debug_severity : ℤ

-- The loop over the options: it exits with a status, or goes on.
pub data Next {ℓ} (A : Type ℓ) : Type ℓ where
  exit : ℕ → Next A
  go_on : A → Next A

unfoldable pub parse_options : List Opt → Options → Next Options
parse_options [] o = go_on o
parse_options (opt_h ∷ rest) o = exit 0
parse_options (opt_g ∷ rest) o = parse_options rest o
parse_options (opt_c path ∷ rest) o = parse_options rest (record o { config_path = some path })
parse_options (opt_d severity ∷ rest) o =
    parse_options rest (record o { debug_severity = severity })
parse_options (opt_v ∷ rest) o = exit 1
parse_options (opt_unknown ∷ rest) o = exit 1

-- debug_severity is LOG_INFO at first.
abbrev pub first_options : Options
first_options = record { config_path = none; debug_severity = pos 6 }

-- What the calls of main answer, and whether errno is set when main comes to the ZooKeeper section:
-- json_object_from_file, rd_kafka_new, rd_kafka_brokers_add,
-- rb_http_handler_create, pthread_create of the report thread, and malloc.
pub record MainAnswers (p : Platform) : Type 0 where
  pub file : Text → Option p.Json
  pub kafka_new : Bool
  pub brokers_added : ℕ
  pub http_created : Bool
  pub report_thread : Bool
  pub has_memory : Bool
  pub errno : Bool

module _ (p : Platform) (topic_set : Text → Option Text → KafkaResult) where
  -- The members of "conf", none if there is no "conf"; a null "conf", or one that is no object, is a
  -- null pointer in the loop over its members.
  abbrev pub conf_members : Option (Option p.Json) → Outcome (List (Text × Option p.Json))
  conf_members none = ret []
  conf_members (some none) = fault
  conf_members (some (some config)) =
      if p.json_is_object config then ret (p.json_members config) else fault

  -- json_object_array_length of a null pointer, or of what is no array, is a fault; the assertion of
  -- init_rbmon_zk is compiled out.
  abbrev pub zk_sensors : Option p.Json → Outcome (List (Option p.Json))
  zk_sensors none = fault
  zk_sensors (some sensors) = elim (p.json_elements sensors) [
    | none ↦ fault
    | some elements ↦ ret elements
  ]

  -- The state that init_rbmon_zk makes, if it is called, and its calls of rb_zk, with zk_prepare in
  -- front of them. The handle is one that zookeeper_init returned.
  unfoldable pub init_rbmon_zk : Option (ZkStart p) → Outcome (Option (MonitorZk p × List ZkCall))
  unfolding init_state zk_prepare
  init_rbmon_zk none = ret none
  init_rbmon_zk (some start) = zk_sensors start.sensors >>= λ sensors.
      init_state p start.push_timeout sensors [] >>= λ zk. ret (some zk)

  -- The "zookeeper" member, if there is one; parse_zookeeper_json loops over its members as over
  -- those of "conf".
  unfoldable pub zookeeper :
      Bool → Option (Option p.Json) → Outcome (Option (MonitorZk p × List ZkCall))
  unfolding parse_zookeeper_json init_rbmon_zk
  zookeeper errno none = ret none
  zookeeper errno (some zk) = conf_members (some zk) >>= λ members.
      parse_zookeeper_json p members errno >>= λ start. init_rbmon_zk start

  -- The workers run until a signal, and main returns the result of the default configuration.
  abbrev pub finish : MainAnswers p → Bool → Option (RbArray (Sensor p)) → ℕ
  finish a default_ok none = 1
  finish a default_ok (some sensors) = if a.has_memory then if default_ok then 1 else 0 else 1

  unfoldable pub start_sensors : MainAnswers p → p.Json → Bool → Config → Outcome ℕ
  unfolding parse_sensors
  start_sensors a config_file default_ok c =
      parse_sensors p c.timeout config_file >>= λ sensors. ret (finish a default_ok sensors)

  unfoldable pub start_http : MainAnswers p → p.Json → Bool → Config → Outcome ℕ
  unfolding start_sensors
  start_http a config_file default_ok c =
      if is_some c.http_endpoint
      then if a.http_created
        then if a.report_thread then start_sensors a config_file default_ok c else ret 1
        else ret 1
      else start_sensors a config_file default_ok c

  unfoldable pub start_kafka : MainAnswers p → p.Json → Bool → Config → Outcome ℕ
  unfolding start_http
  start_kafka a config_file default_ok c =
      if is_some c.kafka_broker
      then if a.kafka_new
        then if a.brokers_added == 0 then ret 1 else start_http a config_file default_ok c
        else ret 1
      else start_http a config_file default_ok c

  unfoldable pub with_file : MainAnswers p → Bool × Config → Option p.Json → Outcome ℕ
  unfolding start_kafka parse_json_config zookeeper
  with_file a default none = ret 1
  with_file a default (some config_file) =
      conf_members (p.json_member config_file (codes "conf")) >>= λ members.
      zookeeper a.errno (p.json_member config_file (codes "zookeeper")) >>= λ zk.
      start_kafka a config_file default.0 (parse_json_config p topic_set members true default.1).1

  unfoldable pub with_path : MainAnswers p → Bool × Config → Option Text → Outcome ℕ
  unfolding with_file
  with_path a default none = ret 1
  with_path a default (some config_path) = with_file a default (a.file config_path)

  unfoldable pub with_options : MainAnswers p → Bool × Config → Next Options → Outcome ℕ
  unfolding with_path
  with_options a default (exit status) = ret status
  with_options a default (go_on o) = with_path a default o.config_path

  -- The status of the process, after a signal has stopped the main loop if it came to that.
  unfoldable pub main_status : MainAnswers p → List Opt → Outcome ℕ
  unfolding parse_options parse_json_config with_options
  main_status a argv =
      with_options a
        (parse_json_config p topic_set (str_default_config p topic_set) true zero_config)
        (parse_options argv first_options)
