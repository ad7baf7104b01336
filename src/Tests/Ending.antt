-- ===== src/Tests/Ending.antt =====
-- The sessions of two sensors, the options of librbhttp and the end of main, at concrete inputs.
use rb_monitor.Prelude.{
  ℕ, ◌+◌, ◌-◌, ◌<◌, ◌^◌, ◌≢◌, ◌≡◌, true, false, none, some, List, [], ◌∷◌, ◌++◌, arith,
}
use rb_monitor.Prelude.Int.{ℤ, pos, negsuc, pos_part, neg_part}
use rb_monitor.Prelude.Text.{Text, codes}
use rb_monitor.Snmp.{SnmpVersion}
use rb_monitor.Snmp.Session.{SnmpSession, new_snmp_session}
use rb_monitor.Snmp.Numbers.{HasRoom}
use rb_monitor.Monitors.Pass.{SnmpParams}
use rb_monitor.Monitors.Pass.Sessions.{open_session, after_sensors, IsOwn, open_session-isolated}
use rb_monitor.Config.{Config, chunked_mode}
use rb_monitor.Config.Usable.{zero_config}
use rb_monitor.Main.Http.{
  http_opts, process_rb_http_options, set_all, SpellAll, insecure, process_rb_http_options_complete,
}
use rb_monitor.Main.Shutdown.{Started}

abbrev default_session : SnmpSession
default_session = record {
  peername = none;
  local_port = 0;
  remote_port = 0;
  timeout = pos 1000;
  community = none;
  community_len = 0;
  version = SnmpVersion.version_1;
  flags = 0;
}

abbrev first_sensor : SnmpParams
first_sensor = record {
  peername = some (codes "a");
  community = some (codes "private");
  timeout = pos 9;
  version = SnmpVersion.version_3;
}

abbrev second_sensor : SnmpParams
second_sensor = record {
  peername = some (codes "b");
  community = some (codes "public");
  timeout = pos 5;
  version = SnmpVersion.version_2c;
}

open_session-isolated_example :
    ((open_session some true second_sensor
        (after_sensors some ((true, first_sensor) ∷ []) default_session)).0
      ≡ (open_session some true second_sensor default_session).0)
    × IsOwn some second_sensor default_session
        (open_session some true second_sensor
          (after_sensors some ((true, first_sensor) ∷ []) default_session)).0
open_session-isolated_example =
    open_session-isolated some ((true, first_sensor) ∷ []) true second_sensor default_session

-- The session opens.
opened : (open_session some true second_sensor default_session).0 ≢ none
unfolding open_session new_snmp_session
opened e = cc

abbrev http_config : Config
http_config = record zero_config {
  http_timeout = pos 150;
  http_verbose = negsuc 0;
  http_insecure = pos 1;
  http_mode = chunked_mode;
}

-- The handler is the list of what was set.
abbrev log_opt : Text → Text → List (Text × Text) → List (Text × Text)
log_opt key value handler = handler ++ (key, value) ∷ []

fits : (z : ℤ) → pos_part z + neg_part z < 1000 → 1000 < 10 ^ 20 → HasRoom 8192 z
fits z h small = (omega arith, omega arith)

process_rb_http_options_complete_example :
    (texts : List (Text × Text)) × (process_rb_http_options log_opt 8192 (pos 1) http_config []
      ≡ set_all log_opt 8192 (texts ++ insecure log_opt 8192 (pos 1)) [])
    × SpellAll log_opt 8192 (http_opts (pos 1) http_config) texts
process_rb_http_options_complete_example =
    process_rb_http_options_complete log_opt 8192 (pos 1) http_config [] (
      fits (pos 0) (omega arith) small,
      (
        fits (pos 150) (omega arith) small,
        (
          fits (pos 0) (omega arith) small,
          (
            fits (negsuc 0) (omega arith) small,
            (fits (pos 0) (omega arith) small, (fits (pos 1) (omega arith) small, tt)),
          ),
        ),
      ),
    )
  where
    small : 1000 < 10 ^ 20
    small = omega arith

abbrev two_workers : Started
two_workers = record { threads = 2; kafka_broker = true; rk = true; http_endpoint = false }

-- Three messages, one of which is sent at each poll.
abbrev queue_length : ℕ → ℕ
queue_length i = 3 - i
