-- ===== src/Snmp/Session.antt =====
-- src/rb_snmp.c: new_snmp_session. What net-snmp makes of a session is an argument.
use rb_monitor.Prelude.{ℕ, Bool, Option, none, some, length, if◌then◌else◌}
use rb_monitor.Prelude.Int.{ℤ}
use rb_monitor.Prelude.Text.{Text}
use rb_monitor.Snmp.{SnmpVersion}

-- The members of net-snmp's struct snmp_session that the program sets or passes on.
pub record SnmpSession : Type 0 where
  pub peername : Option Text
  pub local_port : ℕ
  pub remote_port : ℕ
  pub timeout : ℤ
  pub community : Option Text
  pub community_len : ℕ
  pub version : SnmpVersion
  pub flags : ℕ

-- struct monitor_snmp_new_session_config
pub record NewSessionConfig : Type 0 where
  pub community : Text
  pub timeout : ℤ
  pub flags : ℕ
  pub version : SnmpVersion

-- What is set in the session that net-snmp has opened.
abbrev pub configure : NewSessionConfig → Option SnmpSession → Option SnmpSession
configure config none = none
configure config (some ss) = some (record ss {
  community = some config.community;
  community_len = length config.community;
  timeout = config.timeout;
  flags = config.flags;
  version = config.version;
})

-- The new session, null if it fails, and the initial session, that is changed too. `has_memory` is
-- whether calloc answers; strdup does.
unfoldable pub new_snmp_session :
    (SnmpSession → Option SnmpSession)
    → Bool
    → SnmpSession
    → NewSessionConfig
    → Option SnmpSession × SnmpSession
new_snmp_session sess_open has_memory initial_session config =
    let changed = record initial_session {
      local_port = 0;
      remote_port = 0;
      timeout = config.timeout;
      community = some config.community;
      version = config.version;
    } in
    if has_memory then (configure config (sess_open changed), changed) else (none, initial_session)
