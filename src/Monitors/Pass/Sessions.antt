-- ===== src/Monitors/Pass/Sessions.antt =====
-- src/rb_sensor_monitor_array.c: the SNMP session of process_monitors_array. The workers open theirs
-- one after another, under snmp_session_mutex, from one default session that each of them changes.
use rb_monitor.Prelude.{
  ◌≡◌, refl, ap, sym, subst, ◌∙◌, Bool, true, false, Option, none, some, List, [], ◌∷◌,
}
use rb_monitor.Prelude.Text.{Text}
use rb_monitor.Snmp.Session.{SnmpSession, NewSessionConfig, configure, new_snmp_session}
use rb_monitor.Monitors.Pass.{SnmpParams}

module _ (sess_open : SnmpSession → Option SnmpSession) where
  abbrev pub config_of : Text → SnmpParams → SnmpSession → NewSessionConfig
  config_of community snmp_params default_session = record {
    community = community;
    timeout = snmp_params.timeout;
    flags = default_session.flags;
    version = snmp_params.version;
  }

  abbrev pub open_with :
      Bool → SnmpParams → Option Text → Option Text → SnmpSession → Option SnmpSession × SnmpSession
  unfolding new_snmp_session
  open_with has_memory snmp_params none community default_session = (none, default_session)
  open_with has_memory snmp_params (some peername) none default_session = (none, default_session)
  open_with has_memory snmp_params (some peername) (some community) default_session =
      new_snmp_session sess_open has_memory (record default_session { peername = some peername })
        (config_of community snmp_params default_session)

  -- The session of a sensor, null if its peername or community is not set or if it cannot be opened,
  -- and what becomes of the default session.
  unfoldable pub open_session : Bool → SnmpParams → SnmpSession → Option SnmpSession × SnmpSession
  unfolding open_with
  open_session has_memory snmp_params default_session =
      open_with has_memory snmp_params snmp_params.peername snmp_params.community default_session

  -- The default session after sensors, each with what calloc answered.
  abbrev pub after_sensors : List (Bool × SnmpParams) → SnmpSession → SnmpSession
  unfolding open_session
  after_sensors [] default_session = default_session
  after_sensors ((has_memory, snmp_params) ∷ rest) default_session =
      after_sensors rest (open_session has_memory snmp_params default_session).1

  -- Two default sessions that can differ in what opening a session overwrites only.
  record Alike (s t : SnmpSession) : Type 0 where
    pub flags : s.flags ≡ t.flags
    pub community_len : s.community_len ≡ t.community_len

  Alike-open :
      (has_memory : Bool) (params : SnmpParams) (peername community : Option Text) (s : SnmpSession)
      → Alike (open_with has_memory params peername community s).1 s
  unfolding new_snmp_session
  Alike-open has_memory params none community s = record { flags = refl; community_len = refl }
  Alike-open has_memory params (some peername) none s = record {
    flags = refl;
    community_len = refl;
  }
  Alike-open true params (some peername) (some community) s = record {
    flags = refl;
    community_len = refl;
  }
  Alike-open false params (some peername) (some community) s = record {
    flags = refl;
    community_len = refl;
  }

  Alike-after :
      (others : List (Bool × SnmpParams)) (s : SnmpSession) → Alike (after_sensors others s) s
  unfolding open_session
  Alike-after [] s = record { flags = refl; community_len = refl }
  Alike-after ((has_memory, params) ∷ rest) s =
      let here = Alike-open has_memory params params.peername params.community s in
      let later = Alike-after rest (open_session has_memory params s).1 in
      record {
        flags = later.flags ∙ here.flags;
        community_len = later.community_len ∙ here.community_len;
      }

  Alike-same :
      (has_memory : Bool) (params : SnmpParams) (peername community : Option Text)
      (s t : SnmpSession)
      → Alike s t
      → (open_with has_memory params peername community s).0
        ≡ (open_with has_memory params peername community t).0
  unfolding new_snmp_session
  Alike-same has_memory params none community s t h = refl
  Alike-same has_memory params (some peername) none s t h = refl
  Alike-same false params (some peername) (some community) s t h = refl
  Alike-same true params (some peername) (some community) s t h =
      let opened : SnmpSession = record s {
        peername = some peername;
        local_port = 0;
        remote_port = 0;
        timeout = params.timeout;
        community = some community;
        version = params.version;
      } in
      ap
        (λ f.
          configure (record (config_of community params s) { flags = f })
            (sess_open (record opened { flags = f })))
        h.flags
      ∙ ap
          (λ n.
            configure (config_of community params t)
              (sess_open (record opened { flags = t.flags; community_len = n })))
          h.community_len

  -- A session has the community, the timeout and the version of the sensor, and the flags of the
  -- default session.
  abbrev pub IsOwn : SnmpParams → SnmpSession → Option SnmpSession → Type 0
  IsOwn params s none = Unit
  IsOwn params s (some session) =
      (session.community ≡ params.community)
      × (session.timeout ≡ params.timeout)
      × (session.version ≡ params.version)
      × (session.flags ≡ s.flags)

  configure-IsOwn :
      (params : SnmpParams) (community : Text) (s : SnmpSession) (o : Option SnmpSession)
      → params.community ≡ some community
      → IsOwn params s (configure (config_of community params s) o)
  configure-IsOwn params community s none e = tt
  configure-IsOwn params community s (some session) e = (sym e, refl, refl, refl)

  open_with-IsOwn :
      (has_memory : Bool) (params : SnmpParams) (peername community : Option Text) (s : SnmpSession)
      → params.community ≡ community
      → IsOwn params s (open_with has_memory params peername community s).0
  unfolding new_snmp_session
  open_with-IsOwn has_memory params none community s e = tt
  open_with-IsOwn has_memory params (some peername) none s e = tt
  open_with-IsOwn false params (some peername) (some community) s e = tt
  open_with-IsOwn true params (some peername) (some community) s e =
      configure-IsOwn params community s _ e

  -- However many sessions were opened from the default session before, and whichever of them failed,
  -- a sensor gets the session that it would get from the default session that main has set up, and it
  -- has the sensor's own community, timeout and version: nothing of an earlier sensor is left in it.
  -- What net-snmp opens depends on the session that it is given only.
  pub open_session-isolated :
      (others : List (Bool × SnmpParams)) (has_memory : Bool) (params : SnmpParams)
      (s : SnmpSession)
      → ((open_session has_memory params (after_sensors others s)).0
          ≡ (open_session has_memory params s).0)
        × IsOwn params s (open_session has_memory params (after_sensors others s)).0
  unfolding open_session
  open_session-isolated others has_memory params s =
      let same =
        Alike-same has_memory params params.peername params.community (after_sensors others s) s
          (Alike-after others s) in
      (
        same,
        subst (IsOwn params s) (sym same)
            (open_with-IsOwn has_memory params params.peername params.community s refl),
      )
