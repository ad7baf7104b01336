-- ===== src/Main/Status.antt =====
-- src/main.c: the exit status.
use rb_monitor.Prelude.{
  fault, out_of_fuel, ◌⊎◌, sym, ℕ, ◌≡◌, ◌≢◌, refl, ap, subst, ◌∙◌, Bool, true, false, Option, none,
  some, List, [], ◌∷◌, ◌==◌, is_some, Bool-cases, inl, inr, arith, Outcome, ret, >>=-eq-ret,
  ret-inj, if◌then◌else◌,
}
use rb_monitor.Prelude.Int.{pos}
use rb_monitor.Prelude.Text.{Text, codes, text_eq}
use rb_monitor.Platform.{Platform}
use rb_monitor.Array.{RbArray}
use rb_monitor.Sensor.{Sensor}
use rb_monitor.Sensors.{parse_sensors}
use rb_monitor.Config.{Config, KafkaResult, config_key, parse_json_config, member_fails}
use rb_monitor.Config.Usable.{zero_config, str_default_config}
use rb_monitor.Main.{
  opt_h, opt_g, opt_c, opt_d, opt_v, opt_unknown, Opt, Options, Next, exit, go_on, parse_options,
  MainAnswers, conf_members, zookeeper, finish, start_sensors, start_http, start_kafka, with_file,
  with_path, with_options, first_options, main_status,
}

-- If the run returns, it returns 1.
abbrev IsOne : Outcome ℕ → Type 0
IsOne o = (s : ℕ) → o ≡ ret s → s ≡ 1

IsOne-IsOne : IsOne (ret 1)
IsOne-IsOne s e = sym (ret-inj e)

exit-inj : {a b : ℕ} → ◌≡◌ {A = Next Options} (exit a) (exit b) → a ≡ b
exit-inj h = cc

kept : (failed ok : Bool) → failed ≡ false → (if failed then false else ok) ≡ ok
kept failed ok h = rw h refl

both_branches : {a b : Outcome ℕ} (c : Bool) → IsOne a → IsOne b → IsOne (if c then a else b)
both_branches true h k = h
both_branches false h k = k

module _ (p : Platform) (topic_set : Text → Option Text → KafkaResult) where
  module _ (a : MainAnswers p) (config_file : p.Json) (c : Config) where
    finish-pos : (o : Option (RbArray (Sensor p))) → finish p topic_set a true o ≡ 1
    finish-pos none = refl
    finish-pos (some sensors) = elim (Bool-cases a.has_memory) [
      | inl e ↦ rw e refl
      | inr e ↦ rw e refl
    ]

    sensors-IsOne : IsOne (start_sensors p topic_set a config_file true c)
    unfolding start_sensors
    sensors-IsOne s e =
        let (o, found, same) = >>=-eq-ret (parse_sensors p c.timeout config_file) _ e in
        sym (ret-inj same) ∙ finish-pos o

    kafka-IsOne : IsOne (start_kafka p topic_set a config_file true c)
    unfolding start_kafka start_http
    kafka-IsOne =
        both_branches (is_some c.kafka_broker)
          (both_branches a.kafka_new (both_branches (a.brokers_added == 0) IsOne-IsOne http-IsOne)
            IsOne-IsOne)
          http-IsOne
      where
        http-IsOne : IsOne (start_http p topic_set a config_file true c)
        http-IsOne =
            both_branches (is_some c.http_endpoint)
              (both_branches a.http_created
                (both_branches a.report_thread sensors-IsOne IsOne-IsOne) IsOne-IsOne)
              sensors-IsOne

  file-IsOne :
      (a : MainAnswers p) (default : Bool × Config) (o : Option p.Json)
      → default.0 ≡ true
      → IsOne (with_file p topic_set a default o)
  unfolding parse_json_config with_file
  file-IsOne a default none ok = IsOne-IsOne
  file-IsOne a default (some config_file) ok = λ s e.
      (let (members, found, same) =
          >>=-eq-ret (conf_members p topic_set (p.json_member config_file (codes "conf"))) _ e in
        let (started, begun, rest) =
          >>=-eq-ret (zookeeper p topic_set a.errno (p.json_member config_file (codes "zookeeper")))
            _ same in
        let c = (parse_json_config p topic_set members true default.1).1 in
        kafka-IsOne a config_file c s
          (subst (λ b. start_kafka p topic_set a config_file b c ≡ ret s) ok rest))

  path-IsOne :
      (a : MainAnswers p) (default : Bool × Config) (o : Option Text)
      → default.0 ≡ true
      → IsOne (with_path p topic_set a default o)
  unfolding with_path
  path-IsOne a default none ok = IsOne-IsOne
  path-IsOne a default (some config_path) ok = file-IsOne a default (a.file config_path) ok

  AllQuiet : List (Text × Option p.Json) → Type 0
  AllQuiet [] = Unit
  AllQuiet ((key, val) ∷ rest) =
      (member_fails p topic_set (config_key key) val ≡ false) × AllQuiet rest

  parse_json_config_quiet :
      (members : List (Text × Option p.Json)) (ok : Bool) (c : Config)
      → AllQuiet members
      → (parse_json_config p topic_set members ok c).0 ≡ ok
  unfolding parse_json_config AllQuiet
  parse_json_config_quiet [] ok c h = refl
  parse_json_config_quiet ((key, val) ∷ rest) ok c (quiet, h) =
      parse_json_config_quiet rest _ _ h ∙ kept _ ok quiet

  defaults_quiet :
      ((n : ℕ) → p.json_int64_fails (p.json_new_int64 (pos n)) ≡ false)
      → AllQuiet (str_default_config p topic_set)
  unfolding AllQuiet config_key text_eq
  defaults_quiet reads =
      (reads 100, (refl, (refl, (reads 10, (reads 5, (reads 2, (reads 10, (reads 2, tt))))))))

  -- The options ask for the help and main returns 0, or they do not, and main returns 1.
  abbrev pub Status : Next Options → ℕ → Type 0
  Status o status = ((o ≡ exit 0) × (status ≡ 0)) ⊎ ((o ≢ exit 0) × (status ≡ 1))

  parse_options-exit :
      (argv : List Opt) (o : Options) (n : ℕ) → parse_options argv o ≡ exit n → (n ≡ 0) ⊎ (n ≡ 1)
  unfolding parse_options
  parse_options-exit [] o n = λ e. cc
  parse_options-exit (opt_h ∷ rest) o n = λ e. inl (sym (exit-inj e))
  parse_options-exit (opt_g ∷ rest) o n = parse_options-exit rest o n
  parse_options-exit (opt_c path ∷ rest) o n =
      parse_options-exit rest (record o { config_path = some path }) n
  parse_options-exit (opt_d severity ∷ rest) o n =
      parse_options-exit rest (record o { debug_severity = severity }) n
  parse_options-exit (opt_v ∷ rest) o n = λ e. inr (sym (exit-inj e))
  parse_options-exit (opt_unknown ∷ rest) o n = λ e. inr (sym (exit-inj e))

  options-Status :
      (a : MainAnswers p) (default : Bool × Config) (o : Next Options) (status : ℕ)
      → default.0 ≡ true
      → ((n : ℕ) → o ≡ exit n → (n ≡ 0) ⊎ (n ≡ 1))
      → with_options p topic_set a default o ≡ ret status
      → Status o status
  unfolding with_options
  options-Status a default (exit n) status ok exits e = elim (exits n refl) [
    | inl zero_exit ↦ inl (ap exit zero_exit, sym (ret-inj e) ∙ zero_exit)
    | inr one_exit ↦ inr (λ h. ground (arith, exit-inj h, one_exit), sym (ret-inj e) ∙ one_exit)
  ]
  options-Status a default (go_on o) status ok exits e =
      inr (λ h. cc, path-IsOne a default o.config_path ok status e)

  -- What the run says of the options: it returns their status, or it is a fault, and they were
  -- accepted.
  abbrev pub Ends : Outcome ℕ → Next Options → Type 0
  Ends (ret status) o = Status o status
  Ends fault o = (options : Options) × (o ≡ go_on options)
  Ends out_of_fuel o = (options : Options) × (o ≡ go_on options)

  accepted :
      (a : MainAnswers p) (default : Bool × Config) (o : Next Options) (run : Outcome ℕ)
      → with_options p topic_set a default o ≡ run
      → ((n : ℕ) → run ≢ ret n)
      → (options : Options) × (o ≡ go_on options)
  unfolding with_options
  accepted a default (exit n) run e other = absurd (other n (sym e))
  accepted a default (go_on options) run e other = (options, refl)

  options-Ends :
      (a : MainAnswers p) (default : Bool × Config) (o : Next Options) (run : Outcome ℕ)
      → default.0 ≡ true
      → ((n : ℕ) → o ≡ exit n → (n ≡ 0) ⊎ (n ≡ 1))
      → with_options p topic_set a default o ≡ run
      → Ends run o
  options-Ends a default o (ret status) ok exits e = options-Status a default o status ok exits e
  options-Ends a default o fault ok exits e = accepted a default o fault e (λ n. λ h. cc)
  options-Ends a default o out_of_fuel ok exits e =
      accepted a default o out_of_fuel e (λ n. λ h. cc)

  -- If the options ask for the help before any that main does not know (-v is one), main returns 0; if
  -- one that it does not know comes first, it returns 1. If they are accepted, main returns 1, unless
  -- it is a fault: every error ends it with 1, and so does a signal behind its loop, since main returns what
  -- parse_json_config made of the default configuration, if json-c reads the numbers of that.
  pub main_status-Ends :
      (a : MainAnswers p) (argv : List Opt)
      → ((n : ℕ) → p.json_int64_fails (p.json_new_int64 (pos n)) ≡ false)
      → Ends (main_status p topic_set a argv) (parse_options argv first_options)
  unfolding main_status
  main_status-Ends a argv reads =
      options-Ends a _ (parse_options argv first_options) _
        (parse_json_config_quiet (str_default_config p topic_set) true zero_config
          (defaults_quiet reads))
        (parse_options-exit argv first_options) refl
