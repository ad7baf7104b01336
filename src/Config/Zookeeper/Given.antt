-- ===== src/Config/Zookeeper/Given.antt =====
-- src/main.c: which members of the "zookeeper" section init_rbmon_zk gets.
use rb_monitor.Prelude.{
  ◌≡◌, refl, sym, subst, ap, ◌∙◌, >>=-eq-ret, ret-inj, Bool, true, false, Option, none, some, List,
  [], ◌∷◌, Bool-cases, inl, inr, arith, ret, ◌>>=◌, if◌then◌else◌,
}
use mathlib.Core.Option.{some-injective}
use rb_monitor.Prelude.Int.{ℤ, pos, ltb_ℤ}
use rb_monitor.Prelude.Text.{Text, codes, text_eq, text_eq_iff}
use rb_monitor.Platform.{Platform}
use rb_monitor.Config.Zookeeper.{
  to_uint64, ZkConfig, ZkStart, int64_of, set_host, set_zookeeper, zookeeper_members, start_of,
  no_zookeeper, AllRead, none_set, start-IsStart, members-AllRead, parse_zookeeper_json,
}

-- A text is not equal to two that differ.
distinct : (key a b : Text) → text_eq key a ≡ true → text_eq a b ≡ false → text_eq key b ≡ false
distinct key a b e other = subst (λ t. text_eq t b ≡ false) (sym ((text_eq_iff key a).0 e)) other

keys_differ :
    (text_eq (codes "host") (codes "pop_watcher_timeout") ≡ false)
    × (text_eq (codes "host") (codes "push_timeout") ≡ false)
    × (text_eq (codes "host") (codes "sensors") ≡ false)
    × (text_eq (codes "pop_watcher_timeout") (codes "push_timeout") ≡ false)
    × (text_eq (codes "pop_watcher_timeout") (codes "sensors") ≡ false)
    × (text_eq (codes "push_timeout") (codes "sensors") ≡ false)
unfolding text_eq
keys_differ = (refl, refl, refl, refl, refl, refl)

module _ (p : Platform) where
  -- The value that is there, else the other one.
  abbrev pub behind : Option (Option p.Json) → Option (Option p.Json) → Option (Option p.Json)
  behind (some val) before = some val
  behind none before = before

  abbrev pub pick : Bool → Option p.Json → Option (Option p.Json)
  pick given val = if given then some val else none

  -- The value of the last member with a key.
  abbrev pub last_given : Text → List (Text × Option p.Json) → Option (Option p.Json)
  last_given key [] = none
  last_given key ((name, val) ∷ rest) = behind (last_given key rest) (pick (text_eq name key) val)

  abbrev pub number_or : ℤ → Option (Option p.Json) → ℤ
  number_or kept none = kept
  number_or kept (some val) = int64_of p val

  abbrev pub string_or : Option Text → Option (Option p.Json) → Option Text
  string_or kept none = kept
  string_or kept (some none) = none
  string_or kept (some (some val)) = some (p.json_string val)

  abbrev pub value_or : Option p.Json → Option (Option p.Json) → Option p.Json
  value_or kept none = kept
  value_or kept (some val) = val

  -- The fields after members with these last values.
  abbrev Fields :
      (host pop push sensors : Option (Option p.Json)) → ZkConfig p → ZkConfig p → Type 0
  Fields host pop push sensors z z' =
      (z'.host ≡ string_or z.host host)
      × (z'.pop_watcher_timeout ≡ number_or z.pop_watcher_timeout pop)
      × (z'.push_timeout ≡ number_or z.push_timeout push)
      × (z'.sensors ≡ value_or z.sensors sensors)

  set_host-Fields :
      (val : Option p.Json) (z : ZkConfig p) (r : Bool × ZkConfig p)
      → (set_host p val z >>= (λ z'. ret (false, z'))) ≡ ret r
      → Fields (some val) none none none z r.1
  set_host-Fields none z r e = cc
  set_host-Fields (some val) z r e =
      subst (λ k. Fields (some (some val)) none none none z k.1) (ret-inj e)
        (refl, refl, refl, refl)

  set_zookeeper-Fields :
      (key : Text) (val : Option p.Json) (z : ZkConfig p) (r : Bool × ZkConfig p)
      → set_zookeeper p key val z ≡ ret r
      → Fields
          (pick (text_eq key (codes "host")) val)
          (pick (text_eq key (codes "pop_watcher_timeout")) val)
          (pick (text_eq key (codes "push_timeout")) val)
          (pick (text_eq key (codes "sensors")) val)
          z
          r.1
  unfolding set_zookeeper
  set_zookeeper-Fields key val z r = elim (Bool-cases (text_eq key (codes "host"))) [
    | inl a ↦ rw (a, not_pop a, not_push a, not_sensors a) (set_host-Fields val z r)
    | inr a ↦ rw a (elim (Bool-cases (text_eq key (codes "pop_watcher_timeout"))) [
      | inl b ↦
          rw (b, pop_not_push b, pop_not_sensors b)
            (λ e.
              subst (λ k. Fields none (some val) none none z k.1) (ret-inj e)
                (refl, refl, refl, refl))
      | inr b ↦ rw b (elim (Bool-cases (text_eq key (codes "push_timeout"))) [
        | inl c ↦
            rw (c, push_not_sensors c)
              (λ e.
                subst (λ k. Fields none none (some val) none z k.1) (ret-inj e)
                  (refl, refl, refl, refl))
        | inr c ↦ rw c (elim (Bool-cases (text_eq key (codes "sensors"))) [
          | inl d ↦ rw d (λ e.
              subst (λ k. Fields none none none (some val) z k.1) (ret-inj e)
                (refl, refl, refl, refl))
          | inr d ↦ rw d (λ e.
              subst (λ k. Fields none none none none z k.1) (ret-inj e) (refl, refl, refl, refl))
        ])
      ])
    ])
  ]
    where
      not_pop :
          text_eq key (codes "host") ≡ true → text_eq key (codes "pop_watcher_timeout") ≡ false
      not_pop h = distinct key _ _ h keys_differ.0

      not_push : text_eq key (codes "host") ≡ true → text_eq key (codes "push_timeout") ≡ false
      not_push h = distinct key _ _ h keys_differ.1

      not_sensors : text_eq key (codes "host") ≡ true → text_eq key (codes "sensors") ≡ false
      not_sensors h = distinct key _ _ h keys_differ.2

      pop_not_push :
          text_eq key (codes "pop_watcher_timeout") ≡ true
          → text_eq key (codes "push_timeout") ≡ false
      pop_not_push h = distinct key _ _ h keys_differ.3

      pop_not_sensors :
          text_eq key (codes "pop_watcher_timeout") ≡ true → text_eq key (codes "sensors") ≡ false
      pop_not_sensors h = distinct key _ _ h keys_differ.4

      push_not_sensors :
          text_eq key (codes "push_timeout") ≡ true → text_eq key (codes "sensors") ≡ false
      push_not_sensors h = distinct key _ _ h keys_differ.5

  number_or-behind :
      (kept : ℤ) (last first : Option (Option p.Json))
      → number_or (number_or kept first) last ≡ number_or kept (behind last first)
  number_or-behind kept none first = refl
  number_or-behind kept (some val) first = refl

  string_or-behind :
      (kept : Option Text) (last first : Option (Option p.Json))
      → string_or (string_or kept first) last ≡ string_or kept (behind last first)
  string_or-behind kept none first = refl
  string_or-behind kept (some none) first = refl
  string_or-behind kept (some (some val)) first = refl

  value_or-behind :
      (kept : Option p.Json) (last first : Option (Option p.Json))
      → value_or (value_or kept first) last ≡ value_or kept (behind last first)
  value_or-behind kept none first = refl
  value_or-behind kept (some val) first = refl

  Given : List (Text × Option p.Json) → ZkConfig p → ZkConfig p → Type 0
  Given members z z' =
      Fields (last_given (codes "host") members) (last_given (codes "pop_watcher_timeout") members)
        (last_given (codes "push_timeout") members) (last_given (codes "sensors") members) z z'

  members-Given :
      (members : List (Text × Option p.Json)) (errno : Bool) (z z' : ZkConfig p)
      → zookeeper_members p members errno z ≡ ret (some z')
      → Given members z z'
  unfolding zookeeper_members Given
  members-Given [] errno z z' e =
      subst (λ k. Fields none none none none z k) (some-injective z z' (ret-inj e))
        (refl, refl, refl, refl)
  members-Given ((key, val) ∷ rest) errno z z' e =
      let (r, set, more) = >>=-eq-ret (set_zookeeper p key val z) _ e in
      let (quiet, good) = none_set p errno r.0 (zookeeper_members p rest errno r.1) more in
      let (host, pop, push, sensors) = set_zookeeper-Fields key val z r set in
      let (hosts, pops, pushes, all_sensors) = members-Given rest errno r.1 z' good in
      (
        hosts
            ∙ ap (λ k. string_or k (last_given (codes "host") rest)) host
            ∙ string_or-behind z.host (last_given (codes "host") rest)
                (pick (text_eq key (codes "host")) val),
        pops
            ∙ ap (λ k. number_or k (last_given (codes "pop_watcher_timeout") rest)) pop
            ∙ number_or-behind z.pop_watcher_timeout (last_given (codes "pop_watcher_timeout") rest)
                (pick (text_eq key (codes "pop_watcher_timeout")) val),
        pushes
            ∙ ap (λ k. number_or k (last_given (codes "push_timeout") rest)) push
            ∙ number_or-behind z.push_timeout (last_given (codes "push_timeout") rest)
                (pick (text_eq key (codes "push_timeout")) val),
        all_sensors
            ∙ ap (λ k. value_or k (last_given (codes "sensors") rest)) sensors
            ∙ value_or-behind z.sensors (last_given (codes "sensors") rest)
                (pick (text_eq key (codes "sensors")) val),
      )

  -- What init_rbmon_zk gets, from the last members of the section with each key.
  pub record IsGiven (members : List (Text × Option p.Json)) (s : ZkStart p) : Type 0 where
    pub host : some s.host ≡ string_or none (last_given (codes "host") members)
    pub positive :
        ltb_ℤ (pos 0) (number_or (pos 0) (last_given (codes "push_timeout") members)) ≡ true
    pub push_timeout :
        s.push_timeout ≡ to_uint64 (number_or (pos 0) (last_given (codes "push_timeout") members))
    pub pop_watcher_timeout :
        s.pop_watcher_timeout
        ≡ to_uint64 (number_or (pos 0) (last_given (codes "pop_watcher_timeout") members))
    pub sensors : s.sensors ≡ value_or none (last_given (codes "sensors") members)

  started :
      (zk_config : List (Text × Option p.Json)) (errno : Bool) (s : ZkStart p)
      (o : Option (ZkConfig p))
      → zookeeper_members p zk_config errno (no_zookeeper p) ≡ ret o
      → start_of p o ≡ some s
      → IsGiven zk_config s × (errno ≡ false) × AllRead p zk_config
  unfolding Given
  started zk_config errno s none found e = cc
  started zk_config errno s (some z) found e =
      let (host, push, pops, pushes, same_sensors) = start-IsStart p z z.host s e in
      let (read, quiet) = members-AllRead p zk_config errno (no_zookeeper p) z found in
      let (hosts, last_pop, last_push, last_sensors) =
        members-Given zk_config errno (no_zookeeper p) z found in
      let unset : errno ≡ false = elim quiet [
        | inl unset ↦ unset
        | inr same ↦ absurd (ground (arith, sym host ∙ ap (λ k. k.host) same))
      ] in
      (
        record {
          host = sym host ∙ hosts;
          positive = subst (λ n. ltb_ℤ (pos 0) n ≡ true) last_push push;
          push_timeout = pushes ∙ ap to_uint64 last_push;
          pop_watcher_timeout = pops ∙ ap to_uint64 last_pop;
          sensors = same_sensors ∙ last_sensors;
        },
        unset,
        read,
      )

  -- If init_rbmon_zk is called, the section has a host, and the push_timeout that is given last is
  -- positive. It gets of the host, of both timeouts (0 if there is none) and of the sensors the one
  -- that is given last, a timeout as an unsigned number of 64 bits; and errno was not set before, nor
  -- by a number of the section.
  pub parse_zookeeper_json-IsGiven :
      (zk_config : List (Text × Option p.Json)) (errno : Bool) (s : ZkStart p)
      → parse_zookeeper_json p zk_config errno ≡ ret (some s)
      → IsGiven zk_config s × (errno ≡ false) × AllRead p zk_config
  unfolding parse_zookeeper_json
  parse_zookeeper_json-IsGiven zk_config errno s e =
      let (o, found, same) =
        >>=-eq-ret (zookeeper_members p zk_config errno (no_zookeeper p)) _ e in
      started zk_config errno s o found (ret-inj same)
