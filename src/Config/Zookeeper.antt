-- ===== src/Config/Zookeeper.antt =====
-- src/main.c: parse_zookeeper_json.
pub mod Given
use rb_monitor.Prelude.{
  ℕ, ◌-◌, ◌^◌, ◌%◌, ◌≡◌, refl, sym, ap, ◌∙◌, ◌⊎◌, >>=-eq-ret, ret-inj, Bool, true, false, ◌||◌,
  Option, none, some, List, [], ◌∷◌, Bool-cases, inl, inr, arith, Outcome, ret, fault, ◌>>=◌,
  if◌then◌else◌,
}
use mathlib.Core.Option.{some-injective}
use rb_monitor.Prelude.Int.{ℤ, pos, negsuc, ltb_ℤ, nonzero}
use rb_monitor.Prelude.Text.{Text, codes, text_eq}
use rb_monitor.Platform.{Platform}

-- The cast of an int64_t to uint64_t.
abbrev pub to_uint64 : ℤ → ℕ
to_uint64 (pos n) = n % 2 ^ 64
to_uint64 (negsuc n) = 2 ^ 64 - 1 - n % 2 ^ 64

module _ (p : Platform) where
  -- The local variables; `sensors` is null if there is no such member or its value is null.
  pub record ZkConfig : Type 0 where
    pub host : Option Text
    pub pop_watcher_timeout : ℤ
    pub push_timeout : ℤ
    pub sensors : Option p.Json

  -- The arguments of init_rbmon_zk.
  pub record ZkStart : Type 0 where
    pub host : Text
    pub pop_watcher_timeout : ℕ
    pub push_timeout : ℕ
    pub sensors : Option p.Json

  abbrev pub int64_of : Option p.Json → ℤ
  int64_of none = pos 0
  int64_of (some val) = p.json_int64 val

  abbrev pub fails : Option p.Json → Bool
  fails none = false
  fails (some val) = p.json_int64_fails val

  -- strdup of the string of null is a fault.
  abbrev pub set_host : Option p.Json → ZkConfig → Outcome ZkConfig
  set_host none z = fault
  set_host (some val) z = ret (record z { host = some (p.json_string val) })

  -- One member, and whether it sets errno.
  unfoldable pub set_zookeeper : Text → Option p.Json → ZkConfig → Outcome (Bool × ZkConfig)
  set_zookeeper key val z =
      if text_eq key (codes "host")
      then set_host val z >>= (λ z'. ret (false, z'))
      else if text_eq key (codes "pop_watcher_timeout")
      then ret (fails val, record z { pop_watcher_timeout = int64_of val })
      else if text_eq key (codes "push_timeout")
      then ret (fails val, record z { push_timeout = int64_of val })
      else if text_eq key (codes "sensors")
      then ret (false, record z { sensors = val })
      else ret (false, z)

  -- `errno` is whether errno is set before; it is not reset, and the function returns (none) behind
  -- the first member that finds it set.
  unfoldable pub zookeeper_members :
      List (Text × Option p.Json) → Bool → ZkConfig → Outcome (Option ZkConfig)
  unfolding set_zookeeper
  zookeeper_members [] errno z = ret (some z)
  zookeeper_members ((key, val) ∷ rest) errno z = set_zookeeper key val z >>= (λ r.
      let next = zookeeper_members rest errno r.1 in if errno || r.0 then ret none else next)

  -- A pop timeout below 0 is logged only.
  unfoldable pub zookeeper_start : ZkConfig → Option Text → Option ZkStart
  zookeeper_start z none = none
  zookeeper_start z (some host) =
      if nonzero z.push_timeout
      then if ltb_ℤ z.push_timeout (pos 0)
        then none
        else some (record {
          host = host;
          pop_watcher_timeout = to_uint64 z.pop_watcher_timeout;
          push_timeout = to_uint64 z.push_timeout;
          sensors = z.sensors;
        })
      else none

  abbrev pub start_of : Option ZkConfig → Option ZkStart
  start_of none = none
  start_of (some z) = zookeeper_start z z.host

  abbrev pub no_zookeeper : ZkConfig
  no_zookeeper = record {
    host = none;
    pop_watcher_timeout = pos 0;
    push_timeout = pos 0;
    sensors = none;
  }

  -- The arguments with which init_rbmon_zk is called, if it is.
  unfoldable pub parse_zookeeper_json :
      List (Text × Option p.Json) → Bool → Outcome (Option ZkStart)
  unfolding zookeeper_members zookeeper_start
  parse_zookeeper_json zk_config errno =
      zookeeper_members zk_config errno no_zookeeper >>= (λ o. ret (start_of o))

  positive_of : (z : ℤ) → nonzero z ≡ true → ltb_ℤ z (pos 0) ≡ false → ltb_ℤ (pos 0) z ≡ true
  positive_of (pos n) h k = ground arith
  positive_of (negsuc n) h k = ground arith

  pub start-IsStart :
      (z : ZkConfig) (o : Option Text) (s : ZkStart)
      → zookeeper_start z o ≡ some s
      → (o ≡ some s.host)
        × (ltb_ℤ (pos 0) z.push_timeout ≡ true)
        × (s.pop_watcher_timeout ≡ to_uint64 z.pop_watcher_timeout)
        × (s.push_timeout ≡ to_uint64 z.push_timeout)
        × (s.sensors ≡ z.sensors)
  unfolding zookeeper_start
  start-IsStart z none s = λ e. cc
  start-IsStart z (some host) s = elim (Bool-cases (nonzero z.push_timeout)) [
    | inr zero ↦ rw zero (λ e. cc)
    | inl other ↦ rw other (elim (Bool-cases (ltb_ℤ z.push_timeout (pos 0))) [
      | inl negative ↦ rw negative (λ e. cc)
      | inr at_least ↦ rw at_least (λ e. (
        ap some (ap (λ k. k.host) (some-injective _ s e)),
        positive_of z.push_timeout other at_least,
        ap (λ k. k.pop_watcher_timeout) (sym (some-injective _ s e)),
        ap (λ k. k.push_timeout) (sym (some-injective _ s e)),
        ap (λ k. k.sensors) (sym (some-injective _ s e)),
      ))
    ])
  ]

  -- Does reading this member set errno?
  abbrev pub number_fails : Text → Option p.Json → Bool
  number_fails key val =
      if text_eq key (codes "host")
      then false
      else if text_eq key (codes "pop_watcher_timeout")
      then fails val
      else if text_eq key (codes "push_timeout")
      then fails val
      else false

  abbrev pub AllRead : List (Text × Option p.Json) → Type 0
  AllRead [] = Unit
  AllRead ((key, val) ∷ rest) = (number_fails key val ≡ false) × AllRead rest

  set_host_lem :
      (val : Option p.Json) (z : ZkConfig) (r : Bool × ZkConfig)
      → (set_host val z >>= (λ z'. ret (false, z'))) ≡ ret r
      → r.0 ≡ false
  set_host_lem none z r e = cc
  set_host_lem (some val) z r e = sym (ap (λ k. k.0) (ret-inj e))

  set_zookeeper-fails :
      (key : Text) (val : Option p.Json) (z : ZkConfig) (r : Bool × ZkConfig)
      → set_zookeeper key val z ≡ ret r
      → number_fails key val ≡ r.0
  unfolding set_zookeeper
  set_zookeeper-fails key val z r = elim (Bool-cases (text_eq key (codes "host"))) [
    | inl a ↦ rw a (λ e. sym (set_host_lem val z r e))
    | inr a ↦ rw a (elim (Bool-cases (text_eq key (codes "pop_watcher_timeout"))) [
      | inl b ↦ rw b (λ e. ap (λ k. k.0) (ret-inj e))
      | inr b ↦ rw b (elim (Bool-cases (text_eq key (codes "push_timeout"))) [
        | inl c ↦ rw c (λ e. ap (λ k. k.0) (ret-inj e))
        | inr c ↦ rw c (elim (Bool-cases (text_eq key (codes "sensors"))) [
          | inl d ↦ rw d (λ e. ap (λ k. k.0) (ret-inj e))
          | inr d ↦ rw d (λ e. ap (λ k. k.0) (ret-inj e))
        ])
      ])
    ])
  ]

  pub none_set :
      (errno failed : Bool) (next : Outcome (Option ZkConfig)) {z' : ZkConfig}
      → (if errno || failed then ret none else next) ≡ ret (some z')
      → ((errno ≡ false) × (failed ≡ false)) × (next ≡ ret (some z'))
  none_set true failed next e = cc
  none_set false true next e = cc
  none_set false false next e = ((refl, refl), e)

  pub members-AllRead :
      (members : List (Text × Option p.Json)) (errno : Bool) (z z' : ZkConfig)
      → zookeeper_members members errno z ≡ ret (some z')
      → AllRead members × ((errno ≡ false) ⊎ (z' ≡ z))
  unfolding zookeeper_members
  members-AllRead [] errno z z' e = (tt, inr (sym (some-injective z z' (ret-inj e))))
  members-AllRead ((key, val) ∷ rest) errno z z' e =
      let (r, set, more) = >>=-eq-ret (set_zookeeper key val z) _ e in
      let (quiet, good) = none_set errno r.0 (zookeeper_members rest errno r.1) more in
      let (fine, last) = members-AllRead rest errno r.1 z' good in
      ((set_zookeeper-fails key val z r set ∙ quiet.1, fine), inl quiet.0)
