-- ===== src/Main/Shutdown.antt =====
-- src/main.c: what main does when a signal has ended its loop. There is no ZooKeeper thread.
pub mod Orderly
pub mod Released
use rb_monitor.Prelude.{
  ℕ, zero, suc, ◌+◌, ◌≤◌, ◌<◌, ◌≡◌, ◌≢◌, refl, ap, sym, ◌∙◌, Bool, true, false, Option, none, some,
  List, [], ◌∷◌, ◌++◌, ◌==◌, ltb, if◌then◌else◌, inl, inr, Bool-cases, arith,
}

-- rb_sensors_array_done frees the array and puts no sensor.
pub data Call : Type 0 where
  join_worker : ℕ → Call
  sensors_array_done : Call
  join_delivery_reports : Call
  poll : ℕ → Call
  topic_destroy : Call
  kafka_destroy : Call
  join_report : Call
  http_handler_destroy : Call
  snmp_mutex_destroy : Call
  put_default_config : Call
  put_config_file : Call
  queue_done : Call
  closelog : Call

-- What main has started.
pub record Started : Type 0 where
  pub threads : ℕ
  pub kafka_broker : Bool
  pub rk : Bool
  pub http_endpoint : Bool

-- The workers from `i` on, `left` of them.
unfoldable pub join_workers : ℕ → ℕ → List Call
join_workers i zero = []
join_workers i (suc left) = join_worker i ∷ join_workers (suc i) left

abbrev pub more_calls : List Call → Option (List Call) → Option (List Call)
more_calls calls none = none
more_calls calls (some rest) = some (calls ++ rest)

-- The loop that waits for the producer: `outq_len i` is what the i-th call of rd_kafka_outq_len
-- returns, and `fuel` bounds the calls.
unfoldable pub drain : ℕ → (ℕ → ℕ) → ℕ → Option (List Call)
drain zero outq_len i = none
drain (suc fuel) outq_len i =
    let rest = drain fuel outq_len (suc i) in
    if outq_len i == 0 then some [] else more_calls (poll 1000 ∷ []) rest

unfoldable pub leave_kafka : ℕ → (ℕ → ℕ) → Started → Option (List Call)
unfolding drain
leave_kafka fuel outq_len s =
    if s.kafka_broker
    then if s.rk
      then more_calls (join_delivery_reports ∷ []) (elim (drain fuel outq_len 0) [
        | none ↦ none
        | some polls ↦ some (polls ++ topic_destroy ∷ kafka_destroy ∷ [])
      ])
      else some (join_delivery_reports ∷ [])
    else some []

abbrev pub leave_http : Started → List Call
leave_http s = if s.http_endpoint then join_report ∷ http_handler_destroy ∷ [] else []

abbrev pub leave_rest : List Call
leave_rest = snmp_mutex_destroy ∷ put_default_config ∷ put_config_file ∷ queue_done ∷ closelog ∷ []

unfoldable pub leave : ℕ → (ℕ → ℕ) → Started → Option (List Call)
unfolding join_workers leave_kafka
leave fuel outq_len s = elim (leave_kafka fuel outq_len s) [
  | none ↦ none
  | some kafka ↦
      some
        (join_workers 0 s.threads ++ (sensors_array_done ∷ (kafka ++ (leave_http s ++ leave_rest))))
]
