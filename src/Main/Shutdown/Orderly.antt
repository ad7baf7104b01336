-- ===== src/Main/Shutdown/Orderly.antt =====
-- src/main.c: the order in which main joins its threads and releases what they use.
use rb_monitor.Prelude.{
  ℕ, zero, suc, ◌+◌, ◌<◌, ◌≡◌, ◌≢◌, refl, sym, subst, Bool, true, false, some, List, [], ◌∷◌, ◌++◌,
  ◌==◌, inl, inr, Bool-cases, arith,
}
use mathlib.Core.List.{append_assoc}
use rb_monitor.Main.Shutdown.{
  Call, join_worker, sensors_array_done, join_delivery_reports, poll, topic_destroy, kafka_destroy,
  join_report, http_handler_destroy, snmp_mutex_destroy, put_default_config, put_config_file,
  queue_done, closelog, Started, join_workers, drain, leave_kafka, leave_http, leave_rest, leave,
}

-- What still runs: the workers, which are joined in their order, the thread of the delivery reports
-- and that of librbhttp; and how often the producer was polled.
pub record Running : Type 0 where
  pub workers : ℕ
  pub joined : ℕ
  pub delivery_reports : Bool
  pub report : Bool
  pub polls : ℕ

-- The same without the workers.
abbrev pub no_worker : ℕ → Bool → Bool → ℕ → Running
no_worker joined delivery_reports report polls = record {
  workers = 0;
  joined = joined;
  delivery_reports = delivery_reports;
  report = report;
  polls = polls;
}

-- What runs when the main loop has ended.
abbrev pub running : Started → Running
running s = record {
  workers = s.threads;
  joined = 0;
  delivery_reports = s.kafka_broker;
  report = s.http_endpoint;
  polls = 0;
}

-- The workers use the sensors, the producer, the handler, the mutex and the queue; the thread of the
-- delivery reports uses the producer, and that of librbhttp the handler.
pub record NoUser (r : Running) : Type 0 where
  pub workers : r.workers ≡ 0
  pub delivery_reports : r.delivery_reports ≡ false
  pub report : r.report ≡ false

module _ (outq_len : ℕ → ℕ) where
  -- Nothing is released while a thread that runs uses it, nor is the producer while it has messages;
  -- each thread is joined once, and at the end none runs. The producer is polled only while it has
  -- messages.
  abbrev pub IsOrderly : Running → List Call → Type 0
  IsOrderly r [] = NoUser r
  IsOrderly r (join_worker i ∷ rest) =
      (left : ℕ) × (r.workers ≡ suc left)
      × (i ≡ r.joined)
      × IsOrderly (record r { workers = left; joined = suc r.joined }) rest
  IsOrderly r (sensors_array_done ∷ rest) = (r.workers ≡ 0) × IsOrderly r rest
  IsOrderly r (join_delivery_reports ∷ rest) =
      (r.delivery_reports ≡ true) × IsOrderly (record r { delivery_reports = false }) rest
  IsOrderly r (poll ms ∷ rest) =
      (outq_len r.polls ≢ 0) × IsOrderly (record r { polls = suc r.polls }) rest
  IsOrderly r (topic_destroy ∷ rest) =
      (r.workers ≡ 0) × (r.delivery_reports ≡ false) × (outq_len r.polls ≡ 0) × IsOrderly r rest
  IsOrderly r (kafka_destroy ∷ rest) =
      (r.workers ≡ 0) × (r.delivery_reports ≡ false) × (outq_len r.polls ≡ 0) × IsOrderly r rest
  IsOrderly r (join_report ∷ rest) =
      (r.report ≡ true) × IsOrderly (record r { report = false }) rest
  IsOrderly r (http_handler_destroy ∷ rest) =
      (r.workers ≡ 0) × (r.report ≡ false) × IsOrderly r rest
  IsOrderly r (snmp_mutex_destroy ∷ rest) = (r.workers ≡ 0) × IsOrderly r rest
  IsOrderly r (put_default_config ∷ rest) = IsOrderly r rest
  IsOrderly r (put_config_file ∷ rest) = IsOrderly r rest
  IsOrderly r (queue_done ∷ rest) = (r.workers ≡ 0) × IsOrderly r rest
  IsOrderly r (closelog ∷ rest) = IsOrderly r rest

  rest-IsOrderly : (r : Running) → NoUser r → IsOrderly r leave_rest
  rest-IsOrderly r n = (n.workers, (n.workers, n))

  -- The thread of librbhttp runs exactly if there is an endpoint.
  http-IsOrderly :
      (s : Started) (polls joined : ℕ)
      → IsOrderly (no_worker joined false s.http_endpoint polls) (leave_http s ++ leave_rest)
  http-IsOrderly s polls joined = elim (Bool-cases s.http_endpoint) [
    | inl e ↦ rw e (
      refl,
      (
        refl,
        refl,
        rest-IsOrderly _ (record { workers = refl; delivery_reports = refl; report = refl }),
      ),
    )
    | inr e ↦
        rw e (rest-IsOrderly _ (record { workers = refl; delivery_reports = refl; report = refl }))
  ]

  workers-IsOrderly :
      (left i : ℕ) (delivery_reports report : Bool) (rest : List Call)
      → ((joined : ℕ) → IsOrderly (no_worker joined delivery_reports report 0) rest)
      → IsOrderly
          (record {
            workers = left;
            joined = i;
            delivery_reports = delivery_reports;
            report = report;
            polls = 0;
          })
          (join_workers i left ++ rest)
  unfolding join_workers
  workers-IsOrderly zero i delivery report rest h = h i
  workers-IsOrderly (suc left) i delivery report rest h =
      (left, refl, refl, workers-IsOrderly left (suc i) delivery report rest h)

  -- If the producer has sent its messages `d` readings later, so that the fuel is enough, the loop
  -- ends, and with no message left.
  drain-IsOrderly :
      (fuel d i : ℕ)
      → d < fuel
      → outq_len (i + d) ≡ 0
      → (polls : List Call) × (j : ℕ) × (drain fuel outq_len i ≡ some polls)
        × (outq_len j ≡ 0)
        × ((r : Running) (rest : List Call)
            → IsOrderly (record r { polls = j }) rest
            → IsOrderly (record r { polls = i }) (polls ++ rest))
  unfolding drain
  drain-IsOrderly zero d i h e = elim h [ ]
  drain-IsOrderly (suc fuel) zero i h e =
      let empty : outq_len i ≡ 0 = subst (λ n. outq_len n ≡ 0) (omega arith) e in
      ([], i, rw empty refl, empty, λ r rest k. k)
  drain-IsOrderly (suc fuel) (suc d) i h e = elim (Bool-cases (outq_len i == 0)) [
    | inl empty ↦ ([], i, rw empty refl, ground arith, λ r rest k. k)
    | inr full ↦
        let other : outq_len i ≢ 0 = λ q. ground arith in
        let (polls, j, same, sent, orderly) =
          drain-IsOrderly fuel d (suc i) (omega arith)
            (subst (λ n. outq_len n ≡ 0) (omega arith) e) in
        (
          poll 1000 ∷ polls,
          j,
          rw (full, same) refl,
          sent,
          λ r rest k. (other, orderly (record r { polls = i }) rest k),
        )
  ]

  -- The producer is destroyed behind the loop, and what follows is as `next` says.
  kafka-IsOrderly :
      (fuel n : ℕ) (s : Started) (report : Bool) (rest : List Call)
      → n < fuel
      → outq_len n ≡ 0
      → ((joined polls : ℕ) → IsOrderly (no_worker joined false report polls) rest)
      → (calls : List Call) × (leave_kafka fuel outq_len s ≡ some calls)
        × ((joined : ℕ) → IsOrderly (no_worker joined s.kafka_broker report 0) (calls ++ rest))
  unfolding leave_kafka
  kafka-IsOrderly fuel n s report rest enough sent next = elim (Bool-cases s.kafka_broker) [
    | inr e ↦ ([], rw e refl, rw e (λ joined. next joined 0))
    | inl e ↦ elim (Bool-cases s.rk) [
      | inr gone ↦
          (join_delivery_reports ∷ [], rw (e, gone) refl, rw e (λ joined. (refl, next joined 0)))
      | inl rk ↦
          let (polls, j, same, none_left, orderly) =
            drain-IsOrderly fuel n 0 enough (subst (λ k. outq_len k ≡ 0) (omega arith) sent) in
          (
            join_delivery_reports ∷ (polls ++ topic_destroy ∷ kafka_destroy ∷ []),
            rw (e, rk, same) refl,
            rw e (λ joined. (
              refl,
              subst (IsOrderly (no_worker joined false report 0))
                  (sym (append_assoc polls (topic_destroy ∷ kafka_destroy ∷ []) rest))
                  (orderly (no_worker joined false report 0) (topic_destroy ∷ kafka_destroy ∷ rest)
                    (refl, refl, none_left, (refl, refl, none_left, next joined j))),
            )),
          )
    ]
  ]

  -- Main ends once the producer has sent its messages, and in order.
  pub leave-IsOrderly :
      (fuel n : ℕ) (s : Started)
      → n < fuel
      → outq_len n ≡ 0
      → (calls : List Call) × (leave fuel outq_len s ≡ some calls) × IsOrderly (running s) calls
  unfolding leave
  leave-IsOrderly fuel n s enough sent =
      let rest = leave_http s ++ leave_rest in
      let (kafka, same, orderly) =
        kafka-IsOrderly fuel n s s.http_endpoint rest enough sent
          (λ joined polls. http-IsOrderly s polls joined) in
      (
        join_workers 0 s.threads ++ (sensors_array_done ∷ (kafka ++ rest)),
        rw (leave, same) refl,
        workers-IsOrderly s.threads 0 s.kafka_broker s.http_endpoint
            (sensors_array_done ∷ (kafka ++ rest)) (λ joined. (refl, orderly joined)),
      )
