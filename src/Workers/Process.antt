-- ===== src/Workers/Process.antt =====
-- src/main.c: worker_process_sensor, the whole way of a sensor through a worker.
use rb_monitor.Prelude.{
  ℕ, ◌+◌, ◌-◌, ◌≤◌, ◌≡◌, refl, ap, sym, ◌∙◌, Bool, true, false, List, [], ◌==◌, Outcome, ret, ◌>>=◌,
  Bool-cases, inl, inr, arith, if◌then◌else◌,
}
use rb_monitor.Platform.{Platform}
use rb_monitor.Value.Print.{Message}
use rb_monitor.Monitor.External.{Outside}
use rb_monitor.Sensor.{Sensor, process_rb_sensor}
use rb_monitor.Sensor.Runs.{IsRunnable, process_rb_sensor-IsRunnable}
use rb_monitor.Send.{
  SendCall, worker_process_sensor_send_array, to_kafka, to_http, send_array_to_each,
}
use rb_monitor.Workers.{Shared, rb_sensor_put, rb_sensor_trylock, rb_sensor_unlock}

module _ (p : Platform) (kafka http : Bool) (outside : ℕ → Outside) (session : Bool) where
  -- A sensor is its lock and count, and its other fields. The message arrays of the pass are one list
  -- of messages, the order in which worker_process_sensor_send_messages sends them.
  unfoldable pub processed : Shared → Sensor p → Outcome (Shared × Sensor p × List SendCall)
  unfolding rb_sensor_put rb_sensor_unlock process_rb_sensor worker_process_sensor_send_array
  processed shared sensor = process_rb_sensor p outside session sensor >>= λ r. ret (
    rb_sensor_put (rb_sensor_unlock shared),
    r.1.0,
    worker_process_sensor_send_array kafka http r.1.1,
  )

  -- A sensor that another worker has locked is put only.
  unfoldable pub worker_process_sensor :
      Shared → Sensor p → Outcome (Shared × Sensor p × List SendCall)
  unfolding processed rb_sensor_trylock rb_sensor_put
  worker_process_sensor shared sensor =
      let locked = rb_sensor_trylock shared in
      if locked.0 then processed locked.1 sensor else ret (rb_sensor_put locked.1, sensor, [])

  -- The sensor and the messages of one pass, or of none if the lock is held.
  abbrev pub one_pass : Bool → Sensor p → Outcome (Sensor p × List Message)
  one_pass true sensor = ret (sensor, [])
  one_pass false sensor = process_rb_sensor p outside session sensor >>= λ r. ret (r.1.0, r.1.1)

  -- What one call leaves.
  pub record Worked (shared : Shared) (sensor : Sensor p) : Type 0 where
    pub shared' : Shared
    pub sensor' : Sensor p
    pub calls : List SendCall
    pub sent : List Message
    pub returns : worker_process_sensor shared sensor ≡ ret (shared', sensor', calls)
    pub count : shared'.refcnt + 1 ≡ shared.refcnt
    pub lock : shared'.locked ≡ shared.locked
    pub alive : shared'.freed ≡ shared.freed
    pub again : IsRunnable p sensor'
    pub to_broker : to_kafka calls ≡ (if kafka then sent else [])
    pub to_handler : to_http calls ≡ (if http then sent else [])
    pub passed : one_pass shared.locked sensor ≡ ret (sensor', sent)

  put_shared :
      (shared : Shared)
      → 2 ≤ shared.refcnt
      → rb_sensor_put shared ≡ record shared { refcnt = shared.refcnt - 1 }
  unfolding rb_sensor_put
  put_shared shared h = let others : shared.refcnt == 1 ≡ false = ground arith in rw others refl

  none_either : (b : Bool) → ◌≡◌ {A = List Message} [] (if b then [] else [])
  none_either true = refl
  none_either false = refl

  held : (shared : Shared) → shared.locked ≡ true → rb_sensor_trylock shared ≡ (false, shared)
  unfolding rb_sensor_trylock
  held shared e = rw e refl

  free :
      (shared : Shared)
      → shared.locked ≡ false
      → rb_sensor_trylock shared ≡ (true, record shared { locked = true })
  unfolding rb_sensor_trylock
  free shared e = rw e refl

  held_returns :
      (shared : Shared) (sensor : Sensor p)
      → 2 ≤ shared.refcnt
      → shared.locked ≡ true
      → worker_process_sensor shared sensor
        ≡ ret (record shared { refcnt = shared.refcnt - 1 }, sensor, [])
  unfolding worker_process_sensor
  held_returns shared sensor h e =
      rw (worker_process_sensor, held shared e)
        (ap (λ k. ret (k, sensor, [])) (put_shared shared h))

  free_returns :
      (shared : Shared) (sensor sensor' : Sensor p) (sent : List Message)
      → 2 ≤ shared.refcnt
      → shared.locked ≡ false
      → process_rb_sensor p outside session sensor ≡ ret (session, (sensor', sent))
      → worker_process_sensor shared sensor
        ≡ ret (
          record shared { refcnt = shared.refcnt - 1; locked = false },
          sensor',
          worker_process_sensor_send_array kafka http sent,
        )
  unfolding rb_sensor_unlock worker_process_sensor worker_process_sensor_send_array
  free_returns shared sensor sensor' sent h e q =
      rw (worker_process_sensor, free shared e)
        (rw (processed, q)
          (ap (λ k. ret (k, sensor', worker_process_sensor_send_array kafka http sent))
            (put_shared (record shared { locked = false }) h)))

  -- worker_process_sensor returns on a sensor that can be processed and of which the array of sensors
  -- has a reference too: it puts one reference, frees nothing, leaves the lock as it was, and the
  -- sensor can be processed again. If no other worker has the lock, the sensor goes through one pass,
  -- and Kafka and the HTTP handler, if they are there, get each message of the pass once, in order; if
  -- one has, nothing is sent and the sensor does not change.
  pub worker_process_sensor-Worked :
      (shared : Shared) (sensor : Sensor p)
      → 2 ≤ shared.refcnt
      → IsRunnable p sensor
      → Worked shared sensor
  worker_process_sensor-Worked shared sensor h run = elim (Bool-cases shared.locked) [
    | inl e ↦ record {
      shared' = record shared { refcnt = shared.refcnt - 1 };
      sensor' = sensor;
      calls = [];
      sent = [];
      returns = held_returns shared sensor h e;
      count = omega (arith, h);
      lock = refl;
      alive = refl;
      again = run;
      to_broker = none_either kafka;
      to_handler = none_either http;
      passed = ap (λ b. one_pass b sensor) e;
    }
    | inr e ↦
        let (sensor', sent, q, again) = process_rb_sensor-IsRunnable p outside session sensor run in
        let (broker, handler) = send_array_to_each kafka http sent in
        record {
          shared' = record shared { refcnt = shared.refcnt - 1; locked = false };
          sensor' = sensor';
          calls = worker_process_sensor_send_array kafka http sent;
          sent = sent;
          returns = free_returns shared sensor sensor' sent h e q;
          count = omega (arith, h);
          lock = sym e;
          alive = refl;
          again = again;
          to_broker = broker;
          to_handler = handler;
          passed = ap (λ b. one_pass b sensor) e ∙ rw q refl;
        }
  ]
