-- ===== src/Workers.antt =====
-- src/main.c: the main loop that queues the sensors and the workers that process them, and of
-- src/rb_sensor.c the lock and the reference count that they share.
pub mod Counts
pub mod Safe
pub mod Process
use rb_monitor.Prelude.{
  ℕ, zero, suc, ◌+◌, ◌-◌, Bool, true, false, Option, none, some, List, [], ◌∷◌, ◌++◌, ◌==◌, ◌≡◌,
  if◌then◌else◌,
}

-- The part of struct rb_sensor_s that threads share, and whether sensor_done has freed it.
pub record Shared : Type 0 where
  pub refcnt : ℕ
  pub locked : Bool
  pub freed : Bool

unfoldable pub rb_sensor_get : Shared → Shared
rb_sensor_get sensor = record sensor { refcnt = sensor.refcnt + 1 }

-- The last reference frees the sensor. A count of 0 stays 0 here, where the program's goes to -1 and
-- frees nothing either.
unfoldable pub rb_sensor_put : Shared → Shared
rb_sensor_put sensor =
    if sensor.refcnt == 1
    then record sensor { refcnt = 0; freed = true }
    else record sensor { refcnt = sensor.refcnt - 1 }

-- The first result is whether the lock was acquired.
unfoldable pub rb_sensor_trylock : Shared → Bool × Shared
rb_sensor_trylock sensor =
    if sensor.locked then (false, sensor) else (true, record sensor { locked = true })

unfoldable pub rb_sensor_unlock : Shared → Shared
rb_sensor_unlock sensor = record sensor { locked = false }

-- How far a worker is: it waits for the queue; it has popped a sensor; it processes one, with the
-- lock; it is done with one but has not put it; it has ended; it has ended with a sensor that it
-- popped when `run` was already false.
pub data Stage : Type 0 where
  waiting : Stage
  popped : ℕ → Stage
  processing : ℕ → Stage
  done : ℕ → Stage
  ended : Stage
  ended_with : ℕ → Stage

-- A sensor is known by its number. `main` is the sensor that the main loop has taken a reference of
-- and not queued yet.
pub record World : Type 0 where
  pub sensors : ℕ → Shared
  pub queue : List ℕ
  pub main : Option ℕ
  pub workers : List Stage

abbrev pub update : (ℕ → Shared) → ℕ → Shared → ℕ → Shared
update sensors i sensor j = if i == j then sensor else sensors j

-- Where rb_sensor_trylock leads.
unfoldable pub tried : ℕ → Bool → Stage
tried i ok = if ok then processing i else done i

-- A thread does one step, between two operations on what is shared.
pub data Step : World → World → Type 0 where
  -- main: rb_sensor_get, then queue_sensor
  main_get :
      (w : World) (i : ℕ)
      → w.main ≡ none
      → Step w
          (record w { sensors = update w.sensors i (rb_sensor_get (w.sensors i)); main = some i })
  main_queue :
      (w : World) (i : ℕ)
      → w.main ≡ some i
      → Step w (record w { queue = w.queue ++ i ∷ []; main = none })
  -- worker: pop_sensor
  pop :
      (w : World) (i : ℕ) (rest : List ℕ) (before after : List Stage)
      → w.queue ≡ i ∷ rest
      → w.workers ≡ before ++ waiting ∷ after
      → Step w (record w { queue = rest; workers = before ++ popped i ∷ after })
  -- worker_process_sensor: rb_sensor_trylock, whether it succeeds or not
  try :
      (w : World) (i : ℕ) (before after : List Stage)
      → w.workers ≡ before ++ popped i ∷ after
      → Step w (record w {
        sensors = update w.sensors i (rb_sensor_trylock (w.sensors i)).1;
        workers = before ++ tried i (rb_sensor_trylock (w.sensors i)).0 ∷ after;
      })
  -- process_rb_sensor is over: rb_sensor_unlock
  unlock :
      (w : World) (i : ℕ) (before after : List Stage)
      → w.workers ≡ before ++ processing i ∷ after
      → Step w (record w {
        sensors = update w.sensors i (rb_sensor_unlock (w.sensors i));
        workers = before ++ done i ∷ after;
      })
  -- rb_sensor_put, on both ways through worker_process_sensor
  put :
      (w : World) (i : ℕ) (before after : List Stage)
      → w.workers ≡ before ++ done i ∷ after
      → Step w (record w {
        sensors = update w.sensors i (rb_sensor_put (w.sensors i));
        workers = before ++ waiting ∷ after;
      })
  -- `run` is false: a worker ends, also if it has popped a sensor
  stop :
      (w : World) (before after : List Stage)
      → w.workers ≡ before ++ waiting ∷ after
      → Step w (record w { workers = before ++ ended ∷ after })
  stop_popped :
      (w : World) (i : ℕ) (before after : List Stage)
      → w.workers ≡ before ++ popped i ∷ after
      → Step w (record w { workers = before ++ ended_with i ∷ after })

abbrev pub all_waiting : ℕ → List Stage
all_waiting zero = []
all_waiting (suc n) = waiting ∷ all_waiting n

-- Each sensor is parsed, with the one reference of the array of sensors; the threads start.
abbrev pub start_world : ℕ → World
start_world threads = record {
  sensors = λ i. record { refcnt = 1; locked = false; freed = false };
  queue = [];
  main = none;
  workers = all_waiting threads;
}

pub data Reachable (threads : ℕ) : World → Type 0 where
  start : Reachable threads (start_world threads)
  next : (w w' : World) → Reachable threads w → Step w w' → Reachable threads w'
