-- ===== src/Tests/Threads.antt =====
-- Two workers and one sensor: it is queued, popped and locked.
use rb_monitor.Prelude.{◌≢◌, refl, none, some, [], ◌∷◌, ◌++◌}
use rb_monitor.Workers.{
  World, waiting, popped, processing, update, rb_sensor_get, rb_sensor_trylock, tried, Reachable,
  start, next, main_get, main_queue, pop, try, start_world,
}
use rb_monitor.Workers.Counts.{Counted, references, processors}
use rb_monitor.Workers.Safe.{reachable-IsCounted, reachable-one_processor}

abbrev taken : World
taken = record (start_world 2) {
  sensors = update (start_world 2).sensors 0 (rb_sensor_get ((start_world 2).sensors 0));
  main = some 0;
}

abbrev in_queue : World
in_queue = record taken { queue = 0 ∷ []; main = none }

abbrev popped_once : World
popped_once = record in_queue { queue = []; workers = popped 0 ∷ waiting ∷ [] }

abbrev locked_once : World
locked_once = record popped_once {
  sensors = update popped_once.sensors 0 (rb_sensor_trylock (popped_once.sensors 0)).1;
  workers = tried 0 (rb_sensor_trylock (popped_once.sensors 0)).0 ∷ waiting ∷ [];
}

locked_once_is_reached : Reachable 2 locked_once
locked_once_is_reached =
    next popped_once locked_once
      (next in_queue popped_once
        (next taken in_queue (next (start_world 2) taken start (main_get (start_world 2) 0 refl))
          (main_queue taken 0 refl))
        (pop in_queue 0 [] [] (waiting ∷ []) refl refl))
      (try popped_once 0 [] (waiting ∷ []) refl)

reachable-IsCounted_example :
    Counted (locked_once.sensors 0) (references 0 locked_once) (processors 0 locked_once.workers)
reachable-IsCounted_example = reachable-IsCounted 2 locked_once 0 locked_once_is_reached

reachable-one_processor_example :
    locked_once.workers ≢ [] ++ processing 0 ∷ ([] ++ processing 0 ∷ [])
reachable-one_processor_example =
    reachable-one_processor 2 locked_once 0 [] [] [] locked_once_is_reached
