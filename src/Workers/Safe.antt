-- ===== src/Workers/Safe.antt =====
-- src/main.c: what holds in every world that the threads reach.
use rb_monitor.Prelude.{ℕ, ◌+◌, ◌≡◌, ◌≢◌, refl, ap, Bool, true, false, List, [], ◌∷◌, ◌++◌, arith}
use rb_monitor.Workers.Counts.{
  one, queued, of_main, of_stage, of_workers, at_stage, processors, Counted, references, IsCounted,
  queued-append, of_workers-append, processors-append, start-IsCounted, update-Counted, locks-le,
  stage_refs, unlock-Counted, put-Counted, try-Counted,
}
use rb_monitor.Workers.{
  rb_sensor_get, rb_sensor_put, rb_sensor_trylock, rb_sensor_unlock, Stage, waiting, popped,
  processing, done, ended, ended_with, World, tried, Step, main_get, main_queue, pop, try, unlock,
  put, stop, stop_popped, Reachable, start, next,
}

-- A worker goes from one stage to another, with the same numbers.
same-stage :
    (w : World) (i : ℕ) (before : List Stage) (s s' : Stage) (after : List Stage)
    → w.workers ≡ before ++ s ∷ after
    → of_stage i s ≡ of_stage i s'
    → at_stage i s ≡ at_stage i s'
    → (of_workers i w.workers ≡ of_workers i (before ++ s' ∷ after))
      × (processors i w.workers ≡ processors i (before ++ s' ∷ after))
same-stage w i before s s' after q e e' =
    let (refs, workers) = stage_refs i w.workers before s after q in
    (
      omega (arith, refs, e, of_workers-append i before s' after),
      omega (arith, workers, e', processors-append i before s' after),
    )

other_refs :
    (w : World) (i : ℕ) (before : List Stage) (s s' : Stage) (after : List Stage)
    → w.workers ≡ before ++ s ∷ after
    → of_stage i s ≡ of_stage i s'
    → at_stage i s ≡ at_stage i s'
    → (references i w ≡ of_main i w.main + queued i w.queue + of_workers i (before ++ s' ∷ after))
      × (processors i w.workers ≡ processors i (before ++ s' ∷ after))
other_refs w i before s s' after q e e' =
    let (refs, workers) = same-stage w i before s s' after q e e' in
    (ap (λ k. of_main i w.main + queued i w.queue + k) refs, workers)

tried_elsewhere :
    (i j : ℕ) (ok : Bool)
    → one j i ≡ 0
    → (of_stage i (tried j ok) ≡ 0) × (at_stage i (tried j ok) ≡ 0)
unfolding tried
tried_elsewhere i j true o = (o, o)
tried_elsewhere i j false o = (o, refl)

Step-IsCounted : (w w' : World) (i : ℕ) → Step w w' → IsCounted w i → IsCounted w' i
unfolding rb_sensor_get
Step-IsCounted w w' i (main_get _ j e) c =
    update-Counted w.sensors j i (rb_sensor_get (w.sensors j)) _ _ _ _ c
      (λ o d. record {
        count = omega (arith, d.count, o, ap (of_main i) e);
        lock = d.lock;
        alive = d.alive;
      })
      (λ o. (omega (arith, o, ap (of_main i) e), refl))
Step-IsCounted w w' i (main_queue _ j e) c = record {
  count = omega (arith, c.count, ap (of_main i) e, queued-append i w.queue (j ∷ []));
  lock = c.lock;
  alive = c.alive;
}
Step-IsCounted w w' i (pop _ j rest b a e q) c =
    let (refs, workers) = stage_refs i w.workers b waiting a q in
    record {
      count = omega (arith, c.count, ap (queued i) e, refs, of_workers-append i b (popped j) a);
      lock = omega (arith, c.lock, workers, processors-append i b (popped j) a);
      alive = c.alive;
    }
Step-IsCounted w w' i (try _ j b a q) c =
    update-Counted w.sensors j i (rb_sensor_trylock (w.sensors j)).1 _ _ _ _ c
      (λ o d. try-Counted i j w.workers b a (w.sensors j) _ q o d)
      (λ o.
        (let (refs, workers) = tried_elsewhere i j (rb_sensor_trylock (w.sensors j)).0 o in
          other_refs w i b (popped j) (tried j (rb_sensor_trylock (w.sensors j)).0) a q
            (omega (arith, o, refs)) (omega (arith, workers))))
Step-IsCounted w w' i (unlock _ j b a q) c =
    update-Counted w.sensors j i (rb_sensor_unlock (w.sensors j)) _ _ _ _ c
      (λ o d. unlock-Counted i j w.workers b a (w.sensors j) _ q o d)
      (λ o. other_refs w i b (processing j) (done j) a q refl o)
Step-IsCounted w w' i (put _ j b a q) c =
    update-Counted w.sensors j i (rb_sensor_put (w.sensors j)) _ _ _ _ c
      (λ o d. put-Counted i j w.workers b a (w.sensors j) _ q o d)
      (λ o. other_refs w i b (done j) waiting a q o refl)
Step-IsCounted w w' i (stop _ b a q) c =
    let (refs, workers) = same-stage w i b waiting ended a q refl refl in
    record {
      count = omega (arith, c.count, refs);
      lock = omega (arith, c.lock, workers);
      alive = c.alive;
    }
Step-IsCounted w w' i (stop_popped _ j b a q) c =
    let (refs, workers) = same-stage w i b (popped j) (ended_with j) a q refl refl in
    record {
      count = omega (arith, c.count, refs);
      lock = omega (arith, c.lock, workers);
      alive = c.alive;
    }

-- In every world that the threads reach, whatever the order of their steps, the reference count of
-- each sensor is one more than the references that the queue, the main loop and the workers have;
-- the lock is held exactly while a worker processes the sensor, and then by one worker; and no
-- sensor is freed.
pub reachable-IsCounted :
    (threads : ℕ) (w : World) (i : ℕ)
    → Reachable threads w
    → Counted (w.sensors i) (references i w) (processors i w.workers)
reachable-IsCounted threads w i start = start-IsCounted threads i
reachable-IsCounted threads w i (next v _ r s) =
    Step-IsCounted v w i s (reachable-IsCounted threads v i r)

-- In no world that the threads reach do two workers process the same sensor.
pub reachable-one_processor :
    (threads : ℕ) (w : World) (i : ℕ) (before between after : List Stage)
    → Reachable threads w
    → w.workers ≢ before ++ processing i ∷ (between ++ processing i ∷ after)
reachable-one_processor threads w i before between after r e =
    let c = reachable-IsCounted threads w i r in
    let here : one i i ≡ 1 = ground arith in
    absurd (
      omega (
        arith,
        here,
        c.lock,
        locks-le (w.sensors i).locked,
        ap (processors i) e,
        processors-append i before (processing i) (between ++ processing i ∷ after),
        processors-append i between (processing i) after,
      ))
