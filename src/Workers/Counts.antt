-- ===== src/Workers/Counts.antt =====
-- How the references and the locks of a sensor are counted over the threads.
use rb_monitor.Prelude.{
  ℕ, zero, suc, ◌+◌, ◌≤◌, ◌≡◌, refl, subst, ap, ◌∙◌, Bool, true, false, inl, inr, Bool-cases,
  Option, none, some, List, [], ◌∷◌, ◌++◌, ◌==◌, arith, if◌then◌else◌,
}
use rb_monitor.Workers.{
  Shared, rb_sensor_put, rb_sensor_trylock, rb_sensor_unlock, Stage, waiting, popped, processing,
  done, ended, ended_with, World, update, tried, all_waiting, start_world,
}

-- 1 if the two numbers are the same.
abbrev pub one : ℕ → ℕ → ℕ
one i j = if i == j then 1 else 0

-- How many references of sensor `i` the queue, the main loop, a worker and all workers have.
abbrev pub queued : ℕ → List ℕ → ℕ
queued i [] = 0
queued i (j ∷ js) = one j i + queued i js

abbrev pub of_main : ℕ → Option ℕ → ℕ
of_main i none = 0
of_main i (some j) = one j i

abbrev pub of_stage : ℕ → Stage → ℕ
of_stage i waiting = 0
of_stage i (popped j) = one j i
of_stage i (processing j) = one j i
of_stage i (done j) = one j i
of_stage i ended = 0
of_stage i (ended_with j) = one j i

abbrev pub of_workers : ℕ → List Stage → ℕ
of_workers i [] = 0
of_workers i (s ∷ ss) = of_stage i s + of_workers i ss

-- How many workers process sensor `i`.
abbrev pub at_stage : ℕ → Stage → ℕ
at_stage i waiting = 0
at_stage i (popped j) = 0
at_stage i (processing j) = one j i
at_stage i (done j) = 0
at_stage i ended = 0
at_stage i (ended_with j) = 0

abbrev pub processors : ℕ → List Stage → ℕ
processors i [] = 0
processors i (s ∷ ss) = at_stage i s + processors i ss

abbrev pub locks : Bool → ℕ
locks true = 1
locks false = 0

-- A sensor of which the threads and the queue have `refs` references, and which `workers` process:
-- its count is one more, that of the array of sensors; its lock is held exactly while one worker
-- processes it; and it is not freed.
pub record Counted (c : Shared) (refs workers : ℕ) : Type 0 where
  pub count : c.refcnt ≡ 1 + refs
  pub lock : workers ≡ locks c.locked
  pub alive : c.freed ≡ false

abbrev pub references : ℕ → World → ℕ
references i w = of_main i w.main + queued i w.queue + of_workers i w.workers

abbrev pub IsCounted : World → ℕ → Type 0
IsCounted w i = Counted (w.sensors i) (references i w) (processors i w.workers)

pub queued-append : (i : ℕ) (xs ys : List ℕ) → queued i (xs ++ ys) ≡ queued i xs + queued i ys
queued-append i [] ys = omega arith
queued-append i (x ∷ xs) ys = omega (arith, queued-append i xs ys)

pub of_workers-append :
    (i : ℕ) (b : List Stage) (s : Stage) (a : List Stage)
    → of_workers i (b ++ s ∷ a) ≡ of_stage i s + (of_workers i b + of_workers i a)
of_workers-append i [] s a = omega arith
of_workers-append i (x ∷ b) s a = omega (arith, of_workers-append i b s a)

pub processors-append :
    (i : ℕ) (b : List Stage) (s : Stage) (a : List Stage)
    → processors i (b ++ s ∷ a) ≡ at_stage i s + (processors i b + processors i a)
processors-append i [] s a = omega arith
processors-append i (x ∷ b) s a = omega (arith, processors-append i b s a)

waiting_refs : (i n : ℕ) → (of_workers i (all_waiting n) ≡ 0) × (processors i (all_waiting n) ≡ 0)
waiting_refs i zero = (refl, refl)
waiting_refs i (suc n) =
    let (refs, workers) = waiting_refs i n in (omega (arith, refs), omega (arith, workers))

pub start-IsCounted : (threads i : ℕ) → IsCounted (start_world threads) i
start-IsCounted threads i =
    let (refs, workers) = waiting_refs i threads in
    record { count = omega (arith, refs); lock = workers; alive = refl }

-- A step on sensor `j` is right for each sensor if it is for `j`, and changes no numbers of others.
pub update-Counted :
    (sensors : ℕ → Shared) (j i : ℕ) (c' : Shared) (r n r' n' : ℕ)
    → Counted (sensors i) r n
    → (one j i ≡ 1 → Counted (sensors j) r n → Counted c' r' n')
    → (one j i ≡ 0 → (r ≡ r') × (n ≡ n'))
    → Counted (update sensors j c' i) r' n'
update-Counted sensors j i c' r n r' n' c same other = elim (Bool-cases (j == i)) [
  | inl e ↦
      let h : i ≡ j = ground (arith, e) in
      let o : one j i ≡ 1 = rw e refl in rw e (same o (subst (λ k. Counted (sensors k) r n) h c))
  | inr e ↦
      let o : one j i ≡ 0 = rw e refl in
      let (refs, workers) = other o in
      rw e (
        subst (λ k. Counted (sensors i) r' k) workers (subst (λ k. Counted (sensors i) k n) refs c))
]

pub locks-le : (b : Bool) → locks b ≤ 1
locks-le true = omega arith
locks-le false = omega arith

-- The numbers of a list of workers that has a stage at some place.
pub stage_refs :
    (i : ℕ) (ws before : List Stage) (s : Stage) (after : List Stage)
    → ws ≡ before ++ s ∷ after
    → (of_workers i ws ≡ of_stage i s + (of_workers i before + of_workers i after))
      × (processors i ws ≡ at_stage i s + (processors i before + processors i after))
stage_refs i ws before s after q = (
  ap (of_workers i) q ∙ of_workers-append i before s after,
  ap (processors i) q ∙ processors-append i before s after,
)

module _ (i j : ℕ) (ws before after : List Stage) where
  pub unlock-Counted :
      (c : Shared) (m : ℕ)
      → ws ≡ before ++ processing j ∷ after
      → one j i ≡ 1
      → Counted c (m + of_workers i ws) (processors i ws)
      → Counted
          (rb_sensor_unlock c)
          (m + of_workers i (before ++ done j ∷ after))
          (processors i (before ++ done j ∷ after))
  unfolding rb_sensor_unlock
  unlock-Counted c m q o d =
      let (refs, workers) = stage_refs i ws before (processing j) after q in
      record {
        count = omega (arith, d.count, refs, of_workers-append i before (done j) after);
        lock = omega (
          arith,
          d.lock,
          locks-le c.locked,
          workers,
          o,
          processors-append i before (done j) after,
        );
        alive = d.alive;
      }

  pub put-Counted :
      (c : Shared) (m : ℕ)
      → ws ≡ before ++ done j ∷ after
      → one j i ≡ 1
      → Counted c (m + of_workers i ws) (processors i ws)
      → Counted
          (rb_sensor_put c)
          (m + of_workers i (before ++ waiting ∷ after))
          (processors i (before ++ waiting ∷ after))
  unfolding rb_sensor_put
  put-Counted c m q o d =
      let (refs, workers) = stage_refs i ws before (done j) after q in
      let others : c.refcnt == 1 ≡ false = ground (arith, d.count, refs, o) in
      rw others (record {
        count = omega (arith, d.count, refs, o, of_workers-append i before waiting after);
        lock = omega (arith, d.lock, workers, processors-append i before waiting after);
        alive = d.alive;
      })

  pub try-Counted :
      (c : Shared) (m : ℕ)
      → ws ≡ before ++ popped j ∷ after
      → one j i ≡ 1
      → Counted c (m + of_workers i ws) (processors i ws)
      → Counted
          (rb_sensor_trylock c).1
          (m + of_workers i (before ++ tried j (rb_sensor_trylock c).0 ∷ after))
          (processors i (before ++ tried j (rb_sensor_trylock c).0 ∷ after))
  unfolding rb_sensor_trylock tried
  try-Counted c m q o d = elim (Bool-cases c.locked) [
    | inl e ↦ rw e (
        let (refs, workers) = stage_refs i ws before (popped j) after q in
        record {
          count = omega (arith, d.count, refs, of_workers-append i before (done j) after);
          lock =
              omega (arith, d.lock, ap locks e, workers, processors-append i before (done j) after);
          alive = d.alive;
        })
    | inr e ↦ rw e (
        let (refs, workers) = stage_refs i ws before (popped j) after q in
        let free : locks c.locked ≡ 0 = ap locks e in
        record {
          count = omega (arith, d.count, refs, of_workers-append i before (processing j) after);
          lock =
              omega
                (arith, d.lock, free, workers, o, processors-append i before (processing j) after);
          alive = d.alive;
        })
  ]
