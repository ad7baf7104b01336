-- ===== src/Tests/ZkClient.antt =====
-- Two locks, a connection that is made, lost with its session and made again, at concrete inputs.
use rb_monitor.Prelude.{
  length, ℕ, ◌+◌, ◌≡◌, refl, true, false, none, some, List, [], ◌∷◌, ◌++◌, ret,
}
use rb_monitor.Prelude.Int.{ℤ, pos}
use rb_monitor.Prelude.Text.{Text, codes}
use rb_monitor.Zk.Client.{
  Result, Event, locks, watched, runs, unlocked, failed, rb_zk_init, rb_zk_done, run,
}
use rb_monitor.Zk.Client.Accounts.{creations, errors, waiting, leaders, opens, closes}
use rb_monitor.Zk.Client.Accounted.{asked, run_accounted}

abbrev accepted : Text → ℤ
accepted path = pos 0

-- The second lock waits for the second connection.
abbrev changes : List (Event ℕ)
changes =
    locks (codes "/a/l") true
    ∷ watched (codes "up") true true false (pos 3)
    ∷ runs true accepted none
    ∷ unlocked 0
    ∷ failed 4 (pos 1) (codes "gone")
    ∷ runs true accepted none
    ∷ watched (codes "expired") true false true (pos 1)
    ∷ locks (codes "/b/l") true
    ∷ runs false accepted (some 2)
    ∷ []

run_accounted_example :
    (r : Result ℕ) × (run ℕ changes (rb_zk_init ℕ (some 1)).zk ≡ ret r)
    × (asked ℕ changes ≡ creations r.calls + waiting r.zk.context)
    × (creations r.calls ≡ errors r.calls + length r.quiet + leaders r.zk.context)
    × (opens ℕ ((rb_zk_init ℕ (some 1)).client ++ r.client)
        ≡ closes ℕ (r.client ++ rb_zk_done ℕ r.zk))
run_accounted_example =
    run_accounted ℕ (some 1) changes (
      refl,
      (tt, ((λ path. refl), (tt, (tt, ((λ path. refl), (tt, (refl, ((λ path. refl), tt)))))))),
    )
