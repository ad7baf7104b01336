-- ===== src/Main/Pause.antt =====
-- src/main.c: how long the main loop sleeps over a pass of its sensors.
use rb_monitor.Prelude.{ℕ, zero, suc, ◌+◌, ◌*◌, ◌/◌, ◌%◌, ◌^◌, ltb, if◌then◌else◌}
use rb_monitor.Prelude.Text.{Text}
use rb_monitor.Platform.{Platform}

-- The argument of usleep, a useconds_t of 32 bits; sleep_main is a uint64_t. There are sensors.
unfoldable pub pause : ℕ → ℕ → ℕ
pause sleep_main count = (sleep_main * 1000000 % 2 ^ 64) / count % 2 ^ 32

-- The microseconds that main sleeps for the sensors that are left of `count`.
unfoldable pub pass_pause : ℕ → ℕ → ℕ → ℕ
unfolding pause
pass_pause sleep_main count zero = 0
pass_pause sleep_main count (suc left) =
    (if ltb 0 sleep_main then pause sleep_main count else 0) + pass_pause sleep_main count left
