-- ===== src/Prelude/Text/Decimal.antt =====
-- printf with "%lu", "%ld" and "%d": decimal digits, and their reading back.
use Prim.Native.Nat.{ℕ, zero, suc, ◌+◌, ◌-◌, ◌*◌, ◌/◌, ◌%◌, ◌<◌, ◌≤◌, ◌^◌}
use mathlib.Core.Path.{◌≡◌, ap, ◌∙◌}
use mathlib.Core.Bool.{true}
use mathlib.Core.Logic.{inl, inr}
use mathlib.Core.List.{[], ◌∷◌}
use native.Mathlib.Nat.{pow-suc}
use native.Mathlib.Omega.{arith}
use rb_monitor.Prelude.Lists.{length}
use rb_monitor.Prelude.Tests.{ltb, Bool-cases, if◌then◌else◌}
use rb_monitor.Prelude.Int.{ℤ, pos, negsuc}
use rb_monitor.Prelude.Text.{Text}

-- The digits of `n` in front of `acc`.
unfoldable pub decimal_loop : ℕ → ℕ → Text → Text
decimal_loop zero n acc = acc
decimal_loop (suc fuel) n acc =
    let rest = decimal_loop fuel (n / 10) ((48 + n % 10) ∷ acc) in
    if ltb n 10 then (48 + n) ∷ acc else rest

unfoldable pub decimal : ℕ → Text
unfolding decimal_loop
decimal n = decimal_loop (suc n) n []

unfoldable pub decimal_ℤ : ℤ → Text
unfolding decimal
decimal_ℤ (pos n) = decimal n
decimal_ℤ (negsuc n) = b'-' ∷ decimal (suc n)

-- The number that digits spell behind the number `acc`.
abbrev pub read_from : ℕ → Text → ℕ
read_from acc [] = acc
read_from acc (c ∷ s) = read_from (acc * 10 + (c - 48)) s

read-decimal_loop :
    (fuel n : ℕ) (acc : Text) → n < fuel → read_from 0 (decimal_loop fuel n acc) ≡ read_from n acc
unfolding decimal_loop
read-decimal_loop zero n acc h = elim h [ ]
read-decimal_loop (suc fuel) n acc h = elim (Bool-cases (ltb n 10)) [
  | inl small ↦ rw small (ap (λ k. read_from k acc) (omega arith))
  | inr big ↦
      rw big
        (read-decimal_loop fuel (n / 10) _ (ground arith) ∙ ap (λ k. read_from k acc) (omega arith))
]

-- Reading the digits of a number back gives the number.
pub read-decimal : (n : ℕ) → read_from 0 (decimal n) ≡ n
unfolding decimal
read-decimal n = read-decimal_loop (suc n) n [] (omega arith)

-- A number under 10 ^ (k + 1) has at most k + 1 digits.
length-decimal_loop :
    (fuel k n : ℕ) (acc : Text)
    → n < 10 ^ suc k
    → length (decimal_loop fuel n acc) ≤ suc k + length acc
unfolding decimal_loop
length-decimal_loop zero k n acc h = omega arith
length-decimal_loop (suc fuel) zero n acc h =
    let small : ltb n 10 ≡ true = ground (arith, pow-suc 10 0) in rw small (omega arith)
length-decimal_loop (suc fuel) (suc k) n acc h = elim (Bool-cases (ltb n 10)) [
  | inl small ↦ rw small (omega arith)
  | inr big ↦
      let less : n / 10 < 10 ^ suc k = omega (arith, pow-suc 10 (suc k)) in
      let digits = length-decimal_loop fuel k (n / 10) ((48 + n % 10) ∷ acc) less in
      rw big (omega (arith, digits))
]

-- A number under 10 ^ 20, such as one of 64 bits, has at most 20 digits.
pub length-decimal : (n : ℕ) → n < 10 ^ 20 → length (decimal n) ≤ 20
unfolding decimal
length-decimal n h = length-decimal_loop (suc n) 19 n [] h
