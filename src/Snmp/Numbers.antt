-- ===== src/Snmp/Numbers.antt =====
-- src/rb_snmp.c: the text of an answer that is a number.
use rb_monitor.Prelude.{
  ◌*◌, ℕ, suc, ◌-◌, ◌+◌, ◌<◌, ◌≡◌, subst, sym, ap, ◌∙◌, ◌^◌, Option, none, some, ◌∷◌, arith, take,
  take_all,
}
use mathlib.Core.Option.{some-injective}
use rb_monitor.Prelude.Int.{ℤ, pos, negsuc, pos_part, neg_part}
use rb_monitor.Prelude.Text.{Text}
use rb_monitor.Prelude.Text.Decimal.{decimal, decimal_ℤ, read_from, read-decimal, length-decimal}
use rb_monitor.Platform.{Platform}
use rb_monitor.Snmp.{
  Variable, gauge, integer, counter32, octet_str, counter64, other, long_answer, variable_answer,
  snmp_solve_response,
}

-- The text spells the number, with a sign in front of the digits of a negative one.
abbrev pub Spells : ℤ → Text → Type 0
Spells (pos n) t = read_from 0 t ≡ n
Spells (negsuc n) t = (digits : Text) × (t ≡ b'-' ∷ digits) × (read_from 0 digits ≡ suc n)

-- The number that a variable has.
abbrev pub number_of : Variable → Option ℤ
number_of (gauge z) = some z
number_of (integer z) = some z
number_of (counter32 z) = some z
number_of (octet_str s) = none
number_of (counter64 high low) = some (pos (high * 2 ^ 32 + low))
number_of other = none

-- A 64-bit counter is below 2 ^ 32.
abbrev pub FitsLow : Variable → Type 0
FitsLow (counter64 high low) = high ≡ 0
FitsLow _ = Unit

-- An answer has room for all digits of the number.
abbrev pub HasRoom : ℕ → ℤ → Type 0
HasRoom size z = (pos_part z + neg_part z < 10 ^ 20) × (21 < size)

pub taken-Spells : (size : ℕ) (z : ℤ) → HasRoom size z → Spells z (take (size - 1) (decimal_ℤ z))
unfolding decimal_ℤ
taken-Spells size (pos n) (small, room) =
    let whole = take_all (size - 1) (decimal n) (omega (arith, length-decimal n (omega arith))) in
    rw whole (read-decimal n)
taken-Spells size (negsuc n) (small, room) =
    let whole =
      take_all (size - 1) (b'-' ∷ decimal (suc n))
        (omega (arith, length-decimal (suc n) (omega arith))) in
    (decimal (suc n), whole, read-decimal (suc n))

equal-Spells :
    (size : ℕ) (y z : ℤ) → y ≡ z → HasRoom size z → Spells z (take (size - 1) (decimal_ℤ y))
equal-Spells size y z same room =
    subst (λ x. Spells z (take (size - 1) (decimal_ℤ x))) (sym same) (taken-Spells size z room)

-- Let the answer to an oid be a number of at most 20 digits, such as one of 64 bits, and if it is a
-- 64-bit counter one below 2 ^ 32, of which the code prints only the low word. Let the buffer have more than 21 bytes. Then snmp_solve_response leaves a text in the buffer that reads back as
-- the number.
pub snmp_solve_response-Spells :
    (p : Platform) (size : ℕ) (v : Variable) (z : ℤ)
    → number_of v ≡ some z
    → FitsLow v
    → HasRoom size z
    → Spells z (snmp_solve_response p size (some v)).buffer
unfolding snmp_solve_response variable_answer long_answer decimal_ℤ
snmp_solve_response-Spells p size (gauge y) z e fits room = equal-Spells size y z (cc e) room
snmp_solve_response-Spells p size (integer y) z e fits room = equal-Spells size y z (cc e) room
snmp_solve_response-Spells p size (counter32 y) z e fits room = equal-Spells size y z (cc e) room
snmp_solve_response-Spells p size (octet_str s) z e fits room = cc e
snmp_solve_response-Spells p size (counter64 high low) z e fits room =
    let whole : high * 2 ^ 32 + low ≡ low = omega (arith, fits) in
    equal-Spells size (pos low) z (ap pos (sym whole) ∙ some-injective _ z e) room
snmp_solve_response-Spells p size other z e fits room = cc e
