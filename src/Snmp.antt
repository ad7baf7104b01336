-- ===== src/Snmp.antt =====
-- src/rb_snmp.c: the value of an SNMP answer, and the version of a session.
pub mod Numbers
pub mod Session
use rb_monitor.Prelude.{ℕ, ◌-◌, Option, none, some, ◌==◌, if◌then◌else◌, length, take}
use rb_monitor.Prelude.Int.{ℤ}
use rb_monitor.Prelude.Text.{Text, codes, text_eq}
use rb_monitor.Prelude.Text.Decimal.{decimal, decimal_ℤ}
use rb_monitor.Platform.{Platform}
use rb_monitor.System.{Answer, zero_answer, until_nul}

-- The first variable of a net-snmp response, by its type.
pub data Variable : Type 0 where
  gauge integer counter32 : ℤ → Variable
  octet_str : Text → Variable
  -- the high and the low 32 bits
  counter64 : ℕ → ℕ → Variable
  other : Variable

module _ (p : Platform) where
  unfoldable pub long_answer : ℕ → ℤ → Answer p.Double
  unfolding decimal_ℤ
  long_answer size z = record { buffer = take (size - 1) (decimal_ℤ z); number = p.of_long z }

  unfoldable pub octets_answer : ℕ → Text → Answer p.Double
  unfolding until_nul
  octets_answer size string =
      if length string == 0
      then zero_answer p
      else (let value_buf = take (size - 1) (until_nul string) in
          record { buffer = value_buf; number = (p.strtod value_buf).number })

  -- Of a 64-bit counter only the low 32 bits are printed.
  unfoldable pub variable_answer : ℕ → Variable → Answer p.Double
  unfolding long_answer octets_answer decimal
  variable_answer size (gauge z) = long_answer size z
  variable_answer size (integer z) = long_answer size z
  variable_answer size (counter32 z) = long_answer size z
  variable_answer size (octet_str string) = octets_answer size string
  variable_answer size (counter64 high low) = record {
    buffer = take (size - 1) (decimal low);
    number = p.of_size low;
  }
  variable_answer size other = zero_answer p

  -- `response` is null if the request failed or had no answer.
  unfoldable pub snmp_solve_response : ℕ → Option Variable → Answer p.Double
  unfolding variable_answer
  snmp_solve_response value_buf_len none = zero_answer p
  snmp_solve_response value_buf_len (some variable) = variable_answer value_buf_len variable

pub data SnmpVersion : Type 0 where
  version_1 version_2c version_3 default_version : SnmpVersion

unfoldable pub net_snmp_version : Option Text → SnmpVersion
net_snmp_version none = SnmpVersion.default_version
net_snmp_version (some string_version) =
    if text_eq string_version (codes "1")
    then SnmpVersion.version_1
    else if text_eq string_version (codes "2c")
    then SnmpVersion.version_2c
    else if text_eq string_version (codes "3")
    then SnmpVersion.version_3
    else SnmpVersion.default_version
