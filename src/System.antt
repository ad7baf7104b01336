-- ===== src/System.antt =====
-- src/rb_system.h: the answer of a shell command.
pub mod Trim
use mathlib.Core.List.{reverse}
use rb_monitor.Prelude.{
  ℕ, zero, suc, ◌-◌, Bool, ◌||◌, ◌&&◌, Option, none, some, [], ◌∷◌, leb, ◌==◌, if◌then◌else◌, take,
}
use rb_monitor.Prelude.Text.{Text, codes}
use rb_monitor.Platform.{Platform}

-- isspace in the C locale
unfoldable pub isspace : ℕ → Bool
isspace c = c == 32 || leb 9 c && leb c 13

-- `while (end >= buf && isspace(*end)) end--`, on the text from its end on.
unfoldable pub skip_spaces : Text → Text
unfolding isspace
skip_spaces [] = []
skip_spaces (c ∷ s) = let rest = skip_spaces s in if isspace c then rest else c ∷ s

unfoldable pub trim_end : Text → Text
unfolding skip_spaces
trim_end buf = reverse (skip_spaces (reverse buf))

-- A C string ends at the first 0.
unfoldable pub until_nul : Text → Text
until_nul [] = []
until_nul (c ∷ s) = let rest = until_nul s in if c == 0 then [] else c ∷ rest

-- The bytes up to a line feed, that one included.
unfoldable pub first_line : Text → Text
first_line [] = []
first_line (c ∷ s) = let rest = first_line s in if c == 10 then c ∷ [] else c ∷ rest

-- fgets: at most size - 1 bytes of one line; null at the end of the output.
unfoldable pub fgets : ℕ → Text → Option Text
unfolding first_line until_nul
fgets size [] = none
fgets size (c ∷ s) = some (until_nul (take (size - 1) (first_line (c ∷ s))))

-- The buffer and the number that a callback of rb_monitor_get_external_value leaves.
pub record Answer (Double : Type 0) : Type 0 where
  pub buffer : Text
  pub number : Double

abbrev pub zero_answer : (p : Platform) → Answer p.Double
zero_answer p = record { buffer = codes "0"; number = p.zero_double }

module _ (p : Platform) where
  -- What is done with a line that was read: 0 unless a number stands at its start.
  unfoldable pub system_line : Text → Answer p.Double
  system_line line =
      if (p.strtod line).read == 0
      then zero_answer p
      else record { buffer = line; number = (p.strtod line).number }

  -- `output` is what popen's stream gives, null if popen fails.
  unfoldable pub system_solve_response : ℕ → Option Text → Answer p.Double
  unfolding trim_end fgets system_line
  system_solve_response buff_size none = zero_answer p
  system_solve_response buff_size (some output) = elim (fgets buff_size output) [
    | none ↦ zero_answer p
    | some line ↦ system_line (trim_end line)
  ]
