-- ===== src/Array.antt =====
-- src/rb_array.h and src/rb_array.c: the generic array, which monitors, sensors and values use.
pub mod Contents
pub mod Parse
use rb_monitor.Prelude.{
  ℕ, ◌+◌, ◌≤◌, ◌≡◌, Bool, Option, none, List, ◌==◌, if◌then◌else◌, length, set, take, replicate,
}

-- struct rb_array. `elms` is the memory behind the struct: a cell for each of `size` elements.
pub record RbArray (A : Type 0) : Type 0 where
  pub size : ℕ
  pub count : ℕ
  pub elms : List (Option A)

module _ {A : Type 0} where
  unfoldable pub rb_array_new : ℕ → RbArray A
  rb_array_new size = record { size = size; count = 0; elms = replicate size none }

  unfoldable pub rb_array_full : RbArray A → Bool
  rb_array_full array = array.size == array.count

  unfoldable pub rb_array_add : RbArray A → Option A → RbArray A
  unfolding rb_array_full
  rb_array_add array elm =
      if rb_array_full array
      then array
      else record array { elms = set array.elms array.count elm; count = array.count + 1 }

  -- The elements that were added.
  abbrev pub contents : RbArray A → List (Option A)
  contents array = take array.count array.elms

-- The count is within the size, and the memory has the size.
pub record IsValid {A : Type 0} (array : RbArray A) : Type 0 where
  pub count_fits : array.count ≤ array.size
  pub memory : length array.elms ≡ array.size
