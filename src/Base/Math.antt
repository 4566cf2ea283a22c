-- ===== src/Base/Math.antt =====
-- The integer and ring arithmetic of base/math.hpp, for an unsigned type of `2 ^ suc w` values.
pub mod Ring
pub mod Division
pub mod Tests
use v1util.Common.{ℕ, suc, ◌+◌, ◌-◌, ◌*◌, ◌/◌, ◌%◌, ◌^◌, ◌==◌, leb, Bool, not, ◌&&◌}

-- One more than `numeric_limits<UInt>::max()`.
abbrev pub values : ℕ → ℕ
values w = 2 ^ suc w

module _ (w : ℕ) where
  -- `a - b` on the unsigned type.
  unfoldable pub wrapping_sub : ℕ → ℕ → ℕ
  wrapping_sub a b = (a + values w - b) % values w

  -- `kHalfValueRangeMinusOne`
  abbrev pub half_value_range_minus_one : ℕ
  half_value_range_minus_one = (values w - 1) / 2

  unfoldable pub is_at_or_after_in_ring : ℕ → ℕ → Bool
  is_at_or_after_in_ring reference probe =
      let forward_distance = wrapping_sub probe reference in
      leb forward_distance half_value_range_minus_one

  unfoldable pub ring_less : ℕ → ℕ → Bool
  ring_less a b =
      let forward_distance = wrapping_sub b a in
      not (a == b) && leb forward_distance half_value_range_minus_one

  unfoldable pub ring_less_eq : ℕ → ℕ → Bool
  ring_less_eq a b =
      let forward_distance = wrapping_sub b a in leb forward_distance half_value_range_minus_one

  unfoldable pub ring_greater : ℕ → ℕ → Bool
  ring_greater a b =
      let forward_distance = wrapping_sub a b in
      not (a == b) && leb forward_distance half_value_range_minus_one

  unfoldable pub ring_greater_eq : ℕ → ℕ → Bool
  ring_greater_eq a b =
      let forward_distance = wrapping_sub a b in leb forward_distance half_value_range_minus_one

  -- The unsigned branches of the divisions, for a type that is not promoted to `int`.
  unfoldable pub ceil_int_div : ℕ → ℕ → ℕ
  ceil_int_div dividend divisor = wrapping_sub ((dividend + divisor) % values w) 1 / divisor

  unfoldable pub round_int_div : ℕ → ℕ → ℕ
  round_int_div dividend divisor = (dividend + divisor / 2) % values w / divisor
