-- ===== src/Base/Math/Division.antt =====
-- The rounding divisions, as far as their sums do not wrap.
use v1util.Common.{ℕ, ◌+◌, ◌-◌, ◌*◌, ◌/◌, ◌%◌, ◌<◌, ◌≤◌, ◌≡◌, ◌∙◌, arith}
use native.Mathlib.Decide.{dec_lt}
use native.Mathlib.Nat.{mod-eq_of_lt, mod-lt, div-add-mod'}
use v1util.Base.Math.{values, wrapping_sub, ceil_int_div, round_int_div}
use v1util.Base.Math.Ring.{mod-above, wrapping_sub-up, wrapping_sub-round}

module _ (w : ℕ) where
  -- A quotient's bounds.
  div-bounds : (n m : ℕ) → 0 < m → (n / m * m ≤ n) × (n < n / m * m + m)
  div-bounds n m h =
      let e = div-add-mod' n m in let r : n % m < m = mod-lt n h in (omega arith, omega arith)

  sum_less_one :
      (a b : ℕ)
      → 0 < b
      → a < values w
      → b < values w
      → a + b ≤ values w
      → wrapping_sub w ((a + b) % values w) 1 ≡ a + b - 1
  sum_less_one a b h p q fits = elim (dec_lt (a + b) (values w)) [
    | yes small ↦
        let e : (a + b) % values w ≡ a + b = mod-eq_of_lt small in
        rw e (wrapping_sub-up w small (omega arith))
    | no large ↦
        let e : (a + b) % values w ≡ 0 = mod-above (omega arith) (omega arith) ∙ omega arith in
        rw e (wrapping_sub-round w (omega arith) (omega arith) ∙ omega arith)
  ]

  -- For a divisor above 0 and a sum of at most the number of values, the quotient is rounded up: it is
  -- the least one whose product reaches the dividend.
  pub ceil_int_div-least :
      (a b : ℕ)
      → 0 < b
      → a < values w
      → b < values w
      → a + b ≤ values w
      → (a ≤ ceil_int_div w a b * b) × (ceil_int_div w a b * b < a + b)
  unfolding ceil_int_div
  ceil_int_div-least a b h p q fits =
      let (low, high) = div-bounds (a + b - 1) b h in
      rw (sum_less_one a b h p q fits) (omega arith, omega arith)

  -- For a divisor above 0 and a sum that does not wrap, twice the error is at most the divisor.
  pub round_int_div-nearest :
      (a b : ℕ)
      → 0 < b
      → a + b / 2 < values w
      → (2 * (round_int_div w a b * b) ≤ 2 * a + b) × (2 * a ≤ 2 * (round_int_div w a b * b) + b)
  unfolding round_int_div
  round_int_div-nearest a b h fits =
      let (low, high) = div-bounds (a + b / 2) b h in
      rw (mod-eq_of_lt fits) (omega arith, omega arith)
