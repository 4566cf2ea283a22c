-- ===== src/Base/Math/Ring.antt =====
-- The comparisons in a ring: which half of the ring a value lies in.
use v1util.Common.{
  ℕ, ◌+◌, ◌-◌, ◌*◌, ◌%◌, ◌^◌, ◌<◌, ◌≤◌, ◌≡◌, ◌⊎◌, inl, inr, ◌∙◌, ◌==◌, leb, Bool, not, ◌&&◌, arith,
}
use native.Mathlib.Decide.{dec_le}
use native.Mathlib.Nat.{mod-eq_of_lt, mod-eq-sub-mod, pow-succ', one-le-pow}
use v1util.Base.Math.{values, wrapping_sub, half_value_range_minus_one, ring_less, ring_greater_eq}

-- One turn round the ring at most.
pub mod-above : {x n : ℕ} → n ≤ x → x < n + n → x % n ≡ x - n
mod-above {x} {n} h k = mod-eq-sub-mod h ∙ mod-eq_of_lt (omega arith)

module _ (w : ℕ) where
  values-half : values w ≡ 2 * 2 ^ w
  values-half = pow-succ' 2 w

  half-positive : 0 < 2 ^ w
  half-positive = one-le-pow w 2 (omega arith)

  half_range : half_value_range_minus_one w ≡ 2 ^ w - 1
  half_range = omega (arith, values-half, half-positive)

  -- The distance from `b` up to `a`, in either case.
  pub wrapping_sub-up : {a b : ℕ} → a < values w → b ≤ a → wrapping_sub w a b ≡ a - b
  unfolding wrapping_sub
  wrapping_sub-up {a} {b} p h = mod-above (omega arith) (omega arith) ∙ omega arith

  pub wrapping_sub-round : {a b : ℕ} → b < values w → a < b → wrapping_sub w a b ≡ a + values w - b
  unfolding wrapping_sub
  wrapping_sub-round p h = mod-eq_of_lt (omega arith)

  -- `a` and `b` lie opposite to each other.
  abbrev pub opposite : ℕ → ℕ → Bool
  opposite a b = (a + 2 ^ w) % values w == b

  opposite-below : {a : ℕ} → a < 2 ^ w → (a + 2 ^ w) % values w ≡ a + 2 ^ w
  opposite-below h = mod-eq_of_lt (omega (arith, values-half))

  opposite-above : {a : ℕ} → 2 ^ w ≤ a → a < values w → (a + 2 ^ w) % values w ≡ a - 2 ^ w
  opposite-above h p =
      mod-above (omega (arith, values-half)) (omega (arith, values-half, half-positive))
      ∙ omega (arith, values-half)

  -- The test on the distances both ways.
  tests :
      {a b x y o h n : ℕ}
      → n ≡ 2 * h
      → a < n
      → b < n
      → ((b ≤ a) × (x ≡ a - b)) ⊎ ((a < b) × (x ≡ a + n - b))
      → ((a ≤ b) × (y ≡ b - a)) ⊎ ((b < a) × (y ≡ b + n - a))
      → ((a < h) × (o ≡ a + h)) ⊎ ((h ≤ a) × (o ≡ a - h))
      → leb x (h - 1) ≡ (not (not (a == b) && leb y (h - 1)) && not (o == b))
  tests d p q e f g = ground arith

  distance :
      (a b : ℕ)
      → a < values w
      → b < values w
      → ((b ≤ a) × (wrapping_sub w a b ≡ a - b))
        ⊎ ((a < b) × (wrapping_sub w a b ≡ a + values w - b))
  distance a b p q = elim (dec_le b a) [
    | yes h ↦ inl (h, wrapping_sub-up p h)
    | no h ↦ inr (omega arith, wrapping_sub-round q (omega arith))
  ]

  -- For values of the type, `a` is at or after `b` exactly if `a` is neither before `b` nor opposite to
  -- it: the two comparisons are each other's negation but for opposite values, which both reject.
  pub ring_greater_eq-ring_less :
      (a b : ℕ)
      → a < values w
      → b < values w
      → ring_greater_eq w a b ≡ (not (ring_less w a b) && not (opposite a b))
  unfolding ring_greater_eq ring_less
  ring_greater_eq-ring_less a b p q =
      let opp : ((a < 2 ^ w) × ((a + 2 ^ w) % values w ≡ a + 2 ^ w))
          ⊎ ((2 ^ w ≤ a) × ((a + 2 ^ w) % values w ≡ a - 2 ^ w)) =
        elim (dec_le (2 ^ w) a) [
          | yes h ↦ inr (h, opposite-above h p)
          | no h ↦ inl (omega arith, opposite-below (omega arith))
        ] in
      rw (half_range) (tests values-half p q (distance a b p q) (distance b a q p) opp)
