-- ===== src/Base/BitOp/Tests.antt =====
-- The bit operations at concrete values.
use v1util.Common.{ℕ, ◌+◌, ◌*◌, ◌^◌, ◌<◌, ◌≤◌, ◌≡◌, ◌↔◌, refl, true, arith}
use v1util.Base.BitOp.{
  align_up_cast, align_up8, align_up16, align_up32, align_up64, is_pow2, smear, next_pow2_32,
  next_pow2_64,
}
use v1util.Base.BitOp.Align.{align_up_cast-least}
use v1util.Base.BitOp.Pow2.{is_pow2-pow}
use v1util.Base.BitOp.Windows.{next_pow2_64-least}

-- 300 is a multiple of 4 already.
align_up16_run : (align_up16 300 4 ≡ 44) × (align_up32 301 4 ≡ 304)
unfolding align_up_cast
align_up16_run = (refl, refl)

align_up8_run : (align_up8 250 4 ≡ 252) × (align_up64 (2 ^ 40 + 1) (2 ^ 12) ≡ 2 ^ 40 + 2 ^ 12)
unfolding align_up_cast
align_up8_run = (refl, refl)

next_pow2_run : (next_pow2_32 1000 ≡ 1024) × (next_pow2_64 (2 ^ 40 + 1) ≡ 2 ^ 41)
unfolding next_pow2_32 next_pow2_64 smear
next_pow2_run = (refl, refl)

-- Above the largest power of two of the type, the result wraps to 0.
next_pow2_wraps : next_pow2_32 (2 ^ 31 + 1) ≡ 0
unfolding next_pow2_32 smear
next_pow2_wraps = refl

align_up_cast-least_example :
    (q : ℕ) × (align_up_cast 64 64 1001 (2 ^ 4) ≡ q * 2 ^ 4)
    × (1001 ≤ align_up_cast 64 64 1001 (2 ^ 4))
    × (align_up_cast 64 64 1001 (2 ^ 4) < 1001 + 2 ^ 4)
align_up_cast-least_example =
    align_up_cast-least 64 64 4 1001 (omega arith) (omega arith) (omega arith)

is_pow2-pow_example : (is_pow2 96 ≡ true) ↔ ((k : ℕ) × (◌≡◌ {A = ℕ} 96 (2 ^ k)))
is_pow2-pow_example = is_pow2-pow 96

next_pow2_64-least_example :
    (q : ℕ) × (next_pow2_64 1000 ≡ 2 ^ q) × (1000 ≤ 2 ^ q) × (2 ^ q < 2 * 1000)
next_pow2_64-least_example = next_pow2_64-least 1000 (omega arith) (omega arith)
