-- ===== src/Base/Time/Seconds.antt =====
-- The conversions of base/time.cpp between differences and seconds. `ticks` is the value that
-- `tscTicksPerSecond` returns, which is not negative, and 0 if the frequency is unknown.
mod RoundTrip
mod Tests
use v1util.Common.{ℕ, zero, suc, ◌+◌, ◌*◌, ◌/◌, Option, none, some, ◌>>=◌, ◌>>◌}
use v1util.Common.Int.{ℤ, pos, negsuc, ◌+ℤ◌, negate}
use v1util.Base.Time.{representable}

-- The product with a number and the quotient, which is rounded towards 0.
abbrev times : ℤ → ℕ → ℤ
times (pos n) m = pos (n * m)
times (negsuc n) m = negate (pos (suc n * m))

unfoldable quotient : ℤ → ℕ → Option ℤ
quotient _ zero = none
quotient (pos n) (suc m) = some (pos (n / suc m))
quotient (negsuc n) (suc m) = some (negate (pos (suc n / suc m)))

-- `(x + divisor / 2) / divisor`
abbrev round_div : ℤ → ℕ → Option ℤ
round_div x divisor = do sum ← representable (x +ℤ pos (divisor / 2)); quotient sum divisor

module _ (ticks : ℕ) where
  unfoldable diff_from_s : ℤ → Option ℤ
  diff_from_s s = representable (times s ticks)

  unfoldable diff_from_ms : ℤ → Option ℤ
  diff_from_ms ms = do product ← representable (times ms ticks); round_div product 1000

  unfoldable diff_from_us : ℤ → Option ℤ
  diff_from_us us = do product ← representable (times us ticks); round_div product 1000000

  unfoldable to_s : ℤ → Option ℤ
  to_s diff = round_div diff ticks

  unfoldable to_ms : ℤ → Option ℤ
  to_ms diff = representable (pos (ticks + 500)) >>= λ _. round_div diff ((ticks + 500) / 1000)

  unfoldable to_us : ℤ → Option ℤ
  to_us diff =
      representable (pos (ticks + 500000)) >>= λ _. round_div diff ((ticks + 500000) / 1000000)
