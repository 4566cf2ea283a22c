-- ===== src/Base/Time/Seconds/Tests.antt =====
-- Conversions at concrete values.
use v1util.Common.{◌≡◌, refl, some, ◌>>=◌, arith}
use v1util.Common.Int.{pos, negsuc, negate}
use v1util.Base.Time.Seconds.{quotient, diff_from_s, diff_from_ms, diff_from_us, to_s, to_ms, to_us}
use v1util.Base.Time.Seconds.RoundTrip.{diff_from_s-to_s}

-- Minus three seconds at 1000 ticks per second come back as minus two.
to_s_run : (diff_from_s 1000 (negsuc 2) >>= to_s 1000) ≡ some (negsuc 1)
unfolding diff_from_s to_s quotient
to_s_run = refl

to_ms_run : (diff_from_ms 1000000 (pos 7) >>= to_ms 1000000) ≡ some (pos 7)
unfolding diff_from_ms to_ms quotient
to_ms_run = refl

to_us_run : (diff_from_us 3000000 (pos 7) >>= to_us 3000000) ≡ some (pos 7)
unfolding diff_from_us to_us quotient
to_us_run = refl

diff_from_s-to_s_example :
    ((diff_from_s 1000 (pos 2) >>= to_s 1000) ≡ some (pos 2))
    × ((diff_from_s 1000 (negsuc 2) >>= to_s 1000) ≡ some (negate (pos 2)))
diff_from_s-to_s_example = diff_from_s-to_s 1000 2 (omega arith) (omega arith)
