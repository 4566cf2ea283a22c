-- ===== src/Base/Math/Tests.antt =====
-- The arithmetic at concrete values.
use v1util.Common.{◌+◌, ◌-◌, ◌*◌, ◌^◌, ◌<◌, ◌≤◌, ◌≡◌, refl, true, false, not, ◌&&◌, arith}
use v1util.Base.Math.{wrapping_sub, ring_less, ring_greater_eq, ceil_int_div, round_int_div}
use v1util.Base.Math.Ring.{opposite, ring_greater_eq-ring_less}
use v1util.Base.Math.Division.{ceil_int_div-least, round_int_div-nearest}

-- A counter of eight bits that has just wrapped round.
ring_less_run : ring_less 7 250 3 ≡ true
unfolding ring_less wrapping_sub
ring_less_run = refl

-- Opposite values.
neither_run : (ring_less 7 3 131 ≡ false) × (ring_greater_eq 7 3 131 ≡ false)
unfolding ring_less ring_greater_eq wrapping_sub
neither_run = (refl, refl)

ring_greater_eq-ring_less_example :
    ring_greater_eq 31 (2 ^ 32 - 6) 3
    ≡ (not (ring_less 31 (2 ^ 32 - 6) 3) && not (opposite 31 (2 ^ 32 - 6) 3))
ring_greater_eq-ring_less_example =
    ring_greater_eq-ring_less 31 (2 ^ 32 - 6) 3 (omega arith) (omega arith)

ceil_int_div-least_example : (7 ≤ ceil_int_div 31 7 3 * 3) × (ceil_int_div 31 7 3 * 3 < 7 + 3)
ceil_int_div-least_example =
    ceil_int_div-least 31 7 3 (omega arith) (omega arith) (omega arith) (omega arith)

round_int_div-nearest_example :
    (2 * (round_int_div 31 8 3 * 3) ≤ 2 * 8 + 3) × (2 * 8 ≤ 2 * (round_int_div 31 8 3 * 3) + 3)
round_int_div-nearest_example = round_int_div-nearest 31 8 3 (omega arith) (omega arith)
