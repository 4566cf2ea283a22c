-- ===== src/Base/Time/Tests.antt =====
-- Stamps round the end of the counter.
use v1util.Common.{◌-◌, ◌^◌, ◌≡◌, refl, none, arith}
use v1util.Common.Word.{add64, sub64}
use v1util.Common.Int.{pos, negsuc}
use v1util.Base.Time.{
  int64, uint64, is_above_zero, is_at_least_zero, diff_negate, diff_sub, diff_add, stamp_diff,
  stamp_sub, stamp_add, stamp_less, stamp_greater, stamp_less_eq, stamp_greater_eq,
}
use v1util.Base.Time.Shifts.{stamp_diff-stamp_add, stamp_add-stamp_diff, stamp_less-stamp_diff}

-- Three ticks before and five after the counter wraps round.
stamp_diff_run : stamp_diff 5 (2 ^ 64 - 3) ≡ pos 8
unfolding stamp_diff int64 sub64
stamp_diff_run = refl

wind_back_run : stamp_add 5 (negsuc 7) ≡ 2 ^ 64 - 3
unfolding stamp_add uint64 add64
wind_back_run = refl

-- The least value of `int64_t` has no opposite.
diff_negate_run : diff_negate (negsuc (2 ^ 63 - 1)) ≡ none
unfolding diff_negate
diff_negate_run = refl

diff_sub_run : diff_sub (negsuc (2 ^ 63 - 1)) (pos 1) ≡ none
unfolding diff_sub
diff_sub_run = refl

diff_add_run : diff_add (pos (2 ^ 63 - 1)) (pos 1) ≡ none
unfolding diff_add
diff_add_run = refl

stamp_diff-stamp_add_example :
    (stamp_diff (stamp_add 5 (negsuc 7)) 5 ≡ negsuc 7)
    × (stamp_sub (stamp_add 5 (negsuc 7)) (negsuc 7) ≡ 5)
stamp_diff-stamp_add_example = stamp_diff-stamp_add 5 (negsuc 7) (omega arith) (omega arith)

later_stamp_run : stamp_add (2 ^ 64 - 3) (stamp_diff 5 (2 ^ 64 - 3)) ≡ 5
later_stamp_run = stamp_add-stamp_diff 5 (2 ^ 64 - 3) (omega arith) (omega arith)

stamp_less-stamp_diff_example :
    (stamp_less (2 ^ 64 - 3) 5 ≡ is_above_zero (stamp_diff 5 (2 ^ 64 - 3)))
    × (stamp_greater (2 ^ 64 - 3) 5 ≡ is_above_zero (stamp_diff (2 ^ 64 - 3) 5))
    × (stamp_less_eq (2 ^ 64 - 3) 5 ≡ is_at_least_zero (stamp_diff 5 (2 ^ 64 - 3)))
    × (stamp_greater_eq (2 ^ 64 - 3) 5 ≡ is_at_least_zero (stamp_diff (2 ^ 64 - 3) 5))
stamp_less-stamp_diff_example = stamp_less-stamp_diff (2 ^ 64 - 3) 5 (omega arith) (omega arith)
