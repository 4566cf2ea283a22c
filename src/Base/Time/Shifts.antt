-- ===== src/Base/Time/Shifts.antt =====
-- Stamps that are shifted by a difference, and the comparisons.
use v1util.Common.{ℕ, ◌<◌, ◌≡◌, ◌==◌, ltb, not, ◌&&◌, arith, ap, sym, ◌∙◌}
use v1util.Common.Word.{word, add64, sub64}
use v1util.Common.Int.{ℤ, pos, negsuc}
use v1util.Base.Time.{
  half_word, IsInt64, int64, uint64, is_above_zero, is_at_least_zero, stamp_diff, stamp_sub,
  stamp_add, stamp_less, stamp_greater, stamp_less_eq, stamp_greater_eq,
}

-- The conversion to `uint64_t` is undone by the one back.
int64-uint64 : (d : ℤ) → IsInt64 d → int64 (uint64 d) ≡ d
unfolding int64 uint64
int64-uint64 (pos n) h = ground arith
int64-uint64 (negsuc n) h = ground arith

uint64-int64 : (x : ℕ) → x < word → uint64 (int64 x) ≡ x
unfolding int64 uint64
uint64-int64 x h = ground arith

uint64-bound : (d : ℤ) → IsInt64 d → uint64 d < word
unfolding uint64
uint64-bound (pos n) h = omega arith
uint64-bound (negsuc n) h = omega arith

sub64-add64 : (t x : ℕ) → t < word → x < word → sub64 (add64 t x) t ≡ x
unfolding sub64 add64
sub64-add64 t x h k = omega arith

add64-sub64 : (t u : ℕ) → t < word → u < word → add64 t (sub64 u t) ≡ u
unfolding sub64 add64
add64-sub64 t u h k = omega arith

sub64-back : (t x : ℕ) → t < word → x < word → sub64 (add64 t x) x ≡ t
unfolding sub64 add64
sub64-back t x h k = omega arith

sub64-bound : (t u : ℕ) → sub64 t u < word
unfolding sub64
sub64-bound t u = omega arith

-- A stamp that is advanced by a difference differs from the old one by just that, and comes back when it
-- is wound back.
pub stamp_diff-stamp_add :
    (t : ℕ)
    → (d : ℤ) → t < word
    → IsInt64 d
    → (stamp_diff (stamp_add t d) t ≡ d) × (stamp_sub (stamp_add t d) d ≡ t)
unfolding stamp_diff stamp_add stamp_sub
stamp_diff-stamp_add t d h k = (
  ap int64 (sub64-add64 t (uint64 d) h (uint64-bound d k)) ∙ int64-uint64 d k,
  sub64-back t (uint64 d) h (uint64-bound d k),
)

-- What is added to `before` to reach `after` is their difference.
pub stamp_add-stamp_diff :
    (after before : ℕ)
    → after < word
    → before < word
    → stamp_add before (stamp_diff after before) ≡ after
unfolding stamp_diff stamp_add
stamp_add-stamp_diff after before h k =
    ap (add64 before) (uint64-int64 (sub64 after before) (sub64-bound after before))
    ∙ add64-sub64 before after k h

int64-is_above_zero : (x : ℕ) → is_above_zero (int64 x) ≡ (not (x == 0) && ltb x half_word)
unfolding int64 is_above_zero
int64-is_above_zero x = ground arith

int64-is_at_least_zero : (x : ℕ) → is_at_least_zero (int64 x) ≡ ltb x half_word
unfolding int64 is_at_least_zero
int64-is_at_least_zero x = ground arith

sub64-zero : (l r : ℕ) → l < word → r < word → (sub64 r l == 0) ≡ (r == l)
unfolding sub64
sub64-zero l r h k = ground arith

less-above :
    (l r : ℕ)
    → l < word
    → r < word
    → (not (r == l) && ltb (sub64 r l) half_word) ≡ is_above_zero (int64 (sub64 r l))
less-above l r h k = sym (
    int64-is_above_zero (sub64 r l)
    ∙ ap (λ b. not b && ltb (sub64 r l) half_word) (sub64-zero l r h k))

-- The comparisons of two stamps are the sign of their difference.
pub stamp_less-stamp_diff :
    (l r : ℕ)
    → l < word
    → r < word
    → (stamp_less l r ≡ is_above_zero (stamp_diff r l))
      × (stamp_greater l r ≡ is_above_zero (stamp_diff l r))
      × (stamp_less_eq l r ≡ is_at_least_zero (stamp_diff r l))
      × (stamp_greater_eq l r ≡ is_at_least_zero (stamp_diff l r))
unfolding stamp_less stamp_greater stamp_less_eq stamp_greater_eq stamp_diff
stamp_less-stamp_diff l r h k = (
  less-above l r h k,
  less-above r l k h,
  sym (int64-is_at_least_zero (sub64 r l)),
  sym (int64-is_at_least_zero (sub64 l r)),
)
