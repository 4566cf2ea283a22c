-- ===== src/Base/Time.antt =====
-- The time stamps of base/time.hpp: a `TscStamp` is the number `mValue`, a `TscDiff` the integer `mDiff`.
-- A result of signed arithmetic that `int64_t` cannot hold is undefined in the source and `none` here.
pub mod Seconds
mod Shifts
mod Tests
use v1util.Common.{
  ℕ, suc, ◌+◌, ◌-◌, ◌^◌, ◌<◌, ◌==◌, leb, ltb, Bool, true, false, not, ◌&&◌, Option, none, some,
  if◌then◌else◌,
}
use v1util.Common.Word.{word, add64, sub64}
use v1util.Common.Int.{ℤ, pos, negsuc, ◌+ℤ◌, negate}
pub use v1util.Common.Int.{half_word, fits_int64, representable}

-- The values of `int64_t`.
abbrev pub IsInt64 : ℤ → Type 0
IsInt64 (pos n) = n < half_word
IsInt64 (negsuc n) = n < half_word

-- The conversions between `int64_t` and `uint64_t`.
unfoldable int64 : ℕ → ℤ
int64 x = if ltb x half_word then pos x else negsuc (word - suc x)

unfoldable uint64 : ℤ → ℕ
uint64 (pos n) = n
uint64 (negsuc n) = word - suc n

-- The differences.
unfoldable diff_add : ℤ → ℤ → Option ℤ
diff_add l r = representable (l +ℤ r)

unfoldable diff_sub : ℤ → ℤ → Option ℤ
diff_sub l r = representable (l +ℤ negate r)

unfoldable diff_negate : ℤ → Option ℤ
diff_negate l = representable (negate l)

unfoldable is_above_zero : ℤ → Bool
is_above_zero (pos n) = ltb 0 n
is_above_zero (negsuc _) = false

unfoldable is_at_least_zero : ℤ → Bool
is_at_least_zero (pos _) = true
is_at_least_zero (negsuc _) = false

-- The stamps.
unfoldable stamp_diff : ℕ → ℕ → ℤ
stamp_diff after before = int64 (sub64 after before)

unfoldable stamp_sub : ℕ → ℤ → ℕ
stamp_sub pt diff = sub64 pt (uint64 diff)

unfoldable stamp_add : ℕ → ℤ → ℕ
stamp_add pt diff = add64 pt (uint64 diff)

unfoldable stamp_less : ℕ → ℕ → Bool
stamp_less l r = not (r == l) && ltb (sub64 r l) half_word

unfoldable stamp_greater : ℕ → ℕ → Bool
stamp_greater l r = not (l == r) && ltb (sub64 l r) half_word

unfoldable stamp_less_eq : ℕ → ℕ → Bool
stamp_less_eq l r = ltb (sub64 r l) half_word

unfoldable stamp_greater_eq : ℕ → ℕ → Bool
stamp_greater_eq l r = ltb (sub64 l r) half_word
