-- ===== src/Base/BitOp.antt =====
-- The bit operations of base/bitop.hpp. The overloads differ in the width of the type and, for `alignUp`,
-- in the casts; types narrower than `int` are promoted to it, which has 32 bits.
mod Digits
mod Align
mod Windows
mod Pow2
mod Tests
use v1util.Common.{ℕ, ◌+◌, ◌-◌, ◌/◌, ◌%◌, ◌^◌, ◌==◌, Bool, not, ◌&&◌}
use Prim.Native.Nat.{bit_and, bit_or}

-- `~mask` for `mask = alignment - 1` in `width` bits, and the sum and the result cast to `cast` bits.
unfoldable align_up_cast : ℕ → ℕ → ℕ → ℕ → ℕ
align_up_cast width cast val alignment =
    let mask = alignment - 1 in bit_and ((val + mask) % 2 ^ cast) (2 ^ width - 1 - mask) % 2 ^ cast

abbrev align_up8 : ℕ → ℕ → ℕ
align_up8 = align_up_cast 32 8

-- The casts of this overload are those of the one for 8 bits.
abbrev align_up16 : ℕ → ℕ → ℕ
align_up16 = align_up_cast 32 8

abbrev align_up32 : ℕ → ℕ → ℕ
align_up32 = align_up_cast 32 32

abbrev align_up64 : ℕ → ℕ → ℕ
align_up64 = align_up_cast 64 64

-- The four overloads, whose difference is not reached for 0.
unfoldable is_pow2 : ℕ → Bool
is_pow2 x = not (x == 0) && bit_and (x - 1) x == 0

-- `x |= x >> n`
unfoldable smear : ℕ → ℕ → ℕ
smear n x = bit_or x (x / 2 ^ n)

unfoldable next_pow2_32 : ℕ → ℕ
next_pow2_32 x =
    (smear 16 (smear 8 (smear 4 (smear 2 (smear 1 ((x + 2 ^ 32 - 1) % 2 ^ 32))))) + 1) % 2 ^ 32

unfoldable next_pow2_64 : ℕ → ℕ
next_pow2_64 x =
    (smear 32 (smear 16 (smear 8 (smear 4 (smear 2 (smear 1 ((x + 2 ^ 64 - 1) % 2 ^ 64)))))) + 1)
    % 2 ^ 64
