-- ===== src/Base/BitOp/Align.antt =====
-- `alignUp` against the least multiple of a power of two.
use v1util.Common.{
  ℕ, zero, suc, ◌+◌, ◌-◌, ◌*◌, ◌/◌, ◌%◌, ◌≤◌, ◌<◌, ◌^◌, ◌≡◌, refl, sym, ap, ◌∙◌, min, arith,
}
use Prim.Native.Nat.{bit_and}
use native.Mathlib.Nat.{
  pow-succ', one-le-pow, pow-le-pow_right, div-div-eq-div-mul, div-add-mod', mod-lt, mod-eq_of_lt,
}
use v1util.Base.BitOp.{align_up_cast}
use v1util.Base.BitOp.Digits.{bit_and-lowest}

-- A mask of ones keeps every number below it.
all_ones : (w x : ℕ) → x < 2 ^ w → bit_and x (2 ^ w - 1) ≡ x
all_ones zero zero h = refl
all_ones zero (suc x) h = absurd (omega arith)
all_ones (suc w) x h =
    let p = one-le-pow w 2 (omega arith) in
    let half : (2 ^ suc w - 1) / 2 ≡ 2 ^ w - 1 = omega (arith, pow-succ' 2 w) in
    let odd : (2 ^ suc w - 1) % 2 ≡ 1 = omega (arith, pow-succ' 2 w) in
    bit_and-lowest x (2 ^ suc w - 1)
    ∙ ap (λ z. bit_and (x / 2) z * 2 + min (x % 2) ((2 ^ suc w - 1) % 2)) half
    ∙ ap (λ z. bit_and (x / 2) (2 ^ w - 1) * 2 + min (x % 2) z) odd
    ∙ omega (arith, all_ones w (x / 2) (omega (arith, pow-succ' 2 w)))

-- A mask without its `k` lowest digits leaves the multiple of `2 ^ k`.
clear_low : (k w x : ℕ) → k ≤ w → x < 2 ^ w → bit_and x (2 ^ w - 2 ^ k) ≡ x / 2 ^ k * 2 ^ k
clear_low zero w x le h = all_ones w x h ∙ omega arith
clear_low (suc k) zero x le h = absurd (omega arith)
clear_low (suc k) (suc w) x le h =
    let mono : 2 ^ k ≤ 2 ^ w = pow-le-pow_right (omega arith) (omega arith) in
    let half : (2 ^ suc w - 2 ^ suc k) / 2 ≡ 2 ^ w - 2 ^ k =
      omega (arith, pow-succ' 2 w, pow-succ' 2 k) in
    let even : (2 ^ suc w - 2 ^ suc k) % 2 ≡ 0 = omega (arith, pow-succ' 2 w, pow-succ' 2 k) in
    let q = x / 2 / 2 ^ k in
    let quotient : x / 2 ^ suc k ≡ q =
      ap (λ z. x / z) (pow-succ' 2 k) ∙ sym (div-div-eq-div-mul x 2 (2 ^ k)) in
    bit_and-lowest x (2 ^ suc w - 2 ^ suc k)
    ∙ ap (λ z. bit_and (x / 2) z * 2 + min (x % 2) ((2 ^ suc w - 2 ^ suc k) % 2)) half
    ∙ ap (λ z. bit_and (x / 2) (2 ^ w - 2 ^ k) * 2 + min (x % 2) z) even
    ∙ ap (λ z. z * 2 + min (x % 2) 0)
        (clear_low k w (x / 2) (omega arith) (omega (arith, pow-succ' 2 w)))
    ∙ omega (arith, ap (λ (t : ℕ). q * t) (pow-succ' 2 k))
    ∙ ap (λ z. z * 2 ^ suc k) (sym quotient)

-- For an alignment of `2 ^ k` within the width, and a value that stays below the cast together with the
-- mask: the result is the least multiple of the alignment that is not below the value.
pub align_up_cast-least :
    (width cast k val : ℕ)
    → k ≤ width
    → cast ≤ width
    → val + 2 ^ k ≤ 2 ^ cast
    → (q : ℕ) × (align_up_cast width cast val (2 ^ k) ≡ q * 2 ^ k)
      × (val ≤ align_up_cast width cast val (2 ^ k))
      × (align_up_cast width cast val (2 ^ k) < val + 2 ^ k)
unfolding align_up_cast
align_up_cast-least width cast k val le narrow fits =
    let positive = one-le-pow k 2 (omega arith) in
    let x = val + (2 ^ k - 1) in
    let wide : 2 ^ cast ≤ 2 ^ width = pow-le-pow_right (omega arith) narrow in
    let exact : x % 2 ^ cast ≡ x = mod-eq_of_lt (omega arith) in
    let mask : 2 ^ width - 1 - (2 ^ k - 1) ≡ 2 ^ width - 2 ^ k = omega arith in
    let q = x / 2 ^ k in
    let cleared = clear_low k width x le (omega arith) in
    let parts = div-add-mod' x (2 ^ k) in
    let rest : x % 2 ^ k < 2 ^ k = mod-lt x positive in
    let small : q * 2 ^ k % 2 ^ cast ≡ q * 2 ^ k = mod-eq_of_lt (omega arith) in
    let result : bit_and (x % 2 ^ cast) (2 ^ width - 1 - (2 ^ k - 1)) % 2 ^ cast ≡ q * 2 ^ k =
      ap (λ z. bit_and z (2 ^ width - 1 - (2 ^ k - 1)) % 2 ^ cast) exact
      ∙ ap (λ z. bit_and x z % 2 ^ cast) mask
      ∙ ap (λ z. z % 2 ^ cast) cleared
      ∙ small in
    (q, result, omega arith, omega arith)
