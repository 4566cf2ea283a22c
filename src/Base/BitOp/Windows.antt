-- ===== src/Base/BitOp/Windows.antt =====
-- Smeared digits: `nextPow2` against the least power of two.
use v1util.Common.{
  ℕ, zero, suc, ◌+◌, ◌-◌, ◌*◌, ◌/◌, ◌%◌, ◌≤◌, ◌<◌, ◌^◌, ◌≡◌, ◌⊎◌, inl, inr, refl, sym, ap, subst,
  ◌∙◌, max, arith,
}
use native.Mathlib.Nat.{pow-succ'}
use native.Mathlib.Decide.{dec_lt}
use v1util.Base.BitOp.{smear, next_pow2_32, next_pow2_64}
use v1util.Base.BitOp.Digits.{bit, bit-binary, bit-bit_or, bit-shift}

-- Whether one of the `n` digits from place `j` up is set.
window : ℕ → ℕ → ℕ → ℕ
window zero y j = 0
window (suc n) y j = max (bit y j) (window n y (suc j))

window-add : (n m y j : ℕ) → window (n + m) y j ≡ max (window n y j) (window m y (n + j))
unfolding window
window-add zero m y j =
    let e : 0 + m ≡ m = omega arith in
    let f : 0 + j ≡ j = omega arith in
    ap (λ z. window z y j) e ∙ ap (window m y) (sym f) ∙ omega arith
window-add (suc n) m y j =
    let e : suc n + m ≡ suc (n + m) = omega arith in
    let f : n + suc j ≡ suc n + j = omega arith in
    ap (λ z. window z y j) e
    ∙ ap (max (bit y j)) (window-add n m y (suc j))
    ∙ ap (λ z. max (bit y j) (max (window n y (suc j)) (window m y z))) f
    ∙ omega arith

-- `z` has at each place whether one of the `n` digits of `y` from there up is set.
Smeared : ℕ → ℕ → ℕ → Type 0
Smeared n y z = (j : ℕ) → bit z j ≡ window n y j

smear-Smeared : (n y z : ℕ) → Smeared n y z → Smeared (n + n) y (smear n z)
unfolding Smeared smear
smear-Smeared n y z h j =
    bit-bit_or j z (z / 2 ^ n)
    ∙ ap (λ a. max a (bit (z / 2 ^ n) j)) (h j)
    ∙ ap (max (window n y j)) (bit-shift n z j ∙ h (n + j))
    ∙ sym (window-add n n y j)

start-Smeared : (y : ℕ) → Smeared 1 y y
unfolding Smeared window
start-Smeared y j = omega arith

-- The highest digit that is set.
top :
    (w y : ℕ)
    → y < 2 ^ w
    → (y ≡ 0) ⊎ ((p : ℕ) × (p < w) × (2 ^ p ≤ y) × (y < 2 ^ suc p) × (bit y p ≡ 1))
top zero y h = inl (omega arith)
top (suc w) y h = elim (top w (y / 2) (omega (arith, pow-succ' 2 w))) [
  | inl small ↦ elim (dec_lt 0 y) [
    | yes positive ↦ inr (0, omega arith, omega arith, omega arith, omega arith)
    | no nothing ↦ inl (omega arith)
  ]
  | inr (p, lt, low, high, set) ↦
      inr
        (suc p, omega arith, omega (arith, pow-succ' 2 p), omega (arith, pow-succ' 2 (suc p)), set)
]

bit-above : (p y j : ℕ) → y < 2 ^ p → p ≤ j → bit y j ≡ 0
bit-above zero y zero h k = omega arith
bit-above zero y (suc j) h k = bit-above zero (y / 2) j (omega arith) (omega arith)
bit-above (suc p) y zero h k = absurd (omega arith)
bit-above (suc p) y (suc j) h k = bit-above p (y / 2) j (omega (arith, pow-succ' 2 p)) (omega arith)

window-above : (n p y j : ℕ) → y < 2 ^ p → p ≤ j → window n y j ≡ 0
unfolding window
window-above zero p y j h k = refl
window-above (suc n) p y j h k =
    omega (arith, bit-above p y j h k, window-above n p y (suc j) h (omega arith))

window-binary : (n y j : ℕ) → window n y j ≤ 1
unfolding window
window-binary zero y j = omega arith
window-binary (suc n) y j = omega (arith, bit-binary y j, window-binary n y (suc j))

window-below : (n p y j : ℕ) → bit y p ≡ 1 → j ≤ p → p < j + n → window n y j ≡ 1
unfolding window
window-below zero p y j h k l = absurd (omega arith)
window-below (suc n) p y j h k l = elim (dec_lt j p) [
  | yes lower ↦
      omega (arith, bit-binary y j, window-below n p y (suc j) h (omega arith) (omega arith))
  | no here ↦
      let same : p ≡ j = omega arith in
      let set : bit y j ≡ 1 = subst (λ i. bit y i ≡ 1) same h in
      omega (arith, window-binary n y (suc j))
]

zero_digits : (n z : ℕ) → z ≤ n → ((j : ℕ) → bit z j ≡ 0) → z ≡ 0
zero_digits zero z le h = omega arith
zero_digits (suc n) zero le h = refl
zero_digits (suc n) (suc z) le h =
    let lowest = h 0 in
    let others = zero_digits n (suc z / 2) (omega arith) (λ j. h (suc j)) in omega arith

-- Ones below place `q` and zeros from there up.
ones : (q z : ℕ) → ((j : ℕ) → j < q → bit z j ≡ 1) → ((j : ℕ) → q ≤ j → bit z j ≡ 0) → z + 1 ≡ 2 ^ q
ones zero z h k = omega (arith, zero_digits z z (omega arith) (λ j. k j (omega arith)))
ones (suc q) z h k =
    let lowest = h 0 (omega arith) in
    let others = ones q (z / 2) (λ j l. h (suc j) (omega arith)) (λ j l. k (suc j) (omega arith)) in
    omega (arith, pow-succ' 2 q)

-- A number that is smeared over all its digits is one less than the next power of two.
full_smear :
    (w y z : ℕ)
    → y < 2 ^ w
    → Smeared w y z
    → (q : ℕ) × (z + 1 ≡ 2 ^ q) × (y < 2 ^ q) × (2 ^ q ≤ y + max y 1)
unfolding Smeared
full_smear w y z h s = elim (top w y h) [
  | inl none_set ↦ (
    0,
    ones 0 z (λ j l. absurd (omega arith)) (λ j l. s j ∙ window-above w 0 y j (omega arith) l),
    omega arith,
    omega arith,
  )
  | inr (p, lt, low, high, set) ↦ (
    suc p,
    ones (suc p) z (λ j l. s j ∙ window-below w p y j set (omega arith) (omega arith))
        (λ j l. s j ∙ window-above w (suc p) y j high l),
    high,
    omega (arith, pow-succ' 2 p),
  )
]

smeared5 : ℕ → ℕ
smeared5 y = smear 16 (smear 8 (smear 4 (smear 2 (smear 1 y))))

smeared5-Smeared : (y : ℕ) → Smeared 32 y (smeared5 y)
unfolding smeared5
smeared5-Smeared y = smear-Smeared 16 y _ (
    smear-Smeared 8 y _
      (smear-Smeared 4 y _ (smear-Smeared 2 y _ (smear-Smeared 1 y y (start-Smeared y)))))

-- From 1 to 2 ^ 31, `nextPow2` returns the least power of two that is not below its argument.
pub next_pow2_32-least :
    (x : ℕ)
    → 0 < x
    → x ≤ 2 ^ 31
    → (q : ℕ) × (next_pow2_32 x ≡ 2 ^ q) × (x ≤ 2 ^ q) × (2 ^ q < 2 * x)
unfolding next_pow2_32 smeared5
next_pow2_32-least x positive small =
    let y = x - 1 in
    let start : (x + 2 ^ 32 - 1) % 2 ^ 32 ≡ y = omega arith in
    let (q, e, above, least) = full_smear 32 y (smeared5 y) (omega arith) (smeared5-Smeared y) in
    (q, ap (λ k. (smeared5 k + 1) % 2 ^ 32) start ∙ omega arith, omega arith, omega arith)

-- From 1 to 2 ^ 63, `nextPow2` for 64 bits returns the least power of two that is not below its argument.
pub next_pow2_64-least :
    (x : ℕ)
    → 0 < x
    → x ≤ 2 ^ 63
    → (q : ℕ) × (next_pow2_64 x ≡ 2 ^ q) × (x ≤ 2 ^ q) × (2 ^ q < 2 * x)
unfolding next_pow2_64 smeared5
next_pow2_64-least x positive small =
    let y = x - 1 in
    let start : (x + 2 ^ 64 - 1) % 2 ^ 64 ≡ y = omega arith in
    let (q, e, above, least) =
      full_smear 64 y (smear 32 (smeared5 y)) (omega arith)
        (smear-Smeared 32 y (smeared5 y) (smeared5-Smeared y)) in
    (
      q,
      ap (λ k. (smear 32 (smeared5 k) + 1) % 2 ^ 64) start ∙ omega arith,
      omega arith,
      omega arith,
    )
