-- ===== src/Base/BitOp/Pow2.antt =====
-- The powers of two are the numbers that share no digit with their predecessor.
use v1util.Common.{
  ℕ, zero, suc, ◌+◌, ◌-◌, ◌*◌, ◌/◌, ◌%◌, ◌≤◌, ◌<◌, ◌^◌, ◌≡◌, ◌↔◌, ◌⊎◌, inl, inr, refl, sym, ap,
  subst, ◌∙◌, min, true, not, ◌==◌, ◌&&◌, arith,
}
use Prim.Native.Nat.{bit_and}
use native.Mathlib.Nat.{pow-succ', one-le-pow}
use v1util.Base.BitOp.{is_pow2}
use v1util.Base.BitOp.Digits.{bit_and-lowest}

bit_and_self : (n x : ℕ) → x ≤ n → bit_and x x ≡ x
bit_and_self zero zero h = refl
bit_and_self zero (suc x) h = absurd (omega arith)
bit_and_self (suc n) zero h = refl
bit_and_self (suc n) (suc x) h =
    let ih = bit_and_self n (suc x / 2) (omega arith) in
    omega (arith, bit_and-lowest (suc x) (suc x))

even_step : (y : ℕ) → 0 < y → bit_and (2 * y - 1) (2 * y) ≡ bit_and (y - 1) y * 2
even_step y h =
    let e : (2 * y - 1) / 2 ≡ y - 1 = omega arith in
    let f : 2 * y / 2 ≡ y = omega arith in
    bit_and-lowest (2 * y - 1) (2 * y)
    ∙ ap (λ z. bit_and z (2 * y / 2) * 2 + min ((2 * y - 1) % 2) (2 * y % 2)) e
    ∙ ap (λ z. bit_and (y - 1) z * 2 + min ((2 * y - 1) % 2) (2 * y % 2)) f
    ∙ omega arith

odd_step : (y : ℕ) → bit_and (2 * y) (2 * y + 1) ≡ y * 2
odd_step y =
    let e : 2 * y / 2 ≡ y = omega arith in
    let f : (2 * y + 1) / 2 ≡ y = omega arith in
    bit_and-lowest (2 * y) (2 * y + 1)
    ∙ ap (λ z. bit_and z ((2 * y + 1) / 2) * 2 + min (2 * y % 2) ((2 * y + 1) % 2)) e
    ∙ ap (λ z. bit_and y z * 2 + min (2 * y % 2) ((2 * y + 1) % 2)) f
    ∙ omega (arith, bit_and_self y y (omega arith))

pow-disjoint : (k : ℕ) → bit_and (2 ^ k - 1) (2 ^ k) ≡ 0
pow-disjoint zero = refl
pow-disjoint (suc k) =
    ap (λ z. bit_and (z - 1) z) (pow-succ' 2 k)
    ∙ even_step (2 ^ k) (one-le-pow k 2 (omega arith))
    ∙ omega (arith, pow-disjoint k)

disjoint-pow : (n x : ℕ) → x ≤ n → 0 < x → bit_and (x - 1) x ≡ 0 → (k : ℕ) × (x ≡ 2 ^ k)
disjoint-pow zero x le h e = absurd (omega arith)
disjoint-pow (suc n) x le h e = elim (parity x) [
  | inl even ↦
      let y = x / 2 in
      let halved = even_step y (omega arith) in
      let e' : bit_and (2 * y - 1) (2 * y) ≡ 0 = subst (λ z. bit_and (z - 1) z ≡ 0) even e in
      let (k, p) = disjoint-pow n y (omega arith) (omega arith) (omega arith) in
      (suc k, omega (arith, pow-succ' 2 k))
  | inr odd ↦
      let y = x / 2 in
      let pred : 2 * y + 1 - 1 ≡ 2 * y = omega arith in
      let e' : bit_and (2 * y) (2 * y + 1) ≡ 0 =
        sym (ap (λ z. bit_and z (2 * y + 1)) pred) ∙ subst (λ z. bit_and (z - 1) z ≡ 0) odd e in
      (0, omega (arith, odd_step y))
]
  where
    parity : (x : ℕ) → (x ≡ 2 * (x / 2)) ⊎ (x ≡ 2 * (x / 2) + 1)
    parity x = omega arith

-- `isPow2` holds exactly for the powers of two.
pub is_pow2-pow : (x : ℕ) → (is_pow2 x ≡ true) ↔ ((k : ℕ) × (x ≡ 2 ^ k))
unfolding is_pow2
is_pow2-pow x = (
  (λ h. disjoint-pow x x (omega arith) (positive x h) (disjoint x h)),
  (λ (k, e). subst (λ z. (not (z == 0) && bit_and (z - 1) z == 0) ≡ true) (sym e) (pow_test k)),
)
  where
    positive : (x : ℕ) → (not (x == 0) && bit_and (x - 1) x == 0) ≡ true → 0 < x
    positive x h = ground arith

    disjoint : (x : ℕ) → (not (x == 0) && bit_and (x - 1) x == 0) ≡ true → bit_and (x - 1) x ≡ 0
    disjoint x h = ground arith

    pow_test : (k : ℕ) → (not (2 ^ k == 0) && bit_and (2 ^ k - 1) (2 ^ k) == 0) ≡ true
    pow_test k = let p = one-le-pow k 2 (omega arith) in let e = pow-disjoint k in ground arith
