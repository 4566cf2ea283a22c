-- ===== src/Base/Time/Seconds/RoundTrip.antt =====
-- Seconds that are converted to a difference and back.
use v1util.Common.{
  ℕ, zero, suc, ◌+◌, ◌-◌, ◌*◌, ◌/◌, ◌<◌, ◌≤◌, ◌≡◌, refl, ap, ◌∙◌, some, ◌>>=◌, arith,
}
use v1util.Common.Int.{pos, negsuc, ◌+ℤ◌, difference, negate}
use native.Mathlib.Nat.{mul-add-div_right, div-eq_of_lt}
use v1util.Base.Time.{half_word, representable}
use v1util.Base.Time.Seconds.{quotient, round_div, diff_from_s, to_s}

negate-positive : (n : ℕ) → 0 < n → negate (pos n) ≡ negsuc (n - 1)
negate-positive zero h = ground arith
negate-positive (suc n) h = ap negsuc (omega arith)

pos-representable : (n : ℕ) → n < half_word → representable (pos n) ≡ some (pos n)
pos-representable n h = ground arith

negsuc-representable : (n : ℕ) → n < half_word → representable (negsuc n) ≡ some (negsuc n)
negsuc-representable n h = ground arith

quotient-pos : (n m : ℕ) → 0 < m → quotient (pos n) m ≡ some (pos (n / m))
unfolding quotient
quotient-pos n zero h = ground arith
quotient-pos n (suc m) h = refl

quotient-negsuc : (n m : ℕ) → 0 < m → quotient (negsuc n) m ≡ some (negate (pos (suc n / m)))
unfolding quotient
quotient-negsuc n zero h = ground arith
quotient-negsuc n (suc m) h = refl

difference-below : (m n : ℕ) → m < n → difference m n ≡ negsuc (n - m - 1)
difference-below m n h = ground arith

-- A multiple of the divisor comes back, and a part below the divisor drops out.
quotient-multiple : (s t x : ℕ) → 0 < t → x < t → (s * t + x) / t ≡ s
quotient-multiple s t x h k =
    mul-add-div_right h s x ∙ ap (λ y. s + y) (div-eq_of_lt k) ∙ omega arith

suc-inside : (a b : ℕ) → suc (a + b) ≡ a + suc b
suc-inside a b = omega arith

module _ (ticks s : ℕ) (h : 2 ≤ ticks) (fits : suc s * ticks + ticks / 2 < half_word) where
  product-suc : suc s * ticks ≡ s * ticks + ticks
  product-suc = omega arith

  round_div-pos : round_div (pos (s * ticks)) ticks ≡ some (pos s)
  round_div-pos = rw (pos-representable (s * ticks + ticks / 2) (omega (arith, product-suc))) (
      quotient-pos (s * ticks + ticks / 2) ticks (omega arith)
      ∙ ap (λ n. some (pos n)) (quotient-multiple s ticks (ticks / 2) (omega arith) (omega arith)))

  rest : ℕ
  rest = ticks - ticks / 2 - 1

  sum-negsuc : negsuc (suc s * ticks - 1) +ℤ pos (ticks / 2) ≡ negsuc (s * ticks + rest)
  unfolding rest
  sum-negsuc =
      difference-below (ticks / 2) (suc (suc s * ticks - 1)) (omega (arith, product-suc))
      ∙ ap negsuc (omega (arith, product-suc))

  sum-fits : s * ticks + rest < half_word
  unfolding rest
  sum-fits = omega (arith, product-suc)

  rest-quotient : suc (s * ticks + rest) / ticks ≡ s
  unfolding rest
  rest-quotient =
      ap (λ n. n / ticks) (suc-inside (s * ticks) rest)
      ∙ quotient-multiple s ticks (suc rest) (omega arith) (omega arith)

  round_div-negsuc : round_div (negsuc (suc s * ticks - 1)) ticks ≡ some (negate (pos s))
  round_div-negsuc =
      rw (sum-negsuc, negsuc-representable (s * ticks + rest) sum-fits)
        (quotient-negsuc (s * ticks + rest) ticks (omega arith)
          ∙ ap (λ n. some (negate (pos n))) rest-quotient)

-- Where a second has two ticks or more and `(s + 1) * ticks + ticks / 2` is below 2 ^ 63: `s` seconds come
-- back as `s`, but `s + 1` seconds below 0 come back as `s` seconds below 0.
pub diff_from_s-to_s :
    (ticks s : ℕ)
    → 2 ≤ ticks
    → suc s * ticks + ticks / 2 < half_word
    → ((diff_from_s ticks (pos s) >>= to_s ticks) ≡ some (pos s))
      × ((diff_from_s ticks (negsuc s) >>= to_s ticks) ≡ some (negate (pos s)))
unfolding diff_from_s to_s
diff_from_s-to_s ticks s h fits = (
  rw (pos-representable (s * ticks) (omega (arith, product-suc ticks s h fits)))
      (round_div-pos ticks s h fits),
  rw
      (
        negate-positive (suc s * ticks) (omega (arith, product-suc ticks s h fits)),
        negsuc-representable (suc s * ticks - 1) (omega arith),
      )
      (round_div-negsuc ticks s h fits),
)
