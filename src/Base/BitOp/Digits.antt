-- ===== src/Base/BitOp/Digits.antt =====
-- The native bit operations by their lowest digit and by the digit at a place.
use v1util.Common.{
  ℕ, zero, suc, ◌+◌, ◌*◌, ◌/◌, ◌%◌, ◌≤◌, ◌^◌, ◌≡◌, refl, sym, ap, ◌∙◌, min, max, arith,
}
use Prim.Native.Nat.{bit_and, bit_or, bit_and-bitwise, bit_or-bitwise, digits, bitwise}
use native.Mathlib.Nat.{div-div-eq-div-mul, pow-succ'}

-- The count of digits does not matter, once it is enough.
module _ (rest : ℕ → ℕ) (op : ℕ → ℕ → ℕ) where
  count-irrelevant : (m n a b : ℕ) → a ≤ m → a ≤ n → digits rest op m a b ≡ digits rest op n a b
  count-irrelevant zero zero a b h k = refl
  count-irrelevant zero (suc n) zero b h k = refl
  count-irrelevant zero (suc n) (suc a) b h k = absurd (omega arith)
  count-irrelevant (suc m) zero zero b h k = refl
  count-irrelevant (suc m) zero (suc a) b h k = absurd (omega arith)
  count-irrelevant (suc m) (suc n) zero b h k = refl
  count-irrelevant (suc m) (suc n) (suc a) b h k =
      ap (λ z. z * 2 + op (suc a % 2) (b % 2))
        (count-irrelevant m n (suc a / 2) (b / 2) (omega arith) (omega arith))

  lowest :
      (a b : ℕ)
      → bitwise rest op (suc a) b ≡ bitwise rest op (suc a / 2) (b / 2) * 2 + op (suc a % 2) (b % 2)
  lowest a b =
      ap (λ z. z * 2 + op (suc a % 2) (b % 2))
        (count-irrelevant a (suc a / 2) (suc a / 2) (b / 2) (omega arith) (omega arith))

pub bit_or-lowest : (a b : ℕ) → bit_or a b ≡ bit_or (a / 2) (b / 2) * 2 + max (a % 2) (b % 2)
bit_or-lowest zero b = simp bit_or-bitwise (omega arith)
bit_or-lowest (suc a) b = simp bit_or-bitwise (lowest (λ y. y) max a b)

pub bit_and-lowest : (a b : ℕ) → bit_and a b ≡ bit_and (a / 2) (b / 2) * 2 + min (a % 2) (b % 2)
bit_and-lowest zero b = simp bit_and-bitwise (omega arith)
bit_and-lowest (suc a) b = simp bit_and-bitwise (lowest (λ y. 0) min a b)

-- The digit at place `j`.
abbrev pub bit : ℕ → ℕ → ℕ
bit x zero = x % 2
bit x (suc j) = bit (x / 2) j

pub bit-binary : (x j : ℕ) → bit x j ≤ 1
bit-binary x zero = omega arith
bit-binary x (suc j) = bit-binary (x / 2) j

pub bit-bit_or : (j a b : ℕ) → bit (bit_or a b) j ≡ max (bit a j) (bit b j)
bit-bit_or zero a b = omega (arith, bit_or-lowest a b)
bit-bit_or (suc j) a b =
    let e : bit_or a b / 2 ≡ bit_or (a / 2) (b / 2) = omega (arith, bit_or-lowest a b) in
    ap (λ z. bit z j) e ∙ bit-bit_or j (a / 2) (b / 2)

-- `>>` moves the digits down.
pub bit-shift : (s x j : ℕ) → bit (x / 2 ^ s) j ≡ bit x (s + j)
bit-shift zero x j =
    let e : x / 1 ≡ x = omega arith in
    let f : 0 + j ≡ j = omega arith in ap (λ z. bit z j) e ∙ ap (bit x) (sym f)
bit-shift (suc s) x j =
    let e : x / 2 ^ suc s ≡ x / 2 / 2 ^ s =
      ap (λ z. x / z) (pow-succ' 2 s) ∙ sym (div-div-eq-div-mul x 2 (2 ^ s)) in
    let f : suc s + j ≡ suc (s + j) = omega arith in
    ap (λ z. bit z j) e ∙ bit-shift s (x / 2) j ∙ ap (bit x) (sym f)
