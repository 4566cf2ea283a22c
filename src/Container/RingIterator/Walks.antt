-- ===== src/Container/RingIterator/Walks.antt =====
-- A walk round a ring ends where its displacement does modulo the ring's size.
use v1util.Common.{
  ℕ, zero, suc, ◌+◌, ◌-◌, ◌%◌, ◌<◌, ◌≡◌, refl, ap, ap₂, ◌∙◌, ◌⊎◌, inl, inr, ◌==◌, if◌then◌else◌,
  true, Bool-cases, Option, none, some, ◌>>=◌, List, [], ◌∷◌, arith,
}
use native.Mathlib.Nat.{suc-mod, mod-lt, mod-eq_of_lt, mod_self, zero-mod}
use native.Mathlib.Decide.{dec_lt}
use v1util.Common.Int.{
  ℤ, pos, negsuc, ◌+ℤ◌, increment, decrement, negate, fits_int64, representable,
}
use v1util.Container.RingIterator.{
  RingIterator, make_ring, step_forward, step_back, place, advance, retreat, Move, increments,
  decrements, advances, retreats, move, moved, walk, displacement, modulo,
}

-- A remainder grows by one or starts again.
suc-mod_cases :
    (n s : ℕ)
    → 0 < s
    → ((n % s + 1 < s) × (suc n % s ≡ n % s + 1)) ⊎ ((n % s + 1 ≡ s) × (suc n % s ≡ 0))
suc-mod_cases n s h = elim (dec_lt (n % s + 1) s) [
  | yes p ↦
      let small : suc (n % s) < s = omega arith in
      inl (p, suc-mod n s ∙ mod-eq_of_lt small ∙ omega arith)
  | no p ↦
      let r : n % s < s = mod-lt n h in
      let e : suc (n % s) ≡ s = omega arith in
      inr (omega arith, suc-mod n s ∙ ap (λ z. z % s) e ∙ mod_self s)
]

module _ (b s r q : ℕ) (h : 0 < s) where
  place_test :
      ((r + 1 < s) × (q ≡ r + 1)) ⊎ ((r + 1 ≡ s) × (q ≡ 0))
      → (if q == 0 then b else b + s - q) ≡ b + (s - 1 - r)
  place_test c = ground arith

  up_test :
      ((r + 1 < s) × (q ≡ r + 1)) ⊎ ((r + 1 ≡ s) × (q ≡ 0))
      → (if b + r + 1 == b + s then b else b + r + 1) ≡ b + q
  up_test c = ground arith

  up_below_test :
      ((r + 1 < s) × (q ≡ r + 1)) ⊎ ((r + 1 ≡ s) × (q ≡ 0))
      → (if b + (s - 1 - q) + 1 == b + s then b else b + (s - 1 - q) + 1) ≡ b + (s - 1 - r)
  up_below_test c = ground arith

  down_test :
      ((r + 1 < s) × (q ≡ r + 1)) ⊎ ((r + 1 ≡ s) × (q ≡ 0))
      → (if b + q == b then b + s else b + q) - 1 ≡ b + r
  down_test c = ground arith

  down_below_test :
      ((r + 1 < s) × (q ≡ r + 1)) ⊎ ((r + 1 ≡ s) × (q ≡ 0))
      → (if b + (s - 1 - r) == b then b + s else b + (s - 1 - r)) - 1 ≡ b + (s - 1 - q)
  down_below_test c = ground arith

module _ (begin size : ℕ) (h : 0 < size) where
  place-modulo : (o : ℤ) → place begin size o ≡ begin + modulo o size
  unfolding place
  place-modulo (pos n) = refl
  place-modulo (negsuc n) =
      place_test begin size (n % size) (suc n % size) h (suc-mod_cases n size h)

  forward-modulo :
      (o : ℤ)
      → (if begin + modulo o size + 1 == begin + size then begin else begin + modulo o size + 1)
        ≡ begin + modulo (increment o) size
  forward-modulo (pos n) = up_test begin size (n % size) (suc n % size) h (suc-mod_cases n size h)
  forward-modulo (negsuc zero) =
      let z : 0 % size ≡ 0 = zero-mod size in
      let e : (begin + (size - 1 - 0) + 1 == begin + size) ≡ true = ground arith in
      let f : begin ≡ begin + 0 = omega arith in rw (z, e) f
  forward-modulo (negsuc (suc n)) =
      up_below_test begin size (n % size) (suc n % size) h (suc-mod_cases n size h)

  back-modulo :
      (o : ℤ)
      → (if begin + modulo o size == begin then begin + size else begin + modulo o size) - 1
        ≡ begin + modulo (decrement o) size
  back-modulo (pos zero) =
      let z : 0 % size ≡ 0 = zero-mod size in
      let e : (begin + 0 == begin) ≡ true = ground arith in
      let f : begin + size - 1 ≡ begin + (size - 1 - 0) = omega arith in rw (z, e) f
  back-modulo (pos (suc n)) =
      down_test begin size (n % size) (suc n % size) h (suc-mod_cases n size h)
  back-modulo (negsuc n) =
      down_below_test begin size (n % size) (suc n % size) h (suc-mod_cases n size h)

-- The iterator stands where its offset says.
abbrev AtOffset : RingIterator → Type 0
AtOffset r = r.iter ≡ r.begin + modulo r.offset r.size

-- A move overflows with its sum, or it keeps the range and leads to the sum.
data Moves (r : RingIterator) (m : Option RingIterator) (n : Option ℤ) : Type 0 where
  overflows : m ≡ none → n ≡ none → Moves r m n
  leads :
      (r' : RingIterator)
      → m ≡ some r'
      → n ≡ some r'.offset
      → r'.begin ≡ r.begin
      → r'.size ≡ r.size
      → AtOffset r'
      → Moves r m n

-- A sum, and the iterator that is moved where the sum can be held.
moves :
    (r : RingIterator) (sum : ℤ) (iter : ℕ)
    → iter ≡ r.begin + modulo sum r.size
    → Moves r
        (representable sum >>= λ o. some (record r { offset = o; iter = iter }))
        (representable sum)
moves r sum iter e = elim (Bool-cases (fits_int64 sum)) [
  | inl f ↦ leads (record r { offset = sum; iter = iter }) (rw (f)) (rw (f)) refl refl e
  | inr f ↦ overflows (rw (f)) (rw (f))
]

placed :
    (r : RingIterator) (sum : ℤ)
    → 0 < r.size
    → Moves r
        (representable sum >>= λ o. some (record r { offset = o; iter = place r.begin r.size o }))
        (representable sum)
placed r sum h = elim (Bool-cases (fits_int64 sum)) [
  | inl f ↦
      leads (record r { offset = sum; iter = place r.begin r.size sum }) (rw (f)) (rw (f)) refl refl
        (place-modulo r.begin r.size h sum)
  | inr f ↦ overflows (rw (f)) (rw (f))
]

move-Moves :
    (m : Move) (r : RingIterator) → 0 < r.size → AtOffset r → Moves r (move m r) (moved m r.offset)
unfolding move step_forward step_back advance retreat
move-Moves increments r h e = moves r (increment r.offset) _ (
    ap (λ i. if i + 1 == r.begin + r.size then r.begin else i + 1) e
    ∙ forward-modulo r.begin r.size h r.offset)
move-Moves decrements r h e = moves r (decrement r.offset) _ (
    ap (λ i. (if i == r.begin then r.begin + r.size else i) - 1) e
    ∙ back-modulo r.begin r.size h r.offset)
move-Moves (advances d) r h e = placed r (r.offset +ℤ d) h
move-Moves (retreats d) r h e = elim (Bool-cases (fits_int64 (negate d))) [
  | inl f ↦ rw (f, ◌>>=◌) (placed r (r.offset +ℤ negate d) h)
  | inr f ↦ overflows (rw (f)) (rw (f))
]

walk_from :
    (ms : List Move) (r : RingIterator)
    → 0 < r.size
    → AtOffset r
    → (walk ms r >>= λ r'. some r'.iter)
      ≡ (displacement ms r.offset >>= λ o. some (r.begin + modulo o r.size))
unfolding walk displacement
walk_from [] r h e = ap some e
walk_from (m ∷ ms) r h e = elim (move-Moves m r h e) [
  | overflows a b ↦ rw (a, b)
  | leads r' a b same_begin same_size e' ↦
      rw (a, b, ◌>>=◌)
        (walk_from ms r' (omega arith) e'
          ∙ ap₂ (λ x y. displacement ms r'.offset >>= λ o. some (x + modulo o y)) same_begin
              same_size)
]

-- For a range that is not empty: after any increments, decrements and jumps, the iterator of the ring
-- stands on the element whose index is the sum of the moves modulo the size of the range, and the walk
-- overflows exactly if the opposite of a distance that is subtracted or a sum on the way exceeds `int64_t`.
pub walk-displacement :
    (i_begin i_end : ℕ) (ms : List Move)
    → i_begin < i_end
    → (walk ms (make_ring i_begin i_end) >>= λ r. some r.iter)
      ≡ (displacement ms (pos 0) >>= λ o. some (i_begin + modulo o (i_end - i_begin)))
unfolding make_ring
walk-displacement i_begin i_end ms h =
    let z : 0 % (i_end - i_begin) ≡ 0 = zero-mod (i_end - i_begin) in
    walk_from ms (make_ring i_begin i_end) (omega arith) (omega arith)
