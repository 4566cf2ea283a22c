-- ===== src/Container/RingBuffer/Bulk/Fill.antt =====
-- `fillFrom` on a buffer that holds a known sequence.
use v1util.Common.{
  ℕ, suc, ◌+◌, ◌-◌, ◌≤◌, ◌<◌, ◌≡◌, refl, sym, ap, ◌∙◌, ◌==◌, some, List, [], ◌∷◌, ◌++◌,
  append_assoc, append-nil, length, length-append, take, drop, take-append-drop, length-take,
  length-drop, true, false, if◌then◌else◌, leb, le→leb, arith,
}
use native.Mathlib.Decide.{dec_le}
use v1util.Common.Word.{word}
use v1util.Container.RingBuffer.{RingBuffer, size, usable_capacity, available_size, store_run}
use v1util.Container.RingBuffer.Holds.{
  Holds, linear, wrapped, length-Holds, size-Holds, usable_capacity-Holds, available_size-Holds,
}
use v1util.Container.RingBuffer.Bulk.{fill_runs, fill_from}
use v1util.Container.RingBuffer.Bulk.Runs.{store_run-append}

module _ {ℓ} {A : Type ℓ} where
  -- `fillFrom` where one run up to `next` suffices.
  fill_runs-one :
      (r : RingBuffer A) (values a old b : List A) (next : ℕ)
      → r.storage ≡ a ++ (old ++ b)
      → length old ≡ length values
      → r.head ≡ length a
      → leb (r.head + length values) r.capacity ≡ true
      → (if r.head + length values == r.capacity then 0 else r.head + length values) ≡ next
      → fill_runs r values ≡ some (record r { storage = a ++ (values ++ b); head = next })
  unfolding fill_runs
  fill_runs-one r values a old b next s l h fits n =
      rw (fits, store_run-append r r.head a old values b s l h, n)

  -- One stretch of free places at the end, and the block fits there.
  fill_linear :
      {cap : ℕ} {r : RingBuffer A} (xs values a old b : List A)
      → r.storage ≡ a ++ (xs ++ (old ++ b))
      → length old ≡ length values
      → r.tail ≡ length a
      → r.head ≡ length a + length xs
      → 0 < length old + length b
      → r.capacity ≡ suc cap
      → length a + length xs + (length old + length b) ≡ suc cap
      → suc cap < word
      → length xs + length values ≤ cap
      → (r' : RingBuffer A) × (fill_runs r values ≡ some r') × Holds cap r' (xs ++ values)
  fill_linear {r = r} xs values a old [] s o t h p c l w room = (
    record r { storage = (a ++ xs) ++ (values ++ []); head = 0 },
    fill_runs-one r values (a ++ xs) old [] 0 (s ∙ sym (append_assoc a xs (old ++ []))) o
        (omega (arith, length-append a xs)) (ground arith) (ground arith),
    wrapped [] a (xs ++ values)
        (ap (λ z. (a ++ xs) ++ z) (append-nil values) ∙ append_assoc a xs values)
        (sym (append-nil _)) refl (omega arith) (omega arith)
        (omega (arith, length-append xs values)) c (omega (arith, length-append xs values)) w,
  )
  fill_linear {r = r} xs values a old (z ∷ b) s o t h p c l w room = (
    record r { storage = (a ++ xs) ++ (values ++ z ∷ b); head = r.head + length values },
    fill_runs-one r values (a ++ xs) old (z ∷ b) (r.head + length values)
        (s ∙ sym (append_assoc a xs (old ++ z ∷ b))) o (omega (arith, length-append a xs))
        (ground arith) (ground arith),
    linear a (z ∷ b) (simp append_assoc) t (omega (arith, length-append xs values)) (omega arith) c
        (omega (arith, length-append xs values)) w,
  )

  -- The block goes round the end of the storage.
  fill_round :
      {cap : ℕ} {r : RingBuffer A} (xs values a b : List A)
      → r.storage ≡ a ++ (xs ++ b)
      → r.tail ≡ length a
      → r.head ≡ length a + length xs
      → 0 < length b
      → r.capacity ≡ suc cap
      → length a + length xs + length b ≡ suc cap
      → suc cap < word
      → length b < length values
      → length xs + length values ≤ cap
      → (r' : RingBuffer A) × (fill_runs r values ≡ some r') × Holds cap r' (xs ++ values)
  unfolding fill_runs
  fill_round {r = r} xs values a b s t h p c l w over room =
      let m : ℕ = r.capacity - r.head in
      let u : List A = take m values in
      let v : List A = drop m values in
      let k : ℕ = length values - m in
      let free : m ≡ length b = omega arith in
      let lu : length b ≡ length u = omega (arith, length-take m values) in
      let lv : length v ≡ k = length-drop m values in
      let la : length (take k a) ≡ length v = omega (arith, length-take k a) in
      let cut : take k a ++ drop k a ≡ a = take-append-drop k a in
      let r1 = record r { storage = (a ++ xs) ++ (u ++ []) } in
      let first : store_run r r.head u ≡ some r1 =
        store_run-append r r.head (a ++ xs) b u []
          (s ∙ sym (append_assoc a xs b) ∙ ap (λ z. (a ++ xs) ++ z) (sym (append-nil b))) lu
          (omega (arith, length-append a xs)) in
      let again : r1.storage ≡ take k a ++ (drop k a ++ (xs ++ u)) =
        ap (λ z. (a ++ xs) ++ z) (append-nil u)
        ∙ append_assoc a xs u
        ∙ ap (λ z. z ++ (xs ++ u)) (sym cut)
        ∙ append_assoc (take k a) (drop k a) (xs ++ u) in
      let second = store_run-append r1 0 [] (take k a) v (drop k a ++ (xs ++ u)) again la refl in
      let long : leb (r.head + length values) r.capacity ≡ false = ground arith in
      (
        record r { storage = v ++ (drop k a ++ (xs ++ u)); head = k },
        rw (long, first, second),
        wrapped v (drop k a) (xs ++ u) refl
            (ap (◌++◌ xs) (sym (take-append-drop m values)) ∙ sym (append_assoc xs u v)) (sym lv)
            (omega (arith, length-drop k a)) (omega (arith, length-drop k a))
            (omega (arith, length-append xs u)) c
            (omega (arith, length-drop k a, length-append xs u)) w,
      )

  -- What the runs of `fillFrom` leave.
  fill_runs-Holds :
      {cap : ℕ} {r : RingBuffer A} {xs : List A} (values : List A)
      → Holds cap r xs
      → length xs + length values ≤ cap
      → (r' : RingBuffer A) × (fill_runs r values ≡ some r') × Holds cap r' (xs ++ values)
  fill_runs-Holds {r = r} {xs = xs} values (linear a b s t h p c l w) room =
      elim (dec_le (length values) (length b)) [
        | yes fits ↦
            let n : ℕ = length values in
            let cut : take n b ++ drop n b ≡ b = take-append-drop n b in
            let new : length (take n b) ≡ n = omega (arith, length-take n b) in
            let left : length (drop n b) ≡ length b - n = length-drop n b in
            fill_linear xs values a (take n b) (drop n b) (s ∙ ap (λ z. a ++ (xs ++ z)) (sym cut))
              new t h (omega arith) c (omega arith) w room
        | no over ↦ fill_round xs values a b s t h p c l w (omega arith) room
      ]
  fill_runs-Holds {r = r} {xs = xs} values (wrapped f g k s e h t p q c l w) room =
      let n : ℕ = length values in
      let total : length xs ≡ length k + length f = ap length e ∙ length-append k f in
      let cut : take n g ++ drop n g ≡ g = take-append-drop n g in
      let new : length (take n g) ≡ n = omega (arith, length-take n g) in
      let left : length (drop n g) ≡ length g - n = length-drop n g in
      (
        record r { storage = f ++ (values ++ (drop n g ++ k)); head = r.head + n },
        fill_runs-one r values f (take n g) (drop n g ++ k) (r.head + n)
            (s
              ∙ ap (λ z. f ++ (z ++ k)) (sym cut)
              ∙ ap (◌++◌ f) (append_assoc (take n g) (drop n g) k))
            new h (ground arith) (ground arith),
        wrapped (f ++ values) (drop n g) k (sym (append_assoc f values (drop n g ++ k)))
            (ap (λ z. z ++ values) e ∙ append_assoc k f values)
            (omega (arith, length-append f values)) (omega (arith, length-append f values))
            (omega arith) q c (omega (arith, length-append f values)) w,
      )

  -- On a buffer that holds a sequence with room for the block, `fillFrom` appends the whole block, and
  -- none of its assertions fires.
  pub fill_from-Holds :
      {cap : ℕ} {r : RingBuffer A} {xs : List A} (values : List A)
      → Holds cap r xs
      → length xs + length values ≤ cap
      → (r' : RingBuffer A) × (fill_from r values ≡ some r') × Holds cap r' (xs ++ values)
  unfolding fill_from
  fill_from-Holds {cap} {r} {xs} values v room =
      let (r', filled, v') = fill_runs-Holds values v room in
      let before : leb (length values) (available_size r) ≡ true =
        le→leb _ _ (omega (arith, available_size-Holds v)) in
      let grown : leb (size r') (size r + length values) ≡ true =
        le→leb _ _ (omega (arith, size-Holds v, size-Holds v', length-append xs values)) in
      let within : leb (size r') (usable_capacity r') ≡ true =
        le→leb _ _ (omega (arith, size-Holds v', usable_capacity-Holds v', length-Holds v')) in
      (r', rw (before, filled, grown, within), v')
