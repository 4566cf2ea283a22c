-- ===== src/Container/RingBuffer/Bulk/Drain.antt =====
-- `drainTo` on a buffer that holds a known sequence.
use v1util.Common.{
  ℕ, suc, ◌+◌, ◌-◌, ◌<◌, ◌≡◌, refl, sym, subst, ap, ◌∙◌, ◌==◌, some, List, [], ◌∷◌, ◌++◌,
  append_assoc, append-nil, length, length-append, append-split, true, false, if◌then◌else◌, leb,
  le→leb, arith,
}
use native.Mathlib.Decide.{dec_le}
use v1util.Common.Word.{word, sub64, sub64_exact}
use v1util.Container.RingBuffer.{RingBuffer, size, usable_capacity, load_run}
use v1util.Container.RingBuffer.Holds.{
  Holds, linear, wrapped, length-Holds, Holds-lt, size-Holds, usable_capacity-Holds,
}
use v1util.Container.RingBuffer.Bulk.{drain_runs, drain_to}
use v1util.Container.RingBuffer.Bulk.Runs.{load_run-append}

module _ {ℓ} {A : Type ℓ} where
  -- `drainTo` where the elements stand in one stretch.
  drain_runs-one :
      (r : RingBuffer A) (a ys b : List A) (next : ℕ)
      → r.storage ≡ a ++ (ys ++ b)
      → r.tail ≡ length a
      → leb (r.tail + length ys) r.capacity ≡ true
      → (if r.tail + length ys == r.capacity then 0 else r.tail + length ys) ≡ next
      → drain_runs r (length ys) ≡ some (ys, record r { tail = next })
  unfolding drain_runs
  drain_runs-one r a ys b next s t fits n = rw (fits, load_run-append r r.tail a ys b s t, n)

  -- They stand in two stretches, and the first is used up.
  drain_round :
      {cap : ℕ} {r : RingBuffer A} (zs front1 gap k : List A)
      → r.storage ≡ (front1 ++ zs) ++ (gap ++ k)
      → r.head ≡ length (front1 ++ zs)
      → r.tail ≡ length (front1 ++ zs) + length gap
      → 0 < length gap
      → 0 < length front1
      → r.capacity ≡ suc cap
      → length (front1 ++ zs) + length gap + length k ≡ suc cap
      → suc cap < word
      → (r' : RingBuffer A) × (drain_runs r (length (k ++ front1)) ≡ some (k ++ front1, r'))
        × Holds cap r' zs
  unfolding drain_runs
  drain_round {r = r} zs f g k s h t p q c l w =
      let both : length (k ++ f) ≡ length k + length f = length-append k f in
      let whole : length (f ++ zs) ≡ length f + length zs = length-append f zs in
      let from_end : r.capacity - r.tail ≡ length k = omega arith in
      let rest : length (k ++ f) - (r.capacity - r.tail) ≡ length f = omega arith in
      let first : load_run r r.tail (length k) ≡ some k =
        load_run-append r r.tail ((f ++ zs) ++ g) k []
          (s
            ∙ sym (append_assoc (f ++ zs) g k)
            ∙ ap (λ z. ((f ++ zs) ++ g) ++ z) (sym (append-nil k)))
          (omega (arith, length-append (f ++ zs) g)) in
      let second : load_run r 0 (length f) ≡ some f =
        load_run-append r 0 [] f (zs ++ (g ++ k)) (s ∙ append_assoc f zs (g ++ k)) refl in
      let long : leb (r.tail + length (k ++ f)) r.capacity ≡ false = ground arith in
      (
        record r { tail = length f },
        rw (long, rest, from_end, first, second),
        linear f (g ++ k) (s ∙ append_assoc f zs (g ++ k)) refl (omega arith)
            (omega (arith, length-append g k)) c (omega (arith, length-append g k)) w,
      )

  -- The last element of the first stretch leaves with the block, or some of it stays.
  drain_wrapped :
      {cap : ℕ} {r : RingBuffer A} (ys zs front gap m : List A)
      → r.storage ≡ front ++ (gap ++ (ys ++ m))
      → zs ≡ m ++ front
      → r.head ≡ length front
      → r.tail ≡ length front + length gap
      → 0 < length gap
      → r.capacity ≡ suc cap
      → length front + length gap + length (ys ++ m) ≡ suc cap
      → suc cap < word
      → (r' : RingBuffer A) × (drain_runs r (length ys) ≡ some (ys, r')) × Holds cap r' zs
  drain_wrapped {r = r} ys zs f g [] s e h t p c l w =
      let len : length (ys ++ []) ≡ length ys = omega (arith, length-append ys []) in
      (
        record r { tail = 0 },
        drain_runs-one r (f ++ g) ys [] 0 (s ∙ sym (append_assoc f g (ys ++ [])))
            (omega (arith, length-append f g)) (ground arith) (ground arith),
        linear [] (g ++ ys)
            (s ∙ ap (λ z. f ++ (g ++ z)) (append-nil ys) ∙ ap (λ z. z ++ (g ++ ys)) (sym e)) refl
            (omega (arith, ap length e)) (omega (arith, length-append g ys)) c
            (omega (arith, length-append g ys, ap length e)) w,
      )
  drain_wrapped {r = r} ys zs f g (x ∷ m) s e h t p c l w =
      let len : length (ys ++ x ∷ m) ≡ length ys + suc (length m) = length-append ys (x ∷ m) in
      (
        record r { tail = r.tail + length ys },
        drain_runs-one r (f ++ g) ys (x ∷ m) (r.tail + length ys)
            (s ∙ sym (append_assoc f g (ys ++ x ∷ m))) (omega (arith, length-append f g))
            (ground arith) (ground arith),
        wrapped f (g ++ ys) (x ∷ m) (s ∙ ap (◌++◌ f) (sym (append_assoc g ys (x ∷ m)))) e h
            (omega (arith, length-append g ys)) (omega (arith, length-append g ys)) (omega arith) c
            (omega (arith, length-append g ys)) w,
      )

  drain_runs-Holds :
      {cap : ℕ} {r : RingBuffer A} (ys zs : List A)
      → Holds cap r (ys ++ zs)
      → (r' : RingBuffer A) × (drain_runs r (length ys) ≡ some (ys, r')) × Holds cap r' zs
  drain_runs-Holds {r = r} ys zs (linear a b s t h p c l w) =
      let both : length (ys ++ zs) ≡ length ys + length zs = length-append ys zs in
      let split : r.storage ≡ a ++ (ys ++ (zs ++ b)) = s ∙ ap (◌++◌ a) (append_assoc ys zs b) in
      (
        record r { tail = r.tail + length ys },
        drain_runs-one r a ys (zs ++ b) (r.tail + length ys) split t (ground arith) (ground arith),
        linear (a ++ ys) b (split ∙ sym (append_assoc a ys (zs ++ b)))
            (omega (arith, length-append a ys)) (omega (arith, length-append a ys)) p c
            (omega (arith, length-append a ys)) w,
      )
  drain_runs-Holds {cap = cap} {r = r} ys zs (wrapped f g k s e h t p q c l w) =
      elim (dec_le (length ys) (length k)) [
        | yes short ↦
            let (m, ek, ez) = append-split ys zs k f e short in
            drain_wrapped ys zs f g m (s ∙ ap (λ z. f ++ (g ++ z)) ek) ez h t p c
              (omega (arith, ap length ek)) w
        | no over ↦
            let (m, ey, ef) = append-split k f ys zs (sym e) (omega arith) in
            let more : length ys ≡ length k + length m = ap length ey ∙ length-append k m in
            let lf : length f ≡ length m + length zs = ap length ef ∙ length-append m zs in
            subst
              (λ y.
                (r' : RingBuffer A) × (drain_runs r (length y) ≡ some (y, r')) × Holds cap r' zs)
              (sym ey)
              (drain_round zs m g k (s ∙ ap (λ z. z ++ (g ++ k)) ef) (h ∙ ap length ef)
                (omega (arith, ap length ef)) p (omega arith) c (omega (arith, ap length ef)) w)
      ]

  -- On a buffer that holds at least as many elements as the target has places, `drainTo` hands out the
  -- oldest ones in their order, keeps the others, and none of its assertions fires.
  pub drain_to-Holds :
      {cap : ℕ} {r : RingBuffer A} (ys zs : List A)
      → Holds cap r (ys ++ zs)
      → (r' : RingBuffer A) × (drain_to r (length ys) ≡ some (ys, r')) × Holds cap r' zs
  unfolding drain_to
  drain_to-Holds {cap} {r} ys zs v =
      let (r', drained, v') = drain_runs-Holds ys zs v in
      let total : size r ≡ length ys + length zs = size-Holds v ∙ length-append ys zs in
      let before : leb (length ys) (size r) ≡ true = le→leb _ _ (omega arith) in
      let small : size r < word = omega (arith, Holds-lt v, size-Holds v, length-Holds v) in
      let shrunk : leb (sub64 (size r) (length ys)) (size r') ≡ true =
        le→leb _ _
          (omega (arith, sub64_exact (size r) (length ys) small (omega arith), size-Holds v')) in
      let within : leb (size r') (usable_capacity r') ≡ true =
        le→leb _ _ (omega (arith, size-Holds v', usable_capacity-Holds v', length-Holds v')) in
      (r', rw (before, drained, shrunk, within), v')
