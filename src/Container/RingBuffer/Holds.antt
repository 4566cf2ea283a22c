-- ===== src/Container/RingBuffer/Holds.antt =====
-- The abstract view of a ring buffer: the sequence that it holds, oldest element first.
use v1util.Common.{
  ℕ, suc, ◌+◌, ◌-◌, ◌≤◌, ◌<◌, ◌≡◌, refl, ap, ◌∙◌, ◌==◌, some, List, [], ◌∷◌, ◌++◌, length,
  length-append, set, get_elem?-append, set-append, replicate, length-replicate, lt→ltb, arith,
}
use v1util.Common.Word.{word, add64, add64_exact, sub64, sub64_exact}
use v1util.Container.RingBuffer.{
  RingBuffer, size, usable_capacity, available_size, full, load, store, set_capacity,
}

-- `r` has room for `cap` elements and holds `xs`: in one stretch, or in two round the end of the
-- storage. At least one place stays free.
pub data Holds {ℓ} {A : Type ℓ} (cap : ℕ) (r : RingBuffer A) (xs : List A) : Type ℓ where
  linear :
      (a b : List A)
      → r.storage ≡ a ++ (xs ++ b)
      → r.tail ≡ length a
      → r.head ≡ length a + length xs
      → 0 < length b
      → r.capacity ≡ suc cap
      → length a + length xs + length b ≡ suc cap
      → suc cap < word
      → Holds cap r xs
  wrapped :
      (front gap back : List A)
      → r.storage ≡ front ++ (gap ++ back)
      → xs ≡ back ++ front
      → r.head ≡ length front
      → r.tail ≡ length front + length gap
      → 0 < length gap
      → 0 < length back
      → r.capacity ≡ suc cap
      → length front + length gap + length back ≡ suc cap
      → suc cap < word
      → Holds cap r xs

module _ {ℓ} {A : Type ℓ} where
  pub length-Holds : {cap : ℕ} {r : RingBuffer A} {xs : List A} → Holds cap r xs → length xs ≤ cap
  length-Holds (linear a b s t h p c l w) = omega arith
  length-Holds (wrapped f g k s e h t p q c l w) = rw e (omega (arith, length-append k f))

  pub size-Holds : {cap : ℕ} {r : RingBuffer A} {xs : List A} → Holds cap r xs → size r ≡ length xs
  unfolding size
  size-Holds {xs = xs} (linear a b s t h p c l w) = ground arith
  size-Holds {xs = xs} (wrapped f g k s e h t p q c l w) = rw e (ground (arith, length-append k f))

  pub usable_capacity-Holds :
      {cap : ℕ} {r : RingBuffer A} {xs : List A} → Holds cap r xs → usable_capacity r ≡ cap
  unfolding usable_capacity sub64
  usable_capacity-Holds (linear a b s t h p c l w) = omega arith
  usable_capacity-Holds (wrapped f g k s e h t p q c l w) = omega arith

  pub Holds-lt : {cap : ℕ} {r : RingBuffer A} {xs : List A} → Holds cap r xs → cap < word
  Holds-lt (linear a b s t h p c l w) = omega arith
  Holds-lt (wrapped f g k s e h t p q c l w) = omega arith

  pub available_size-Holds :
      {cap : ℕ} {r : RingBuffer A} {xs : List A}
      → Holds cap r xs
      → available_size r ≡ cap - length xs
  unfolding available_size
  available_size-Holds {cap} {r} {xs} v =
      rw (size-Holds v, usable_capacity-Holds v)
        (sub64_exact cap (length xs) (omega (arith, Holds-lt v)) (length-Holds v))

  pub full-Holds :
      {cap : ℕ} {r : RingBuffer A} {xs : List A} → Holds cap r xs → full r ≡ (length xs == cap)
  unfolding full
  full-Holds v = rw (size-Holds v, usable_capacity-Holds v)

  -- A buffer just allocated holds nothing.
  pub set_capacity-Holds :
      (fresh : A) (cap : ℕ) → suc cap < word → Holds cap (set_capacity fresh cap) []
  unfolding set_capacity
  set_capacity-Holds fresh cap h =
      let e : add64 cap 1 ≡ suc cap = add64_exact cap 1 (omega arith) ∙ omega arith in
      rw e (
        linear [] (fresh ∷ replicate cap fresh) refl refl refl (omega arith) refl
          (omega (arith, length-replicate cap fresh)) h)

  -- Access at the end of a known prefix of the storage.
  pub load-append :
      (r : RingBuffer A) (i : ℕ) (a : List A) (x : A) (b : List A)
      → r.storage ≡ a ++ x ∷ b
      → i ≡ length a
      → load r i ≡ some x
  unfolding load
  load-append r i a x b s e = rw s (get_elem?-append i a x b e)

  pub store-append :
      (r : RingBuffer A) (i : ℕ) (x : A) (a : List A) (y : A) (b : List A)
      → r.storage ≡ a ++ y ∷ b
      → i ≡ length a
      → store r i x ≡ some (record r { storage = a ++ x ∷ b })
  unfolding store
  store-append r i x a y b s e =
      let bound : i < length r.storage = rw (s, length-append a (y ∷ b)) (omega arith) in
      rw (lt→ltb i (length r.storage) bound)
        (ap (λ t. some (record r { storage = t })) (ap (λ t. set t i x) s ∙ set-append i a y b x e))
