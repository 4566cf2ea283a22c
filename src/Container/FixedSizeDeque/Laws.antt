-- ===== src/Container/FixedSizeDeque/Laws.antt =====
-- The operations of `FixedSizeDeque` on a buffer that holds a known sequence, back first.
use v1util.Common.{
  ℕ, suc, ◌+◌, ◌-◌, ◌<◌, ◌≡◌, refl, sym, ap, ◌∙◌, ◌==◌, false, some, List, [], ◌∷◌, ◌++◌,
  append_assoc, append-nil, length, length-append, arith, unsnoc, snoc-injective,
}
use v1util.Container.RingBuffer.{RingBuffer, full, load}
use v1util.Container.RingBuffer.Holds.{Holds, linear, wrapped, load-append, store-append}
use v1util.Container.RingBuffer.Queue.{not-full, not-empty, peek-Holds, drop-Holds, push-Holds}
use v1util.Container.FixedSizeDeque.{
  before, back, set_back, pop_back, push_back, front, pop_front, push_front,
}

module _ {ℓ} {A : Type ℓ} where
  push_back-store :
      (r : RingBuffer A) (x : A) (a : List A) (y : A) (b : List A) (next : ℕ)
      → full r ≡ false
      → r.storage ≡ a ++ y ∷ b
      → before r r.tail ≡ next
      → next ≡ length a
      → push_back x r ≡ some (record r { storage = a ++ x ∷ b; tail = next })
  unfolding push_back
  push_back-store r x a y b next f s n e = rw (f, n, store-append r next x a y b s e)

  -- `push_back` puts an element before the oldest one, as long as there is room.
  pub push_back-Holds :
      {cap : ℕ} {r : RingBuffer A} {xs : List A} (x : A)
      → Holds cap r xs
      → length xs < cap
      → (r' : RingBuffer A) × (push_back x r ≡ some r') × Holds cap r' (x ∷ xs)
  unfolding before
  push_back-Holds {r = r} {xs = xs} x (linear [] b s t h p c l w) room =
      let (b', y, e) = unsnoc b p in
      let len : length b ≡ suc (length b') =
        omega (arith, ap length e, length-append b' (y ∷ [])) in
      let split : r.storage ≡ (xs ++ b') ++ y ∷ [] =
        s ∙ ap (◌++◌ xs) e ∙ sym (append_assoc xs b' (y ∷ [])) in
      (
        record r { storage = (xs ++ b') ++ x ∷ []; tail = r.capacity - 1 },
        push_back-store r x (xs ++ b') y [] (r.capacity - 1)
            (not-full (linear [] b s t h p c l w) room) split (ground arith)
            (omega (arith, length-append xs b')),
        wrapped xs b' (x ∷ []) (append_assoc xs b' (x ∷ [])) refl (omega arith) (omega arith)
            (omega arith) (omega arith) c (omega arith) w,
      )
  push_back-Holds {r = r} {xs = xs} x (linear (z ∷ a) b s t h p c l w) room =
      let (a', y, e) = unsnoc (z ∷ a) (omega arith) in
      let len : length (z ∷ a) ≡ suc (length a') =
        omega (arith, ap length e, length-append a' (y ∷ [])) in
      (
        record r { storage = a' ++ x ∷ (xs ++ b); tail = r.tail - 1 },
        push_back-store r x a' y (xs ++ b) (r.tail - 1)
            (not-full (linear (z ∷ a) b s t h p c l w) room)
            (s ∙ ap (λ q. q ++ (xs ++ b)) e ∙ append_assoc a' (y ∷ []) (xs ++ b)) (ground arith)
            (omega arith),
        linear a' b refl (omega arith) (omega arith) p c (omega arith) w,
      )
  push_back-Holds {r = r} {xs = xs} x (wrapped f g k s e h t p q c l w) room =
      let (g', y, eg) = unsnoc g p in
      let len : length g ≡ suc (length g') =
        omega (arith, ap length eg, length-append g' (y ∷ [])) in
      let both : length xs ≡ length k + length f = ap length e ∙ length-append k f in
      (
        record r { storage = (f ++ g') ++ x ∷ k; tail = r.tail - 1 },
        push_back-store r x (f ++ g') y k (r.tail - 1)
            (not-full (wrapped f g k s e h t p q c l w) room)
            (s
              ∙ ap (λ z. f ++ (z ++ k)) eg
              ∙ ap (◌++◌ f) (append_assoc g' (y ∷ []) k)
              ∙ sym (append_assoc f g' (y ∷ k)))
            (ground arith) (omega (arith, length-append f g')),
        wrapped f g' (x ∷ k) (append_assoc f g' (x ∷ k)) (ap (◌∷◌ x) e) h (omega arith)
            (omega arith) (omega arith) c (omega arith) w,
      )

  pub back-Holds :
      {cap : ℕ} {r : RingBuffer A} {x : A} {xs : List A} → Holds cap r (x ∷ xs) → back r ≡ some x
  unfolding back
  back-Holds v = peek-Holds v

  pub pop_back-Holds :
      {cap : ℕ} {r : RingBuffer A} {x : A} {xs : List A}
      → Holds cap r (x ∷ xs)
      → (r' : RingBuffer A) × (pop_back r ≡ some r') × Holds cap r' xs
  unfolding pop_back
  pop_back-Holds v = drop-Holds v

  -- A write through `back()` replaces the oldest element.
  pub set_back-Holds :
      {cap : ℕ} {r : RingBuffer A} {y : A} {xs : List A} (x : A)
      → Holds cap r (y ∷ xs)
      → (r' : RingBuffer A) × (set_back x r ≡ some r') × Holds cap r' (x ∷ xs)
  unfolding set_back
  set_back-Holds {r = r} {y = y} {xs = xs} x (linear a b s t h p c l w) = (
    record r { storage = a ++ x ∷ (xs ++ b) },
    rw (not-empty (linear a b s t h p c l w)) (store-append r r.tail x a y (xs ++ b) s t),
    linear a b refl t h p c l w,
  )
  set_back-Holds x (wrapped f g [] s e h t p q c l w) = absurd (omega arith)
  set_back-Holds {r = r} {xs = xs} x (wrapped f g (y ∷ k) s e h t p q c l w) = (
    record r { storage = (f ++ g) ++ x ∷ k },
    rw (not-empty (wrapped f g (y ∷ k) s e h t p q c l w)) (
        store-append r r.tail x (f ++ g) y k (s ∙ sym (append_assoc f g (y ∷ k)))
          (omega (arith, length-append f g))),
    wrapped f g (x ∷ k) (append_assoc f g (x ∷ k)) (cc) h t p q c l w,
  )

  -- The newest element stands just before the head, and moving the head back forgets it.
  retreat_head-Holds :
      {cap : ℕ} {r : RingBuffer A} (xs : List A) (x : A)
      → Holds cap r (xs ++ x ∷ [])
      → (load r (before r r.head) ≡ some x) × Holds cap (record r { head = before r r.head }) xs
  unfolding before
  retreat_head-Holds {r = r} xs x (linear a b s t h p c l w) =
      let longer : length (xs ++ x ∷ []) ≡ suc (length xs) =
        omega (arith, length-append xs (x ∷ [])) in
      let at : before r r.head ≡ r.head - 1 = ground arith in
      let split : r.storage ≡ a ++ (xs ++ x ∷ b) = s ∙ ap (◌++◌ a) (append_assoc xs (x ∷ []) b) in
      (
        load-append r _ (a ++ xs) x b (split ∙ sym (append_assoc a xs (x ∷ b)))
            (omega (arith, length-append a xs)),
        rw at (linear a (x ∷ b) split t (omega arith) (omega arith) c (omega arith) w),
      )
  retreat_head-Holds {r = r} xs x (wrapped [] g k s e h t p q c l w) =
      let whole : k ≡ xs ++ x ∷ [] = sym (append-nil k) ∙ sym e in
      let longer : length k ≡ suc (length xs) =
        ap length whole ∙ omega (arith, length-append xs (x ∷ [])) in
      let at : before r r.head ≡ r.capacity - 1 = ground arith in
      let split : r.storage ≡ g ++ (xs ++ x ∷ []) = s ∙ ap (◌++◌ g) whole in
      (
        load-append r _ (g ++ xs) x [] (split ∙ sym (append_assoc g xs (x ∷ [])))
            (omega (arith, length-append g xs)),
        rw at (linear g (x ∷ []) split (omega arith) (omega arith) (omega arith) c (omega arith) w),
      )
  retreat_head-Holds {r = r} xs x (wrapped (z ∷ f) g k s e h t p q c l w) =
      let (f', y, ef) = unsnoc (z ∷ f) (omega arith) in
      let len : length (z ∷ f) ≡ suc (length f') =
        omega (arith, ap length ef, length-append f' (y ∷ [])) in
      let (same, last) =
        snoc-injective xs (k ++ f') x y (e ∙ ap (◌++◌ k) ef ∙ sym (append_assoc k f' (y ∷ []))) in
      let at : before r r.head ≡ r.head - 1 = ground arith in
      let split : r.storage ≡ f' ++ y ∷ (g ++ k) =
        s ∙ ap (λ q. q ++ (g ++ k)) ef ∙ append_assoc f' (y ∷ []) (g ++ k) in
      (
        load-append r _ f' x (g ++ k) (split ∙ ap (λ v. f' ++ v ∷ (g ++ k)) (sym last))
            (omega arith),
        rw at (
            wrapped f' (y ∷ g) k split same (omega arith) (omega arith) (omega arith) q c
              (omega arith) w),
      )

  not-empty-snoc :
      {cap : ℕ} {r : RingBuffer A} (xs : List A) (x : A)
      → Holds cap r (xs ++ x ∷ [])
      → (r.head == r.tail) ≡ false
  not-empty-snoc [] x v = not-empty v
  not-empty-snoc (y ∷ xs) x v = not-empty v

  pub front-Holds :
      {cap : ℕ} {r : RingBuffer A} (xs : List A) (x : A)
      → Holds cap r (xs ++ x ∷ [])
      → front r ≡ some x
  unfolding front
  front-Holds xs x v = rw (not-empty-snoc xs x v, (retreat_head-Holds xs x v).0)

  pub pop_front-Holds :
      {cap : ℕ} {r : RingBuffer A} (xs : List A) (x : A)
      → Holds cap r (xs ++ x ∷ [])
      → (r' : RingBuffer A) × (pop_front r ≡ some r') × Holds cap r' xs
  unfolding pop_front
  pop_front-Holds {r = r} xs x v = (
    record r { head = before r r.head },
    rw (not-empty-snoc xs x v),
    (retreat_head-Holds xs x v).1,
  )

  pub push_front-Holds :
      {cap : ℕ} {r : RingBuffer A} {xs : List A} (x : A)
      → Holds cap r xs
      → length xs < cap
      → (r' : RingBuffer A) × (push_front x r ≡ some r') × Holds cap r' (xs ++ x ∷ [])
  unfolding push_front
  push_front-Holds x v room = push-Holds x v room
