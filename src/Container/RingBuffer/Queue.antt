-- ===== src/Container/RingBuffer/Queue.antt =====
-- The single-element operations of `ChunkedRingBuffer` on a buffer that holds a known sequence.
use v1util.Common.{
  ℕ, suc, ◌+◌, ◌<◌, ◌≡◌, refl, sym, ap, ◌∙◌, ◌==◌, true, false, none, some, List, [], ◌∷◌, ◌++◌,
  append_assoc, append-nil, length, length-append, is_nil, if◌then◌else◌, leb, arith,
}
use v1util.Container.RingBuffer.{
  RingBuffer, empty, full, load, push, pop, get, peek, peek_ptr, drop,
}
use v1util.Container.RingBuffer.Holds.{
  Holds, linear, wrapped, full-Holds, load-append, store-append,
}

module _ {ℓ} {A : Type ℓ} where
  pub not-full :
      {cap : ℕ} {r : RingBuffer A} {xs : List A} → Holds cap r xs → length xs < cap → full r ≡ false
  not-full {cap} {r} {xs} v h = full-Holds v ∙ ground arith

  -- `push` where the storage is known.
  push-store :
      (r : RingBuffer A) (x : A) (a : List A) (y : A) (b : List A) (next : ℕ)
      → full r ≡ false
      → r.storage ≡ a ++ y ∷ b
      → r.head ≡ length a
      → (if r.head + 1 == r.capacity then 0 else r.head + 1) ≡ next
      → push x r ≡ some (record r { storage = a ++ x ∷ b; head = next })
  unfolding push
  push-store r x a y b next f s e n = rw (f, store-append r r.head x a y b s e, n)

  -- `push` appends to what the buffer holds, as long as there is room.
  pub push-Holds :
      {cap : ℕ} {r : RingBuffer A} {xs : List A} (x : A)
      → Holds cap r xs
      → length xs < cap
      → (r' : RingBuffer A) × (push x r ≡ some r') × Holds cap r' (xs ++ x ∷ [])
  push-Holds x (linear a [] s t h p c l w) room = absurd (omega arith)
  push-Holds {r = r} {xs = xs} x (linear a (y ∷ []) s t h p c l w) room =
      let longer : length (xs ++ x ∷ []) ≡ suc (length xs) =
        omega (arith, length-append xs (x ∷ [])) in
      (
        record r { storage = (a ++ xs) ++ x ∷ []; head = 0 },
        push-store r x (a ++ xs) y [] 0 (not-full (linear a (y ∷ []) s t h p c l w) room)
            (s ∙ sym (append_assoc a xs (y ∷ []))) (omega (arith, length-append a xs))
            (ground arith),
        wrapped [] a (xs ++ x ∷ []) (append_assoc a xs (x ∷ [])) (sym (append-nil _)) refl
            (t ∙ omega arith) (omega arith) (omega arith) c (omega arith) w,
      )
  push-Holds {r = r} {xs = xs} x (linear a (y ∷ z ∷ b) s t h p c l w) room =
      let longer : length (xs ++ x ∷ []) ≡ suc (length xs) =
        omega (arith, length-append xs (x ∷ [])) in
      (
        record r { storage = (a ++ xs) ++ x ∷ z ∷ b; head = r.head + 1 },
        push-store r x (a ++ xs) y (z ∷ b) (r.head + 1)
            (not-full (linear a (y ∷ z ∷ b) s t h p c l w) room)
            (s ∙ sym (append_assoc a xs (y ∷ z ∷ b))) (omega (arith, length-append a xs))
            (ground arith),
        linear a (z ∷ b) (simp append_assoc) t (omega arith) (omega arith) c (omega arith) w,
      )
  push-Holds x (wrapped f [] k s e h t p q c l w) room = absurd (omega arith)
  push-Holds {r = r} x (wrapped f (y ∷ g) k s e h t p q c l w) room =
      let longer : length (f ++ x ∷ []) ≡ suc (length f) =
        omega (arith, length-append f (x ∷ [])) in
      (
        record r { storage = f ++ x ∷ (g ++ k); head = r.head + 1 },
        push-store r x f y (g ++ k) (r.head + 1)
            (not-full (wrapped f (y ∷ g) k s e h t p q c l w) room) s h (ground arith),
        wrapped (f ++ x ∷ []) g k (sym (append_assoc f (x ∷ []) (g ++ k)))
            (ap (λ z. z ++ x ∷ []) e ∙ append_assoc k f (x ∷ [])) (omega arith) (omega arith)
            (omega (arith, ap length e, length-append k f)) q c (omega arith) w,
      )

  -- The oldest element stands at the tail, and the two offsets differ.
  pub load_tail-Holds :
      {cap : ℕ} {r : RingBuffer A} {x : A} {xs : List A}
      → Holds cap r (x ∷ xs)
      → load r r.tail ≡ some x
  load_tail-Holds {r = r} {x = x} {xs = xs} (linear a b s t h p c l w) =
      load-append r r.tail a x (xs ++ b) s t
  load_tail-Holds {r = r} (wrapped f g [] s e h t p q c l w) = absurd (omega arith)
  load_tail-Holds {r = r} {x = x} (wrapped f g (y ∷ k) s e h t p q c l w) =
      load-append r r.tail (f ++ g) y k (s ∙ sym (append_assoc f g (y ∷ k)))
        (omega (arith, length-append f g))
      ∙ cc

  -- Moving the tail on by one, with either of the two end tests of the source, forgets the oldest.
  pub advance_tail-Holds :
      {cap : ℕ} {r : RingBuffer A} {x : A} {xs : List A} (next : ℕ)
      → Holds cap r (x ∷ xs)
      → (if leb r.capacity (r.tail + 1) then 0 else r.tail + 1) ≡ next
      → Holds cap (record r { tail = next }) xs
  advance_tail-Holds {x = x} {xs = xs} next (linear a b s t h p c l w) n =
      let longer : length (a ++ x ∷ []) ≡ suc (length a) =
        omega (arith, length-append a (x ∷ [])) in
      linear (a ++ x ∷ []) b (s ∙ sym (append_assoc a (x ∷ []) (xs ++ b))) (ground arith)
        (omega arith) p c (omega arith) w
  advance_tail-Holds next (wrapped f g [] s e h t p q c l w) n = absurd (omega arith)
  advance_tail-Holds {x = x} {xs = xs} next (wrapped f g (y ∷ []) s e h t p q c l w) n =
      let rest : xs ≡ f = cc in
      let longer : length (g ++ y ∷ []) ≡ suc (length g) =
        omega (arith, length-append g (y ∷ [])) in
      let same : length xs ≡ length f = ap length rest in
      linear [] (g ++ y ∷ []) (s ∙ ap (λ z. z ++ (g ++ y ∷ [])) (sym rest)) (ground arith)
        (omega arith) (omega arith) c (omega arith) w
  advance_tail-Holds {x = x} {xs = xs} next (wrapped f g (y ∷ z ∷ k) s e h t p q c l w) n =
      let longer : length (g ++ y ∷ []) ≡ suc (length g) =
        omega (arith, length-append g (y ∷ [])) in
      wrapped f (g ++ y ∷ []) (z ∷ k) (s ∙ ap (◌++◌ f) (sym (append_assoc g (y ∷ []) (z ∷ k)))) (cc)
        h (ground arith) (omega arith) (omega arith) c (omega arith) w

  pub tail-lt : {cap : ℕ} {r : RingBuffer A} {xs : List A} → Holds cap r xs → r.tail < r.capacity
  tail-lt (linear a b s t h p c l w) = omega arith
  tail-lt (wrapped f g k s e h t p q c l w) = omega arith

  -- The two end tests of the source agree at a tail in range.
  same_end :
      {cap : ℕ} {r : RingBuffer A} {xs : List A}
      → Holds cap r xs
      → (if leb r.capacity (r.tail + 1) then 0 else r.tail + 1)
        ≡ (if r.tail + 1 == r.capacity then 0 else r.tail + 1)
  same_end v = ground (arith, tail-lt v)

  pub not-empty :
      {cap : ℕ} {r : RingBuffer A} {x : A} {xs : List A}
      → Holds cap r (x ∷ xs)
      → (r.head == r.tail) ≡ false
  not-empty (linear a b s t h p c l w) = ground arith
  not-empty (wrapped f g k s e h t p q c l w) = ground arith

  pub empty-Holds :
      {cap : ℕ} {r : RingBuffer A} (xs : List A) → Holds cap r xs → empty r ≡ is_nil xs
  unfolding empty
  empty-Holds (x ∷ xs) v = not-empty v
  empty-Holds [] (linear a b s t h p c l w) = ground arith
  empty-Holds [] (wrapped f g [] s e h t p q c l w) = absurd (omega arith)
  empty-Holds [] (wrapped f g (y ∷ k) s e h t p q c l w) = absurd (cc)

  pub peek-Holds :
      {cap : ℕ} {r : RingBuffer A} {x : A} {xs : List A} → Holds cap r (x ∷ xs) → peek r ≡ some x
  unfolding peek
  peek-Holds v = rw (not-empty v, load_tail-Holds v)

  -- `pop` takes the oldest element.
  pub pop-Holds :
      {cap : ℕ} {r : RingBuffer A} {x : A} {xs : List A}
      → Holds cap r (x ∷ xs)
      → (r' : RingBuffer A) × (pop r ≡ some (x, r')) × Holds cap r' xs
  unfolding pop
  pop-Holds {cap} {r} v =
      let next = if r.tail + 1 == r.capacity then 0 else r.tail + 1 in
      (
        record r { tail = next },
        rw (not-empty v, load_tail-Holds v),
        advance_tail-Holds next v (same_end v),
      )

  pub drop-Holds :
      {cap : ℕ} {r : RingBuffer A} {x : A} {xs : List A}
      → Holds cap r (x ∷ xs)
      → (r' : RingBuffer A) × (drop r ≡ some r') × Holds cap r' xs
  unfolding drop
  drop-Holds {r = r} v =
      let next = if leb r.capacity (r.tail + 1) then 0 else r.tail + 1 in
      (record r { tail = next }, rw (not-empty v), advance_tail-Holds next v refl)

  -- `get` does what `pop` does; it only tests for the end of the storage in another way.
  pub get-pop : {cap : ℕ} {r : RingBuffer A} {xs : List A} → Holds cap r xs → get r ≡ pop r
  unfolding get pop
  get-pop v = rw (same_end v)

  -- What is refused: a full buffer by `push`, an empty one by `pop`, `get`, `peek` and `drop`.
  pub push-full :
      {cap : ℕ} {r : RingBuffer A} {xs : List A} (x : A)
      → Holds cap r xs
      → length xs ≡ cap
      → push x r ≡ none
  unfolding push
  push-full {cap} {r} {xs} x v e =
      let is_full : full r ≡ true = full-Holds v ∙ ground arith in rw is_full

  pub pop-nil :
      {cap : ℕ} {r : RingBuffer A}
      → Holds cap r []
      → (pop r ≡ none) × (get r ≡ none) × (peek r ≡ none) × (drop r ≡ none) × (peek_ptr r ≡ none)
  unfolding pop get peek drop peek_ptr empty
  pop-nil {r = r} v =
      let e : (r.head == r.tail) ≡ true = empty-Holds [] v in (rw e, rw e, rw e, rw e, rw e)
