-- ===== src/Container/DequeClient/Refines.antt =====
-- The ring buffer behaves as the bounded sequence that it holds.
use native.Mathlib.Decide.{dec_le}
use v1util.Common.{
  ℕ, suc, ◌+◌, ◌<◌, ◌≤◌, ◌≡◌, refl, sym, ap, ◌∙◌, ◌==◌, leb, le→leb, true, false, Option, none,
  some, List, [], ◌∷◌, ◌++◌, length, take, drop, take-append-drop, length-take, unsnoc, subst,
  ◌>>=◌, arith,
}
use v1util.Common.Word.{word}
use v1util.Container.RingBuffer.{RingBuffer, set_capacity}
use v1util.Container.RingBuffer.Holds.{
  Holds, length-Holds, size-Holds, usable_capacity-Holds, available_size-Holds, full-Holds,
  set_capacity-Holds,
}
use v1util.Container.RingBuffer.Queue.{
  push-Holds, push-full, pop-Holds, pop-nil, get-pop, peek-Holds, drop-Holds, empty-Holds,
}
use v1util.Container.RingBuffer.Bulk.Fill.{fill_from-Holds}
use v1util.Container.RingBuffer.Bulk.Drain.{drain_to-Holds}
use v1util.Container.RingBuffer
use v1util.Container.RingBuffer.Bulk
use v1util.Container.FixedSizeDeque
use v1util.Container.FixedSizeDeque.Laws
use v1util.Container.DequeClient.{
  Call, push, push_back, push_front, set_back, pop, get, peek, drops, back, front, pop_back,
  pop_front, size, available_size, capacity, empty, full, fill_from, drain_to, Reply, done, value,
  values, step, run, room_for, oldest, split_last, spec_step, spec_run,
}

-- Both halt, or both give the same reply and the buffer holds the sequence again.
data Agrees {A : Type 0} (cap : ℕ) (m : Option (Reply A × RingBuffer A))
    (n : Option (Reply A × List A)) : Type 0 where
  halts : m ≡ none → n ≡ none → Agrees cap m n
  goes :
      (a : Reply A) (r : RingBuffer A) (xs : List A)
      → m ≡ some (a, r)
      → n ≡ some (a, xs)
      → Holds cap r xs
      → Agrees cap m n

module _ {A : Type 0} {cap : ℕ} {r : RingBuffer A} {xs : List A} (v : Holds cap r xs) where
  -- The operations that take places: there is room, or the assertion fires.
  takes :
      (n : ℕ) (ys : List A) {m : Option (RingBuffer A)}
      → (length xs + n ≤ cap → (r' : RingBuffer A) × (m ≡ some r') × Holds cap r' ys)
      → (cap < length xs + n → m ≡ none)
      → Agrees cap (m >>= λ s. some (done, s)) (room_for cap n xs ys)
  takes n ys fits fails = elim (dec_le (length xs + n) cap) [
    | yes h ↦
        let (r', e, v') = fits h in goes done r' ys (rw e) (rw (le→leb (length xs + n) cap h)) v'
    | no h ↦
        let over : leb (length xs + n) cap ≡ false = ground arith in
        halts (rw (fails (omega arith))) (rw over)
  ]

  push-fails : (x : A) → cap < length xs + 1 → RingBuffer.push x r ≡ none
  push-fails x h = push-full x v (omega (arith, length-Holds v))

  fill_from-fails : (vs : List A) → cap < length xs + length vs → Bulk.fill_from r vs ≡ none
  unfolding Bulk.fill_from
  fill_from-fails vs h =
      let over : leb (length vs) (RingBuffer.available_size r) ≡ false =
        ground (arith, available_size-Holds v, length-Holds v) in
      rw over

  push_back-fails : (x : A) → cap < length xs + 1 → FixedSizeDeque.push_back x r ≡ none
  unfolding FixedSizeDeque.push_back
  push_back-fails x h =
      let is_full : RingBuffer.full r ≡ true = full-Holds v ∙ ground (arith, length-Holds v) in
      rw is_full

-- The last element and what stands before it.
split_last-snoc : {A : Type 0} (ys : List A) (y : A) → split_last (ys ++ y ∷ []) ≡ some (ys, y)
split_last-snoc [] y = refl
split_last-snoc (x ∷ ys) y = rw (split_last-snoc ys y, split_last)

module _ {A : Type 0} {cap : ℕ} {r : RingBuffer A} where
  -- The operations on the oldest element.
  takes_oldest :
      (xs : List A) (k : A → List A → Reply A × List A) {m : Option (Reply A × RingBuffer A)}
      → Holds cap r xs
      → (Holds cap r [] → m ≡ none)
      → ((x : A) (rest : List A)
          → Holds cap r (x ∷ rest)
          → (r' : RingBuffer A) × (m ≡ some ((k x rest).0, r')) × Holds cap r' (k x rest).1)
      → Agrees cap m (oldest k xs)
  takes_oldest [] k v none_left some_left = halts (none_left v) refl
  takes_oldest (x ∷ rest) k v none_left some_left =
      let (r', e, v') = some_left x rest v in goes _ r' _ e refl v'

  takes_newest :
      (xs : List A) (k : List A → A → Reply A × List A) {m : Option (Reply A × RingBuffer A)}
      → Holds cap r xs
      → (Holds cap r [] → m ≡ none)
      → ((ys : List A) (y : A)
          → Holds cap r (ys ++ y ∷ [])
          → (r' : RingBuffer A) × (m ≡ some ((k ys y).0, r')) × Holds cap r' (k ys y).1)
      → Agrees cap m (split_last xs >>= λ p. some (k p.0 p.1))
  takes_newest [] k v none_left some_left = halts (none_left v) refl
  takes_newest (x ∷ rest) k v none_left some_left =
      let (ys, y, e) = unsnoc (x ∷ rest) (omega arith) in
      let (r', m, v') = some_left ys y (subst (Holds cap r) e v) in
      goes _ r' _ m (ap (λ z. split_last z >>= λ p. some (k p.0 p.1)) e ∙ rw (split_last-snoc ys y))
        v'

  ends_meet : Holds cap r [] → (r.head == r.tail) ≡ true
  unfolding RingBuffer.empty
  ends_meet v = empty-Holds [] v

  set_back-nil : (y : A) → Holds cap r [] → FixedSizeDeque.set_back y r ≡ none
  unfolding FixedSizeDeque.set_back
  set_back-nil y v = rw (ends_meet v)

  newest-nil :
      Holds cap r [] → (FixedSizeDeque.front r ≡ none) × (FixedSizeDeque.pop_front r ≡ none)
  unfolding FixedSizeDeque.front FixedSizeDeque.pop_front
  newest-nil v = (rw (ends_meet v), rw (ends_meet v))

  front-Agrees : (xs : List A) → Holds cap r xs → Agrees cap (step front r) (spec_step cap front xs)
  unfolding step spec_step
  front-Agrees [] v = halts (rw ((newest-nil v).0)) refl
  front-Agrees (x ∷ rest) v =
      let (ys, y, e) = unsnoc (x ∷ rest) (omega arith) in
      goes (value y) r (x ∷ rest) (rw (Laws.front-Holds ys y (subst (Holds cap r) e v)))
        (ap (λ z. split_last z >>= λ p. some (value p.1, x ∷ rest)) e ∙ rw (split_last-snoc ys y)) v

  drain_to-fails : (n : ℕ) {xs : List A} → Holds cap r xs → length xs < n → Bulk.drain_to r n ≡ none
  unfolding Bulk.drain_to
  drain_to-fails n {xs} v h =
      let few : leb n (RingBuffer.size r) ≡ false = ground (arith, size-Holds v) in rw few

  drain_to-Agrees :
      (n : ℕ) (xs : List A)
      → Holds cap r xs
      → Agrees cap (step (drain_to n) r) (spec_step cap (drain_to n) xs)
  unfolding step spec_step
  drain_to-Agrees n xs v = elim (dec_le n (length xs)) [
    | yes h ↦
        let whole : take n xs ++ drop n xs ≡ xs = take-append-drop n xs in
        let len : length (take n xs) ≡ n = omega (arith, length-take n xs) in
        let (r', e, v') =
          drain_to-Holds (take n xs) (drop n xs) (subst (Holds cap r) (sym whole) v) in
        goes (values (take n xs)) r' (drop n xs)
          (rw (subst (λ k. Bulk.drain_to r k ≡ some (take n xs, r')) len e))
          (rw (le→leb n (length xs) h)) v'
    | no h ↦
        let few : leb n (length xs) ≡ false = ground arith in
        halts (rw (drain_to-fails n v (omega arith))) (rw few)
  ]

  -- Each call agrees with the same call on the sequence.
  step-Agrees :
      (c : Call A) (xs : List A) → Holds cap r xs → Agrees cap (step c r) (spec_step cap c xs)
  unfolding step spec_step FixedSizeDeque.push_front FixedSizeDeque.back FixedSizeDeque.pop_back
  step-Agrees (push x) xs v = takes v 1 _ (λ h. push-Holds x v (omega arith)) (push-fails v x)
  step-Agrees (push_back x) xs v =
      takes v 1 _ (λ h. Laws.push_back-Holds x v (omega arith)) (push_back-fails v x)
  step-Agrees (push_front x) xs v = takes v 1 _ (λ h. push-Holds x v (omega arith)) (push-fails v x)
  step-Agrees (fill_from vs) xs v =
      takes v (length vs) _ (λ h. fill_from-Holds vs v h) (fill_from-fails v vs)
  step-Agrees (drain_to n) xs v = drain_to-Agrees n xs v
  step-Agrees size xs v = goes _ r xs refl (rw (size-Holds v)) v
  step-Agrees available_size xs v = goes _ r xs refl (rw (available_size-Holds v)) v
  step-Agrees capacity xs v = goes _ r xs refl (rw (usable_capacity-Holds v)) v
  step-Agrees empty xs v = goes _ r xs refl (rw (empty-Holds xs v)) v
  step-Agrees full xs v = goes _ r xs refl (rw (full-Holds v)) v
  step-Agrees pop xs v =
      takes_oldest xs _ v (λ z. rw ((pop-nil z).0))
        (λ x rest z. let (r', e, v') = pop-Holds z in (r', rw e, v'))
  step-Agrees get xs v =
      takes_oldest xs _ v (λ z. rw ((pop-nil z).1))
        (λ x rest z. let (r', e, v') = pop-Holds z in (r', rw (get-pop z, e), v'))
  step-Agrees peek xs v =
      takes_oldest xs _ v (λ z. rw ((pop-nil z).2)) (λ x rest z. (r, rw (peek-Holds z), z))
  step-Agrees back xs v =
      takes_oldest xs _ v (λ z. rw ((pop-nil z).2)) (λ x rest z. (r, rw (peek-Holds z), z))
  step-Agrees drops xs v =
      takes_oldest xs _ v (λ z. rw ((pop-nil z).3))
        (λ x rest z. let (r', e, v') = drop-Holds z in (r', rw e, v'))
  step-Agrees pop_back xs v =
      takes_oldest xs _ v (λ z. rw ((pop-nil z).3))
        (λ x rest z. let (r', e, v') = drop-Holds z in (r', rw e, v'))
  step-Agrees (set_back y) xs v =
      takes_oldest xs _ v (λ z. rw (set_back-nil y z))
        (λ x rest z. let (r', e, v') = Laws.set_back-Holds y z in (r', rw e, v'))
  step-Agrees front xs v = front-Agrees xs v
  step-Agrees pop_front xs v =
      takes_newest xs (λ ys y. (done, ys)) v (λ z. rw ((newest-nil z).1))
        (λ ys y z. let (r', e, v') = Laws.pop_front-Holds ys y z in (r', rw e, v'))

-- A buffer that holds a sequence gives to every program of calls, at either end or in blocks, the
-- replies of the bounded sequence, and halts at the same call if at all.
pub run-refines :
    {A : Type 0} {cap : ℕ} (cs : List (Call A)) {r : RingBuffer A} {xs : List A}
    → Holds cap r xs
    → run cs r ≡ spec_run cap cs xs
unfolding run spec_run
run-refines [] v = refl
run-refines {cap = cap} (c ∷ cs) {r = r} {xs = xs} v = elim (step-Agrees c xs v) [
  | halts e f ↦ rw (e, f, run, spec_run)
  | goes a r' ys e f v' ↦ rw (e, f, run, spec_run) (ap (◌∷◌ a) (run-refines cs v'))
]

-- For a capacity below 2 ^ 64 - 1: every program on the buffer that `setCapacity` makes gets the
-- replies of the bounded sequence that starts empty.
pub run-set_capacity-refines :
    {A : Type 0} (fresh : A) (cap : ℕ) (cs : List (Call A))
    → suc cap < word
    → run cs (set_capacity fresh cap) ≡ spec_run cap cs []
run-set_capacity-refines fresh cap cs h = run-refines cs (set_capacity-Holds fresh cap h)
