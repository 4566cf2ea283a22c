-- ===== src/Container/DequeClient.antt =====
-- A client of `FixedSizeDeque` and of the `ChunkedRingBuffer` that it extends (container/ringbuffer.hpp):
-- the calls it can make, what each returns, and the same calls on a plain bounded sequence.
pub mod Refines
pub mod Tests
use v1util.Common.{
  ℕ, ◌+◌, ◌-◌, leb, ◌==◌, if◌then◌else◌, Bool, Option, none, some, List, [], ◌∷◌, ◌++◌, length,
  is_nil, take, drop, ◌>>=◌,
}
use v1util.Container.RingBuffer.{RingBuffer}
use v1util.Container.RingBuffer
use v1util.Container.RingBuffer.Bulk
use v1util.Container.FixedSizeDeque

pub data Call (A : Type 0) : Type 0 where
  push push_back push_front set_back : A → Call A
  pop get peek drops back front pop_back pop_front size available_size capacity empty full : Call A
  fill_from : List A → Call A
  drain_to : ℕ → Call A

pub data Reply (A : Type 0) : Type 0 where
  done : Reply A
  value : A → Reply A
  values : List A → Reply A
  number : ℕ → Reply A
  test : Bool → Reply A
  -- An assertion fired: the program halts.
  halt : Reply A

module _ {A : Type 0} where
  abbrev finish : {S : Type 0} → Option S → Option (Reply A × S)
  finish m = m >>= λ s. some (done, s)

  abbrev answer : {S : Type 0} → S → Option A → Option (Reply A × S)
  answer s m = m >>= λ x. some (value x, s)

  unfoldable pub step : Call A → RingBuffer A → Option (Reply A × RingBuffer A)
  step (push x) r = finish (RingBuffer.push x r)
  step (push_back x) r = finish (FixedSizeDeque.push_back x r)
  step (push_front x) r = finish (FixedSizeDeque.push_front x r)
  step (set_back x) r = finish (FixedSizeDeque.set_back x r)
  step pop r = RingBuffer.pop r >>= λ p. some (value p.0, p.1)
  step get r = RingBuffer.get r >>= λ p. some (value p.0, p.1)
  step peek r = answer r (RingBuffer.peek r)
  step drops r = finish (RingBuffer.drop r)
  step back r = answer r (FixedSizeDeque.back r)
  step front r = answer r (FixedSizeDeque.front r)
  step pop_back r = finish (FixedSizeDeque.pop_back r)
  step pop_front r = finish (FixedSizeDeque.pop_front r)
  step size r = some (number (RingBuffer.size r), r)
  step available_size r = some (number (RingBuffer.available_size r), r)
  step capacity r = some (number (RingBuffer.usable_capacity r), r)
  step empty r = some (test (RingBuffer.empty r), r)
  step full r = some (test (RingBuffer.full r), r)
  step (fill_from xs) r = finish (Bulk.fill_from r xs)
  step (drain_to n) r = Bulk.drain_to r n >>= λ p. some (values p.0, p.1)

  -- What the calls come to once a client's program runs: the replies, up to a halt.
  unfoldable pub run : List (Call A) → RingBuffer A → List (Reply A)
  run [] r = []
  run (c ∷ cs) r = elim (step c r) [ none ↦ halt ∷ [] | some (a, r') ↦ a ∷ run cs r' ]

  -- The bounded sequence, oldest element first.
  abbrev pub room_for : ℕ → ℕ → List A → List A → Option (Reply A × List A)
  room_for cap n xs ys = if leb (length xs + n) cap then some (done, ys) else none

  abbrev pub oldest : (A → List A → Reply A × List A) → List A → Option (Reply A × List A)
  oldest k [] = none
  oldest k (x ∷ xs) = some (k x xs)

  abbrev pub split_last : List A → Option (List A × A)
  split_last [] = none
  split_last (x ∷ xs) = elim (split_last xs) [
    | none ↦ some ([], x)
    | some (ys, y) ↦ some (x ∷ ys, y)
  ]

  unfoldable pub spec_step : ℕ → Call A → List A → Option (Reply A × List A)
  spec_step cap (push x) xs = room_for cap 1 xs (xs ++ x ∷ [])
  spec_step cap (push_back x) xs = room_for cap 1 xs (x ∷ xs)
  spec_step cap (push_front x) xs = room_for cap 1 xs (xs ++ x ∷ [])
  spec_step cap (set_back x) xs = oldest (λ y ys. (done, x ∷ ys)) xs
  spec_step cap pop xs = oldest (λ y ys. (value y, ys)) xs
  spec_step cap get xs = oldest (λ y ys. (value y, ys)) xs
  spec_step cap peek xs = oldest (λ y ys. (value y, y ∷ ys)) xs
  spec_step cap drops xs = oldest (λ y ys. (done, ys)) xs
  spec_step cap back xs = oldest (λ y ys. (value y, y ∷ ys)) xs
  spec_step cap front xs = split_last xs >>= λ p. some (value p.1, xs)
  spec_step cap pop_back xs = oldest (λ y ys. (done, ys)) xs
  spec_step cap pop_front xs = split_last xs >>= λ p. some (done, p.0)
  spec_step cap size xs = some (number (length xs), xs)
  spec_step cap available_size xs = some (number (cap - length xs), xs)
  spec_step cap capacity xs = some (number cap, xs)
  spec_step cap empty xs = some (test (is_nil xs), xs)
  spec_step cap full xs = some (test (length xs == cap), xs)
  spec_step cap (fill_from vs) xs = room_for cap (length vs) xs (xs ++ vs)
  spec_step cap (drain_to n) xs =
      if leb n (length xs) then some (values (take n xs), drop n xs) else none

  unfoldable pub spec_run : ℕ → List (Call A) → List A → List (Reply A)
  spec_run cap [] xs = []
  spec_run cap (c ∷ cs) xs = elim (spec_step cap c xs) [
    | none ↦ halt ∷ []
    | some (a, ys) ↦ a ∷ spec_run cap cs ys
  ]
