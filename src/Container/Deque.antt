-- ===== src/Container/Deque.antt =====
-- What a client of `FixedSizeDeque` (container/ringbuffer.hpp) relies on: its operations, and for each
-- of them what it does to the sequence that the deque holds, back first. Container/RingDeque.antt fills
-- the record with the ring buffer of the source.
pub mod Loops
pub mod Kept
use v1util.Common.{ℕ, suc, ◌<◌, ◌≤◌, ◌≡◌, Bool, Option, some, List, [], ◌∷◌, ◌++◌, length, is_nil}
use v1util.Common.Word.{word}

pub record Deque (A : Type 0) : Type 1 where
  pub Carrier : Type 0
  pub with_capacity : ℕ → Carrier
  pub size : Carrier → ℕ
  pub empty : Carrier → Bool
  pub back : Carrier → Option A
  pub front : Carrier → Option A
  pub set_back : A → Carrier → Option Carrier
  pub push_back : A → Carrier → Option Carrier
  pub pop_back : Carrier → Option Carrier
  pub pop_front : Carrier → Option Carrier
  -- `Holds cap d xs`: `d` has room for `cap` elements and holds `xs`.
  pub Holds : ℕ → Carrier → List A → Type 0
  pub with_capacity-Holds : (cap : ℕ) → suc cap < word → Holds cap (with_capacity cap) []
  pub size-Holds : {cap : ℕ} {d : Carrier} {xs : List A} → Holds cap d xs → size d ≡ length xs
  pub length-Holds : {cap : ℕ} {d : Carrier} {xs : List A} → Holds cap d xs → length xs ≤ cap
  pub empty-Holds : {cap : ℕ} {d : Carrier} (xs : List A) → Holds cap d xs → empty d ≡ is_nil xs
  pub back-Holds :
      {cap : ℕ} {d : Carrier} {x : A} {xs : List A} → Holds cap d (x ∷ xs) → back d ≡ some x
  pub front-Holds :
      {cap : ℕ} {d : Carrier} (xs : List A) (x : A) → Holds cap d (xs ++ x ∷ []) → front d ≡ some x
  pub set_back-Holds :
      {cap : ℕ} {d : Carrier} {y : A} {xs : List A} (x : A)
      → Holds cap d (y ∷ xs)
      → (d' : Carrier) × (set_back x d ≡ some d') × Holds cap d' (x ∷ xs)
  pub push_back-Holds :
      {cap : ℕ} {d : Carrier} {xs : List A} (x : A)
      → Holds cap d xs
      → length xs < cap
      → (d' : Carrier) × (push_back x d ≡ some d') × Holds cap d' (x ∷ xs)
  pub pop_back-Holds :
      {cap : ℕ} {d : Carrier} {x : A} {xs : List A}
      → Holds cap d (x ∷ xs)
      → (d' : Carrier) × (pop_back d ≡ some d') × Holds cap d' xs
  pub pop_front-Holds :
      {cap : ℕ} {d : Carrier} (xs : List A) (x : A)
      → Holds cap d (xs ++ x ∷ [])
      → (d' : Carrier) × (pop_front d ≡ some d') × Holds cap d' xs
