-- ===== src/Container/RingBuffer.antt =====
-- `ChunkedRingBuffer` of container/ringbuffer.hpp. A pointer into the storage is its offset from
-- `mpData`; the storage is the list of the `mCapacity` elements behind `mpData`, and the null pointer
-- goes with the empty list. An operation is `none` where one of its assertions fires or where it
-- would touch memory outside the storage.
pub mod Holds
pub mod Queue
pub mod Bulk
use v1util.Common.{
  ℕ, zero, suc, ◌+◌, ◌-◌, ◌==◌, ltb, leb, if◌then◌else◌, Bool, not, Option, none, some, List, [],
  ◌∷◌, length, replicate, get_elem?, set, ◌>>=◌, ◌>>◌, v1_assert,
}
use v1util.Common.Word.{add64, sub64}

pub record RingBuffer {ℓ} (A : Type ℓ) : Type ℓ where
  pub capacity : ℕ
  pub storage : List A
  pub head : ℕ
  pub tail : ℕ

module _ {ℓ} {A : Type ℓ} where
  -- The default member initialisers.
  unfoldable pub unallocated : RingBuffer A
  unallocated = record { capacity = 0; storage = []; head = 0; tail = 0 }

  -- `setCapacity`; `fresh` is the value-initialised `T()`.
  unfoldable pub set_capacity : A → ℕ → RingBuffer A
  unfolding add64
  set_capacity fresh capacity =
      let total = add64 capacity 1 in
      record { capacity = total; storage = replicate total fresh; head = 0; tail = 0 }

  unfoldable pub size : RingBuffer A → ℕ
  size r = if leb r.tail r.head then r.head - r.tail else r.capacity - (r.tail - r.head)

  unfoldable pub usable_capacity : RingBuffer A → ℕ
  unfolding sub64
  usable_capacity r = sub64 r.capacity 1

  unfoldable pub available_size : RingBuffer A → ℕ
  available_size r = sub64 (usable_capacity r) (size r)

  unfoldable pub empty : RingBuffer A → Bool
  empty r = r.head == r.tail

  unfoldable pub full : RingBuffer A → Bool
  full r = size r == usable_capacity r

  -- `*(mpData + i)` read and written; `none` out of range.
  unfoldable pub load : RingBuffer A → ℕ → Option A
  load r i = get_elem? r.storage i

  unfoldable pub store : RingBuffer A → ℕ → A → Option (RingBuffer A)
  store r i x =
      if ltb i (length r.storage) then some (record r { storage = set r.storage i x }) else none

  unfoldable pub push : A → RingBuffer A → Option (RingBuffer A)
  push x r = do
    v1_assert (not (full r))
    let new_head = if r.head + 1 == r.capacity then 0 else r.head + 1
    r' ← store r r.head x
    some (record r' { head = new_head })

  unfoldable pub pop : RingBuffer A → Option (A × RingBuffer A)
  pop r = do
    v1_assert (not (r.head == r.tail))
    let new_tail = r.tail + 1
    x ← load r r.tail
    some (x, record r { tail = if new_tail == r.capacity then 0 else new_tail })

  unfoldable pub peek : RingBuffer A → Option A
  peek r = do v1_assert (not (r.head == r.tail)); load r r.tail

  -- `none` is the null pointer; otherwise the offset of the oldest element.
  unfoldable pub peek_ptr : RingBuffer A → Option ℕ
  peek_ptr r = if not (r.head == r.tail) then some r.tail else none

  unfoldable pub drop : RingBuffer A → Option (RingBuffer A)
  drop r = do
    v1_assert (not (r.head == r.tail))
    let new_tail = r.tail + 1
    some (record r { tail = if leb r.capacity new_tail then 0 else new_tail })

  unfoldable pub get : RingBuffer A → Option (A × RingBuffer A)
  get r = do
    v1_assert (not (r.head == r.tail))
    let new_tail = r.tail + 1
    x ← load r r.tail
    some (x, record r { tail = if leb r.capacity new_tail then 0 else new_tail })

  -- `for(i = 0; i < count; i++) p[i] = pData[i]`, from offset `i` of the storage on.
  unfoldable pub store_run : RingBuffer A → ℕ → List A → Option (RingBuffer A)
  store_run r i [] = some r
  store_run r i (x ∷ xs) = do r' ← store r i x; store_run r' (i + 1) xs

  unfoldable pub load_run : RingBuffer A → ℕ → ℕ → Option (List A)
  load_run r i zero = some []
  load_run r i (suc n) = do x ← load r i; xs ← load_run r (i + 1) n; some (x ∷ xs)
