-- ===== src/Container/RingBuffer/Bulk.antt =====
-- `ChunkedRingBuffer::fillFrom` and `drainTo`: the block-wise operations, which copy in one or two runs.
pub mod Runs
pub mod Fill
pub mod Drain
pub mod Tests
use v1util.Common.{
  ℕ, ◌+◌, ◌-◌, ◌==◌, leb, if◌then◌else◌, Option, some, List, ◌++◌, length, take, drop, ◌>>=◌, ◌>>◌,
  v1_assert,
}
use v1util.Common.Word.{sub64}
use v1util.Container.RingBuffer.{
  RingBuffer, size, usable_capacity, available_size, store_run, load_run,
}

module _ {ℓ} {A : Type ℓ} where
  -- The branches of `fillFrom`: one run up to the end of the storage, or two runs round it.
  unfoldable pub fill_runs : RingBuffer A → List A → Option (RingBuffer A)
  fill_runs r values =
      let count = length values in
      let new_head = r.head + count in
      let to_end = r.capacity - r.head in
      if leb new_head r.capacity
      then (do
        r' ← store_run r r.head values
        some (record r' { head = if new_head == r.capacity then 0 else new_head }))
      else (do
        r' ← store_run r r.head (take to_end values)
        r'' ← store_run r' 0 (drop to_end values)
        some (record r'' { head = count - to_end }))

  unfoldable pub fill_from : RingBuffer A → List A → Option (RingBuffer A)
  fill_from r values = do
    v1_assert (leb (length values) (available_size r))
    r' ← fill_runs r values
    v1_assert (leb (size r') (size r + length values))
    v1_assert (leb (size r') (usable_capacity r'))
    some r'

  -- `drainTo` into a span of `count` elements: what the span holds afterwards, and the buffer.
  unfoldable pub drain_runs : RingBuffer A → ℕ → Option (List A × RingBuffer A)
  drain_runs r count =
      let new_tail = r.tail + count in
      let from_end = r.capacity - r.tail in
      if leb new_tail r.capacity
      then (do
        xs ← load_run r r.tail count
        some (xs, record r { tail = if new_tail == r.capacity then 0 else new_tail }))
      else (do
        xs ← load_run r r.tail from_end
        ys ← load_run r 0 (count - from_end)
        some (xs ++ ys, record r { tail = count - from_end }))

  unfoldable pub drain_to : RingBuffer A → ℕ → Option (List A × RingBuffer A)
  drain_to r count = do
    v1_assert (leb count (size r))
    (xs, r') ← drain_runs r count
    v1_assert (leb (sub64 (size r) count) (size r'))
    v1_assert (leb (size r') (usable_capacity r'))
    some (xs, r')
