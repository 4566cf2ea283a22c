-- ===== src/Container/FixedSizeDeque.antt =====
-- `FixedSizeDeque` of container/ringbuffer.hpp: a `ChunkedRingBuffer` used from both ends. Its front
-- is the newest element of the ring buffer, its back the oldest, which stands at the tail.
pub mod Laws
use v1util.Common.{ℕ, ◌+◌, ◌-◌, ◌==◌, if◌then◌else◌, not, Option, some, ◌>>=◌, ◌>>◌, v1_assert}
use v1util.Container.RingBuffer.{RingBuffer, full, load, store}
use v1util.Container.RingBuffer

module _ {ℓ} {A : Type ℓ} where
  -- `p == mpData ? mpData + mCapacity : p`, minus one.
  unfoldable pub before : RingBuffer A → ℕ → ℕ
  before r i = (if i == 0 then r.capacity else i) - 1

  unfoldable pub back : RingBuffer A → Option A
  back r = RingBuffer.peek r

  -- `back() = x`: the reference that `back` returns, written through.
  unfoldable pub set_back : A → RingBuffer A → Option (RingBuffer A)
  set_back x r = do v1_assert (not (r.head == r.tail)); store r r.tail x

  unfoldable pub pop_back : RingBuffer A → Option (RingBuffer A)
  pop_back r = RingBuffer.drop r

  unfoldable pub push_back : A → RingBuffer A → Option (RingBuffer A)
  push_back x r = do
    v1_assert (not (full r))
    let new_tail = before r r.tail
    r' ← store r new_tail x
    some (record r' { tail = new_tail })

  unfoldable pub front : RingBuffer A → Option A
  front r = do v1_assert (not (r.head == r.tail)); load r (before r r.head)

  unfoldable pub pop_front : RingBuffer A → Option (RingBuffer A)
  pop_front r = do v1_assert (not (r.head == r.tail)); some (record r { head = before r r.head })

  unfoldable pub push_front : A → RingBuffer A → Option (RingBuffer A)
  push_front x r = RingBuffer.push x r
