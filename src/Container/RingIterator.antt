-- ===== src/Container/RingIterator.antt =====
-- `RingIterator` of container/ringbuffer.hpp, over indices. Its offset is an `int64_t`, and `none` is an
-- overflow of its arithmetic. The size is a difference of pointers, below 2 ^ 63.
pub mod Walks
pub mod Tests
use v1util.Common.{
  ℕ, zero, suc, ◌+◌, ◌-◌, ◌%◌, ◌==◌, if◌then◌else◌, Option, some, List, [], ◌∷◌, ◌>>=◌,
}
use v1util.Common.Int.{ℤ, pos, negsuc, ◌+ℤ◌, increment, decrement, negate, representable}

pub record RingIterator : Type 0 where
  pub offset : ℤ
  pub size : ℕ
  pub iter : ℕ
  pub begin : ℕ

unfoldable pub make_ring : ℕ → ℕ → RingIterator
make_ring i_begin i_end = record {
  offset = pos 0;
  size = i_end - i_begin;
  iter = i_begin;
  begin = i_begin;
}

-- `operator++`
unfoldable pub step_forward : RingIterator → Option RingIterator
step_forward r = do
  offset ← representable (increment r.offset)
  some (record r {
    offset = offset;
    iter = if r.iter + 1 == r.begin + r.size then r.begin else r.iter + 1;
  })

-- `operator--`
unfoldable pub step_back : RingIterator → Option RingIterator
step_back r = do
  offset ← representable (decrement r.offset)
  some (record r {
    offset = offset;
    iter = (if r.iter == r.begin then r.begin + r.size else r.iter) - 1;
  })

-- `mOffset % int64_t(mSize)`, which takes the sign of the offset, added to `mBegin`, or to
-- `mBegin + mSize` where it is negative.
unfoldable pub place : ℕ → ℕ → ℤ → ℕ
place begin size (pos n) = begin + n % size
place begin size (negsuc n) =
    let simple_distance = suc n % size in
    if simple_distance == 0 then begin else begin + size - simple_distance

-- `operator+=` and `operator-=`
unfoldable pub advance : ℤ → RingIterator → Option RingIterator
advance distance r = do
  offset ← representable (r.offset +ℤ distance)
  some (record r { offset = offset; iter = place r.begin r.size offset })

unfoldable pub retreat : ℤ → RingIterator → Option RingIterator
retreat distance r = do opposite ← representable (negate distance); advance opposite r

pub data Move : Type 0 where
  increments decrements : Move
  advances retreats : ℤ → Move

unfoldable pub move : Move → RingIterator → Option RingIterator
move increments r = step_forward r
move decrements r = step_back r
move (advances d) r = advance d r
move (retreats d) r = retreat d r

unfoldable pub walk : List Move → RingIterator → Option RingIterator
walk [] r = some r
walk (m ∷ ms) r = move m r >>= walk ms

-- Where the moves lead on the integers, as long as the distances and the sums are values of `int64_t`.
abbrev pub moved : Move → ℤ → Option ℤ
moved increments o = representable (increment o)
moved decrements o = representable (decrement o)
moved (advances d) o = representable (o +ℤ d)
moved (retreats d) o = representable (negate d) >>= λ e. representable (o +ℤ e)

unfoldable pub displacement : List Move → ℤ → Option ℤ
displacement [] o = some o
displacement (m ∷ ms) o = moved m o >>= displacement ms

-- An integer modulo the size, from 0 up.
abbrev pub modulo : ℤ → ℕ → ℕ
modulo (pos n) size = n % size
modulo (negsuc n) size = size - 1 - n % size
