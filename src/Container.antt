-- ===== src/Container.antt =====
-- The containers of container/.
pub mod RingBuffer
pub mod FixedSizeDeque
pub mod Deque
pub mod RingDeque
pub mod DequeClient
pub mod ArrayView
pub mod Span
pub mod RingIterator
pub mod Result
mod Range
