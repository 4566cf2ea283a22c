-- ===== src/Container/RingDeque.antt =====
-- `FixedSizeDeque<T>` as the source has it fills the interface of its clients.
use v1util.Container.RingBuffer.{RingBuffer, size, empty, set_capacity}
use v1util.Container.RingBuffer.Holds.{Holds, size-Holds, length-Holds, set_capacity-Holds}
use v1util.Container.RingBuffer.Queue.{empty-Holds}
use v1util.Container.FixedSizeDeque.{back, front, set_back, push_back, pop_back, pop_front}
use v1util.Container.FixedSizeDeque.Laws
use v1util.Container.Deque.{Deque}

-- `fresh` is `T()`.
abbrev pub ring_deque : {A : Type 0} → A → Deque A
ring_deque {A} fresh = record {
  Carrier = RingBuffer A;
  with_capacity = set_capacity fresh;
  size = size;
  empty = empty;
  back = back;
  front = front;
  set_back = set_back;
  push_back = push_back;
  pop_back = pop_back;
  pop_front = pop_front;
  Holds = Holds;
  with_capacity-Holds = set_capacity-Holds fresh;
  size-Holds = size-Holds;
  length-Holds = length-Holds;
  empty-Holds = empty-Holds;
  back-Holds = Laws.back-Holds;
  front-Holds = Laws.front-Holds;
  set_back-Holds = Laws.set_back-Holds;
  push_back-Holds = Laws.push_back-Holds;
  pop_back-Holds = Laws.pop_back-Holds;
  pop_front-Holds = Laws.pop_front-Holds;
}
