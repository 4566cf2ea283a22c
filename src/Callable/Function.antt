-- ===== src/Callable/Function.antt =====
-- `FunctionBase` of callable/function.hpp and callable/function.cpp: a tagged word beside a storage word
-- that may refer to a reference-counted closure on the heap, and the operations of its value semantics.
-- `uint_fast32_t`, the type of the count, has 64 bits. The sizes, alignments and contents of the closures
-- are not modelled.
pub mod Counts
pub mod World
pub mod Handles
pub mod Steps
pub mod Owned
pub mod Invoke
mod Bind
pub mod Tests
use v1util.Common.{
  ℕ, ◌+◌, ◌/◌, ◌%◌, ◌==◌, ltb, if◌then◌else◌, Bool, true, false, not, Option, none, some, List, [],
  ◌∷◌, ◌++◌, length, get_elem?, set, ◌>>=◌, ◌>>◌, v1_assert,
}
use v1util.Common.Word.{add64, sub64}

-- `FunctionHeapHeader`: `deleted` is the canary `kDeletedHeapBlockMarker`, which stands for an object
-- whose deleter has run and whose memory is free.
pub record HeapHeader : Type 0 where
  pub ref_count : ℕ
  pub deleted : Bool

-- A heap object's address is its place in the heap.
abbrev pub Heap : Type 0
Heap = List HeapHeader

-- `mStorage` and `mpTrampoline`
pub record FunctionBase : Type 0 where
  pub storage : ℕ
  pub trampoline : ℕ

-- `kHasHeapObjectMask` and `kUseAddressOfStorage` are the lowest bits.
unfoldable pub has_heap_object : FunctionBase → Bool
has_heap_object f = f.trampoline % 2 == 1

unfoldable pub has_embedded_storage : FunctionBase → Bool
has_embedded_storage f = f.trampoline / 2 % 2 == 1

-- `kTrampolineStolenBitsMask` is 0b11.
unfoldable pub set_trampoline : ℕ → Bool → Bool → Option ℕ
set_trampoline p heap_object embedded_storage = do
  v1_assert (p % 4 == 0)
  some (p + (if heap_object then 1 else 0) + (if embedded_storage then 2 else 0))

unfoldable pub create_heap_object : ℕ → Heap → Option (FunctionBase × Heap)
create_heap_object p heap = do
  t ← set_trampoline p true false
  some (
    record { storage = length heap; trampoline = t },
    heap ++ record { ref_count = 1; deleted = false } ∷ [],
  )

-- The function that a call of `copyObject(other)` leaves is `other`.
unfoldable pub copy_object : FunctionBase → Heap → Option Heap
copy_object other heap =
    if has_heap_object other
    then (do
      header ← get_elem? heap other.storage
      v1_assert (not header.deleted)
      some (set heap other.storage (record header { ref_count = add64 header.ref_count 1 })))
    else some heap

unfoldable pub free_heap_object : ℕ → Heap → Option Heap
free_heap_object object heap = do
  header ← get_elem? heap object
  v1_assert (not header.deleted)
  let left = sub64 header.ref_count 1
  some (set heap object (record { ref_count = left; deleted = not (ltb 0 left) }))

-- `if(hasHeapObject()) freeHeapObject(mStorage.pObject)`, for the destructor and, with the old object,
-- for the assignments.
unfoldable pub release : FunctionBase → Heap → Option Heap
release f heap = if has_heap_object f then free_heap_object f.storage heap else some heap
