-- ===== src/Callable/Function/Invoke.antt =====
-- Calls and comparisons of `Function` in callable/function.hpp, on the words of `FunctionBase`. `self` is
-- the address of the function itself, where an embedded closure is stored.
mod Origins
mod Alive
mod Tests
use v1util.Common.{
  ℕ, ◌+◌, ◌-◌, ◌/◌, ◌%◌, ◌==◌, leb, if◌then◌else◌, Bool, not, ◌&&◌, Option, some, ◌>>=◌, ◌>>◌,
  v1_assert, get_elem?,
}
use v1util.Callable.Function.{FunctionBase, Heap, HeapHeader, has_heap_object, has_embedded_storage}
use v1util.Callable.Function.World.{Call, construct_embedded, construct_heap}

-- `trampoline()`: the word without `kTrampolineStolenBitsMask`.
unfoldable pub trampoline : FunctionBase → ℕ
trampoline f = f.trampoline - f.trampoline % 4

unfoldable pub storage : ℕ → FunctionBase → ℕ
storage self f = if has_embedded_storage f then self else f.storage

-- `operator()`: the code and its first argument.
unfoldable pub call : ℕ → FunctionBase → Option (ℕ × ℕ)
call self f = do
  v1_assert (not (trampoline f == 0))
  v1_assert (not (has_heap_object f && has_embedded_storage f))
  some (trampoline f, storage self f)

-- `operator bool`
unfoldable is_bound : FunctionBase → Bool
is_bound f = not (f.trampoline == 0)

unfoldable is_heap_based : FunctionBase → Bool
is_heap_based f = not (f.trampoline == 0) && has_heap_object f

-- `_refCount()`
unfoldable ref_count : FunctionBase → Heap → Option ℕ
ref_count f heap =
    if has_heap_object f
    then (do header ← get_elem? heap f.storage; some header.ref_count)
    else some 0

-- `operator==`; the addresses are those of the two functions.
unfoldable equal : ℕ → FunctionBase → ℕ → FunctionBase → Bool
equal self_a a self_b b =
    a.trampoline == b.trampoline
    && (if is_heap_based a then storage self_a a == storage self_b b else a.storage == b.storage)

-- The constructor from a callable: `trivial` says that it is trivially copyable and destructible.
unfoldable from_invocable : Bool → ℕ → ℕ → ℕ → ℕ → Call
from_invocable trivial size alignment p bytes =
    if trivial && leb size 8 && 8 % alignment == 0
    then construct_embedded p bytes
    else construct_heap p
