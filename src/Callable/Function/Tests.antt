-- ===== src/Callable/Function/Tests.antt =====
-- A program that copies, moves and destroys functions.
use v1util.Common.{
  ℕ, ◌<◌, ◌≡◌, refl, true, false, Option, some, none, List, [], ◌∷◌, length, get_elem?, ◌>>=◌,
  arith,
}
use v1util.Common.Word.{add64, sub64}
use v1util.Callable.Function.{
  HeapHeader, has_heap_object, set_trampoline, create_heap_object, copy_object, free_heap_object,
  release,
}
use v1util.Callable.Function.Counts.{header_of}
use v1util.Callable.Function.World.{
  World, Call, construct_heap, construct_static, construct_copy, construct_move, assign_copy,
  assign_move, destroy, step, run, empty_world,
}
use v1util.Callable.Function.Handles.{handles}
use v1util.Callable.Function.Owned.{run-counts}

-- Two closures, of which the second loses its last function, one of them by an assignment to itself.
abbrev program : List Call
program =
    construct_heap 64
    ∷ construct_heap 128
    ∷ construct_copy 0
    ∷ construct_static 4 7
    ∷ assign_copy 1 1
    ∷ assign_copy 1 0
    ∷ construct_move 0
    ∷ assign_move 3 2
    ∷ destroy 4
    ∷ []

abbrev headers : World → Option (List HeapHeader)
headers w = some w.heap

program-run :
    (run program empty_world >>= headers)
    ≡ some
        (record { ref_count = 2; deleted = false } ∷ record { ref_count = 0; deleted = true } ∷ [])
unfolding run step set_trampoline create_heap_object copy_object free_heap_object release
    has_heap_object add64 sub64
program-run = refl

-- A second destructor of the same function is no step.
twice_run : run (construct_heap 64 ∷ destroy 0 ∷ destroy 0 ∷ []) empty_world ≡ none
unfolding run step set_trampoline create_heap_object free_heap_object release has_heap_object sub64
twice_run = refl

run-counts_example :
    (end : World) × (run program empty_world ≡ some end)
    × ((i : ℕ)
        → i < length end.heap
        → get_elem? end.heap i ≡ some (header_of (handles i end.functions)))
run-counts_example = run-counts program (omega arith) refl
