-- ===== src/Callable/Function/Invoke/Tests.antt =====
-- Calls of functions on the heap, embedded ones and empty ones.
use v1util.Common.{◌≡◌, ◌↔◌, refl, true, false, some, none, List, [], ◌∷◌, if◌then◌else◌, arith}
use v1util.Common.Word.{add64}
use v1util.Callable.Function.{
  FunctionBase, has_heap_object, has_embedded_storage, set_trampoline, create_heap_object,
  copy_object,
}
use v1util.Callable.Function.World.{
  World, Call, construct_heap, construct_embedded, construct_copy, construct_move, step, run,
  empty_world,
}
use v1util.Callable.Function.Handles.{handles}
use v1util.Callable.Function.Invoke.{trampoline, storage, call, ref_count, equal, from_invocable}
use v1util.Callable.Function.Invoke.Origins.{
  expected_call, Origins, origin_at, follow_all, follow, no_origins,
}
use v1util.Callable.Function.Invoke.Alive.{object_lives, call-run, equal-run}

-- A closure with two functions, a small one, and a function that has been moved from.
abbrev program : List Call
program = construct_heap 64 ∷ construct_embedded 128 7 ∷ construct_copy 0 ∷ construct_move 0 ∷ []

abbrev header_two : World
header_two = record {
  heap = record { ref_count = 2; deleted = false } ∷ [];
  functions =
      some (record { storage = 0; trampoline = 0 })
      ∷ some (record { storage = 7; trampoline = 130 })
      ∷ some (record { storage = 0; trampoline = 65 })
      ∷ some (record { storage = 0; trampoline = 65 })
      ∷ [];
}

program-run : run program empty_world ≡ some header_two
unfolding run step set_trampoline create_heap_object copy_object has_heap_object add64
program-run = refl

call-embedded : call 5000 (record { storage = 7; trampoline = 130 }) ≡ some (128, 5000)
unfolding call trampoline storage has_heap_object has_embedded_storage
call-embedded = refl

call-moved : call 5000 (record { storage = 0; trampoline = 0 }) ≡ none
unfolding call trampoline
call-moved = refl

large_invocable : from_invocable true 16 8 64 0 ≡ construct_heap 64
unfolding from_invocable
large_invocable = refl

abbrev copied : FunctionBase
copied = record { storage = 0; trampoline = 65 }

call-run_example :
    (call 5000 copied
      ≡ expected_call 5000 (origin_at (Origins.slots (follow_all program no_origins)) 2))
    × (object_lives copied header_two.heap ≡ true)
    × (ref_count copied header_two.heap
        ≡ some (if has_heap_object copied then handles copied.storage header_two.functions else 0))
call-run_example =
    call-run program header_two 2 5000 copied (omega arith) refl (omega arith) program-run refl

origin_runs :
    (expected_call 5000 (origin_at (Origins.slots (follow_all program no_origins)) 0) ≡ none)
    × (expected_call 5000 (origin_at (Origins.slots (follow_all program no_origins)) 1)
        ≡ some (128, 5000))
    × (expected_call 5000 (origin_at (Origins.slots (follow_all program no_origins)) 2)
        ≡ some (64, 0))
unfolding expected_call follow_all follow
origin_runs = (refl, refl, refl)

copies_equal_run : (equal 5000 copied 6000 copied ≡ true) ↔ (copied ≡ copied)
copies_equal_run =
    equal-run program header_two 2 3 5000 6000 copied copied (omega arith) program-run refl refl
