-- ===== src/Container/DequeClient/Tests.antt =====
-- Runs of the ring buffer, and the refinement at concrete programs.
use v1util.Common.{ℕ, ◌≡◌, refl, List, [], ◌∷◌, true, arith}
use v1util.Container.RingBuffer
use v1util.Container.RingBuffer.{RingBuffer, set_capacity}
use v1util.Container.RingBuffer.Holds.{Holds, linear}
use v1util.Container.RingBuffer.Bulk
use v1util.Container.FixedSizeDeque
use v1util.Common.Word.{add64, sub64}
use v1util.Container.DequeClient.{
  Call, push, push_back, pop, peek, front, pop_front, size, full, fill_from, drain_to, Reply, done,
  value, values, number, test, halt, step, run, spec_run,
}
use v1util.Container.DequeClient.Refines.{run-refines, run-set_capacity-refines}

abbrev script : List (Call ℕ)
script =
    push 7
    ∷ pop
    ∷ fill_from (1 ∷ 2 ∷ [])
    ∷ push_back 9
    ∷ full
    ∷ front
    ∷ drain_to 2
    ∷ size
    ∷ pop_front
    ∷ peek
    ∷ push 1
    ∷ []

abbrev replies : List (Reply ℕ)
replies =
    done
    ∷ value 7
    ∷ done
    ∷ done
    ∷ test true
    ∷ value 2
    ∷ values (9 ∷ 1 ∷ [])
    ∷ number 1
    ∷ done
    ∷ halt
    ∷ []

-- Evaluates down to the storage.
run_ring : ℕ → List (Call ℕ) → List (Reply ℕ)
unfolding run step set_capacity add64 sub64 RingBuffer.push RingBuffer.pop RingBuffer.peek
    RingBuffer.size RingBuffer.full RingBuffer.usable_capacity RingBuffer.available_size
    RingBuffer.load RingBuffer.store RingBuffer.store_run RingBuffer.load_run Bulk.fill_from
    Bulk.fill_runs Bulk.drain_to Bulk.drain_runs FixedSizeDeque.push_back FixedSizeDeque.before
    FixedSizeDeque.front FixedSizeDeque.pop_front
run_ring cap cs = run cs (set_capacity 0 cap)

run_ring-script : run_ring 3 script ≡ replies
unfolding run_ring
run_ring-script = refl

-- Three elements round the end of the storage.
abbrev wrapped_ring : RingBuffer ℕ
wrapped_ring = record { capacity = 4; storage = 5 ∷ 6 ∷ 7 ∷ 8 ∷ []; head = 3; tail = 1 }

wrapped_ring-Holds : Holds 3 wrapped_ring (6 ∷ 7 ∷ [])
wrapped_ring-Holds =
    linear (5 ∷ []) (8 ∷ []) refl refl (omega arith) (omega arith) refl (omega arith) (omega arith)

run-refines_example : run script wrapped_ring ≡ spec_run 3 script (6 ∷ 7 ∷ [])
run-refines_example = run-refines script wrapped_ring-Holds

run-set_capacity-refines_run : run script (set_capacity 0 3) ≡ spec_run 3 script []
run-set_capacity-refines_run = run-set_capacity-refines 0 3 script (omega arith)
