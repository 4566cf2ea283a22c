-- ===== src/Callable/Function/Owned.antt =====
-- Every object on the heap is counted right, whatever a program does with its functions.
use v1util.Common.{
  ℕ, suc, ◌+◌, ◌%◌, ◌<◌, ◌≡◌, refl, sym, ap, ◌∙◌, ◌==◌, ◌&&◌, Bool, true, false, some, List, [],
  ◌∷◌, ◌++◌, length, length-append, get_elem?, arith,
}
use v1util.Common.Word.{word}
use v1util.Callable.Function.{FunctionBase, has_heap_object, create_heap_object}
use v1util.Callable.Function.Counts.{Counts-same, Counts-append, refers, refers_none, header_of}
use v1util.Callable.Function.World.{
  World, Call, construct_default, construct_static, construct_embedded, construct_heap,
  construct_copy, construct_move, assign_copy, assign_move, destroy, step, run, empty_world, lives,
  allowed, after, all_allowed,
}
use v1util.Callable.Function.Handles.{handles, slots_of, slots_of-append}
use v1util.Callable.Function.Steps.{
  Owned, Stepped, untagged, Owned-construct, step-copy, step-move, step-assign_copy,
  step-assign_move, step-destroy,
}

pub and-true : (a b : Bool) → (a && b) ≡ true → (a ≡ true) × (b ≡ true)
and-true true true h = (refl, refl)
and-true true false h = (refl, h)
and-true false b h = (h, cc)

-- A function without an object on the heap.
step-plain :
    (c : Call) (w : World) (f : FunctionBase)
    → Owned w
    → has_heap_object f ≡ false
    → step c w ≡ some (record { heap = w.heap; functions = w.functions ++ some f ∷ [] })
    → after c (slots_of w.functions) ≡ slots_of w.functions ++ true ∷ []
    → Stepped c w
step-plain c w f owned plain steps shape = record {
  next = record { heap = w.heap; functions = w.functions ++ some f ∷ [] };
  steps = steps;
  owned =
      Owned-construct w f w.heap (Counts-same owned (λ i. omega (arith, refers_none i f plain)));
  slots = slots_of-append w.functions f ∙ sym shape;
  size = omega (arith, length-append w.functions (some f ∷ []));
}

step-heap : (p : ℕ) (w : World) → Owned w → (p % 4 == 0) ≡ true → Stepped (construct_heap p) w
unfolding step create_heap_object has_heap_object
step-heap p w c h =
    let (t, tagged, on_heap) = untagged p true false h in
    let k : ℕ = length w.heap in
    let f : FunctionBase = record { storage = k; trampoline = t } in
    let heap = w.heap ++ header_of 1 ∷ [] in
    let fresh : refers k f ≡ 1 = rw on_heap (ground arith) in
    let other : (i : ℕ) → (k ≡ i → ⊥) → refers i f ≡ 0 = λ i ne. ground arith in
    record {
      next = record { heap = heap; functions = w.functions ++ some f ∷ [] };
      steps = rw tagged;
      owned = Owned-construct w f heap (
          Counts-append c (omega (arith, c.absent k (omega arith)))
            (λ i ne. omega (arith, other i ne)));
      slots = slots_of-append w.functions f;
      size = omega (arith, length-append w.functions (some f ∷ []));
    }

step-Stepped :
    (c : Call) (w : World)
    → Owned w
    → suc (length w.functions) < word
    → allowed c (slots_of w.functions) ≡ true
    → Stepped c w
unfolding step has_heap_object
step-Stepped construct_default w o b h = step-plain construct_default w _ o refl refl refl
step-Stepped (construct_static p object) w o b h =
    let (t, tagged, plain) = untagged p false false h in
    step-plain (construct_static p object) w (record { storage = object; trampoline = t }) o plain
      (rw tagged) refl
step-Stepped (construct_embedded p bytes) w o b h =
    let (t, tagged, plain) = untagged p false true h in
    step-plain (construct_embedded p bytes) w (record { storage = bytes; trampoline = t }) o plain
      (rw tagged) refl
step-Stepped (construct_heap p) w o b h = step-heap p w o h
step-Stepped (construct_copy src) w o b h = step-copy src w o b h
step-Stepped (construct_move src) w o b h = step-move src w o h
step-Stepped (assign_copy dst src) w o b h =
    let (g, k) = and-true (lives (slots_of w.functions) dst) (lives (slots_of w.functions) src) h in
    step-assign_copy dst src w o b g k
step-Stepped (assign_move dst src) w o b h =
    let (g, k) = and-true (lives (slots_of w.functions) dst) (lives (slots_of w.functions) src) h in
    step-assign_move dst src w o b g k
step-Stepped (destroy k) w o b h = step-destroy k w o b h

pub run-Owned :
    (cs : List Call) (w : World)
    → Owned w
    → length w.functions + length cs + 1 < word
    → all_allowed cs (slots_of w.functions) ≡ true
    → (end : World) × (run cs w ≡ some end) × Owned end
unfolding run
run-Owned [] w o b h = (w, refl, o)
run-Owned (c ∷ cs) w o b h =
    let (now, later) =
      and-true (allowed c (slots_of w.functions)) (all_allowed cs (after c (slots_of w.functions)))
        h in
    let s : Stepped c w = step-Stepped c w o (omega arith) now in
    let (end, ran, o') =
      run-Owned cs s.next s.owned (omega (arith, s.size)) (ap (all_allowed cs) s.slots ∙ later) in
    (end, rw s.steps ran, o')

-- For a program of fewer than 2 ^ 64 - 1 operations that names only functions that live, from no
-- functions on: no operation touches an object that is deleted, and in the end each object's header
-- counts the functions that refer to it and is deleted exactly if there are none.
pub run-counts :
    (cs : List Call)
    → length cs + 1 < word
    → all_allowed cs [] ≡ true
    → (end : World) × (run cs empty_world ≡ some end)
      × ((i : ℕ)
          → i < length end.heap
          → get_elem? end.heap i ≡ some (header_of (handles i end.functions)))
run-counts cs b h =
    let nothing : Owned empty_world = record {
      header = λ i p. absurd (omega arith);
      absent = λ i p. refl;
    } in
    let (end, ran, o) = run-Owned cs empty_world nothing (omega arith) h in (end, ran, o.header)
