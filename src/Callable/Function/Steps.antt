-- ===== src/Callable/Function/Steps.antt =====
-- One step keeps the counts of the heap objects, operation by operation.
use v1util.Common.{
  ℕ, zero, suc, ◌+◌, ◌%◌, ◌≤◌, ◌<◌, ◌≡◌, refl, ap, ◌∙◌, ◌==◌, Bool, true, false, Option, none, some,
  List, [], ◌∷◌, ◌++◌, length, length-append, length-set, get_elem?, set, arith,
}
use v1util.Common.Word.{word}
use v1util.Callable.Function.{Heap, FunctionBase, has_heap_object, set_trampoline}
use v1util.Callable.Function.Counts.{
  Counts, Counts-same, refers, copy_object-Counts, release-Counts,
}
use v1util.Callable.Function.World.{
  World, Call, construct_copy, construct_move, assign_copy, assign_move, destroy, step, lives,
  after,
}
use v1util.Callable.Function.Handles.{
  handles, handles-append, handles-set, handles-le, refers-le, slots_of, lives-lookup,
  slots_of-append, slots_of-set, slots_of-replace,
}

-- Each object's header counts the functions that refer to it, and it is deleted once there are none.
abbrev pub Owned : World → Type 0
Owned w = Counts (λ i. handles i w.functions) w.heap

pub record Stepped (c : Call) (w : World) : Type 0 where
  pub next : World
  pub steps : step c w ≡ some next
  pub owned : Owned next
  pub slots : slots_of next.functions ≡ after c (slots_of w.functions)
  pub size : length next.functions ≤ suc (length w.functions)

pub untagged :
    (p : ℕ) (heap_object embedded : Bool)
    → (p % 4 == 0) ≡ true
    → (t : ℕ) × (set_trampoline p heap_object embedded ≡ some t)
      × (has_heap_object (record { storage = 0; trampoline = t }) ≡ heap_object)
unfolding set_trampoline has_heap_object
untagged p true true h = (p + 1 + 2, rw h, ground arith)
untagged p true false h = (p + 1 + 0, rw h, ground arith)
untagged p false true h = (p + 0 + 2, rw h, ground arith)
untagged p false false h = (p + 0 + 0, rw h, ground arith)

pub Owned-construct :
    (w : World) (f : FunctionBase) (heap : Heap)
    → Counts (λ i. handles i w.functions + refers i f) heap
    → Owned (record { heap = heap; functions = w.functions ++ some f ∷ [] })
Owned-construct w f heap c =
    Counts-same c (λ i. omega (arith, handles-append i w.functions (some f ∷ [])))

pub step-copy :
    (src : ℕ) (w : World)
    → Owned w
    → suc (length w.functions) < word
    → lives (slots_of w.functions) src ≡ true
    → Stepped (construct_copy src) w
unfolding step
step-copy src w c small h =
    let (f, found) = lives-lookup w.functions src h in
    let (heap, copied, c') =
      copy_object-Counts {h' = λ i. handles i w.functions + refers i f} f c
        (λ i. omega (arith, handles-set i w.functions src (some f) none found))
        (λ i. omega (arith, handles-le i w.functions)) (λ i. refl) in
    record {
      next = record { heap = heap; functions = w.functions ++ some f ∷ [] };
      steps = rw (found, copied);
      owned = Owned-construct w f heap c';
      slots = slots_of-append w.functions f;
      size = omega (arith, length-append w.functions (some f ∷ []));
    }

moved-refers : (i : ℕ) (f : FunctionBase) → refers i (record f { trampoline = 0 }) ≡ 0
unfolding has_heap_object
moved-refers i f = refl

pub step-move :
    (src : ℕ) (w : World)
    → Owned w
    → lives (slots_of w.functions) src ≡ true
    → Stepped (construct_move src) w
unfolding step
step-move src w c h =
    let (f, found) = lives-lookup w.functions src h in
    let f0 : FunctionBase = record f { trampoline = 0 } in
    let fs = set w.functions src (some f0) in
    record {
      next = record { heap = w.heap; functions = fs ++ some f ∷ [] };
      steps = rw (found);
      owned = Counts-same c (λ i. omega (
        arith,
        handles-append i fs (some f ∷ []),
        handles-set i w.functions src (some f) (some f0) found,
        moved-refers i f,
      ));
      slots =
          slots_of-append fs f
          ∙ ap (λ z. z ++ true ∷ []) (slots_of-replace w.functions src f f0 found);
      size = omega (arith, length-append fs (some f ∷ []), length-set w.functions src (some f0));
    }

pub step-assign_copy :
    (dst src : ℕ) (w : World)
    → Owned w
    → suc (length w.functions) < word
    → lives (slots_of w.functions) dst ≡ true
    → lives (slots_of w.functions) src ≡ true
    → Stepped (assign_copy dst src) w
unfolding step
step-assign_copy dst src w c small g h =
    let (old, found_old) = lives-lookup w.functions dst g in
    let (f, found) = lives-lookup w.functions src h in
    let fs = set w.functions dst (some f) in
    let (heap, copied, c') =
      copy_object-Counts {h' = λ i. handles i w.functions + refers i f} f c
        (λ i. omega (arith, handles-set i w.functions src (some f) none found))
        (λ i. omega (arith, handles-le i w.functions)) (λ i. refl) in
    let (heap', released, c'') =
      release-Counts {h' = λ i. handles i fs} old c'
        (λ i. omega (
          arith,
          handles-le i fs,
          length-set w.functions dst (some f),
          handles-set i w.functions dst (some old) (some f) found_old,
          refers-le i old,
          handles-le i w.functions,
          refers-le i f,
        ))
        (λ i. omega (arith, handles-set i w.functions dst (some old) (some f) found_old)) in
    record {
      next = record { heap = heap'; functions = fs };
      steps = rw (found_old, found, copied, released);
      owned = c'';
      slots = slots_of-replace w.functions dst old f found_old;
      size = omega (arith, length-set w.functions dst (some f));
    }

-- The source of a move assignment holds the moved function after the target has it, also if they are
-- the same.
moved-source :
    (fs : List (Option FunctionBase)) (dst src : ℕ) (f : FunctionBase)
    → get_elem? fs src ≡ some (some f)
    → get_elem? (set fs dst (some f)) src ≡ some (some f)
moved-source [] dst src f h = h
moved-source (x ∷ fs) zero zero f h = refl
moved-source (x ∷ fs) zero (suc src) f h = h
moved-source (x ∷ fs) (suc dst) zero f h = h
moved-source (x ∷ fs) (suc dst) (suc src) f h = moved-source fs dst src f h

pub step-assign_move :
    (dst src : ℕ) (w : World)
    → Owned w
    → suc (length w.functions) < word
    → lives (slots_of w.functions) dst ≡ true
    → lives (slots_of w.functions) src ≡ true
    → Stepped (assign_move dst src) w
unfolding step
step-assign_move dst src w c small g h =
    let (old, found_old) = lives-lookup w.functions dst g in
    let (f, found) = lives-lookup w.functions src h in
    let f0 : FunctionBase = record f { trampoline = 0 } in
    let fs = set w.functions dst (some f) in
    let fs' = set fs src (some f0) in
    let again : get_elem? fs src ≡ some (some f) = moved-source w.functions dst src f found in
    let (heap, released, c') =
      release-Counts {h' = λ i. handles i fs'} old c (λ i. omega (arith, handles-le i w.functions))
        (λ i. omega (
          arith,
          handles-set i w.functions dst (some old) (some f) found_old,
          handles-set i fs src (some f) (some f0) again,
          moved-refers i f,
        )) in
    record {
      next = record { heap = heap; functions = fs' };
      steps = rw (found_old, found, released);
      owned = c';
      slots = slots_of-replace fs src f f0 again ∙ slots_of-replace w.functions dst old f found_old;
      size = omega (arith, length-set w.functions dst (some f), length-set fs src (some f0));
    }

pub step-destroy :
    (k : ℕ) (w : World)
    → Owned w
    → suc (length w.functions) < word
    → lives (slots_of w.functions) k ≡ true
    → Stepped (destroy k) w
unfolding step
step-destroy k w c small h =
    let (old, found) = lives-lookup w.functions k h in
    let fs = set w.functions k none in
    let (heap, released, c') =
      release-Counts {h' = λ i. handles i fs} old c (λ i. omega (arith, handles-le i w.functions))
        (λ i. omega (arith, handles-set i w.functions k (some old) none found)) in
    record {
      next = record { heap = heap; functions = fs };
      steps = rw (found, released);
      owned = c';
      slots = slots_of-set w.functions k none;
      size = omega (arith, length-set w.functions k none);
    }
