-- ===== src/Callable/Function/Invoke/Alive.antt =====
-- Whatever a program has done with its functions, a call of one that lives is sound.
use v1util.Common.{
  ℕ, zero, suc, ◌+◌, ◌%◌, ◌≢◌, ◌⊎◌, ◌<◌, ◌≤◌, ◌≡◌, ◌↔◌, inl, inr, refl, sym, subst, if◌then◌else◌,
  Bool, true, false, not, Option, some, none, List, [], ◌∷◌, length, get_elem?, Bool-cases, ltb,
  lt→ltb, arith,
}
use v1util.Callable.Function.{FunctionBase, Heap, has_heap_object, has_embedded_storage}
use v1util.Callable.Function.World.{World, Call, lookup, run, empty_world}
use native.Mathlib.Decide.{dec_lt}
use v1util.Callable.Function.World.{all_allowed}
use v1util.Callable.Function.Counts.{refers, header_of}
use v1util.Callable.Function.Handles.{handles}
use v1util.Callable.Function.Steps.{Owned}
use v1util.Callable.Function.Owned.{run-Owned}
use v1util.Common.Word.{word}
use v1util.Callable.Function.Invoke.{trampoline, storage, call, is_heap_based, equal, ref_count}
use v1util.Callable.Function.Invoke.Origins.{
  Origin, from_nothing, from_static, from_embedded, from_heap, expected_call, Origins, origin_at,
  follow_all, no_origins, Encodes, Agree-lookup, AllHaveCode, run-Follows,
}

handles-lookup :
    (fs : List (Option FunctionBase)) (k : ℕ) (f : FunctionBase)
    → lookup fs k ≡ some f
    → refers f.storage f ≤ handles f.storage fs
handles-lookup [] k f e = cc
handles-lookup (none ∷ fs) zero f e = cc
handles-lookup (some g ∷ fs) zero f e =
    let same : g ≡ f = cc in
    subst (λ x. refers f.storage f ≤ refers f.storage x + handles f.storage fs) (sym same)
      (omega arith)
handles-lookup (x ∷ fs) (suc k) f e = omega (arith, handles-lookup fs k f e)

empty-Owned : Owned empty_world
empty-Owned = record { header = λ i p. absurd (omega arith); absent = λ i p. refl }

-- A call decodes the words.
call-Encodes :
    (self : ℕ) (f : FunctionBase) (o : Origin) → Encodes f o → call self f ≡ expected_call self o
unfolding call expected_call trampoline storage has_heap_object has_embedded_storage
call-Encodes self f from_nothing e = ground arith
call-Encodes self f (from_static p object) ((aligned, positive), word, stored) = ground arith
call-Encodes self f (from_embedded p) ((aligned, positive), word) = ground arith
call-Encodes self f (from_heap p object) ((aligned, positive), word, stored) = ground arith

-- The object of a function on the heap has not been deleted.
abbrev pub object_lives : FunctionBase → Heap → Bool
object_lives f heap =
    if has_heap_object f
    then elim (get_elem? heap f.storage) [ none ↦ false | some header ↦ not header.deleted ]
    else true

header-found :
    (w : World) (k : ℕ) (f : FunctionBase)
    → Owned w
    → lookup w.functions k ≡ some f
    → has_heap_object f ≡ true
    → (0 < handles f.storage w.functions)
      × (get_elem? w.heap f.storage ≡ some (header_of (handles f.storage w.functions)))
header-found w k f o found heap =
    let one : refers f.storage f ≡ 1 = rw heap (ground arith) in
    let some_handle : 0 < handles f.storage w.functions =
      omega (arith, handles-lookup w.functions k f found) in
    (
      some_handle,
      o.header f.storage (elim (dec_lt f.storage (length w.heap)) [
        | yes h ↦ h
        | no h ↦ absurd (omega (arith, o.absent f.storage (omega arith)))
      ]),
    )

object-found :
    (w : World) (k : ℕ) (f : FunctionBase)
    → Owned w
    → lookup w.functions k ≡ some f
    → (object_lives f w.heap ≡ true)
      × (ref_count f w.heap ≡ some (if has_heap_object f then handles f.storage w.functions else 0))
unfolding ref_count
object-found w k f o found = elim (Bool-cases (has_heap_object f)) [
  | inl heap ↦
      let (positive, header) = header-found w k f o found heap in
      let kept : ltb 0 (handles f.storage w.functions) ≡ true = lt→ltb 0 _ positive in
      rw (heap, header, kept) (refl, refl)
  | inr plain ↦ rw plain (refl, refl)
]

-- After a program of fewer than 2 ^ 64 - 1 operations that names only functions that live and code that is
-- not at the null pointer: a call of a function that lives takes the code that the function, or the one that
-- it was copied or moved from, was made with, together with the object it was made with, the address of the
-- function itself for a closure inside it, or the closure that was made on the heap for it; where it was
-- made from nothing or moved from, the call fails an assertion. The closure on the heap has not been
-- deleted, and `_refCount` is the number of the functions that refer to it.
pub call-run :
    (cs : List Call) (end : World) (k self : ℕ) (f : FunctionBase)
    → length cs + 1 < word
    → all_allowed cs [] ≡ true
    → AllHaveCode cs
    → run cs empty_world ≡ some end
    → lookup end.functions k ≡ some f
    → (call self f ≡ expected_call self (origin_at (Origins.slots (follow_all cs no_origins)) k))
      × (object_lives f end.heap ≡ true)
      × (ref_count f end.heap
          ≡ some (if has_heap_object f then handles f.storage end.functions else 0))
unfolding ref_count
call-run cs end k self f b h c e found =
    let (agree, closures) = run-Follows cs empty_world end no_origins c (tt, refl) e in
    let (end', ran, o) = run-Owned cs empty_world empty-Owned (omega arith) h in
    let same : end' ≡ end = cc in
    let (alive, counted) = object-found end k f (subst Owned same o) found in
    (call-Encodes self f _ (Agree-lookup end.functions _ k f agree found), alive, counted)

-- Empty, or some code with at most one of the tags.
abbrev IsTagged : FunctionBase → Type 0
IsTagged f = (f.trampoline ≡ 0) ⊎ ((4 ≤ f.trampoline) × (f.trampoline % 4 ≢ 3))

Encodes-IsTagged : (f : FunctionBase) (o : Origin) → Encodes f o → IsTagged f
Encodes-IsTagged f from_nothing e = inl e
Encodes-IsTagged f (from_static p object) ((a, b), e, s) = inr (omega arith, omega arith)
Encodes-IsTagged f (from_embedded p) ((a, b), e) = inr (omega arith, omega arith)
Encodes-IsTagged f (from_heap p object) ((a, b), e, s) = inr (omega arith, omega arith)

equal-IsTagged :
    (self_f self_g : ℕ) (f g : FunctionBase)
    → IsTagged f
    → (equal self_f f self_g g ≡ true) ↔ (f ≡ g)
unfolding equal is_heap_based storage has_heap_object has_embedded_storage
equal-IsTagged self_f self_g f g (inl e) = ((λ h. ground arith), (λ h. ground arith))
equal-IsTagged self_f self_g f g (inr (p, q)) = ((λ h. ground arith), (λ h. ground arith))

-- Functions of such a program are equal exactly if they have the same code and storage, wherever they are.
pub equal-run :
    (cs : List Call) (end : World) (j k self_f self_g : ℕ) (f g : FunctionBase)
    → AllHaveCode cs
    → run cs empty_world ≡ some end
    → lookup end.functions j ≡ some f
    → lookup end.functions k ≡ some g
    → (equal self_f f self_g g ≡ true) ↔ (f ≡ g)
equal-run cs end j k self_f self_g f g c e found found' =
    let (agree, closures) = run-Follows cs empty_world end no_origins c (tt, refl) e in
    equal-IsTagged self_f self_g f g
      (Encodes-IsTagged f _ (Agree-lookup end.functions _ j f agree found))
