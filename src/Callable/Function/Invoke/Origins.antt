-- ===== src/Callable/Function/Invoke/Origins.antt =====
-- What each function of a program was made from, followed without tags, storage words or counts.
use v1util.Common.{
  ℕ, zero, suc, ◌+◌, ◌%◌, ◌≡◌, ◌≢◌, refl, sym, subst, ap, ◌∙◌, Bool, true, false, Option, some,
  none, List, [], ◌∷◌, ◌++◌, length, length-set, length-append, get_elem?, set, >>=-eq-some,
  v1_assert, if◌then◌else◌, not, ◌==◌, ◌>>=◌, arith,
}
use v1util.Callable.Function.{
  FunctionBase, Heap, HeapHeader, has_heap_object, set_trampoline, create_heap_object, copy_object,
  free_heap_object, release,
}
use v1util.Callable.Function.World.{
  World, Call, construct_default, construct_static, construct_embedded, construct_heap,
  construct_copy, construct_move, assign_copy, assign_move, destroy, lookup, step, run,
}

-- Nothing, code with an object of the program's, code with a closure inside the function, or code with the
-- closure that was the given one to be made on the heap.
pub data Origin : Type 0 where
  from_nothing : Origin
  from_static : ℕ → ℕ → Origin
  from_embedded : ℕ → Origin
  from_heap : ℕ → ℕ → Origin

-- What a call has to take: the code and its first argument.
unfoldable pub expected_call : ℕ → Origin → Option (ℕ × ℕ)
expected_call self from_nothing = none
expected_call self (from_static p object) = some (p, object)
expected_call self (from_embedded p) = some (p, self)
expected_call self (from_heap p object) = some (p, object)

-- The number of closures that were made on the heap, and the origin of each function.
pub record Origins : Type 0 where
  pub closures : ℕ
  pub slots : List Origin

-- The origin in a slot.
abbrev pub origin_at : List Origin → ℕ → Origin
origin_at [] k = from_nothing
origin_at (o ∷ os) zero = o
origin_at (o ∷ os) (suc k) = origin_at os k

abbrev new_slot : Origin → Origins → Origins
new_slot o s = record s { slots = s.slots ++ o ∷ [] }

-- A copy has the origin of its source, and so has what was moved; the source of a move is left with nothing.
unfoldable pub follow : Call → Origins → Origins
follow construct_default s = new_slot from_nothing s
follow (construct_static p object) s = new_slot (from_static p object) s
follow (construct_embedded p bytes) s = new_slot (from_embedded p) s
follow (construct_heap p) s = record {
  closures = s.closures + 1;
  slots = s.slots ++ from_heap p s.closures ∷ [];
}
follow (construct_copy src) s = new_slot (origin_at s.slots src) s
follow (construct_move src) s = record s {
  slots = set s.slots src from_nothing ++ origin_at s.slots src ∷ [];
}
follow (assign_copy dst src) s = record s { slots = set s.slots dst (origin_at s.slots src) }
follow (assign_move dst src) s = record s {
  slots = set (set s.slots dst (origin_at s.slots src)) src from_nothing;
}
follow (destroy k) s = record s { slots = set s.slots k from_nothing }

unfoldable pub follow_all : List Call → Origins → Origins
follow_all [] s = s
follow_all (c ∷ cs) s = follow_all cs (follow c s)

abbrev pub no_origins : Origins
no_origins = record { closures = 0; slots = [] }

abbrev IsCode : ℕ → Type 0
IsCode p = (p % 4 ≡ 0) × (p ≢ 0)

-- The words of a function with an origin.
abbrev pub Encodes : FunctionBase → Origin → Type 0
Encodes f from_nothing = f.trampoline ≡ 0
Encodes f (from_static p object) = IsCode p × (f.trampoline ≡ p) × (f.storage ≡ object)
Encodes f (from_embedded p) = IsCode p × (f.trampoline ≡ p + 2)
Encodes f (from_heap p object) = IsCode p × (f.trampoline ≡ p + 1) × (f.storage ≡ object)

abbrev EncodesSlot : Option FunctionBase → Origin → Type 0
EncodesSlot none o = Unit
EncodesSlot (some f) o = Encodes f o

abbrev pub Agree : List (Option FunctionBase) → List Origin → Type 0
Agree [] [] = Unit
Agree [] (o ∷ os) = ⊥
Agree (x ∷ xs) [] = ⊥
Agree (x ∷ xs) (o ∷ os) = EncodesSlot x o × Agree xs os

Agree-append :
    (fs : List (Option FunctionBase)) (os : List Origin) (f : FunctionBase) (o : Origin)
    → Agree fs os
    → Encodes f o
    → Agree (fs ++ some f ∷ []) (os ++ o ∷ [])
Agree-append [] [] f o h k = (k, tt)
Agree-append [] (u ∷ os) f o h k = absurd h
Agree-append (x ∷ fs) [] f o h k = absurd h
Agree-append (x ∷ fs) (u ∷ os) f o h k = (h.0, Agree-append fs os f o h.1 k)

Agree-set :
    (fs : List (Option FunctionBase)) (os : List Origin) (i : ℕ) (x : Option FunctionBase)
    (o : Origin)
    → Agree fs os
    → EncodesSlot x o
    → Agree (set fs i x) (set os i o)
Agree-set [] [] i x o h k = h
Agree-set [] (u ∷ os) i x o h k = absurd h
Agree-set (y ∷ fs) [] i x o h k = absurd h
Agree-set (y ∷ fs) (u ∷ os) zero x o h k = (k, h.1)
Agree-set (y ∷ fs) (u ∷ os) (suc i) x o h k = (h.0, Agree-set fs os i x o h.1 k)

pub Agree-lookup :
    (fs : List (Option FunctionBase)) (os : List Origin) (i : ℕ) (f : FunctionBase)
    → Agree fs os
    → lookup fs i ≡ some f
    → Encodes f (origin_at os i)
Agree-lookup [] os i f h e = cc
Agree-lookup (x ∷ fs) [] i f h e = absurd h
Agree-lookup (none ∷ fs) (o ∷ os) zero f h e = cc
Agree-lookup (some g ∷ fs) (o ∷ os) zero f h e =
    let same : g ≡ f = cc in subst (λ k. Encodes k o) same h.0
Agree-lookup (x ∷ fs) (o ∷ os) (suc i) f h e = Agree-lookup fs os i f h.1 e

-- The code that a call of a constructor names is not at the null pointer.
abbrev pub HasCode : Call → Type 0
HasCode (construct_static p object) = p ≢ 0
HasCode (construct_embedded p bytes) = p ≢ 0
HasCode (construct_heap p) = p ≢ 0
HasCode c = Unit

abbrev pub AllHaveCode : List Call → Type 0
AllHaveCode [] = Unit
AllHaveCode (c ∷ cs) = HasCode c × AllHaveCode cs

-- The words and the number of closures follow the origins.
abbrev pub Follows : World → Origins → Type 0
Follows w s = Agree w.functions s.slots × (length w.heap ≡ s.closures)

asserted :
    {A : Type 0} (b : Bool) (u t : A)
    → (v1_assert b >>= λ _. some u) ≡ some t
    → (b ≡ true) × (u ≡ t)
asserted true u t e = (refl, cc)
asserted false u t e = cc

set_trampoline-code :
    (p : ℕ) (h e : Bool) (t : ℕ)
    → set_trampoline p h e ≡ some t
    → (p % 4 ≡ 0) × (t ≡ p + (if h then 1 else 0) + (if e then 2 else 0))
unfolding set_trampoline
set_trampoline-code p h e t r =
    let (aligned, word) = asserted (p % 4 == 0) _ t r in (ground arith, sym word)

-- A heap keeps its size.
kept_length :
    (b : Bool) (heap heap' : Heap) (m : Option Heap)
    → ((h : Heap) → m ≡ some h → length h ≡ length heap)
    → (if b then m else some heap) ≡ some heap'
    → length heap' ≡ length heap
kept_length true heap heap' m f e = f heap' e
kept_length false heap heap' m f e = let same : heap ≡ heap' = cc in ap length (sym same)

replaced_length :
    (heap h : Heap) (k : ℕ) (x : HeapHeader) → some (set heap k x) ≡ some h → length h ≡ length heap
replaced_length heap h k x e =
    let same : set heap k x ≡ h = cc in ap length (sym same) ∙ length-set heap k x

copy_object-length :
    (f : FunctionBase) (heap heap' : Heap)
    → copy_object f heap ≡ some heap'
    → length heap' ≡ length heap
unfolding copy_object
copy_object-length f heap heap' = kept_length (has_heap_object f) heap heap' _ (λ h e.
    let (header, found, e₁) = >>=-eq-some (get_elem? heap f.storage) _ e in
    let (_, alive, e₂) = >>=-eq-some (v1_assert (not header.deleted)) _ e₁ in
    replaced_length heap h f.storage _ e₂)

release-length :
    (f : FunctionBase) (heap heap' : Heap)
    → release f heap ≡ some heap'
    → length heap' ≡ length heap
unfolding release free_heap_object
release-length f heap heap' = kept_length (has_heap_object f) heap heap' _ (λ h e.
    let (header, found, e₁) = >>=-eq-some (get_elem? heap f.storage) _ e in
    let (_, alive, e₂) = >>=-eq-some (v1_assert (not header.deleted)) _ e₁ in
    replaced_length heap h f.storage _ e₂)

Follows-next :
    (now next : World) (s : Origins) → some now ≡ some next → Follows now s → Follows next s
Follows-next now next s e h = let same : now ≡ next = cc in subst (λ w. Follows w s) same h

step-Follows :
    (c : Call) (w next : World) (s : Origins)
    → HasCode c
    → Follows w s
    → step c w ≡ some next
    → Follows next (follow c s)
unfolding step follow create_heap_object
step-Follows construct_default w next s k (h, n) e =
    Follows-next _ next _ e (Agree-append w.functions s.slots _ from_nothing h refl, n)
step-Follows (construct_static p object) w next s k (h, n) e =
    let (t, tagged, e') = >>=-eq-some (set_trampoline p false false) _ e in
    let (aligned, word) = set_trampoline-code p false false t tagged in
    Follows-next _ next _ e' (
      Agree-append w.functions s.slots _ (from_static p object) h ((aligned, k), omega arith, refl),
      n,
    )
step-Follows (construct_embedded p bytes) w next s k (h, n) e =
    let (t, tagged, e') = >>=-eq-some (set_trampoline p false true) _ e in
    let (aligned, word) = set_trampoline-code p false true t tagged in
    Follows-next _ next _ e'
      (Agree-append w.functions s.slots _ (from_embedded p) h ((aligned, k), omega arith), n)
step-Follows (construct_heap p) w next s k (h, n) e =
    let (made, created, e') = >>=-eq-some (create_heap_object p w.heap) _ e in
    let (t, tagged, e'') = >>=-eq-some (set_trampoline p true false) _ created in
    let (aligned, word) = set_trampoline-code p true false t tagged in
    let same : (
      record { storage = length w.heap; trampoline = t },
      w.heap ++ record { ref_count = 1; deleted = false } ∷ [],
    )
        ≡ made =
      cc in
    Follows-next _ next _ e' (
      subst
        (λ m.
          Agree (w.functions ++ some (m.0) ∷ []) (s.slots ++ from_heap p s.closures ∷ [])
          × (length (m.1) ≡ s.closures + 1))
        same
        (
          Agree-append w.functions s.slots _ (from_heap p s.closures) h
              ((aligned, k), omega arith, n),
          omega (arith, length-append w.heap (record { ref_count = 1; deleted = false } ∷ [])),
        ))
step-Follows (construct_copy src) w next s k (h, n) e =
    let (other, found, e') = >>=-eq-some (lookup w.functions src) _ e in
    let (heap, copied, e'') = >>=-eq-some (copy_object other w.heap) _ e' in
    Follows-next _ next _ e'' (
      Agree-append w.functions s.slots _ _ h (Agree-lookup w.functions s.slots src other h found),
      copy_object-length other w.heap heap copied ∙ n,
    )
step-Follows (construct_move src) w next s k (h, n) e =
    let (other, found, e') = >>=-eq-some (lookup w.functions src) _ e in
    Follows-next _ next _ e' (
      Agree-append _ _ _ _
          (Agree-set w.functions s.slots src (some (record other { trampoline = 0 })) from_nothing h
            refl)
          (Agree-lookup w.functions s.slots src other h found),
      n,
    )
step-Follows (assign_copy dst src) w next s k (h, n) e =
    let (old, had, e₁) = >>=-eq-some (lookup w.functions dst) _ e in
    let (other, found, e₂) = >>=-eq-some (lookup w.functions src) _ e₁ in
    let (heap, copied, e₃) = >>=-eq-some (copy_object other w.heap) _ e₂ in
    let (heap', released, e₄) = >>=-eq-some (release old heap) _ e₃ in
    Follows-next _ next _ e₄ (
      Agree-set w.functions s.slots dst (some other) _ h
          (Agree-lookup w.functions s.slots src other h found),
      release-length old heap heap' released ∙ copy_object-length other w.heap heap copied ∙ n,
    )
step-Follows (assign_move dst src) w next s k (h, n) e =
    let (old, had, e₁) = >>=-eq-some (lookup w.functions dst) _ e in
    let (other, found, e₂) = >>=-eq-some (lookup w.functions src) _ e₁ in
    let (heap, released, e₃) = >>=-eq-some (release old w.heap) _ e₂ in
    Follows-next _ next _ e₃ (
      Agree-set _ _ src (some (record other { trampoline = 0 })) from_nothing
          (Agree-set w.functions s.slots dst (some other) _ h
            (Agree-lookup w.functions s.slots src other h found))
          refl,
      release-length old w.heap heap released ∙ n,
    )
step-Follows (destroy i) w next s k (h, n) e =
    let (old, had, e₁) = >>=-eq-some (lookup w.functions i) _ e in
    let (heap, released, e₂) = >>=-eq-some (release old w.heap) _ e₁ in
    Follows-next _ next _ e₂ (
      Agree-set w.functions s.slots i none from_nothing h tt,
      release-length old w.heap heap released ∙ n,
    )

pub run-Follows :
    (cs : List Call) (w end : World) (s : Origins)
    → AllHaveCode cs
    → Follows w s
    → run cs w ≡ some end
    → Follows end (follow_all cs s)
unfolding run follow_all
run-Follows [] w end s k h e = Follows-next w end s e h
run-Follows (c ∷ cs) w end s k h e =
    let (next, stepped, e') = >>=-eq-some (step c w) _ e in
    run-Follows cs next end (follow c s) k.1 (step-Follows c w next s k.0 h stepped) e'
