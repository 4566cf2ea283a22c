-- ===== src/Callable/Function/Counts.antt =====
-- The headers on the heap against the number of functions that refer to each object.
use v1util.Common.{
  ℕ, ◌+◌, ◌-◌, ◌<◌, ◌≤◌, ◌≡◌, refl, sym, ap, ◌∙◌, ◌==◌, ltb, if◌then◌else◌, true, false, not, some,
  [], ◌∷◌, length, length-set, length-append, ◌++◌, get_elem?-append, get_elem?-append_left,
  get_elem?, set, get_elem?-set, get_elem?-set_other, inl, inr, Bool-cases, lt→ltb, subst, arith,
}
use native.Mathlib.Decide.{ℕ_discrete, dec_lt}
use v1util.Common.Word.{word, add64_exact, sub64, sub64_exact}
use v1util.Callable.Function.{
  HeapHeader, Heap, FunctionBase, has_heap_object, copy_object, free_heap_object, release,
}

-- The header of an object that `n` functions refer to.
abbrev pub header_of : ℕ → HeapHeader
header_of n = record { ref_count = n; deleted = not (ltb 0 n) }

pub record Counts (h : ℕ → ℕ) (heap : Heap) : Type 0 where
  pub header : (i : ℕ) → i < length heap → get_elem? heap i ≡ some (header_of (h i))
  pub absent : (i : ℕ) → length heap ≤ i → h i ≡ 0

-- 1 where `f` refers to the object `i`.
abbrev pub refers : ℕ → FunctionBase → ℕ
refers i f = if has_heap_object f then (if f.storage == i then 1 else 0) else 0

refers_self : (f : FunctionBase) → has_heap_object f ≡ true → refers f.storage f ≡ 1
refers_self f e = rw e (ground arith)

refers_other : (i : ℕ) (f : FunctionBase) → (f.storage ≡ i → ⊥) → refers i f ≡ 0
refers_other i f ne = ground arith

pub refers_none : (i : ℕ) (f : FunctionBase) → has_heap_object f ≡ false → refers i f ≡ 0
refers_none i f e = rw e

pub Counts-same :
    {h h' : ℕ → ℕ} {heap : Heap} → Counts h heap → ((i : ℕ) → h' i ≡ h i) → Counts h' heap
Counts-same c same = record {
  header = λ i p. c.header i p ∙ ap (λ z. some (header_of z)) (sym (same i));
  absent = λ i p. same i ∙ c.absent i p;
}

-- One object's count changes.
Counts-set :
    {h h' : ℕ → ℕ} {heap : Heap} (k n : ℕ)
    → Counts h heap
    → k < length heap
    → h' k ≡ n
    → ((i : ℕ) → (k ≡ i → ⊥) → h' i ≡ h i)
    → Counts h' (set heap k (header_of n))
Counts-set {h} {h'} {heap} k n c b here there =
    let len : length (set heap k (header_of n)) ≡ length heap = length-set heap k (header_of n) in
    record {
      header = λ i p. elim (ℕ_discrete k i) [
        | yes e ↦
            subst (λ z. get_elem? (set heap k (header_of n)) z ≡ some (header_of (h' z))) e
              (get_elem?-set heap k (header_of n) b ∙ ap (λ z. some (header_of z)) (sym here))
        | no ne ↦
            get_elem?-set_other heap k i (header_of n) ne
            ∙ c.header i (omega arith)
            ∙ ap (λ z. some (header_of z)) (sym (there i ne))
      ];
      absent = λ i p. there i (λ e. omega arith) ∙ c.absent i (omega arith);
    }

on_heap :
    {h : ℕ → ℕ} {heap : Heap} (f : FunctionBase)
    → Counts h heap
    → has_heap_object f ≡ true
    → 0 < h f.storage
    → f.storage < length heap
on_heap {h} {heap} f c e live = elim (dec_lt f.storage (length heap)) [
  | yes p ↦ p
  | no p ↦ absurd (omega (arith, c.absent f.storage (omega arith)))
]

pub copy_object-Counts :
    {h h' : ℕ → ℕ} {heap : Heap} (f : FunctionBase)
    → Counts h heap
    → ((i : ℕ) → refers i f ≤ h i)
    → ((i : ℕ) → h i + 1 < word)
    → ((i : ℕ) → h' i ≡ h i + refers i f)
    → (heap' : Heap) × (copy_object f heap ≡ some heap') × Counts h' heap'
unfolding copy_object
copy_object-Counts {h} {h'} {heap} f c live small next = elim (Bool-cases (has_heap_object f)) [
  | inl e ↦
      let k : ℕ = f.storage in
      let one : refers k f ≡ 1 = refers_self f e in
      let positive : ltb 0 (h k) ≡ true = lt→ltb 0 (h k) (omega (arith, live k)) in
      let positive' : ltb 0 (h k + 1) ≡ true = lt→ltb 0 (h k + 1) (omega arith) in
      let there : k < length heap = on_heap f c e (omega (arith, live k)) in
      (
        set heap k (header_of (h k + 1)),
        rw (e, c.header k there, positive, positive', add64_exact (h k) 1 (small k)),
        Counts-set k (h k + 1) c there (omega (arith, next k))
            (λ i ne. omega (arith, next i, refers_other i f ne)),
      )
  | inr e ↦ (heap, rw e, Counts-same c (λ i. omega (arith, next i, refers_none i f e)))
]

pub release-Counts :
    {h h' : ℕ → ℕ} {heap : Heap} (f : FunctionBase)
    → Counts h heap
    → ((i : ℕ) → h i < word)
    → ((i : ℕ) → h i ≡ h' i + refers i f)
    → (heap' : Heap) × (release f heap ≡ some heap') × Counts h' heap'
unfolding release free_heap_object
release-Counts {h} {h'} {heap} f c small next = elim (Bool-cases (has_heap_object f)) [
  | inl e ↦
      let k : ℕ = f.storage in
      let one : refers k f ≡ 1 = refers_self f e in
      let positive : ltb 0 (h k) ≡ true = lt→ltb 0 (h k) (omega (arith, next k)) in
      let there : k < length heap = on_heap f c e (omega (arith, next k)) in
      let left : sub64 (h k) 1 ≡ h k - 1 = sub64_exact (h k) 1 (small k) (omega (arith, next k)) in
      (
        set heap k (header_of (h k - 1)),
        rw (e, c.header k there, positive, left),
        Counts-set k (h k - 1) c there (omega (arith, next k))
            (λ i ne. omega (arith, next i, refers_other i f ne)),
      )
  | inr e ↦ (heap, rw e, Counts-same c (λ i. omega (arith, next i, refers_none i f e)))
]

-- A new object with one function that refers to it.
pub Counts-append :
    {h h' : ℕ → ℕ} {heap : Heap}
    → Counts h heap
    → h' (length heap) ≡ 1
    → ((i : ℕ) → (length heap ≡ i → ⊥) → h' i ≡ h i)
    → Counts h' (heap ++ header_of 1 ∷ [])
Counts-append {h} {h'} {heap} c new old =
    let len : length (heap ++ header_of 1 ∷ []) ≡ length heap + 1 =
      length-append heap (header_of 1 ∷ []) in
    record {
      header = λ i p. elim (ℕ_discrete (length heap) i) [
        | yes e ↦
            subst (λ z. get_elem? (heap ++ header_of 1 ∷ []) z ≡ some (header_of (h' z))) e
              (get_elem?-append (length heap) heap (header_of 1) [] refl
                ∙ ap (λ z. some (header_of z)) (sym new))
        | no ne ↦
            get_elem?-append_left heap (header_of 1 ∷ []) i (omega arith)
            ∙ c.header i (omega arith)
            ∙ ap (λ z. some (header_of z)) (sym (old i ne))
      ];
      absent = λ i p. old i (λ e. omega arith) ∙ c.absent i (omega arith);
    }
