-- ===== src/Container/Result/Balance.antt =====
-- A result is a value or an error, and which objects its assignments construct and destroy.
use v1util.Common.{
  ℕ, zero, suc, ◌+◌, ◌-◌, ◌<◌, ◌≤◌, ◌≡◌, ◌==◌, refl, subst, get_elem?-set, get_elem?-set_other, ap,
  ap₂, ◌∙◌, ◌⊎◌, inl, inr, true, false, Option, some, none, List, [], ◌∷◌, map, get_elem?, set,
  length, Option-cases, if◌then◌else◌, ◌>>=◌, arith,
}
use native.Mathlib.Decide.{ℕ_discrete}
use v1util.Container.Result.{
  Result, value_object, error_object, destroyed, set_flag, value, error, destroy, copy_into,
  copy_over, assign_copy, assign_value, assign_error, apply, move_into, assign_move,
}

module _ {T E : Type 0} where
  -- The result that holds a value or an error.
  abbrev pub cell : T ⊎ E → Result T E
  cell (inl t) = record { storage = value_object t; has_value = true }
  cell (inr e) = record { storage = error_object e; has_value = false }

  -- The objects that it has.
  abbrev pub count : T ⊎ E → ℕ
  count (inl t) = 1
  count (inr e) = 0

-- The assignments of a program to its results, by their numbers.
pub data Assignment (T E : Type 0) : Type 0 where
  to_value : ℕ → T → Assignment T E
  to_error : ℕ → E → Assignment T E
  to_copy : ℕ → ℕ → Assignment T E

module _ {A B : Type 0} (f : A → B) where
  get_elem?-map-some :
      (xs : List A) (i : ℕ) (x : A) → get_elem? xs i ≡ some x → get_elem? (map f xs) i ≡ some (f x)
  get_elem?-map-some [] i x e = cc
  get_elem?-map-some (y ∷ xs) zero x e = let same : y ≡ x = cc in ap (λ z. some (f z)) same
  get_elem?-map-some (y ∷ xs) (suc i) x e = get_elem?-map-some xs i x e

  get_elem?-map-none : (xs : List A) (i : ℕ) → get_elem? xs i ≡ none → get_elem? (map f xs) i ≡ none
  get_elem?-map-none [] i e = refl
  get_elem?-map-none (y ∷ xs) zero e = cc
  get_elem?-map-none (y ∷ xs) (suc i) e = get_elem?-map-none xs i e

  set-map : (xs : List A) (i : ℕ) (x : A) → set (map f xs) i (f x) ≡ map f (set xs i x)
  set-map [] i x = refl
  set-map (y ∷ xs) zero x = refl
  set-map (y ∷ xs) (suc i) x = ap (◌∷◌ (f y)) (set-map xs i x)

set-set : {A : Type 0} (xs : List A) (i : ℕ) (x y : A) → set (set xs i x) i y ≡ set xs i y
set-set [] i x y = refl
set-set (z ∷ xs) zero x y = refl
set-set (z ∷ xs) (suc i) x y = ap (◌∷◌ z) (set-set xs i x y)

module _ {T E : Type 0} where
  -- One result of the program is assigned to.
  unfoldable pub assign_at :
      ℕ → (ℕ × Result T E → ℕ × Result T E) → ℕ × List (Result T E) → Option (ℕ × List (Result T E))
  assign_at this f (live, results) = do
    r ← get_elem? results this
    let (live', r') = f (live, r)
    some (live', set results this r')

  unfoldable pub assign : Assignment T E → ℕ × List (Result T E) → Option (ℕ × List (Result T E))
  assign (to_value this t) s = assign_at this (assign_value t) s
  assign (to_error this e) s = assign_at this (assign_error e) s
  assign (to_copy this other) s = assign_copy this other s

  unfoldable pub assign_all :
      List (Assignment T E) → ℕ × List (Result T E) → Option (ℕ × List (Result T E))
  assign_all [] s = some s
  assign_all (a ∷ rest) s = assign a s >>= assign_all rest

  -- The same on the values and errors alone: only a copy of a result to itself fails.
  unfoldable pub spec_assign : Assignment T E → List (T ⊎ E) → Option (List (T ⊎ E))
  spec_assign (to_value this t) os = do old ← get_elem? os this; some (set os this (inl t))
  spec_assign (to_error this e) os = do old ← get_elem? os this; some (set os this (inr e))
  spec_assign (to_copy this other) os = do
    old ← get_elem? os this
    o ← get_elem? os other
    if this == other then none else some (set os this o)

  unfoldable pub spec_assign_all : List (Assignment T E) → List (T ⊎ E) → Option (List (T ⊎ E))
  spec_assign_all [] os = some os
  spec_assign_all (a ∷ rest) os = spec_assign a os >>= spec_assign_all rest

  -- The objects that the results have.
  abbrev pub total : List (T ⊎ E) → ℕ
  total [] = 0
  total (o ∷ os) = count o + total os

  -- The results that hold these values and errors, with `base` objects elsewhere.
  abbrev pub holding : ℕ → List (T ⊎ E) → ℕ × List (Result T E)
  holding base os = (base + total os, map cell os)

  total-set :
      (os : List (T ⊎ E)) (i : ℕ) (old o : T ⊎ E)
      → get_elem? os i ≡ some old
      → total (set os i o) + count old ≡ total os + count o
  total-set [] i old o e = cc
  total-set (x ∷ os) zero old o e =
      let same : x ≡ old = cc in let n : count x ≡ count old = ap count same in omega arith
  total-set (x ∷ os) (suc i) old o e = omega (arith, total-set os i old o e)

  -- This result's object is destroyed.
  abbrev gone : Result T E
  gone = record { storage = destroyed; has_value = false }

  destroy-cell :
      (live : ℕ) (o : T ⊎ E) → set_flag false (destroy (live, cell o)) ≡ (live - count o, gone)
  unfolding destroy
  destroy-cell live (inl t) = refl
  destroy-cell live (inr e) = ap (λ n. (n, gone)) (omega arith)

  copy_into-cell :
      (live : ℕ) (o : T ⊎ E) → copy_into (cell o) (live, gone) ≡ some (live + count o, cell o)
  unfolding copy_into value error
  copy_into-cell live (inl t) = refl
  copy_into-cell live (inr e) = ap (λ n. some (n, cell (inr e))) (omega arith)

  copy_into-gone : (live : ℕ) → copy_into gone (live, gone) ≡ none
  unfolding copy_into value error
  copy_into-gone live = refl

  count-le :
      (os : List (T ⊎ E)) (i : ℕ) (old : T ⊎ E) → get_elem? os i ≡ some old → count old ≤ total os
  count-le [] i old e = cc
  count-le (x ∷ os) zero old e =
      let same : x ≡ old = cc in let n : count x ≡ count old = ap count same in omega arith
  count-le (x ∷ os) (suc i) old e = omega (arith, count-le os i old e)

  replaced :
      (base : ℕ) (os : List (T ⊎ E)) (i : ℕ) (old o : T ⊎ E)
      → get_elem? os i ≡ some old
      → (base + total os - count old + count o, set (map cell os) i (cell o))
        ≡ holding base (set os i o)
  replaced base os i old o e =
      ap₂ (λ n rs. (n, rs)) (omega (arith, total-set os i old o e, count-le os i old e))
        (set-map cell os i o)

  assign_value-cell :
      (live : ℕ) (t : T) (o : T ⊎ E)
      → assign_value t (live, cell o) ≡ (live - count o + 1, cell (inl t))
  unfolding assign_value destroy
  assign_value-cell live t (inl u) = refl
  assign_value-cell live t (inr e) = ap (λ n. (n, cell (inl t))) (omega arith)

  assign_error-cell :
      (live : ℕ) (e : E) (o : T ⊎ E)
      → assign_error e (live, cell o) ≡ (live - count o + 0, cell (inr e))
  unfolding assign_error destroy
  assign_error-cell live e (inl u) = ap (λ n. (n, cell (inr e))) (omega arith)
  assign_error-cell live e (inr d) = ap (λ n. (n, cell (inr e))) (omega arith)

  assign_at-holding :
      (base : ℕ) (os : List (T ⊎ E)) (i : ℕ) (f : ℕ × Result T E → ℕ × Result T E) (o : T ⊎ E)
      → ((live : ℕ) (old : T ⊎ E) → f (live, cell old) ≡ (live - count old + count o, cell o))
      → assign_at i f (holding base os)
        ≡ (get_elem? os i >>= λ old. some (set os i o)) >>= λ os'. some (holding base os')
  unfolding assign_at
  assign_at-holding base os i f o h = elim (Option-cases (get_elem? os i)) [
    | inl e ↦ rw (get_elem?-map-none cell os i e, e)
    | inr (old, e) ↦
        rw (get_elem?-map-some cell os i old e, e, ◌>>=◌, h (base + total os) old)
          (ap some (replaced base os i old o e))
  ]

  -- An assignment destroys first.
  assign_copy-over :
      (base : ℕ) (os : List (T ⊎ E)) (i j : ℕ) (old : T ⊎ E)
      → get_elem? os i ≡ some old
      → assign_copy i j (holding base os)
        ≡ copy_over i j (map cell os) (base + total os - count old, gone)
  unfolding assign_copy
  assign_copy-over base os i j old e =
      rw (get_elem?-map-some cell os i old e, ◌>>=◌)
        (ap (copy_over i j (map cell os)) (destroy-cell (base + total os) old))

  assign_copy-none :
      (base : ℕ) (os : List (T ⊎ E)) (i j : ℕ)
      → get_elem? os i ≡ none
      → assign_copy i j (holding base os) ≡ none
  unfolding assign_copy
  assign_copy-none base os i j e = rw (get_elem?-map-none cell os i e)

  copy_over-other :
      (live : ℕ) (os : List (T ⊎ E)) (i j : ℕ) (o : T ⊎ E)
      → get_elem? os j ≡ some o
      → (i ≡ j → ⊥)
      → copy_over i j (map cell os) (live, gone)
        ≡ some (live + count o, set (map cell os) i (cell o))
  unfolding copy_over
  copy_over-other live os i j o g ne = rw (
    get_elem?-set_other (map cell os) i j gone ne ∙ get_elem?-map-some cell os j o g,
    ◌>>=◌,
    copy_into-cell live o,
    ◌>>=◌,
    set-set (map cell os) i gone (cell o),
  )

  copy_over-none :
      (live : ℕ) (os : List (T ⊎ E)) (i j : ℕ)
      → get_elem? os j ≡ none
      → (i ≡ j → ⊥)
      → copy_over i j (map cell os) (live, gone) ≡ none
  unfolding copy_over
  copy_over-none live os i j g ne =
      rw (get_elem?-set_other (map cell os) i j gone ne ∙ get_elem?-map-none cell os j g)

  copy_over-itself :
      (live : ℕ) (results : List (Result T E)) (i : ℕ)
      → i < length results
      → copy_over i i results (live, gone) ≡ none
  unfolding copy_over
  copy_over-itself live results i h =
      rw (get_elem?-set results i gone h, ◌>>=◌, copy_into-gone live)

  get_elem?-map-length :
      (os : List (T ⊎ E)) (i : ℕ) (old : T ⊎ E)
      → get_elem? os i ≡ some old
      → i < length (map cell os)
  get_elem?-map-length [] i old e = cc
  get_elem?-map-length (x ∷ os) zero old e = omega arith
  get_elem?-map-length (x ∷ os) (suc i) old e = omega (arith, get_elem?-map-length os i old e)

  -- A result is copied to another one, or to itself.
  assign_copy-holding :
      (base : ℕ) (os : List (T ⊎ E)) (i j : ℕ) (old : T ⊎ E)
      → get_elem? os i ≡ some old
      → assign_copy i j (holding base os) ≡ (
          (get_elem? os j >>= λ o. if i == j then none else some (set os i o)) >>= λ os'.
          some (holding base os'))
  assign_copy-holding base os i j old e = elim (ℕ_discrete i j) [
    | yes same ↦
        let equal : (i == i) ≡ true = ground arith in
        subst
          (λ k. assign_copy i k (holding base os) ≡ (
            (get_elem? os k >>= λ o. if i == k then none else some (set os i o)) >>= λ os'.
            some (holding base os')))
          same
          (assign_copy-over base os i i old e
            ∙ copy_over-itself _ (map cell os) i (get_elem?-map-length os i old e)
            ∙ rw (e, ◌>>=◌, equal) refl)
    | no ne ↦
        let differs : (i == j) ≡ false = ground arith in
        elim (Option-cases (get_elem? os j)) [
          | inl g ↦ assign_copy-over base os i j old e ∙ copy_over-none _ os i j g ne ∙ rw g refl
          | inr (o, g) ↦
              assign_copy-over base os i j old e
              ∙ copy_over-other _ os i j o g ne
              ∙ ap some (replaced base os i old o e)
              ∙ rw (g, ◌>>=◌, differs) refl
        ]
  ]

  assign-holding :
      (base : ℕ) (a : Assignment T E) (os : List (T ⊎ E))
      → assign a (holding base os) ≡ (spec_assign a os >>= λ os'. some (holding base os'))
  unfolding assign spec_assign
  assign-holding base (to_value i t) os =
      assign_at-holding base os i (assign_value t) (inl t)
        (λ live old. assign_value-cell live t old)
  assign-holding base (to_error i e) os =
      assign_at-holding base os i (assign_error e) (inr e)
        (λ live old. assign_error-cell live e old)
  assign-holding base (to_copy i j) os = elim (Option-cases (get_elem? os i)) [
    | inl e ↦ assign_copy-none base os i j e ∙ rw e refl
    | inr (old, e) ↦ assign_copy-holding base os i j old e ∙ rw (e, ◌>>=◌) refl
  ]

  -- A program of assignments of values and errors that stand outside the program's results, and of copies
  -- between these, follows the same program on the values and errors alone, where only a copy of a result to
  -- itself and a number of no result fail: no assertion fires and no destroyed object is read but by a result
  -- that is assigned to itself, and every value that is replaced is destroyed, so that the live objects are
  -- those elsewhere and those that the results hold.
  pub assign_all-final :
      (base : ℕ) (program : List (Assignment T E)) (os : List (T ⊎ E))
      → assign_all program (holding base os)
        ≡ (spec_assign_all program os >>= λ os'. some (holding base os'))
  unfolding assign_all spec_assign_all
  assign_all-final base [] os = refl
  assign_all-final base (a ∷ rest) os = elim (Option-cases (spec_assign a os)) [
    | inl e ↦ rw (assign-holding base a os, e)
    | inr (os', e) ↦ rw (assign-holding base a os, e, ◌>>=◌) (assign_all-final base rest os')
  ]

  -- After a move from a result that holds a value, which is one of the live objects, this result holds the
  -- value and the other the error for an empty one, but an object more is live than the two hold.
  pub assign_move-live :
      (empty_error : E) (base : ℕ) (t : T) (o : T ⊎ E)
      → assign_move empty_error (cell (inl t)) (base + 1 + count o, cell o)
        ≡ some (base + 1 + count {T = T} {E = E} (inl t), cell (inl t), cell (inr empty_error))
  unfolding assign_move move_into value destroy
  assign_move-live empty_error base t (inl u) =
      ap (λ k. some (k, cell (inl t), cell (inr empty_error))) (omega arith)
  assign_move-live empty_error base t (inr e) =
      ap (λ k. some (k, cell (inl t), cell (inr empty_error))) (omega arith)

  -- `apply` hands the value to the functor, or passes the error on.
  pub apply-cell :
      {U : Type 0} (functor : T → U) (pass_on : E → U)
      → (o : T ⊎ E)
      → apply functor pass_on (cell o) ≡ some (elim o [ inl t ↦ functor t | inr e ↦ pass_on e ])
  unfolding apply value error
  apply-cell functor pass_on (inl t) = refl
  apply-cell functor pass_on (inr e) = refl
