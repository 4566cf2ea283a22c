-- ===== src/Dsp/PeakFinder/Isolator/Memory.antt =====
-- The second queue of the isolator, from the back: positions fall, but the last entry may stand where the
-- one before it does, when it was there from the start.
use v1util.Common.{
  ℕ, suc, ◌-◌, ◌≤◌, ◌<◌, ◌≡◌, refl, sym, ap, subst, ◌⊎◌, inl, inr, if◌then◌else◌, Bool, false, List,
  [], ◌∷◌, Bool-cases, here, length, arith,
}
use mathlib.Core.List.{Memᴰ}
use mathlib.Core.List.Memᴰ
use mathlib.Core.List.Memᴰ.{tail}
use v1util.Container.Deque.Loops.{drop_while, trim, trim_cons}
use v1util.Container.Deque.Kept.{drop_while-Memᴰ, trim-Memᴰ, trim_cons-guard}
use v1util.Dsp.PeakFinder.Isolator.{ValueAtPos}

-- Entries of one kind at falling positions below a bound, with one of the other kind at the end at most.
unfoldable pub Layered :
    (ValueAtPos → Type 0) → (ValueAtPos → Type 0) → ℕ → List ValueAtPos → Type 0
Layered own lock bound [] = Unit
Layered own lock bound (u ∷ us) =
    (own u × (u.stream_pos < bound) × Layered own lock u.stream_pos us)
    ⊎ ((us ≡ []) × lock u × (u.stream_pos ≤ bound))

module _ (own own' lock : ValueAtPos → Type 0) (more : (u : ValueAtPos) → own u → own' u) where
  pub Layered-more :
      (bound : ℕ) (us : List ValueAtPos) → Layered own lock bound us → Layered own' lock bound us
  unfolding Layered
  Layered-more bound [] h = tt
  Layered-more bound (u ∷ us) (inl (a, b, c)) = inl (more u a, b, Layered-more u.stream_pos us c)
  Layered-more bound (u ∷ us) (inr e) = inr e

module _ (own lock : ValueAtPos → Type 0) where
  pub Layered-up :
      (bound higher : ℕ) (us : List ValueAtPos)
      → bound ≤ higher
      → Layered own lock bound us
      → Layered own lock higher us
  unfolding Layered
  Layered-up bound higher [] le h = tt
  Layered-up bound higher (u ∷ us) le (inl (a, b, c)) = inl (a, omega arith, c)
  Layered-up bound higher (u ∷ us) le (inr (e, a, b)) = inr (e, a, omega arith)

  pub Layered-Memᴰ :
      (bound : ℕ) (us : List ValueAtPos) (y : ValueAtPos)
      → Layered own lock bound us
      → Memᴰ y us
      → (own y × (y.stream_pos < bound)) ⊎ (lock y × (y.stream_pos ≤ bound))
  unfolding Layered
  Layered-Memᴰ bound [] y h i = absurd (Memᴰ.not-nil i)
  Layered-Memᴰ bound (u ∷ us) y (inl (a, b, c)) i = elim (Memᴰ.cases_cons i) [
    | inl q ↦
        subst (λ k. (own k × (k.stream_pos < bound)) ⊎ (lock k × (k.stream_pos ≤ bound))) (sym q)
          (inl (a, b))
    | inr j ↦ elim (Layered-Memᴰ u.stream_pos us y c j) [
      | inl (o, lt) ↦ inl (o, omega arith)
      | inr (o, le) ↦ inr (o, omega arith)
    ]
  ]
  Layered-Memᴰ bound (u ∷ us) y (inr (e, a, b)) i =
      let q = Memᴰ.eq_of_singleton (subst (λ z. Memᴰ y (u ∷ z)) e i) in
      subst (λ k. (own k × (k.stream_pos < bound)) ⊎ (lock k × (k.stream_pos ≤ bound))) (sym q)
        (inr (a, b))

  -- The bound only matters for the first entry.
  pub Layered-bound :
      (bound lower : ℕ) (us : List ValueAtPos)
      → ((y : ValueAtPos) → Memᴰ y us → own y → y.stream_pos < lower)
      → ((y : ValueAtPos) → Memᴰ y us → lock y → y.stream_pos ≤ lower)
      → Layered own lock bound us
      → Layered own lock lower us
  unfolding Layered
  Layered-bound bound lower [] f g h = tt
  Layered-bound bound lower (u ∷ us) f g (inl (a, b, c)) = inl (a, f u (here u us) a, c)
  Layered-bound bound lower (u ∷ us) f g (inr (e, a, b)) = inr (e, a, g u (here u us) a)

  pub length-Layered :
      (lo bound : ℕ) (us : List ValueAtPos)
      → Layered own lock bound us
      → ((y : ValueAtPos) → Memᴰ y us → lo ≤ y.stream_pos)
      → length us ≤ suc (bound - lo)
  unfolding Layered
  length-Layered lo bound [] h l = omega arith
  length-Layered lo bound (u ∷ us) (inl (a, b, c)) l =
      let rest = length-Layered lo u.stream_pos us c (λ y i. l y (tail i)) in
      let low = l u (here u us) in omega arith
  length-Layered lo bound (u ∷ us) (inr (e, a, b)) l = omega (arith, ap length e)

  module _ (test : ValueAtPos → Bool) where
    pub Layered-drop_while :
        (bound : ℕ) (us : List ValueAtPos)
        → Layered own lock bound us
        → Layered own lock bound (drop_while test us)
    unfolding Layered
    Layered-drop_while bound [] h = tt
    Layered-drop_while bound (u ∷ us) (inl (a, b, c)) = elim (Bool-cases (test u)) [
      | inl e ↦
          rw e
            (Layered-up u.stream_pos bound _ (omega arith) (Layered-drop_while u.stream_pos us c))
      | inr e ↦ rw e (inl (a, b, c))
    ]
    Layered-drop_while bound (u ∷ us) (inr (n, a, b)) = elim (Bool-cases (test u)) [
      | inl e ↦ rw (e, n) tt
      | inr e ↦ rw e (inr (n, a, b))
    ]

    Layered-trim_cons :
        (bound : ℕ) (u : ValueAtPos) (us : List ValueAtPos)
        → Layered own lock bound (u ∷ us)
        → Layered own lock bound (trim_cons test u us)
    unfolding Layered
    Layered-trim_cons bound u [] h = elim (Bool-cases (test u)) [ inl e ↦ rw e tt | inr e ↦ rw e h ]
    Layered-trim_cons bound u (v ∷ us) h = h

    pub Layered-trim :
        (bound : ℕ) (us : List ValueAtPos)
        → Layered own lock bound us
        → Layered own lock bound (trim test us)
    unfolding Layered
    Layered-trim bound [] h = tt
    Layered-trim bound (u ∷ us) (inl (a, b, c)) =
        Layered-trim_cons bound u (trim test us) (inl (a, b, Layered-trim u.stream_pos us c))
    Layered-trim bound (u ∷ us) (inr (n, a, b)) =
        Layered-trim_cons bound u (trim test us) (inr (rw (n) refl, a, b))

    -- No entry stands behind the first.
    Layered-first :
        (bound : ℕ) (u : ValueAtPos) (us : List ValueAtPos) (y : ValueAtPos)
        → Layered own lock bound (u ∷ us)
        → Memᴰ y us
        → y.stream_pos ≤ u.stream_pos
    unfolding Layered
    Layered-first bound u us y (inl (a, b, c)) i = elim (Layered-Memᴰ u.stream_pos us y c i) [
      | inl (o, lt) ↦ omega arith
      | inr (o, le) ↦ le
    ]
    Layered-first bound u us y (inr (n, a, b)) i = absurd (Memᴰ.not-nil (subst (Memᴰ y) n i))

    Layered-rest :
        (bound : ℕ) (u : ValueAtPos) (us : List ValueAtPos)
        → Layered own lock bound (u ∷ us)
        → Layered own lock u.stream_pos us
    unfolding Layered
    Layered-rest bound u us (inl (a, b, c)) = c
    Layered-rest bound u us (inr (n, a, b)) = rw n tt

    pub drop_while-guard_Layered :
        (bound : ℕ) (us : List ValueAtPos) (x : ValueAtPos)
        → Layered own lock bound us
        → Memᴰ x (drop_while test us)
        → (y : ValueAtPos) × Memᴰ y us × (test y ≡ false) × (x.stream_pos ≤ y.stream_pos)
    drop_while-guard_Layered bound [] x h i = absurd (Memᴰ.not-nil i)
    drop_while-guard_Layered bound (z ∷ us) x h i = elim (Bool-cases (test z)) [
      | inl e ↦
          let (y, j, n, le) =
            drop_while-guard_Layered z.stream_pos us x (Layered-rest bound z us h)
              (subst (λ b. Memᴰ x (if b then drop_while test us else z ∷ us)) e i) in
          (y, tail j, n, le)
      | inr e ↦ (
        z,
        here z us,
        e,
        elim (Memᴰ.cases_cons (drop_while-Memᴰ test (z ∷ us) x i)) [
          | inl q ↦ subst (λ k. x.stream_pos ≤ k.stream_pos) q (omega arith)
          | inr j ↦ Layered-first bound z us x h j
        ],
      )
    ]

    pub trim-guard_Layered :
        (bound : ℕ) (us : List ValueAtPos) (x : ValueAtPos)
        → Layered own lock bound us
        → Memᴰ x (trim test us)
        → (y : ValueAtPos) × Memᴰ y us × (test y ≡ false) × (y.stream_pos ≤ x.stream_pos)
    trim-guard_Layered bound [] x h i = absurd (Memᴰ.not-nil i)
    trim-guard_Layered bound (z ∷ us) x h i =
        trim_cons-guard test ValueAtPos.stream_pos z (trim test us) us x i
          (λ y j. Layered-first bound z us y h (trim-Memᴰ test us y j))
          (λ u j. trim-guard_Layered z.stream_pos us u (Layered-rest bound z us h) j)
