-- ===== src/Container/Deque/Kept.antt =====
-- Which elements the two loops of a deque's clients keep.
use v1util.Common.{
  ℕ, ◌≤◌, ◌≡◌, sym, subst, ◌⊎◌, inl, inr, if◌then◌else◌, Bool, true, false, List, [], ◌∷◌,
  Bool-cases, here, Descending, arith,
}
use mathlib.Core.List.{Memᴰ}
use mathlib.Core.List.Memᴰ
use mathlib.Core.List.Memᴰ.{head, tail}
use v1util.Container.Deque.Loops.{drop_while, trim, trim_cons}

module _ {A : Type 0} (test : A → Bool) where
  pub drop_while-Memᴰ : (xs : List A) (x : A) → Memᴰ x (drop_while test xs) → Memᴰ x xs
  drop_while-Memᴰ [] x i = i
  drop_while-Memᴰ (y ∷ xs) x i = elim (Bool-cases (test y)) [
    | inl e ↦
        tail (
          drop_while-Memᴰ xs x (subst (λ b. Memᴰ x (if b then drop_while test xs else y ∷ xs)) e i))
    | inr e ↦ subst (λ b. Memᴰ x (if b then drop_while test xs else y ∷ xs)) e i
  ]

  pub drop_while-kept :
      (xs : List A) (x : A) → Memᴰ x xs → Memᴰ x (drop_while test xs) ⊎ (test x ≡ true)
  drop_while-kept [] x i = inl i
  drop_while-kept (y ∷ xs) x i = elim (Bool-cases (test y)) [
    | inl e ↦ elim (Memᴰ.cases_cons i) [
      | inl q ↦ inr (subst (λ k. test k ≡ true) (sym q) e)
      | inr j ↦ rw e (drop_while-kept xs x j)
    ]
    | inr e ↦ rw e (inl i)
  ]

  trim_cons-Memᴰ : (y : A) (t : List A) (x : A) → Memᴰ x (trim_cons test y t) → Memᴰ x (y ∷ t)
  trim_cons-Memᴰ y [] x i = elim (Bool-cases (test y)) [
    | inl e ↦ tail (subst (λ b. Memᴰ x (if b then [] else y ∷ [])) e i)
    | inr e ↦ subst (λ b. Memᴰ x (if b then [] else y ∷ [])) e i
  ]
  trim_cons-Memᴰ y (z ∷ t) x i = i

  pub trim-Memᴰ : (xs : List A) (x : A) → Memᴰ x (trim test xs) → Memᴰ x xs
  trim-Memᴰ [] x i = i
  trim-Memᴰ (y ∷ xs) x i = elim (Memᴰ.cases_cons (trim_cons-Memᴰ y (trim test xs) x i)) [
    | inl q ↦ head q
    | inr j ↦ tail (trim-Memᴰ xs x j)
  ]

  trim_cons-kept :
      (y : A) (t : List A) (x : A) → Memᴰ x (y ∷ t) → Memᴰ x (trim_cons test y t) ⊎ (test x ≡ true)
  trim_cons-kept y [] x i = elim (Bool-cases (test y)) [
    | inl e ↦ inr (subst (λ k. test k ≡ true) (sym (Memᴰ.eq_of_singleton i)) e)
    | inr e ↦ rw e (inl i)
  ]
  trim_cons-kept y (z ∷ t) x i = inl i

  pub trim-kept : (xs : List A) (x : A) → Memᴰ x xs → Memᴰ x (trim test xs) ⊎ (test x ≡ true)
  trim-kept [] x i = inl i
  trim-kept (y ∷ xs) x i = elim (Memᴰ.cases_cons i) [
    | inl q ↦ trim_cons-kept y (trim test xs) x (head q)
    | inr j ↦ elim (trim-kept xs x j) [
      | inl k ↦ trim_cons-kept y (trim test xs) x (tail k)
      | inr e ↦ inr e
    ]
  ]

  module _ (pos : A → ℕ) where
    pub Descending-drop_while :
        (xs : List A) → Descending pos xs → Descending pos (drop_while test xs)
    Descending-drop_while [] d = d
    Descending-drop_while (x ∷ xs) d = elim (Bool-cases (test x)) [
      | inl e ↦ rw e (Descending-drop_while xs d.1)
      | inr e ↦ rw e d
    ]

    -- What is kept stands at or behind an element that fails the test.
    pub drop_while-guard :
        (xs : List A) (x : A)
        → Descending pos xs
        → Memᴰ x (drop_while test xs)
        → (y : A) × Memᴰ y xs × (test y ≡ false) × (pos x ≤ pos y)
    drop_while-guard [] x d i = absurd (Memᴰ.not-nil i)
    drop_while-guard (z ∷ xs) x d i = elim (Bool-cases (test z)) [
      | inl e ↦
          let (y, j, n, le) =
            drop_while-guard xs x d.1
              (subst (λ b. Memᴰ x (if b then drop_while test xs else z ∷ xs)) e i) in
          (y, tail j, n, le)
      | inr e ↦ (
        z,
        here z xs,
        e,
        elim (Memᴰ.cases_cons (drop_while-Memᴰ (z ∷ xs) x i)) [
          | inl q ↦ subst (λ k. pos x ≤ pos k) q (omega arith)
          | inr j ↦ let lt = d.0 x j in omega arith
        ],
      )
    ]

    Descending-trim_cons :
        (x : A) (t : List A) → Descending pos (x ∷ t) → Descending pos (trim_cons test x t)
    Descending-trim_cons x [] d = elim (Bool-cases (test x)) [ inl e ↦ rw e tt | inr e ↦ rw e d ]
    Descending-trim_cons x (y ∷ t) d = d

    pub Descending-trim : (xs : List A) → Descending pos xs → Descending pos (trim test xs)
    Descending-trim [] d = d
    Descending-trim (x ∷ xs) d =
        Descending-trim_cons x (trim test xs)
          ((λ y i. d.0 y (trim-Memᴰ xs y i)), Descending-trim xs d.1)

    pub trim_cons-guard :
        (z : A) (t xs : List A) (x : A)
        → Memᴰ x (trim_cons test z t)
        → ((y : A) → Memᴰ y t → pos y ≤ pos z)
        → ((u : A) → Memᴰ u t → (y : A) × Memᴰ y xs × (test y ≡ false) × (pos y ≤ pos u))
        → (y : A) × Memᴰ y (z ∷ xs) × (test y ≡ false) × (pos y ≤ pos x)
    trim_cons-guard z [] xs x i d f = elim (Bool-cases (test z)) [
      | inl e ↦ absurd (Memᴰ.not-nil (subst (λ b. Memᴰ x (if b then [] else z ∷ [])) e i))
      | inr e ↦
          let q = Memᴰ.eq_of_singleton (trim_cons-Memᴰ z [] x i) in
          (z, here z xs, e, subst (λ k. pos k ≤ pos x) q (omega arith))
    ]
    trim_cons-guard z (v ∷ t) xs x i d f = elim (Memᴰ.cases_cons i) [
      | inl q ↦
          let (y, j, n, le) = f v (here v t) in
          let lt = d v (here v t) in
          (y, tail j, n, subst (λ k. pos y ≤ pos k) (sym q) (omega arith))
      | inr k ↦ let (y, j, n, le) = f x k in (y, tail j, n, le)
    ]

    -- What is kept stands at or before an element that fails the test.
    pub trim-guard :
        (xs : List A) (x : A)
        → Descending pos xs
        → Memᴰ x (trim test xs)
        → (y : A) × Memᴰ y xs × (test y ≡ false) × (pos y ≤ pos x)
    trim-guard [] x d i = absurd (Memᴰ.not-nil i)
    trim-guard (z ∷ xs) x d i =
        trim_cons-guard z (trim test xs) xs x i
          (λ y j. let lt = d.0 y (trim-Memᴰ xs y j) in omega arith) (λ u j. trim-guard xs u d.1 j)
