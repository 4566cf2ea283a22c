-- ===== src/Container/Deque/Loops.antt =====
-- The two loops that the clients of a deque run, `while(!d.empty() && test(d.back())) d.pop_back()` and
-- the same at the front, with fuel; a fuel above the size is enough.
use v1util.Common.{
  ℕ, zero, suc, ◌<◌, ◌≡◌, sym, subst, ap, inl, inr, if◌then◌else◌, Bool, true, false, Option, none,
  some, List, [], ◌∷◌, ◌++◌, length, length-append, Bool-cases, ◌>>=◌, unsnoc, arith,
}
use v1util.Container.Deque.{Deque}

module _ {A : Type 0} (q : Deque A) where
  open q use {
    Carrier, empty, back, front, pop_back, pop_front, Holds, empty-Holds, back-Holds, front-Holds,
    pop_back-Holds, pop_front-Holds,
  }

  unfoldable pub pop_back_while : (A → Bool) → ℕ → Carrier → Option Carrier
  pop_back_while test zero d = none
  pop_back_while test (suc fuel) d = elim (empty d) [
    | true ↦ some d
    | false ↦ do
      x ← back d
      elim (test x) [ true ↦ pop_back d >>= (λ d'. pop_back_while test fuel d') | false ↦ some d ]
  ]

  unfoldable pub pop_front_while : (A → Bool) → ℕ → Carrier → Option Carrier
  pop_front_while test zero d = none
  pop_front_while test (suc fuel) d = elim (empty d) [
    | true ↦ some d
    | false ↦ do
      x ← front d
      elim (test x) [ true ↦ pop_front d >>= (λ d'. pop_front_while test fuel d') | false ↦ some d ]
  ]

-- What the loops leave.
module _ {ℓ} {A : Type ℓ} (test : A → Bool) where
  abbrev pub drop_while : List A → List A
  drop_while [] = []
  drop_while (x ∷ xs) = if test x then drop_while xs else x ∷ xs

  abbrev pub trim_cons : A → List A → List A
  trim_cons x [] = if test x then [] else x ∷ []
  trim_cons x (y ∷ ys) = x ∷ y ∷ ys

  -- `drop_while` from the other end.
  abbrev pub trim : List A → List A
  trim [] = []
  trim (x ∷ xs) = trim_cons x (trim xs)

  pub trim-snoc : (xs : List A) (x : A) → test x ≡ true → trim (xs ++ x ∷ []) ≡ trim xs
  trim-snoc [] x e = rw e
  trim-snoc (y ∷ xs) x e = ap (trim_cons y) (trim-snoc xs x e)

  pub trim-snoc_keep : (xs : List A) (x : A) → test x ≡ false → trim (xs ++ x ∷ []) ≡ xs ++ x ∷ []
  trim-snoc_keep [] x e = rw e
  trim-snoc_keep (y ∷ []) x e = ap (trim_cons y) (trim-snoc_keep [] x e)
  trim-snoc_keep (y ∷ z ∷ xs) x e = ap (trim_cons y) (trim-snoc_keep (z ∷ xs) x e)

module _ {A : Type 0} (q : Deque A) where
  open q use {
    Carrier, empty, back, front, pop_back, pop_front, Holds, empty-Holds, back-Holds, front-Holds,
    pop_back-Holds, pop_front-Holds,
  }

  -- With enough fuel the loop at the back ends, and drops the longest run that passes the test.
  pub pop_back_while-Holds :
      (test : A → Bool) (fuel limit : ℕ) (d : Carrier) (xs : List A)
      → Holds limit d xs
      → length xs < fuel
      → (d' : Carrier) × (pop_back_while q test fuel d ≡ some d')
        × Holds limit d' (drop_while test xs)
  unfolding pop_back_while
  pop_back_while-Holds test zero limit d xs v h = absurd (omega arith)
  pop_back_while-Holds test (suc fuel) limit d [] v h =
      (d, rw (empty-Holds [] v, pop_back_while), v)
  pop_back_while-Holds test (suc fuel) limit d (x ∷ xs) v h = elim (Bool-cases (test x)) [
    | inl pass ↦
        let (d', popped, v') = pop_back-Holds v in
        let (d'', rest, v'') = pop_back_while-Holds test fuel limit d' xs v' (omega arith) in
        (
          d'',
          rw (empty-Holds (x ∷ xs) v, pop_back_while, back-Holds v, pass, popped) rest,
          rw pass v'',
        )
    | inr fail ↦ (d, rw (empty-Holds (x ∷ xs) v, pop_back_while, back-Holds v, fail), rw fail v)
  ]

  empty-snoc :
      {limit : ℕ} {d : Carrier} (xs : List A) (x : A)
      → Holds limit d (xs ++ x ∷ [])
      → empty d ≡ false
  empty-snoc [] x v = empty-Holds (x ∷ []) v
  empty-snoc (y ∷ xs) x v = empty-Holds (y ∷ xs ++ x ∷ []) v

  pop_front_while-snoc :
      (test : A → Bool) (fuel limit : ℕ) (d : Carrier) (xs : List A) (x : A)
      → ((d' : Carrier) (ys : List A)
          → Holds limit d' ys
          → length ys < fuel
          → (d'' : Carrier) × (pop_front_while q test fuel d' ≡ some d'')
            × Holds limit d'' (trim test ys))
      → Holds limit d (xs ++ x ∷ [])
      → length xs < fuel
      → (d' : Carrier) × (pop_front_while q test (suc fuel) d ≡ some d')
        × Holds limit d' (trim test (xs ++ x ∷ []))
  unfolding pop_front_while
  pop_front_while-snoc test fuel limit d xs x ih v h = elim (Bool-cases (test x)) [
    | inl pass ↦
        let (d', popped, v') = pop_front-Holds xs x v in
        let (d'', rest, v'') = ih d' xs v' h in
        (
          d'',
          rw (empty-snoc xs x v, pop_front_while, front-Holds xs x v, pass, popped) rest,
          rw (trim-snoc test xs x pass) v'',
        )
    | inr fail ↦ (
      d,
      rw (empty-snoc xs x v, pop_front_while, front-Holds xs x v, fail),
      rw (trim-snoc_keep test xs x fail) v,
    )
  ]

  -- The same at the front.
  pub pop_front_while-Holds :
      (test : A → Bool) (fuel limit : ℕ) (d : Carrier) (xs : List A)
      → Holds limit d xs
      → length xs < fuel
      → (d' : Carrier) × (pop_front_while q test fuel d ≡ some d') × Holds limit d' (trim test xs)
  unfolding pop_front_while
  pop_front_while-Holds test zero limit d xs v h = absurd (omega arith)
  pop_front_while-Holds test (suc fuel) limit d [] v h =
      (d, rw (empty-Holds [] v, pop_front_while), v)
  pop_front_while-Holds test (suc fuel) limit d (x ∷ xs) v h =
      let (ys, y, e) = unsnoc (x ∷ xs) (omega arith) in
      let shorter : length ys < fuel = omega (arith, ap length e, length-append ys (y ∷ [])) in
      subst
        (λ z.
          (d' : Carrier) × (pop_front_while q test (suc fuel) d ≡ some d')
          × Holds limit d' (trim test z))
        (sym e)
        (pop_front_while-snoc test fuel limit d ys y (pop_front_while-Holds test fuel limit)
          (subst (Holds limit d) e v) shorter)
