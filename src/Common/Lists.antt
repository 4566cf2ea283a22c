-- ===== src/Common/Lists.antt =====
-- Lists measured and indexed by native numbers, under the library's names.
use Prim.Native.Nat.{ℕ, zero, suc, ◌+◌, ◌-◌, ◌<◌, ◌≤◌, min}
use mathlib.Core.Path.{◌≡◌, refl, ap}
use mathlib.Core.Bool.{Bool, true, false}
use mathlib.Core.List.{List, [], ◌∷◌, ◌++◌}
use mathlib.Core.Option.{Option, none, some}
use native.Mathlib.Omega.{arith}

module _ {ℓ} {A : Type ℓ} where
  abbrev pub length : List A → ℕ
  length [] = 0
  length (x ∷ xs) = suc (length xs)

  abbrev pub is_nil : List A → Bool
  is_nil [] = true
  is_nil (x ∷ xs) = false

  pub is_nil-snoc : (xs : List A) (x : A) → is_nil (xs ++ x ∷ []) ≡ false
  is_nil-snoc [] x = refl
  is_nil-snoc (y ∷ xs) x = refl

  abbrev pub get_elem? : List A → ℕ → Option A
  get_elem? [] i = none
  get_elem? (x ∷ xs) zero = some x
  get_elem? (x ∷ xs) (suc i) = get_elem? xs i

  -- A write out of bounds changes nothing.
  abbrev pub set : List A → ℕ → A → List A
  set [] i v = []
  set (x ∷ xs) zero v = v ∷ xs
  set (x ∷ xs) (suc i) v = x ∷ set xs i v

  abbrev pub take : ℕ → List A → List A
  take zero xs = []
  take (suc n) [] = []
  take (suc n) (x ∷ xs) = x ∷ take n xs

  abbrev pub drop : ℕ → List A → List A
  drop zero xs = xs
  drop (suc n) [] = []
  drop (suc n) (x ∷ xs) = drop n xs

  abbrev pub replicate : ℕ → A → List A
  replicate zero a = []
  replicate (suc n) a = a ∷ replicate n a

  pub length-append : (xs ys : List A) → length (xs ++ ys) ≡ length xs + length ys
  length-append [] ys = omega arith
  length-append (x ∷ xs) ys = omega (arith, length-append xs ys)

  pub length-replicate : (n : ℕ) (a : A) → length (replicate n a) ≡ n
  length-replicate zero a = refl
  length-replicate (suc n) a = ap suc (length-replicate n a)

  -- What stands behind a prefix is reached at the prefix's length.
  pub get_elem?-append :
      (i : ℕ) (a : List A) (x : A) (b : List A) → i ≡ length a → get_elem? (a ++ x ∷ b) i ≡ some x
  get_elem?-append zero [] x b e = refl
  get_elem?-append (suc i) [] x b e = absurd (omega arith)
  get_elem?-append zero (y ∷ a) x b e = absurd (omega arith)
  get_elem?-append (suc i) (y ∷ a) x b e = get_elem?-append i a x b (omega arith)

  pub set-append :
      (i : ℕ) (a : List A) (x : A) (b : List A) (v : A)
      → i ≡ length a
      → set (a ++ x ∷ b) i v ≡ a ++ v ∷ b
  set-append zero [] x b v e = refl
  set-append (suc i) [] x b v e = absurd (omega arith)
  set-append zero (y ∷ a) x b v e = absurd (omega arith)
  set-append (suc i) (y ∷ a) x b v e = ap (◌∷◌ y) (set-append i a x b v (omega arith))

  pub length-set : (xs : List A) (i : ℕ) (v : A) → length (set xs i v) ≡ length xs
  length-set [] i v = refl
  length-set (x ∷ xs) zero v = refl
  length-set (x ∷ xs) (suc i) v = ap suc (length-set xs i v)

  pub take-append : (n : ℕ) (a b : List A) → n ≡ length a → take n (a ++ b) ≡ a
  take-append zero [] b e = refl
  take-append (suc n) [] b e = absurd (omega arith)
  take-append zero (x ∷ a) b e = absurd (omega arith)
  take-append (suc n) (x ∷ a) b e = ap (◌∷◌ x) (take-append n a b (omega arith))

  pub drop-append : (n : ℕ) (a b : List A) → n ≡ length a → drop n (a ++ b) ≡ b
  drop-append zero [] b e = refl
  drop-append (suc n) [] b e = absurd (omega arith)
  drop-append zero (x ∷ a) b e = absurd (omega arith)
  drop-append (suc n) (x ∷ a) b e = drop-append n a b (omega arith)

  pub take-append-drop : (n : ℕ) (xs : List A) → take n xs ++ drop n xs ≡ xs
  take-append-drop zero xs = refl
  take-append-drop (suc n) [] = refl
  take-append-drop (suc n) (x ∷ xs) = ap (◌∷◌ x) (take-append-drop n xs)

  pub length-take : (n : ℕ) (xs : List A) → length (take n xs) ≡ min n (length xs)
  length-take zero xs = omega arith
  length-take (suc n) [] = omega arith
  length-take (suc n) (x ∷ xs) = omega (arith, length-take n xs)

  pub length-drop : (n : ℕ) (xs : List A) → length (drop n xs) ≡ length xs - n
  length-drop zero xs = omega arith
  length-drop (suc n) [] = omega arith
  length-drop (suc n) (x ∷ xs) = omega (arith, length-drop n xs)

  -- A list that is not empty ends in an element.
  pub unsnoc : (xs : List A) → 0 < length xs → (ys : List A) × (y : A) × (xs ≡ ys ++ y ∷ [])
  unsnoc [] h = absurd (omega arith)
  unsnoc (x ∷ []) h = ([], x, refl)
  unsnoc (x ∷ z ∷ xs) h =
      let (ys, y, e) = unsnoc (z ∷ xs) (omega arith) in (x ∷ ys, y, ap (◌∷◌ x) e)

  -- The last element and what stands before it are determined.
  pub snoc-injective :
      (xs ys : List A) (x y : A) → xs ++ x ∷ [] ≡ ys ++ y ∷ [] → (xs ≡ ys) × (x ≡ y)
  snoc-injective [] [] x y e = (refl, cc)
  snoc-injective [] (b ∷ []) x y e = absurd (cc)
  snoc-injective [] (b ∷ c ∷ ys) x y e = absurd (cc)
  snoc-injective (a ∷ []) [] x y e = absurd (cc)
  snoc-injective (a ∷ c ∷ xs) [] x y e = absurd (cc)
  snoc-injective (a ∷ xs) (b ∷ ys) x y e = let (p, q) = snoc-injective xs ys x y (cc) in (cc, q)

  -- Of two ways to cut a list, the shorter first part is a prefix of the longer.
  pub append-split :
      (ys zs k f : List A)
      → ys ++ zs ≡ k ++ f
      → length ys ≤ length k
      → (m : List A) × (k ≡ ys ++ m) × (zs ≡ m ++ f)
  append-split [] zs k f e h = (k, refl, e)
  append-split (y ∷ ys) zs [] f e h = absurd (omega arith)
  append-split (y ∷ ys) zs (x ∷ k) f e h =
      let (m, p, q) = append-split ys zs k f (cc) (omega arith) in (m, cc, q)

module _ {ℓ} {A : Type ℓ} where
  pub get_elem?-set :
      (xs : List A) (i : ℕ) (v : A) → i < length xs → get_elem? (set xs i v) i ≡ some v
  get_elem?-set [] i v h = absurd (omega arith)
  get_elem?-set (x ∷ xs) zero v h = refl
  get_elem?-set (x ∷ xs) (suc i) v h = get_elem?-set xs i v (omega arith)

  pub get_elem?-set_other :
      (xs : List A) (i j : ℕ) (v : A) → (i ≡ j → ⊥) → get_elem? (set xs i v) j ≡ get_elem? xs j
  get_elem?-set_other [] i j v ne = refl
  get_elem?-set_other (x ∷ xs) zero zero v ne = absurd (ne refl)
  get_elem?-set_other (x ∷ xs) zero (suc j) v ne = refl
  get_elem?-set_other (x ∷ xs) (suc i) zero v ne = refl
  get_elem?-set_other (x ∷ xs) (suc i) (suc j) v ne =
      get_elem?-set_other xs i j v (λ e. ne (ap suc e))

  pub get_elem?-append_left :
      (xs ys : List A) (i : ℕ) → i < length xs → get_elem? (xs ++ ys) i ≡ get_elem? xs i
  get_elem?-append_left [] ys i h = absurd (omega arith)
  get_elem?-append_left (x ∷ xs) ys zero h = refl
  get_elem?-append_left (x ∷ xs) ys (suc i) h = get_elem?-append_left xs ys i (omega arith)
