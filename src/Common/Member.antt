-- ===== src/Common/Member.antt =====
-- Members of lists, and lists in descending order of a position.
use Prim.Native.Nat.{ℕ, ◌-◌, ◌<◌, ◌≤◌}
use mathlib.Core.Path.{◌≡◌, refl, subst, sym}
use mathlib.Core.Logic.{◌↔◌, ◌⊎◌, inl, inr}
use mathlib.Core.List.{List, [], ◌∷◌, ◌++◌, Memᴰ}
use mathlib.Core.List.Memᴰ
use mathlib.Core.List.Memᴰ.{head, tail}
use native.Mathlib.Omega.{arith}
use v1util.Common.Lists.{length}

module _ {A : Type 0} where
  pub here : (x : A) (xs : List A) → Memᴰ x (x ∷ xs)
  here x xs = head refl

  pub Memᴰ-last : (xs : List A) (y : A) → Memᴰ y (xs ++ y ∷ [])
  Memᴰ-last xs y = Memᴰ.append_right xs (here y [])

  -- `xs` before `ys`, the last of `xs` first.
  abbrev pub rev_onto : List A → List A → List A
  rev_onto [] ys = ys
  rev_onto (x ∷ xs) ys = rev_onto xs (x ∷ ys)

  pub rev_onto-append : (xs ys zs : List A) → rev_onto (xs ++ ys) zs ≡ rev_onto ys (rev_onto xs zs)
  rev_onto-append [] ys zs = refl
  rev_onto-append (x ∷ xs) ys zs = rev_onto-append xs ys (x ∷ zs)

  pub rev_onto-Memᴰ : (xs ys : List A) (x : A) → Memᴰ x (rev_onto xs ys) ↔ (Memᴰ x xs ⊎ Memᴰ x ys)
  rev_onto-Memᴰ [] ys x =
      ((λ h. inr h), (λ h. elim h [ inl i ↦ absurd (Memᴰ.not-nil i) | inr i ↦ i ]))
  rev_onto-Memᴰ (y ∷ xs) ys x = (
    (λ h. elim ((rev_onto-Memᴰ xs (y ∷ ys) x).0 h) [
      | inl i ↦ inl (tail i)
      | inr i ↦ elim (Memᴰ.cases_cons i) [ inl e ↦ inl (head e) | inr j ↦ inr j ]
    ]),
    (λ h. (rev_onto-Memᴰ xs (y ∷ ys) x).1 (elim h [
      | inl i ↦ elim (Memᴰ.cases_cons i) [ inl e ↦ inr (head e) | inr j ↦ inl j ]
      | inr i ↦ inr (tail i)
    ])),
  )

module _ {A : Type 0} (pos : A → ℕ) where
  -- Each position exceeds those behind it.
  abbrev pub Descending : List A → Type 0
  Descending [] = Unit {0}
  Descending (x ∷ xs) = ((y : A) → Memᴰ y xs → pos y < pos x) × Descending xs

  pub Descending-cut :
      (xs : List A) (y : A)
      → Descending (xs ++ y ∷ [])
      → Descending xs × ((x : A) → Memᴰ x xs → pos y < pos x)
  Descending-cut [] y h = (tt, λ x i. absurd (Memᴰ.not-nil i))
  Descending-cut (z ∷ xs) y (f, h) =
      let (d, g) = Descending-cut xs y h in
      (
        ((λ x i. f x (Memᴰ.append_left (y ∷ []) i)), d),
        λ x i. elim (Memᴰ.cases_cons i) [
          | inl e ↦ subst (λ k. pos y < pos k) (sym e) (f y (Memᴰ-last xs y))
          | inr j ↦ g x j
        ],
      )

  -- As many elements as positions at most.
  pub length-Descending :
      (lo hi : ℕ) (xs : List A)
      → Descending xs
      → ((x : A) → Memᴰ x xs → lo ≤ pos x)
      → ((x : A) → Memᴰ x xs → pos x < hi)
      → length xs ≤ hi - lo
  length-Descending lo hi [] d l h = omega arith
  length-Descending lo hi (x ∷ xs) (f, d) l h =
      let rest = length-Descending lo (pos x) xs d (λ y i. l y (tail i)) f in
      let low = l x (here x xs) in let high = h x (here x xs) in omega arith
