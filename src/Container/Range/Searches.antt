-- ===== src/Container/Range/Searches.antt =====
-- What the searches and tests of ranges find.
use v1util.Common.{
  ℕ, zero, suc, ◌+◌, ◌-◌, ◌≤◌, ◌≡◌, ◌==◌, refl, ap, ◌∙◌, inl, inr, Bool, true, false, not,
  Bool-cases, if◌then◌else◌, ◌&&◌, ◌||◌, List, [], ◌∷◌, length, arith,
}
use v1util.Container.ArrayView.{cells}
use v1util.Container.ArrayView.Slices.{length-cells}
use v1util.Container.Range.{
  ItRange, find_if, contains, contains_from, index_of, index_of_first, all_of, any_of, none_of,
  count_if, count_from, elements_in, equal, equal_from,
}

not-not : (b : Bool) → not (not b) ≡ b
not-not true = refl
not-not false = refl

module _ {A : Type 0} where
  -- The index of the first element that passes a test, or the length.
  abbrev pub first_index : (A → Bool) → List A → ℕ
  first_index pred [] = 0
  first_index pred (x ∷ xs) = if pred x then 0 else suc (first_index pred xs)

  abbrev pub some_pass : (A → Bool) → List A → Bool
  some_pass pred [] = false
  some_pass pred (x ∷ xs) = pred x || some_pass pred xs

  abbrev pub all_pass : (A → Bool) → List A → Bool
  all_pass pred [] = true
  all_pass pred (x ∷ xs) = pred x && all_pass pred xs

  abbrev pub passing : (A → Bool) → List A → ℕ
  passing pred [] = 0
  passing pred (x ∷ xs) = let rest = passing pred xs in if pred x then suc rest else rest

  find_if-first_index :
      (pred : A → Bool) (memory : ℕ → A) (a n : ℕ)
      → find_if pred memory a n ≡ a + first_index pred (cells memory a n)
  unfolding find_if
  find_if-first_index pred memory a zero = omega arith
  find_if-first_index pred memory a (suc n) = elim (Bool-cases (pred (memory a))) [
    | inl e ↦ rw (e) (omega arith)
    | inr e ↦ rw (e) (omega (arith, find_if-first_index pred memory (a + 1) n))
  ]

  first_index-le : (pred : A → Bool) (xs : List A) → first_index pred xs ≤ length xs
  first_index-le pred [] = omega arith
  first_index-le pred (x ∷ xs) = elim (Bool-cases (pred x)) [
    | inl e ↦ rw (e) (omega arith)
    | inr e ↦ rw (e) (omega (arith, first_index-le pred xs))
  ]

  found-some_pass :
      (pred : A → Bool) (xs : List A) → (first_index pred xs == length xs) ≡ not (some_pass pred xs)
  found-some_pass pred [] = refl
  found-some_pass pred (x ∷ xs) = elim (Bool-cases (pred x)) [
    | inl e ↦ rw (e) (ground arith)
    | inr e ↦
        let shift : (suc (first_index pred xs) == suc (length xs))
            ≡ (first_index pred xs == length xs) =
          ground arith in
        rw (e, shift) (found-some_pass pred xs)
  ]

  none_fails-all_pass :
      (pred : A → Bool) (xs : List A) → not (some_pass (λ x. not (pred x)) xs) ≡ all_pass pred xs
  none_fails-all_pass pred [] = refl
  none_fails-all_pass pred (x ∷ xs) = elim (Bool-cases (pred x)) [
    | inl e ↦ rw (e) (none_fails-all_pass pred xs)
    | inr e ↦ rw (e)
  ]

  count_from-passing :
      (pred : A → Bool) (memory : ℕ → A) (a n : ℕ)
      → count_from pred memory a n ≡ passing pred (cells memory a n)
  unfolding count_from
  count_from-passing pred memory a zero = refl
  count_from-passing pred memory a (suc n) = rw (count_from-passing pred memory (a + 1) n)

  contains_from-some_pass :
      (same : A → A → Bool) (needle : A) (memory : ℕ → A) (a n : ℕ)
      → contains_from same needle memory a n ≡ some_pass (λ x. same x needle) (cells memory a n)
  unfolding contains_from
  contains_from-some_pass same needle memory a zero = refl
  contains_from-some_pass same needle memory a (suc n) =
      elim (Bool-cases (same (memory a) needle)) [
        | inl e ↦ rw (e)
        | inr e ↦ rw (e) (contains_from-some_pass same needle memory (a + 1) n)
      ]

  -- Sequences of one length whose elements are the same.
  abbrev pub same_all : (A → A → Bool) → List A → List A → Bool
  same_all same [] [] = true
  same_all same [] (y ∷ ys) = false
  same_all same (x ∷ xs) [] = false
  same_all same (x ∷ xs) (y ∷ ys) = same x y && same_all same xs ys

  equal_from-same_all :
      (same : A → A → Bool) (memory : ℕ → A) (a n b m : ℕ)
      → equal_from same memory a n b m ≡ same_all same (cells memory a n) (cells memory b m)
  unfolding equal_from
  equal_from-same_all same memory a zero b zero = refl
  equal_from-same_all same memory a zero b (suc m) = refl
  equal_from-same_all same memory a (suc n) b zero = refl
  equal_from-same_all same memory a (suc n) b (suc m) =
      elim (Bool-cases (same (memory a) (memory b))) [
        | inl e ↦ rw (e) (equal_from-same_all same memory (a + 1) n (b + 1) m)
        | inr e ↦ rw (e)
      ]

  -- `equal` compares the elements of two ranges, and their numbers.
  equal-same_all :
      (same : A → A → Bool) (r other : ItRange) (memory : ℕ → A)
      → equal same r other memory
        ≡ same_all same
            (cells memory r.begin (elements_in r))
            (cells memory other.begin (elements_in other))
  unfolding equal
  equal-same_all same r other memory =
      equal_from-same_all same memory r.begin (elements_in r) other.begin (elements_in other)

  module _ (r : ItRange) (memory : ℕ → A) (h : r.begin ≤ r.end) where
    abbrev pub elements : List A
    elements = cells memory r.begin (elements_in r)

    at_end :
        (pred : A → Bool)
        → (find_if pred memory r.begin (elements_in r) == r.end) ≡ not (some_pass pred elements)
    at_end pred =
        let found = find_if-first_index pred memory r.begin (elements_in r) in
        let len = length-cells memory r.begin (elements_in r) in
        let shift : (r.begin + first_index pred elements == r.end)
            ≡ (first_index pred elements == length elements) =
          ground arith in
        rw (found, shift) (found-some_pass pred elements)

    index_from_start :
        (pred : A → Bool)
        → find_if pred memory r.begin (elements_in r) - r.begin ≡ first_index pred elements
    index_from_start pred = omega (arith, find_if-first_index pred memory r.begin (elements_in r))

    -- For a range whose end is not before its begin: `all_of`, `any_of` and `none_of` say whether all, some
    -- or no elements pass the test, `count_if` how many do, `contains` whether an element equals the needle,
    -- and `indexOfFirst` and `indexOf` give the index of the first that does, or the number of elements.
    pub searches-contents :
        (pred : A → Bool) (same : A → A → Bool) (needle : A)
        → (all_of r pred memory ≡ all_pass pred elements)
          × (any_of r pred memory ≡ some_pass pred elements)
          × (none_of r pred memory ≡ not (some_pass pred elements))
          × (count_if r pred memory ≡ passing pred elements)
          × (contains same r needle memory ≡ some_pass (λ x. same x needle) elements)
          × (index_of_first r pred memory ≡ first_index pred elements)
          × (index_of same r needle memory ≡ first_index (λ x. same x needle) elements)
    unfolding all_of any_of none_of count_if contains index_of_first index_of
    searches-contents pred same needle = (
      at_end (λ x. not (pred x)) ∙ none_fails-all_pass pred elements,
      ap not (at_end pred) ∙ not-not (some_pass pred elements),
      at_end pred,
      count_from-passing pred memory r.begin (elements_in r),
      contains_from-some_pass same needle memory r.begin (elements_in r),
      index_from_start pred,
      index_from_start (λ x. same x needle),
    )
