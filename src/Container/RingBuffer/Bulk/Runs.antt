-- ===== src/Container/RingBuffer/Bulk/Runs.antt =====
-- The copying loops of `fillFrom` and `drainTo`, in a storage whose parts are known.
use v1util.Common.{
  ℕ, ◌+◌, ◌≡◌, refl, sym, ap, ◌∙◌, some, List, [], ◌∷◌, ◌++◌, append_assoc, length, length-append,
  arith,
}
use v1util.Container.RingBuffer.{RingBuffer, store_run, load_run}
use v1util.Container.RingBuffer.Holds.{load-append, store-append}

module _ {ℓ} {A : Type ℓ} where
  pub store_run-append :
      (r : RingBuffer A) (i : ℕ) (a old xs b : List A)
      → r.storage ≡ a ++ (old ++ b)
      → length old ≡ length xs
      → i ≡ length a
      → store_run r i xs ≡ some (record r { storage = a ++ (xs ++ b) })
  unfolding store_run
  store_run-append r i a [] [] b s l e = ap (λ t. some (record r { storage = t })) s
  store_run-append r i a [] (x ∷ xs) b s l e = absurd (omega arith)
  store_run-append r i a (y ∷ old) [] b s l e = absurd (omega arith)
  store_run-append r i a (y ∷ old) (x ∷ xs) b s l e =
      let r' = record r { storage = a ++ x ∷ (old ++ b) } in
      rw (store-append r i x a y (old ++ b) s e) (
        store_run-append r' (i + 1) (a ++ x ∷ []) old xs b
          (sym (append_assoc a (x ∷ []) (old ++ b))) (omega arith)
          (omega (arith, length-append a (x ∷ [])))
        ∙ ap (λ t. some (record r { storage = t })) (append_assoc a (x ∷ []) (xs ++ b)))

  pub load_run-append :
      (r : RingBuffer A) (i : ℕ) (a xs b : List A)
      → r.storage ≡ a ++ (xs ++ b)
      → i ≡ length a
      → load_run r i (length xs) ≡ some xs
  unfolding load_run
  load_run-append r i a [] b s e = refl
  load_run-append r i a (x ∷ xs) b s e = rw (
    load-append r i a x (xs ++ b) s e,
    load_run-append r (i + 1) (a ++ x ∷ []) xs b (s ∙ sym (append_assoc a (x ∷ []) (xs ++ b)))
        (omega (arith, length-append a (x ∷ []))),
  )
