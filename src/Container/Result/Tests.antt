-- ===== src/Container/Result/Tests.antt =====
-- Results of numbers, with error codes.
use v1util.Common.{ℕ, ◌≡◌, ◌⊎◌, refl, inl, inr, some, none, List, [], ◌∷◌, ◌>>=◌}
use v1util.Container.Result.{assign_move, assign_copy, copy_over, copy_into, destroy, error}
use v1util.Container.Result.Balance.{
  cell, Assignment, to_value, to_error, to_copy, assign_all, assign, spec_assign, spec_assign_all,
  holding, assign_all-final, assign_move-live,
}

-- Three results: a copy of the first to the second, an error, and a copy back.
abbrev program : List (Assignment ℕ ℕ)
program = to_value 0 5 ∷ to_copy 1 0 ∷ to_error 0 3 ∷ to_copy 2 1 ∷ []

abbrev at_first : List (ℕ ⊎ ℕ)
at_first = inr 9 ∷ inl 4 ∷ inr 8 ∷ []

spec_run : spec_assign_all program at_first ≡ some (inr 3 ∷ inl 5 ∷ inl 5 ∷ [])
unfolding spec_assign_all spec_assign
spec_run = refl

-- A result that is copied to itself reads the value that it has destroyed.
itself_run : assign_all {T = ℕ} {E = ℕ} (to_copy 0 0 ∷ []) (holding 0 (inl 4 ∷ [])) ≡ none
unfolding assign_all assign assign_copy copy_over copy_into destroy error
itself_run = refl

assign_all-final_example :
    assign_all program (holding 3 at_first)
    ≡ (spec_assign_all program at_first >>= λ os. some (holding 3 os))
assign_all-final_example = assign_all-final 3 program at_first

assign_move-live_example :
    assign_move {T = ℕ} {E = ℕ} 1 (cell (inl 8)) (4, cell (inl 7))
    ≡ some (4, cell (inl 8), cell (inr 1))
assign_move-live_example = assign_move-live 1 2 8 (inl 7)
