-- ===== src/Array/Tests.antt =====
-- Runs of the slice helpers.
use at.Prelude.{ℕ, List, [], ◌∷◌, ◌≡◌, refl, eqb}
use at.Prelude.Result.{ok}
use at.Array.{reverse, remove, find_all}

abbrev slice : List ℕ
slice = 4 ∷ 5 ∷ 6 ∷ 5 ∷ 9 ∷ []

reversed : reverse slice ≡ 9 ∷ 5 ∷ 6 ∷ 5 ∷ 4 ∷ []
unfolding reverse at.Array.reverse_loop at.Array.swap
reversed = refl

removed_first : remove 0 slice ≡ ok (9 ∷ 5 ∷ 6 ∷ 5 ∷ [])
unfolding remove
removed_first = refl

fives : find_all slice (λ v. eqb v 5) ≡ 1 ∷ 3 ∷ []
unfolding find_all at.Array.find_all_from
fives = refl
