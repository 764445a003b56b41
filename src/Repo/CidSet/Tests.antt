-- ===== src/Repo/CidSet/Tests.antt =====
-- The theorems about CID sets at concrete sets.
use at.Prelude.{ℕ, List, [], ◌∷◌}
use at.Prelude.Eq.{nat_eq}
use at.Repo.CidSet.{CidSet}

abbrev two : CidSet ℕ
two = record { set = (1, tt) ∷ (2, tt) ∷ [] }

abbrev three : CidSet ℕ
three = record { set = (3, tt) ∷ (2, tt) ∷ [] }

abbrev arr : List ℕ
arr = 1 ∷ 2 ∷ 1 ∷ []
