-- ===== src/Blockstore/Tests.antt =====
-- Runs of the in-memory blockstore, with the length of a block for its CID and no CID for the empty
-- block.
use at.Prelude.{ℕ, suc, List, [], ◌∷◌, length}
use at.Prelude.Eq.{nat_eq}
use at.Prelude.Result.{Result, ok, err, outside}
use at.Blockstore.{Memory}

abbrev bytes : List ℕ → List ℕ
bytes b = b

abbrev hash : List ℕ → Result ℕ
hash [] = err (outside 1)
hash (b ∷ bs) = ok (suc (length bs))

abbrev blocks : List (List ℕ)
blocks = (5 ∷ []) ∷ (6 ∷ 7 ∷ []) ∷ (8 ∷ []) ∷ []

abbrev memory : Memory ℕ (List ℕ)
memory = record { blocks = (3, 1 ∷ 1 ∷ 1 ∷ []) ∷ [] }
