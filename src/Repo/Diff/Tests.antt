-- ===== src/Repo/Diff/Tests.antt =====
-- The theorems about diffs at concrete values.
use at.Prelude.{ℕ, ◌≡◌, refl, false, some, List, [], ◌∷◌}
use at.Prelude.Eq.{nat_eq, string_eq}
use at.Prelude.GoMap.{lookup, insert}
use at.Prelude.Result.{ok}
use at.Repo.BlockMap
use at.Repo.BlockMap.{new_block_map}
use at.Repo.CidSet
use at.Repo.CidSet.{new_cid_set}
use at.Repo.Outside.{DiffOp}
use at.Repo.Sample.{out}
use at.Repo.Diff.{DataDiff, empty_diff, diff_from}
use at.Repo.Diff.Leaves.{LeavesApart}
use at.Repo.Diff.Trees.{BlocksApart}

abbrev diff : DataDiff ℕ
diff = empty_diff

diff-LeavesApart : LeavesApart diff
unfolding empty_diff CidSet.has lookup
diff-LeavesApart c h = refl

diff-BlocksApart : BlocksApart diff
unfolding empty_diff CidSet.has lookup
diff-BlocksApart c h = refl

no_leaf : CidSet.has diff.new_leaf_cids 3 ≡ false
unfolding empty_diff CidSet.has lookup
no_leaf = refl

no_block : BlockMap.has diff.new_blocks 3 ≡ false
unfolding empty_diff BlockMap.has lookup
no_block = refl

abbrev ops : List (DiffOp ℕ)
ops =
    record { op = "add"; rpath = "a"; old_cid = 0; new_cid = 5 }
    ∷ record { op = "mut"; rpath = "b"; old_cid = 6; new_cid = 7 }
    ∷ []

abbrev grown : DataDiff ℕ
grown = record diff {
  new_blocks = BlockMap.set 5 (some (5 ∷ [])) new_block_map;
  removed_cids = CidSet.add 6 (new_cid_set []);
}

diff_from_run : (diff_from out ops ((5, some (5 ∷ [])) ∷ [])).0 ≡ ok grown
unfolding diff_from lookup BlockMap.set CidSet.add insert
diff_from_run = refl
