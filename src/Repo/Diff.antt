-- ===== src/Repo/Diff.antt =====
-- internal/repo/repo.go: the difference of two trees, as the operations of a diff build it up.
pub mod Leaves
pub mod Trees
mod Tests
use at.Prelude.{Bool, true, false, Option, none, some, List, [], ◌∷◌, String, if◌then◌else◌}
use at.Prelude.Eq.{Eq, ◌==◌, string_eq}
use at.Prelude.GoMap.{GoMap, insert}
use at.Prelude.Result.{Result, ok, err, msg}
use at.Prelude.Exec.{Exec, pure, throw, ◌>>=◌, ◌>>◌}
use at.Repo.BlockMap
use at.Repo.BlockMap.{Bytes, BlockMap, new_block_map}
use at.Repo.CidSet
use at.Repo.CidSet.{CidSet, new_cid_set}
use at.Repo.Outside.{DiffOp, Outside}

pub record DataAdd (C : Type 0) : Type 0 where
  pub key : String
  pub cid : C

pub record DataUpdate (C : Type 0) : Type 0 where
  pub key : String
  pub cid : C
  pub prev : C

pub record DataDelete (C : Type 0) : Type 0 where
  pub key : String
  pub cid : C

pub record DataDiff (C : Type 0) : Type 0 where
  pub adds : GoMap String (DataAdd C)
  pub updates : GoMap String (DataUpdate C)
  pub deletes : GoMap String (DataDelete C)
  pub new_blocks : BlockMap C
  pub new_leaf_cids : CidSet C
  pub removed_cids : CidSet C

module _ {C : Type 0} ⦃e : Eq C⦄ where
  unfoldable pub empty_diff : DataDiff C
  unfolding new_block_map new_cid_set
  empty_diff = record {
    adds = [];
    updates = [];
    deletes = [];
    new_blocks = new_block_map;
    new_leaf_cids = new_cid_set [];
    removed_cids = new_cid_set [];
  }

  unfoldable pub leaf_add : String → C → DataDiff C → DataDiff C
  leaf_add key cid dd =
      let dd' : DataDiff C = record dd {
        adds = insert key (record { key = key; cid = cid }) dd.adds;
      } in
      if CidSet.has dd.removed_cids cid
      then record dd' { removed_cids = CidSet.delete cid dd.removed_cids }
      else record dd' { new_leaf_cids = CidSet.add cid dd.new_leaf_cids }

  unfoldable pub leaf_update : String → C → C → DataDiff C → DataDiff C
  leaf_update key prev cid dd = if prev == cid then dd else record dd {
    updates = insert key (record { key = key; cid = cid; prev = prev }) dd.updates;
    removed_cids = CidSet.add prev dd.removed_cids;
    new_leaf_cids = CidSet.add cid dd.new_leaf_cids;
  }

  unfoldable pub leaf_delete : String → C → DataDiff C → DataDiff C
  leaf_delete key c dd =
      let dd' : DataDiff C = record dd {
        deletes = insert key (record { key = key; cid = c }) dd.deletes;
      } in
      if CidSet.has dd.new_leaf_cids c
      then record dd' { new_leaf_cids = CidSet.delete c dd.new_leaf_cids }
      else record dd' { removed_cids = CidSet.add c dd.removed_cids }

  unfoldable pub tree_add : C → Bytes → DataDiff C → DataDiff C
  tree_add c b dd =
      if CidSet.has dd.removed_cids c
      then record dd { removed_cids = CidSet.delete c dd.removed_cids }
      else record dd { new_blocks = BlockMap.set c b dd.new_blocks }

  unfoldable pub tree_delete : C → DataDiff C → DataDiff C
  tree_delete c dd =
      if BlockMap.has dd.new_blocks c
      then record dd { new_blocks = BlockMap.delete c dd.new_blocks }
      else record dd { removed_cids = CidSet.add c dd.removed_cids }

  module _ (out : Outside C) where
    -- One round of the loop of diffFrom.
    diff_step : DiffOp C → DataDiff C → Exec out.World (DataDiff C)
    diff_step op dd =
        if op.op == "add"
        then (do
          b ← out.fetch op.new_cid
          pure (record dd { new_blocks = BlockMap.set op.new_cid b dd.new_blocks }))
        else if op.op == "del"
        then pure (record dd { removed_cids = CidSet.add op.new_cid dd.removed_cids })
        else if op.op == "mut"
        then pure (record dd { removed_cids = CidSet.add op.old_cid dd.removed_cids })
        else throw (msg "unknown mst diff operation")

    diff_loop : List (DiffOp C) → DataDiff C → Exec out.World (DataDiff C)
    unfolding diff_step
    diff_loop [] dd = pure dd
    diff_loop (op ∷ ops) dd = diff_step op dd >>= λ dd'. diff_loop ops dd'

    unfoldable pub diff_from : List (DiffOp C) → Exec out.World (DataDiff C)
    unfolding diff_loop empty_diff
    diff_from ops = diff_loop ops empty_diff

    -- diffOf computes the operations and prints them; the difference that it returns stays empty.
    unfoldable pub diff_of : C → C → Exec out.World (DataDiff C)
    unfolding empty_diff
    diff_of old new = do out.diff_trees old new; pure empty_diff
