-- ===== src/Repo/Format.antt =====
-- internal/repo/format.go: from a list of writes to the data of a commit.
pub mod Tree
pub mod Blocks
mod Tests
use at.Prelude.{Bool, true, false, not, Option, none, some, List, [], ◌∷◌, String, if◌then◌else◌}
use at.Prelude.Eq.{Eq, ◌==◌, string_eq}
use at.Prelude.Result.{Result, ok, err, msg}
use at.Prelude.Exec.{Exec, pure, throw, lift, ◌>>=◌, ◌>>◌}
use at.Repo.BlockMap
use at.Repo.BlockMap.{Bytes, BlockMap, new_block_map}
use at.Repo.CidSet
use at.Repo.CidSet.{CidSet, new_cid_set}
use at.Repo.Codec.{Codec}
use at.Repo.Write.{WriteOpAction, create, update, delete, other}
use at.Repo.Commit.{
  SignedCommit, UnsignedCommit, Signer, CommitCodec, repo_version, sign_commit,
  sign_commit_with_signer,
}
use at.Repo.Outside.{DiffOp, Outside}
use at.Repo.Repository.{RecordWriteOp, Repo, unsigned}

pub record CommitData (C : Type 0) : Type 0 where
  pub cid : C
  pub rev : String
  pub since : String
  pub prev : C
  pub new_blocks : BlockMap C
  pub relevant_blocks : BlockMap C
  pub removed_cids : CidSet C
  pub signed_commit : SignedCommit C

module _ {C R : Type 0} ⦃e : Eq C⦄ (codec : Codec C R) (commits : CommitCodec C)
    (out : Outside C) where
  open out use {
    World, Tree, fetch, tree_add, tree_update, tree_delete, get_pointer, diff_trees, next_tid, join,
  }

  -- BlockMap.Add of a record, with the map beside the result.
  abbrev add_leaf : R → BlockMap C → Result C × BlockMap C
  add_leaf value leaves = BlockMap.add codec.marshal codec.sum value leaves

  -- One round of the first loop of FormatCommit: the leaves and the tree so far.
  write_action :
      WriteOpAction → RecordWriteOp R → BlockMap C → Tree → Exec World (BlockMap C × Tree)
  write_action create op leaves t = do
    c ← lift (add_leaf op.rec leaves).0
    t' ← tree_add t (join op.collection op.record_key) c
    pure ((add_leaf op.rec leaves).1, t')
  write_action update op leaves t = do
    c ← lift (add_leaf op.rec leaves).0
    t' ← tree_update t (join op.collection op.record_key) c
    pure ((add_leaf op.rec leaves).1, t')
  write_action delete op leaves t = do
    t' ← tree_delete t (join op.collection op.record_key)
    pure (leaves, t')
  write_action (other s) op leaves t = throw (msg "unknown write operation")

  unfoldable pub write_loop :
      List (RecordWriteOp R) → BlockMap C × Tree → Exec World (BlockMap C × Tree)
  unfolding write_action
  write_loop [] acc = pure acc
  write_loop (op ∷ ops) acc = write_action op.action op acc.0 acc.1 >>= λ acc'. write_loop ops acc'

  -- A leaf of the writes that the diff adds is a new block; the other operations are not handled.
  diff_action : BlockMap C → DiffOp C → BlockMap C → Result (BlockMap C)
  diff_action leaves op new_blocks =
      if op.op == "add"
      then ok (elim (BlockMap.get leaves op.new_cid) [
        | none ↦ new_blocks
        | some b ↦ BlockMap.set op.new_cid b new_blocks
      ])
      else if op.op == "mut"
      then ok new_blocks
      else if op.op == "del"
      then ok new_blocks
      else err (msg "unknown mst diff operation")

  diff_blocks : BlockMap C → List (DiffOp C) → BlockMap C → Result (BlockMap C)
  unfolding diff_action
  diff_blocks leaves [] new_blocks = ok new_blocks
  diff_blocks leaves (op ∷ ops) new_blocks =
      at.Prelude.Result.◌>>=◌ (diff_action leaves op new_blocks) (diff_blocks leaves ops)

  abbrev prev_or_undef : Option C → C
  prev_or_undef none = codec.undef
  prev_or_undef (some c) = c

  -- The end of FormatCommit. `mstAddBlocksForPath` adds nothing, so the relevant blocks are empty
  -- until the commit is added.
  commit_data : C → String → BlockMap C → C → SignedCommit C → CommitData C
  commit_data root rev new_blocks cid sc =
      if cid == root
      then record {
        cid = cid;
        rev = rev;
        since = "";
        prev = prev_or_undef sc.prev;
        new_blocks = new_blocks;
        relevant_blocks = new_block_map;
        removed_cids = new_cid_set [];
        signed_commit = sc;
      }
      else record {
        cid = cid;
        rev = rev;
        since = "";
        prev = prev_or_undef sc.prev;
        new_blocks = BlockMap.set cid sc.raw new_blocks;
        relevant_blocks = BlockMap.set cid sc.raw new_block_map;
        removed_cids = CidSet.add root (new_cid_set []);
        signed_commit = sc;
      }

  -- FormatCommit on the tree `t` that getTree returns.
  unfoldable pub format_commit :
      Repo C Tree → Signer → Tree → List (RecordWriteOp R) → Exec World (CommitData C)
  unfolding write_loop diff_blocks commit_data
  format_commit r signer t writes = do
    written ← write_loop writes (new_block_map, t)
    pointer ← get_pointer written.1
    diff ← diff_trees r.root pointer
    new_blocks ← lift (diff_blocks written.0 diff new_block_map)
    rev ← next_tid
    made ← lift (
        sign_commit_with_signer commits (unsigned codec commits out r.commit.did pointer rev)
          signer)
    pure (commit_data r.root rev new_blocks made.0 made.1)

  -- FormatInitCommit: every write is an addition, whatever its action.
  init_loop : List (RecordWriteOp R) → BlockMap C × Tree → Exec World (BlockMap C × Tree)
  init_loop [] acc = pure acc
  init_loop (op ∷ ops) acc = lift (add_leaf op.rec acc.0).0 >>= λ c.
      tree_add acc.1 (join op.collection op.record_key) c >>= λ t'.
      init_loop ops ((add_leaf op.rec acc.0).1, t')

  -- The block of the new CID is read first, whatever the operation.
  init_diff_step : DiffOp C → BlockMap C × CidSet C → Exec World (BlockMap C × CidSet C)
  init_diff_step op (new_blocks, removed) = do
    b ← fetch op.new_cid
    if op.op == "add"
        then pure (
          BlockMap.set op.new_cid b new_blocks,
          (if CidSet.has removed op.new_cid then CidSet.delete op.new_cid removed else removed),
        )
        else if op.op == "del"
        then pure (new_blocks, CidSet.add op.new_cid removed)
        else if op.op == "mut"
        then pure (new_blocks, CidSet.add op.old_cid removed)
        else throw (msg "unknown mst diff operation")

  init_diff_loop : List (DiffOp C) → BlockMap C × CidSet C → Exec World (BlockMap C × CidSet C)
  unfolding init_diff_step
  init_diff_loop [] acc = pure acc
  init_diff_loop (op ∷ ops) acc = init_diff_step op acc >>= λ acc'. init_diff_loop ops acc'

  unfoldable pub format_init_commit :
      String → (Bytes → Result Bytes) → List (RecordWriteOp R) → Exec World (CommitData C)
  unfolding init_loop init_diff_loop
  format_init_commit did hash_and_sign writes = do
    written ← init_loop writes (new_block_map, out.empty_tree)
    pointer ← get_pointer written.1
    diffs ← diff_trees pointer pointer
    changed ← init_diff_loop diffs (written.0, new_cid_set [])
    rev ← next_tid
    made ← lift (sign_commit commits (unsigned codec commits out did pointer rev) hash_and_sign)
    pure (record {
      cid = made.0;
      rev = rev;
      since = "";
      prev = codec.undef;
      new_blocks = BlockMap.set made.0 made.1.raw changed.0;
      relevant_blocks = BlockMap.set made.0 made.1.raw changed.0;
      removed_cids = changed.1;
      signed_commit = made.1;
    })
