-- ===== src/Repo/Repository.antt =====
-- internal/repo/repo.go: a repository over a tree of records. The context of a call and the
-- logger are left out: the code only passes them on.
pub mod Writes
pub mod Commits
pub mod Records
mod Tests
use at.Prelude.{Bool, true, false, Option, none, some, if◌then◌else◌, List, [], ◌∷◌, ◌++◌, String}
use at.Prelude.Eq.{Eq}
use at.Prelude.Result.{Result, ok, err, panic, msg, Error}
use at.Prelude.Exec.{Exec, pure, throw, lift, gets, modify, continue, ◌>>=◌, ◌>>◌}
use at.Repo.BlockMap.{Bytes}
use at.Repo.Codec.{Codec, defined}
use at.Repo.Write.{WriteOpAction, create, update, delete, other}
use at.Repo.Commit.{UnsignedCommit, SignedCommit, Signer, CommitCodec, repo_version, signed}
use at.Repo.Outside.{Outside, DiffOp}

pub record RecordWriteOp (R : Type 0) : Type 0 where
  pub action : WriteOpAction
  pub collection : String
  pub record_key : String
  pub rec : R

pub record WriteResult (C R : Type 0) : Type 0 where
  pub cid : C
  pub op : RecordWriteOp R

-- The fields of Repo that methods change; `storage` and `signer` are parameters.
pub record Repo (C Tree : Type 0) : Type 0 where
  pub root : C
  pub mst : Option Tree
  pub commit : SignedCommit C
  pub dirty : Bool

module _ {C R : Type 0} (codec : Codec C R) (commits : CommitCodec C) (out : Outside C) where
  open out use {
    World, Tree, fetch, new_block, store, set_rev, empty_tree, load_tree, tree_get, tree_add,
    tree_update, tree_delete, get_pointer, diff_trees, next_tid, join,
  }

  -- A method of a repository changes the repository and the world.
  abbrev pub State : Type 0
  State = Repo C Tree × World

  abbrev pub Method : Type 0 → Type 0
  Method A = Exec State A

  -- A call of other code, which changes the world alone.
  abbrev pub call : {A : Type 0} → Exec World A → Method A
  call m (r, w) = ((m w).0, (r, (m w).1))

  abbrev zero_commit : SignedCommit C
  zero_commit = record {
    did = "";
    version = 0;
    prev = none;
    tree_cid = codec.undef;
    sig = none;
    rev = "";
    raw = none;
  }

  unfoldable pub new : String → Repo C Tree
  new did = record {
    root = codec.undef;
    mst = some empty_tree;
    dirty = true;
    commit = record zero_commit { version = repo_version; did = did };
  }

  unfoldable pub load : C → Exec World (Repo C Tree)
  load root = do
    blk ← fetch root
    commit ← lift (commits.unmarshal_signed blk)
    set_rev commit.rev
    pure (record { root = root; mst = some (load_tree root); commit = commit; dirty = false })

  unfoldable pub tree_of : Repo C Tree → Option Tree → Tree
  tree_of r none = load_tree r.commit.tree_cid
  tree_of r (some t) = t

  -- The tree is loaded once, and kept.
  unfoldable pub get_tree : Method Tree
  unfolding tree_of
  get_tree (r, w) = (ok (tree_of r r.mst), (record r { mst = some (tree_of r r.mst) }, w))

  abbrev set_tree : Tree → Method (Unit {0})
  set_tree t = modify (λ s. (record s.0 { mst = some t }, s.1))

  abbrev set_dirty : Bool → Method (Unit {0})
  set_dirty b = modify (λ s. (record s.0 { dirty = b }, s.1))

  -- ipldStore.Put on encoded bytes. When no block can be made of them the error is dropped, and
  -- the undefined CID is returned with no error.
  put_block : Bytes → C → Result (Unit {0}) → Exec World C
  put_block b c (ok _) = do store c b; pure c
  put_block b c (err x) = pure codec.undef
  put_block b c panic = lift panic

  unfoldable pub ipld_put : Result Bytes → Exec World C
  unfolding put_block
  ipld_put marshalled = do
    b ← lift marshalled
    c ← lift (codec.sum b)
    put_block b c (new_block b c)

  unfoldable pub get_record_bytes : String → String → Method (C × Bytes)
  get_record_bytes collection rkey = do
    t ← get_tree
    c ← call (tree_get t (join collection rkey))
    b ← call (fetch c)
    pure (c, b)

  unfoldable pub get_record : (Bytes → Result R) → String → String → Method R
  get_record unmarshal collection rkey = do
    r ← get_record_bytes collection rkey
    lift (unmarshal r.1)

  unfoldable pub delete_record : String → String → Method (Unit {0})
  delete_record collection rkey = do
    t ← get_tree
    t' ← call (tree_delete t (join collection rkey))
    set_dirty true
    set_tree t'

  unfoldable pub put_record : String → String → R → Method C
  put_record collection rkey value = do
    t ← get_tree
    set_dirty true
    c ← call (ipld_put (codec.marshal value))
    t' ← call (tree_add t (join collection rkey) c)
    set_tree t'
    pure c

  unfoldable pub update_record : String → String → R → Method C
  update_record collection rkey value = do
    t ← get_tree
    set_dirty true
    c ← call (ipld_put (codec.marshal value))
    t' ← call (tree_update t (join collection rkey) c)
    set_tree t'
    pure c

  -- One round of the loop of ApplyWrites, on the tree `t` that was read before the loop.
  apply_action : WriteOpAction → Tree → RecordWriteOp R → Method (WriteResult C R)
  apply_action create t op = do
    c ← call (ipld_put (codec.marshal op.rec))
    t' ← call (tree_add t (join op.collection op.record_key) c)
    set_tree t'
    pure (record { cid = c; op = op })
  apply_action update t op = do
    c ← call (ipld_put (codec.marshal op.rec))
    t' ← call (tree_update t (join op.collection op.record_key) c)
    set_tree t'
    pure (record { cid = c; op = op })
  apply_action delete t op = do
    t' ← call (tree_delete t (join op.collection op.record_key))
    set_tree t'
    pure (record { cid = codec.undef; op = op })
  apply_action (other s) t op = throw (msg "unknown write operation")

  apply_loop :
      Tree → List (RecordWriteOp R) → List (WriteResult C R) → Method (List (WriteResult C R))
  unfolding apply_action
  apply_loop t [] res = pure res
  apply_loop t (op ∷ ops) res =
      apply_action op.action t op >>= λ x. apply_loop t ops (res ++ x ∷ [])

  unfoldable pub apply_writes : List (RecordWriteOp R) → Method (List (WriteResult C R))
  unfolding apply_loop
  apply_writes ops = do t ← get_tree; set_dirty true; apply_loop t ops []

  abbrev pub unsigned : String → C → String → UnsignedCommit C
  unsigned did rcid rev = record {
    did = did;
    version = repo_version;
    prev = none;
    tree_cid = rcid;
    rev = rev;
  }

  -- Commit from the unsigned commit on.
  finish_commit : Signer → UnsignedCommit C → Method (C × String)
  finish_commit signer ucommit = do
    raw ← lift (commits.marshal_unsigned ucommit)
    sig ← lift (signer ucommit.did raw)
    call (set_rev ucommit.rev)
    c ← call (ipld_put (commits.marshal_signed (signed commits ucommit sig)))
    modify (λ s. (record s.0 { commit = signed commits ucommit sig; dirty = false }, s.1))
    pure (c, ucommit.rev)

  -- Commit, which returns the CID and the revision of the new commit.
  unfoldable pub commit : Signer → Method (C × String)
  unfolding finish_commit
  commit signer = do
    t ← get_tree
    rcid ← call (get_pointer t)
    did ← gets (λ s. s.0.commit.did)
    rev ← call next_tid
    finish_commit signer (unsigned did rcid rev)

  -- Load of an older repository, for its tree.
  older_tree : C → Exec World C
  older_tree oldrepo = do r ← load oldrepo; t ← (λ w. (ok (tree_of r r.mst), w)); get_pointer t

  unfoldable pub diff_since : ⦃e : Eq C⦄ → C → Method (List (DiffOp C))
  unfolding older_tree tree_of
  diff_since oldrepo = do
    old ← (if defined codec oldrepo then call (older_tree oldrepo) else pure codec.undef)
    t ← get_tree
    cur ← call (get_pointer t)
    call (diff_trees old cur)
