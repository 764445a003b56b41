-- ===== src/Actorstore.antt =====
-- internal/actorstore/repo_transactor.go: from the writes that a client asks for to the data of a
-- commit, with the checks of the CIDs that the client expects.
pub mod Reader
pub mod Swaps
pub mod Blocks
pub mod Tables
mod Tests
use at.Prelude.{
  Bool, true, false, not, ◌&&◌, Option, none, some, List, [], ◌∷◌, ◌++◌, String, if◌then◌else◌,
}
use at.Prelude.Eq.{Eq, ◌==◌}
use at.Prelude.Result.{Result, ok, err, msg, bad_commit_swap, bad_record_swap, Error}
use at.Prelude.Exec.{Exec, pure, throw, lift, ◌>>=◌, ◌>>◌}
use at.Repo.BlockMap
use at.Repo.BlockMap.{Bytes, BlockMap}
use at.Repo.CidSet
use at.Repo.CidSet.{CidSet}
use at.Repo.Codec.{Codec, defined}
use at.Repo.Write.{
  WriteOpAction, create, update, delete, other, PreparedWrite, get_action, get_uri, get_cid,
  get_swap_cid, get_record,
}
use at.Repo.Commit.{Signer, CommitCodec}
use at.Repo.Outside.{Outside}
use at.Repo.Repository.{RecordWriteOp, Repo, load, tree_of}
use at.Repo.Format.{CommitData, format_commit}
use at.Actorstore.Reader.{SqlRepoReader, get_blocks}

pub record RootInfo (C : Type 0) : Type 0 where
  pub cid : C
  pub rev : String

-- What the transactor asks of the stores of the actor and of other modules: GetRootDetailed (no
-- root is `none`), CacheRev, the CID of the row that GetRecord finds (with soft deletions), the rows
-- of the query in GetDuplicateRecordCIDs for a table, the CIDs and the URIs, the reader behind
-- GetBlocks, cid.MustParse of a CID, and the parts of an AT-URI.
pub record Storage {C : Type 0} (out : Outside C) : Type 0 where
  pub get_root_detailed : Exec out.World (Option (RootInfo C))
  pub cache_rev : String → Exec out.World (Unit {0})
  pub find_record : String → Exec out.World (Option C)
  pub select_cids : String → List C → List String → Exec out.World (List C)
  pub reader : SqlRepoReader C out.World
  pub must_parse : C → Result C
  pub collection : String → String
  pub record_key : String → String

-- What the loop over the writes gathers.
pub record Gathered (C R : Type 0) : Type 0 where
  pub write_ops : List (RecordWriteOp R)
  pub new_record_cids : List C
  pub del_and_update_uris : List String

module _ {C R : Type 0} ⦃e : Eq C⦄ (codec : Codec C R) (commits : CommitCodec C) (out : Outside C)
    (storage : Storage out) where
  open out use {World, set_rev}
  open storage use {
    get_root_detailed, cache_rev, find_record, select_cids, reader, must_parse, collection,
    record_key,
  }

  root_or_fail : Option (RootInfo C) → Exec World (RootInfo C)
  root_or_fail none = throw (msg "No repo root found")
  root_or_fail (some root) = pure root

  abbrev pub is_swap_mismatch : RootInfo C → C → Bool
  is_swap_mismatch root swap_commit = defined codec swap_commit && not (root.cid == swap_commit)

  check_swap_commit : RootInfo C → C → Exec World (Unit {0})
  check_swap_commit root swap_commit =
      if is_swap_mismatch root swap_commit then throw bad_commit_swap else pure tt

  -- The CID of the current record, or the undefined one.
  abbrev pub current_cid : Option C → C
  current_cid none = codec.undef
  current_cid (some c) = c

  -- The comparison after the switch, for a write with the swap CID `swap`.
  compare_row : C → C → Exec World (Unit {0})
  compare_row swap curr = if not (curr == swap) then throw bad_record_swap else pure tt

  check_row : WriteOpAction → C → C → Exec World (Unit {0})
  unfolding compare_row
  check_row create swap curr = throw bad_record_swap
  check_row update swap curr = compare_row swap curr
  check_row delete swap curr = compare_row swap curr
  check_row (other s) swap curr = compare_row swap curr

  check_swap : WriteOpAction → String → Option C → Exec World (Unit {0})
  unfolding check_row
  check_swap action uri none = pure tt
  check_swap action uri (some swap) =
      find_record uri >>= λ row. check_row action swap (current_cid row)

  new_record_cid : WriteOpAction → C → Result (List C)
  new_record_cid delete c = ok []
  new_record_cid create c = at.Prelude.Result.◌>>=◌ (must_parse c) (λ d. ok (d ∷ []))
  new_record_cid update c = at.Prelude.Result.◌>>=◌ (must_parse c) (λ d. ok (d ∷ []))
  new_record_cid (other s) c = at.Prelude.Result.◌>>=◌ (must_parse c) (λ d. ok (d ∷ []))

  touched_uri : WriteOpAction → String → List String
  touched_uri create uri = []
  touched_uri update uri = uri ∷ []
  touched_uri delete uri = uri ∷ []
  touched_uri (other s) uri = uri ∷ []

  abbrev pub op_of : PreparedWrite C R → RecordWriteOp R
  op_of write = record {
    action = get_action write;
    collection = collection (get_uri write);
    record_key = record_key (get_uri write);
    rec = get_record codec write;
  }

  -- The loop over the writes; the three lists grow at their ends.
  pub gather : List (PreparedWrite C R) → Exec World (Gathered C R)
  unfolding check_swap new_record_cid touched_uri
  gather [] = pure (record { write_ops = []; new_record_cids = []; del_and_update_uris = [] })
  gather (write ∷ writes) = do
    cids ← lift (new_record_cid (get_action write) (get_cid codec write))
    check_swap (get_action write) (get_uri write) (get_swap_cid write)
    rest ← gather writes
    pure (record {
      write_ops = op_of write ∷ rest.write_ops;
      new_record_cids = cids ++ rest.new_record_cids;
      del_and_update_uris =
          touched_uri (get_action write) (get_uri write) ++ rest.del_and_update_uris;
    })

  select_unless_empty : List C → List String → Exec World (List C)
  select_unless_empty cids [] = pure []
  select_unless_empty [] (uri ∷ uris) = pure []
  select_unless_empty (c ∷ cids) (uri ∷ uris) = select_cids "reocrd" (c ∷ cids) (uri ∷ uris)

  unfoldable pub get_duplicate_record_cids : CidSet C → List String → Exec World (List C)
  unfolding select_unless_empty
  get_duplicate_record_cids cids uris = select_unless_empty (CidSet.to_list cids) uris

  pub remove_all : List C → CidSet C → CidSet C
  remove_all [] set = set
  remove_all (c ∷ cids) set = remove_all cids (CidSet.delete c set)

  pub add_blocks : CommitData C → List C → Exec World (CommitData C)
  add_blocks cd [] = pure cd
  add_blocks cd (c ∷ missing) = do
    found ← get_blocks reader (c ∷ missing)
    pure (record cd { relevant_blocks = BlockMap.add_map cd.relevant_blocks found.blocks })

  -- RepoTransactor.sign, which only logs a DID that is not its own.
  unfoldable pub sign : (Bytes → Result Bytes) → Signer
  sign hash_and_sign did b = hash_and_sign b

  -- The part of FormatCommit after the loop. A new block store has the revision of the root.
  pub format_writes : (Bytes → Result Bytes) → RootInfo C → Gathered C R → Exec World (CommitData C)
  unfolding get_duplicate_record_cids remove_all add_blocks
  format_writes hash_and_sign root gathered = do
    set_rev root.rev
    repository ← load codec commits out root.cid
    cd ←
        format_commit codec commits out repository (sign hash_and_sign)
          (tree_of codec commits out repository repository.mst) gathered.write_ops
    dupes ← get_duplicate_record_cids cd.removed_cids gathered.del_and_update_uris
    add_blocks (record cd { removed_cids = remove_all dupes cd.removed_cids })
        (BlockMap.get_many cd.relevant_blocks gathered.new_record_cids).1

  -- RepoTransactor.FormatCommit
  unfoldable pub format_prepared :
      (Bytes → Result Bytes) → List (PreparedWrite C R) → C → Exec World (CommitData C)
  unfolding root_or_fail check_swap_commit gather format_writes
  format_prepared hash_and_sign writes swap_commit = do
    found ← get_root_detailed
    root ← root_or_fail found
    check_swap_commit root swap_commit
    cache_rev root.rev
    gathered ← gather writes
    format_writes hash_and_sign root gathered
