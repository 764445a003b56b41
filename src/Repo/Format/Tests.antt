-- ===== src/Repo/Format/Tests.antt =====
-- The theorems about the data of a commit at the concrete world of `Sample`.
use at.Prelude.{ℕ, ◌≡◌, refl, none, some, List, [], ◌∷◌, String, false}
use at.Prelude.Eq.{nat_eq, string_eq}
use at.Prelude.GoMap.{GoMap, lookup, insert}
use at.Prelude.Result.{ok}
use at.Repo.BlockMap.{BlockMap, new_block_map, get, set, add}
use at.Repo.CidSet
use at.Repo.CidSet.{new_cid_set}
use at.Repo.Commit.{Signer, SignedCommit, sign_commit_with_signer}
use at.Repo.Outside.{DiffOp, Outside}
use at.Repo.Repository.{RecordWriteOp, Repo}
use at.Repo.Sample.{sample_commit, codec, commits, out}
use at.Repo.Write.{create}
use at.Repo.Format.{CommitData, write_loop, format_commit}
use at.Repo.Format.Blocks.{IsDataOf, format_commit-IsDataOf}

abbrev repo : Repo ℕ (GoMap String ℕ)
repo = record { root = 4; mst = some []; commit = sample_commit; dirty = false }

abbrev op_a : RecordWriteOp ℕ
op_a = record { action = create; collection = "c"; record_key = "a"; rec = 5 }

abbrev op_b : RecordWriteOp ℕ
op_b = record { action = create; collection = "c"; record_key = "b"; rec = 6 }

abbrev adding : Outside ℕ
adding = record out {
  diff_trees = λ a b w. (ok (record { op = "add"; rpath = "a"; old_cid = 0; new_cid = 5 } ∷ []), w);
}

abbrev signer : Signer
signer did b = ok b

abbrev signed_commit : SignedCommit ℕ
signed_commit = record {
  did = "did:plc:a";
  version = 3;
  prev = none;
  tree_cid = 7;
  sig = some (7 ∷ []);
  rev = "r2";
  raw = some (9 ∷ 7 ∷ []);
}

abbrev made : CommitData ℕ
made = record {
  cid = 9;
  rev = "r2";
  since = "";
  prev = 0;
  new_blocks = record { blocks = (5, some (5 ∷ [])) ∷ (9, some (9 ∷ 7 ∷ [])) ∷ [] };
  relevant_blocks = record { blocks = (9, some (9 ∷ 7 ∷ [])) ∷ [] };
  removed_cids = record { set = (4, tt) ∷ [] };
  signed_commit = signed_commit;
}

-- Two creates, of which the difference names the first.
format_commit_run :
    (format_commit codec commits adding repo signer [] (op_a ∷ op_b ∷ []) []).0 ≡ ok made
unfolding format_commit insert lookup add get set new_block_map new_cid_set CidSet.add
    sign_commit_with_signer
format_commit_run = refl

format_commit-IsDataOf_example :
    (leaves : BlockMap ℕ) × (t' : GoMap String ℕ) × (pointer : ℕ) × (diff : List (DiffOp ℕ))
    × ((write_loop codec commits adding (op_a ∷ op_b ∷ []) (new_block_map, []) []).0
        ≡ ok (leaves, t'))
    × ((adding.get_pointer t'
          (write_loop codec commits adding (op_a ∷ op_b ∷ []) (new_block_map, []) []).1).0
        ≡ ok pointer)
    × ((adding.diff_trees 4 pointer
          (adding.get_pointer t'
            (write_loop codec commits adding (op_a ∷ op_b ∷ []) (new_block_map, []) []).1).1).0
        ≡ ok diff)
    × IsDataOf codec commits adding "did:plc:a" signer 4 pointer leaves diff made
format_commit-IsDataOf_example =
    format_commit-IsDataOf codec commits adding repo signer [] (op_a ∷ op_b ∷ []) [] made
      format_commit_run
