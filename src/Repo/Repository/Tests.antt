-- ===== src/Repo/Repository/Tests.antt =====
-- The theorems about repositories at the concrete world of `Sample`.
use at.Prelude.{ℕ, ◌≡◌, refl, subst, true, false, some, List, [], ◌∷◌, String}
use at.Prelude.Eq.{nat_eq, string_eq}
use at.Prelude.GoMap.{GoMap, lookup, insert, lookup-insert_self}
use at.Prelude.Result.{ok_injective, ok, err, msg}
use at.Repo.BlockMap.{Bytes}
use at.Repo.Write.{create}
use at.Repo.Commit.{Signer}
use at.Repo.Outside.{Outside}
use at.Repo.Repository.{
  RecordWriteOp, WriteResult, Repo, State, apply_writes, put_record, get_record_bytes, ipld_put,
  commit, tree_of, get_tree,
}
use at.Repo.Repository.Records.{Stores, get_record_bytes-put_record}
use at.Repo.Repository.Commits.{Committed, commit-Committed, commit_failed}
use at.Repo.Sample.{sample_commit, codec, commits, read, out}
use at.Repo.Repository.Writes.{OneStep, apply_writes-last}

abbrev start : State codec commits out
start = (record { root = 0; mst = some []; commit = sample_commit; dirty = false }, [])

abbrev op_a : RecordWriteOp ℕ
op_a = record { action = create; collection = "c"; record_key = "a"; rec = 5 }

abbrev op_b : RecordWriteOp ℕ
op_b = record { action = create; collection = "c"; record_key = "b"; rec = 6 }

abbrev results : List (WriteResult ℕ ℕ)
results = record { cid = 5; op = op_a } ∷ record { cid = 6; op = op_b } ∷ []

-- Two creates leave a tree with the second entry alone.
apply_writes_run : apply_writes codec commits out (op_a ∷ op_b ∷ []) start ≡ (
  ok results,
  (
    record { root = 0; mst = some (("b", 6) ∷ []); commit = sample_commit; dirty = true },
    (5, some (5 ∷ [])) ∷ (6, some (6 ∷ [])) ∷ [],
  ),
)
unfolding apply_writes get_tree tree_of ipld_put insert
apply_writes_run = refl

apply_writes-last_example :
    (t' : GoMap String ℕ) × (c : ℕ) × ((apply_writes codec commits out
        (op_a ∷ op_b ∷ [])
        start).1.0.mst
      ≡ some t')
    × OneStep codec commits out create [] op_b c t'
unfolding apply_writes get_tree tree_of ipld_put insert
apply_writes-last_example = apply_writes-last codec commits out (op_a ∷ []) op_b results start refl

stores : Stores out
stores = record {
  block_ok = λ b c. refl;
  get_add = λ t t' k c w h.
      subst (λ m. read (lookup k m) ≡ ok c) (ok_injective h) (rw lookup-insert_self);
  fetch_store = λ c b w h. rw lookup-insert_self;
  fetch_add = λ t k c d b w h. h;
  fetch_get = λ t k d b w h. h;
}

get_record_bytes-put_record_example :
    (b : Bytes) × (codec.marshal 5 ≡ ok b)
    × (codec.sum b ≡ ok 5)
    × ((get_record_bytes codec commits out "c" "a"
          (put_record codec commits out "c" "a" 5 start).1).0
        ≡ ok (5, b))
unfolding put_record get_tree tree_of ipld_put
get_record_bytes-put_record_example =
    get_record_bytes-put_record codec commits out stores "c" "a" 5 start 5 refl

-- A tree that refuses every entry.
abbrev refusing : Outside ℕ
refusing = record out { tree_add = λ t k c w. (err (msg "refused"), w) }

abbrev refused : State codec commits refusing
refused = (record { root = 0; mst = some []; commit = sample_commit; dirty = false }, [])

abbrev signer : Signer
signer did b = ok b

commit-Committed_example :
    (rcid : ℕ) × ((out.get_pointer [] []).0 ≡ ok rcid)
    × Committed codec commits out "did:plc:a" signer rcid "r2"
        (9, "r2")
        (commit codec commits out signer start).1
unfolding commit get_tree tree_of ipld_put
commit-Committed_example = commit-Committed codec commits out signer (9, "r2") start refl

abbrev unsigning : Signer
unsigning did b = err (msg "no key")

commit_failed_example :
    ((commit codec commits out unsigning start).1.0.commit ≡ sample_commit)
    × ((commit codec commits out unsigning start).1.0.dirty ≡ false)
unfolding commit get_tree tree_of ipld_put
commit_failed_example = commit_failed codec commits out unsigning (msg "no key") start refl

abbrev loaded : Repo ℕ (GoMap String ℕ)
loaded = record { root = 4; mst = some []; commit = sample_commit; dirty = false }
