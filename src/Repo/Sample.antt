-- ===== src/Repo/Sample.antt =====
-- A concrete world for the tests: a block store that is a Go map, a tree that is a Go map from keys
-- to CIDs, and CIDs that are the first number of an encoding.
use at.Prelude.{ℕ, Option, none, some, [], ◌∷◌, String}
use at.Prelude.Eq.{nat_eq, string_eq}
use at.Prelude.GoMap.{GoMap, lookup, insert, delete as delete_key}
use at.Prelude.Result.{Result, ok, err, msg}
use at.Repo.BlockMap.{Bytes}
use at.Repo.Codec.{Codec}
use at.Repo.Commit.{SignedCommit, CommitCodec}
use at.Repo.Outside.{Outside}

abbrev pub sum_of : Bytes → ℕ
sum_of none = 0
sum_of (some []) = 1
sum_of (some (x ∷ xs)) = x

abbrev pub codec : Codec ℕ ℕ
codec = record {
  undef = 0;
  nil = 0;
  parse_uri = ok;
  marshal = λ r. ok (some (r ∷ []));
  sum = λ b. ok (sum_of b);
}

abbrev pub sample_commit : SignedCommit ℕ
sample_commit = record {
  did = "did:plc:a";
  version = 3;
  prev = none;
  tree_cid = 7;
  sig = none;
  rev = "r1";
  raw = none;
}

abbrev pub commits : CommitCodec ℕ
commits = record {
  marshal_unsigned = λ c. ok (some (c.tree_cid ∷ []));
  marshal_signed = λ c. ok (some (9 ∷ c.tree_cid ∷ []));
  unmarshal_signed = λ b. ok sample_commit;
  sum = λ b. ok (sum_of b);
}

abbrev pub read : {V : Type 0} → Option V → Result V
read none = err (msg "not found")
read (some v) = ok v

abbrev pub out : Outside ℕ
out = record {
  World = GoMap ℕ Bytes;
  Tree = GoMap String ℕ;
  fetch = λ c w. (read (lookup c w), w);
  new_block = λ b c. ok tt;
  store = λ c b w. (ok tt, insert c b w);
  set_rev = λ r w. (ok tt, w);
  empty_tree = [];
  load_tree = λ c. [];
  tree_get = λ t k w. (read (lookup k t), w);
  tree_add = λ t k c w. (ok (insert k c t), w);
  tree_update = λ t k c w. (ok (insert k c t), w);
  tree_delete = λ t k w. (ok (delete_key k t), w);
  get_pointer = λ t w. (ok 7, w);
  diff_trees = λ a b w. (ok [], w);
  next_tid = λ w. (ok "r2", w);
  join = λ a b. b;
}
