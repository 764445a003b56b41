-- ===== src/Repo/Commit/Tests.antt =====
-- The theorems about commits at a concrete commit.
use at.Prelude.{ℕ, none, some, [], ◌∷◌}
use at.Prelude.Result.{ok}
use at.Repo.Commit.{UnsignedCommit, SignedCommit, Signer, CommitCodec}

abbrev codec : CommitCodec ℕ
codec = record {
  marshal_unsigned = λ c. ok (some (c.tree_cid ∷ []));
  marshal_signed = λ c. ok (some (9 ∷ c.tree_cid ∷ []));
  unmarshal_signed = λ b. ok (record {
    did = "";
    version = 3;
    prev = none;
    tree_cid = 0;
    sig = none;
    rev = "";
    raw = none;
  });
  sum = λ b. ok 12;
}

abbrev commit : UnsignedCommit ℕ
commit = record { did = "did:plc:a"; version = 3; prev = none; tree_cid = 7; rev = "r1" }

abbrev signer : Signer
signer did b = ok b

abbrev signed_commit : SignedCommit ℕ
signed_commit = record {
  did = "did:plc:a";
  version = 3;
  prev = none;
  tree_cid = 7;
  sig = some (7 ∷ []);
  rev = "r1";
  raw = some (9 ∷ 7 ∷ []);
}
