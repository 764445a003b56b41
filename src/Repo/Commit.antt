-- ===== src/Repo/Commit.antt =====
-- internal/repo/ops.go: commits and their signatures. A commit is signed over the encoding of its
-- unsigned form, and its CID is that of the encoding of its signed form.
pub mod Laws
mod Tests
use at.Prelude.{ℕ, Bool, not, Option, none, some, String, if◌then◌else◌}
use at.Prelude.Eq.{◌==◌, string_eq}
use at.Prelude.Result.{Result, ok, err, msg, ◌>>=◌}
use at.Repo.BlockMap.{Bytes}

pub record UnsignedCommit (C : Type 0) : Type 0 where
  pub did : String
  pub version : ℕ
  pub prev : Option C
  pub tree_cid : C
  pub rev : String

-- The field `Data` is called `tree_cid` here.
pub record SignedCommit (C : Type 0) : Type 0 where
  pub did : String
  pub version : ℕ
  pub prev : Option C
  pub tree_cid : C
  pub sig : Bytes
  pub rev : String
  pub raw : Bytes

abbrev pub Signer : Type 0
Signer = String → Bytes → Result Bytes

-- dagcbor on the two forms of a commit, and DefaultPrefix.Sum.
pub record CommitCodec (C : Type 0) : Type 0 where
  pub marshal_unsigned : UnsignedCommit C → Result Bytes
  pub marshal_signed : SignedCommit C → Result Bytes
  pub unmarshal_signed : Bytes → Result (SignedCommit C)
  pub sum : Bytes → Result C

abbrev pub repo_version : ℕ
repo_version = 3

module _ {C : Type 0} (codec : CommitCodec C) where
  abbrev pub signed : UnsignedCommit C → Bytes → SignedCommit C
  signed c s = record {
    did = c.did;
    version = c.version;
    prev = c.prev;
    tree_cid = c.tree_cid;
    sig = s;
    rev = c.rev;
    raw = none;
  }

  unfoldable pub sign_commit_with_signer : UnsignedCommit C → Signer → Result (C × SignedCommit C)
  sign_commit_with_signer c signer = do
    b ← codec.marshal_unsigned c
    s ← signer c.did b
    raw ← codec.marshal_signed (signed c s)
    cid ← codec.sum raw
    ok (cid, record (signed c s) { raw = raw })

  -- `hash_and_sign` is the method of the private key.
  unfoldable pub sign_commit :
      UnsignedCommit C → (Bytes → Result Bytes) → Result (C × SignedCommit C)
  unfolding sign_commit_with_signer
  sign_commit c hash_and_sign = sign_commit_with_signer c (λ did bytes.
      if not (did == c.did)
      then err (msg "did mismatch while signing commit")
      else hash_and_sign bytes)
