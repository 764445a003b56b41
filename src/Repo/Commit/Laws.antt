-- ===== src/Repo/Commit/Laws.antt =====
-- What a signed commit holds.
use at.Prelude.{◌≡◌, refl, subst}
use at.Prelude.Eq.{==_refl}
use at.Prelude.Result.{Result, ok, ok_injective, >>=-eq-ok}
use at.Repo.BlockMap.{Bytes}
use at.Repo.Commit.{
  UnsignedCommit, SignedCommit, Signer, CommitCodec, signed, sign_commit_with_signer, sign_commit,
}

module _ {C : Type 0} (codec : CommitCodec C) where
  -- `cid` and `sc` are the CID and the signed form of the commit `c`.
  pub record IsSigned (c : UnsignedCommit C) (signer : Signer) (cid : C) (sc : SignedCommit C)
      : Type 0 where
    pub unsigned : Bytes
    pub encoded : codec.marshal_unsigned c ≡ ok unsigned
    pub sig_is : signer c.did unsigned ≡ ok sc.sig
    pub raw_is : codec.marshal_signed (signed codec c sc.sig) ≡ ok sc.raw
    pub cid_is : codec.sum sc.raw ≡ ok cid
    pub did_is : sc.did ≡ c.did
    pub version_is : sc.version ≡ c.version
    pub prev_is : sc.prev ≡ c.prev
    pub tree_is : sc.tree_cid ≡ c.tree_cid
    pub rev_is : sc.rev ≡ c.rev

  -- A commit that SignCommitWithSigner returns has the fields of the unsigned commit, the signer's
  -- signature of its encoding, and the CID of the encoding of the signed commit.
  pub sign_commit_with_signer-IsSigned :
      (c : UnsignedCommit C) (signer : Signer) (cid : C) (sc : SignedCommit C)
      → sign_commit_with_signer codec c signer ≡ ok (cid, sc)
      → IsSigned c signer cid sc
  unfolding sign_commit_with_signer
  sign_commit_with_signer-IsSigned c signer cid sc h =
      let (b, hb, h₁) = >>=-eq-ok (codec.marshal_unsigned c) _ h in
      let (s, hs, h₂) = >>=-eq-ok (signer c.did b) _ h₁ in
      let (raw, hr, h₃) = >>=-eq-ok (codec.marshal_signed (signed codec c s)) _ h₂ in
      let (x, hx, h₄) = >>=-eq-ok (codec.sum raw) _ h₃ in
      subst (λ (r : C × SignedCommit C). IsSigned c signer r.0 r.1) (ok_injective h₄)
        (record {
          unsigned = b;
          encoded = hb;
          sig_is = hs;
          raw_is = hr;
          cid_is = hx;
          did_is = refl;
          version_is = refl;
          prev_is = refl;
          tree_is = refl;
          rev_is = refl;
        })

  -- SignCommit never refuses for a mismatch of the DID: it is SignCommitWithSigner with the key.
  pub sign_commit_lem :
      (c : UnsignedCommit C) (hash_and_sign : Bytes → Result Bytes)
      → sign_commit codec c hash_and_sign
        ≡ sign_commit_with_signer codec c (λ did bytes. hash_and_sign bytes)
  unfolding sign_commit sign_commit_with_signer
  sign_commit_lem c hash_and_sign = simp ==_refl
