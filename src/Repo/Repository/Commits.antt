-- ===== src/Repo/Repository/Commits.antt =====
-- What Commit and Load leave.
use at.Prelude.{◌≡◌, refl, ap, ◌∙◌, sym, subst, false, inl, inr, none, some, String}
use at.Prelude.Result.{Error, Result, ok_injective, ok, err}
use at.Prelude.Exec.{continue-eq-ok, continue-eq-err}
use at.Repo.BlockMap.{Bytes}
use at.Repo.Codec.{Codec}
use at.Repo.Commit.{UnsignedCommit, SignedCommit, Signer, CommitCodec, repo_version, signed}
use at.Repo.Outside.{Outside}
use at.Repo.Repository.{
  Repo, State, get_tree, tree_of, ipld_put, unsigned, commit, finish_commit, load,
}

module _ {C R : Type 0} (codec : Codec C R) (commits : CommitCodec C) (out : Outside C) where
  open out use {World, Tree}

  -- The commit `sc` of the tree `rcid` under the revision `rev`, signed for `did`.
  pub record IsCommitOf (did : String) (signer : Signer) (rcid : C) (rev : String)
      (sc : SignedCommit C) : Type 0 where
    pub encoding : Bytes
    pub encoded : commits.marshal_unsigned (unsigned codec commits out did rcid rev) ≡ ok encoding
    pub signature : signer did encoding ≡ ok sc.sig
    pub did_is : sc.did ≡ did
    pub version_is : sc.version ≡ repo_version
    pub prev_is : sc.prev ≡ none
    pub tree_is : sc.tree_cid ≡ rcid
    pub rev_is : sc.rev ≡ rev

  -- What a run that made the commit of `rcid` has returned and left.
  abbrev pub Committed :
      String → Signer → C → String → C × String → State codec commits out → Type 0
  Committed did signer rcid rev returned s =
      (returned.1 ≡ rev) × IsCommitOf did signer rcid rev s.0.commit × (s.0.dirty ≡ false)

  finish_commit-Committed :
      (signer : Signer) (did rev : String) (rcid : C) (x : C × String) (s : State codec commits out)
      → (finish_commit codec commits out signer (unsigned codec commits out did rcid rev) s).0
        ≡ ok x
      → Committed did signer rcid rev x
          (finish_commit codec commits out signer (unsigned codec commits out did rcid rev) s).1
  unfolding finish_commit
  finish_commit-Committed signer did rev rcid x s h =
      let u = unsigned codec commits out did rcid rev in
      let (raw, hr, h₁, e₁) = continue-eq-ok (commits.marshal_unsigned u) s _ x h in
      let (sig, hs, h₂, e₂) = continue-eq-ok (signer did raw) s _ x h₁ in
      let v = out.set_rev rev s.1 in
      let (_, hv, h₃, e₃) = continue-eq-ok v.0 _ _ x h₂ in
      let p = ipld_put codec commits out (commits.marshal_signed (signed commits u sig)) v.1 in
      let (c, hc, h₄, e₄) = continue-eq-ok p.0 _ _ x h₃ in
      let rev_is : x.1 ≡ rev = sym (ap (λ (y : C × String). y.1) (ok_injective h₄)) in
      subst
        (λ (r : Result (C × String) × State codec commits out). Committed did signer rcid rev x r.1)
        (sym (e₁ ∙ e₂ ∙ e₃ ∙ e₄))
        (
          rev_is,
          record {
            encoding = raw;
            encoded = hr;
            signature = hs;
            did_is = refl;
            version_is = refl;
            prev_is = refl;
            tree_is = refl;
            rev_is = refl;
          },
          refl,
        )

  -- A Commit that succeeds leaves the repository clean, with a commit of version 3 of the same DID
  -- that has no predecessor, the pointer of the tree and the revision that is returned, and that is
  -- signed by the repository's signer.
  pub commit-Committed :
      (signer : Signer) (x : C × String) (s : State codec commits out)
      → (commit codec commits out signer s).0 ≡ ok x
      → (rcid : C) × ((out.get_pointer (tree_of codec commits out s.0 s.0.mst) s.1).0 ≡ ok rcid)
        × Committed s.0.commit.did signer rcid x.1 x (commit codec commits out signer s).1
  unfolding commit get_tree
  commit-Committed signer x s h =
      let t = tree_of codec commits out s.0 s.0.mst in
      let p = out.get_pointer t s.1 in
      let (rcid, hp, h₁, e₁) = continue-eq-ok p.0 _ _ x h in
      let n = out.next_tid p.1 in
      let (rev, hn, h₂, e₂) = continue-eq-ok n.0 _ _ x h₁ in
      let start : State codec commits out = (record s.0 { mst = some t }, n.1) in
      let u = unsigned codec commits out s.0.commit.did rcid rev in
      let left = (finish_commit codec commits out signer u start).1 in
      let done = finish_commit-Committed signer s.0.commit.did rev rcid x start h₂ in
      (
        rcid,
        hp,
        subst
            (λ (r : Result (C × String) × State codec commits out).
              Committed s.0.commit.did signer rcid x.1 x r.1)
            (sym (e₁ ∙ e₂))
            (subst (λ v. Committed s.0.commit.did signer rcid v x left) (sym done.0) done),
      )

  finish_commit_failed :
      (signer : Signer) (u : UnsignedCommit C) (x : Error) (s : State codec commits out)
      → (finish_commit codec commits out signer u s).0 ≡ err x
      → (finish_commit codec commits out signer u s).1.0 ≡ s.0
  unfolding finish_commit
  finish_commit_failed signer u x s h =
      elim (continue-eq-err (commits.marshal_unsigned u) s _ x h) [
        | inl (_, e) ↦ ap (λ (z : State codec commits out). z.0) e
        | inr (raw, _, h₁, e₁) ↦ elim (continue-eq-err (signer u.did raw) s _ x h₁) [
          | inl (_, e) ↦ ap kept e₁ ∙ ap (λ (z : State codec commits out). z.0) e
          | inr (sig, _, h₂, e₂) ↦
              let v = out.set_rev u.rev s.1 in
              elim (continue-eq-err v.0 _ _ x h₂) [
                | inl (_, e) ↦ ap kept (e₁ ∙ e₂) ∙ ap (λ (z : State codec commits out). z.0) e
                | inr (_, _, h₃, e₃) ↦
                    let p =
                      ipld_put codec commits out (commits.marshal_signed (signed commits u sig))
                        v.1 in
                    elim (continue-eq-err p.0 _ _ x h₃) [
                      | inl (_, e) ↦
                          ap kept (e₁ ∙ e₂ ∙ e₃) ∙ ap (λ (z : State codec commits out). z.0) e
                      | inr (c, _, h₄, e₄) ↦ absurd (cc)
                    ]
              ]
        ]
      ]
    where
      kept : Result (C × String) × State codec commits out → Repo C Tree
      kept r = r.1.0

  -- A Commit that fails leaves the commit that was there and whether the repository is dirty.
  pub commit_failed :
      (signer : Signer) (x : Error) (s : State codec commits out)
      → (commit codec commits out signer s).0 ≡ err x
      → ((commit codec commits out signer s).1.0.commit ≡ s.0.commit)
        × ((commit codec commits out signer s).1.0.dirty ≡ s.0.dirty)
  unfolding commit get_tree
  commit_failed signer x s h =
      let t = tree_of codec commits out s.0 s.0.mst in
      let p = out.get_pointer t s.1 in
      let loaded : Repo C Tree = record s.0 { mst = some t } in
      elim (continue-eq-err p.0 _ _ x h) [
        | inl (_, e) ↦ kept_fields (ap (λ (z : State codec commits out). z.0) e)
        | inr (rcid, _, h₁, e₁) ↦
            let n = out.next_tid p.1 in
            elim (continue-eq-err n.0 _ _ x h₁) [
              | inl (_, e) ↦ kept_fields (ap kept e₁ ∙ ap (λ (z : State codec commits out). z.0) e)
              | inr (rev, _, h₂, e₂) ↦
                  kept_fields (ap kept (e₁ ∙ e₂) ∙ finish_commit_failed signer _ x _ h₂)
            ]
      ]
    where
      kept : Result (C × String) × State codec commits out → Repo C Tree
      kept r = r.1.0

      kept_fields :
          {r : Repo C Tree}
          → r ≡ record s.0 { mst = some (tree_of codec commits out s.0 s.0.mst) }
          → (r.commit ≡ s.0.commit) × (r.dirty ≡ s.0.dirty)
      kept_fields e = (ap (λ (r : Repo C Tree). r.commit) e, ap (λ (r : Repo C Tree). r.dirty) e)

  pub load_lem :
      (root : C) (w : World) (r : Repo C Tree)
      → (load codec commits out root w).0 ≡ ok r
      → (b : Bytes) × ((out.fetch root w).0 ≡ ok b)
        × (commits.unmarshal_signed b ≡ ok r.commit)
        × (r.root ≡ root)
        × (tree_of codec commits out r r.mst ≡ out.load_tree root)
  unfolding load tree_of
  load_lem root w r h =
      let f = out.fetch root w in
      let (b, hb, h₁, _) = continue-eq-ok f.0 f.1 _ r h in
      let (sc, hs, h₂, _) = continue-eq-ok (commits.unmarshal_signed b) f.1 _ r h₁ in
      let v = out.set_rev sc.rev f.1 in
      let (_, _, h₃, _) = continue-eq-ok v.0 v.1 _ r h₂ in
      let made = ok_injective h₃ in
      subst
        (λ (r : Repo C Tree).
          (b : Bytes) × ((out.fetch root w).0 ≡ ok b)
          × (commits.unmarshal_signed b ≡ ok r.commit)
          × (r.root ≡ root)
          × (tree_of codec commits out r r.mst ≡ out.load_tree root))
        made (b, hb, hs, refl, refl)
