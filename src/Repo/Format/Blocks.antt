-- ===== src/Repo/Format/Blocks.antt =====
-- Which blocks the data of a commit holds.
use at.Prelude.{
  ◌≡◌, inl, inr, Bool-cases, Option-cases, refl, ap, subst, sym, ◌∙◌, false, not, ◌&&◌, none, some,
  List, [], ◌∷◌, String, arith, if◌then◌else◌,
}
use at.Prelude.Eq.{Eq, ◌==◌, ==_iff, string_eq}
use at.Prelude.GoMap.{lookup}
use at.Prelude.Result.{ok, ok_injective, >>=-eq-ok}
use at.Prelude.Exec.{continue-eq-ok}
use at.Repo.BlockMap
use at.Repo.BlockMap.{Bytes, BlockMap, new_block_map, get}
use at.Repo.BlockMap.Laws.{get-set, has-get}
use at.Repo.CidSet
use at.Repo.CidSet.{CidSet, new_cid_set}
use at.Repo.CidSet.Laws.{has-add}
use at.Repo.Codec.{Codec}
use at.Repo.Commit.{SignedCommit, Signer, CommitCodec, sign_commit_with_signer}
use at.Repo.Commit.Laws.{IsSigned, sign_commit_with_signer-IsSigned}
use at.Repo.Outside.{DiffOp, Outside}
use at.Repo.Diff.Trees.{adds}
use at.Repo.Repository.{RecordWriteOp, Repo, unsigned}
use at.Repo.Format.{CommitData, write_loop, diff_action, diff_blocks, commit_data, format_commit}

module _ {C R : Type 0} ⦃e : Eq C⦄ (codec : Codec C R) (commits : CommitCodec C)
    (out : Outside C) where
  diff_action-get :
      (leaves nb nb' : BlockMap C) (o : DiffOp C) (d : C)
      → diff_action codec commits out leaves o nb ≡ ok nb'
      → get nb' d ≡ (
          if (o.op == "add" && o.new_cid == d) && BlockMap.has leaves d
          then get leaves d
          else get nb d)
  unfolding diff_action
  diff_action-get leaves nb nb' o d h = elim (Bool-cases (o.op == "add")) [
    | inl add ↦ elim (Option-cases (get leaves o.new_cid)) [
      | inl out' ↦ ground (arith, has-get leaves d, ==_iff o.new_cid d)
      | inr (b, found) ↦
          ground (arith, has-get leaves d, get-set o.new_cid d b nb, ==_iff o.new_cid d)
    ]
    | inr other ↦ ground arith
  ]

  diff_blocks-get :
      (leaves nb nb' : BlockMap C) (ops : List (DiffOp C)) (d : C)
      → diff_blocks codec commits out leaves ops nb ≡ ok nb'
      → get nb' d ≡ (if adds ops d && BlockMap.has leaves d then get leaves d else get nb d)
  unfolding diff_blocks
  diff_blocks-get leaves nb nb' [] d h = ap (λ m. get m d) (sym (ok_injective h))
  diff_blocks-get leaves nb nb' (o ∷ ops) d h =
      let (mid, hm, h₁) = >>=-eq-ok (diff_action codec commits out leaves o nb) _ h in
      let one = diff_action-get leaves nb mid o d hm in
      let rest = diff_blocks-get leaves mid nb' ops d h₁ in ground arith

  -- The blocks, the removed CIDs and the signature of the data `cd` of a commit that replaces
  -- `root`, in terms of the leaves of its writes and the operations of its diff.
  pub record IsDataOf (did : String) (signer : Signer) (root pointer : C) (leaves : BlockMap C)
      (diff : List (DiffOp C)) (cd : CommitData C) : Type 0 where
    pub signature :
        IsSigned commits
          (unsigned codec commits out did pointer cd.rev)
          signer
          cd.cid
          cd.signed_commit
    pub blocks :
        (d : C)
        → get cd.new_blocks d ≡ (
            if not (cd.cid == root) && cd.cid == d
            then some cd.signed_commit.raw
            else if adds diff d && BlockMap.has leaves d
            then get leaves d
            else none)
    pub relevant :
        (d : C)
        → get cd.relevant_blocks d
          ≡ (if not (cd.cid == root) && cd.cid == d then some cd.signed_commit.raw else none)
    pub removed : (d : C) → CidSet.has cd.removed_cids d ≡ (not (cd.cid == root) && root == d)
    pub prev_is : cd.prev ≡ codec.undef

  get_new : (d : C) → get (new_block_map {C = C}) d ≡ none
  unfolding get new_block_map lookup
  get_new d = refl

  has_new : (d : C) → CidSet.has (new_cid_set {C = C} []) d ≡ false
  unfolding CidSet.has new_cid_set lookup
  has_new d = refl

  module _ (did rev : String) (signer : Signer) (root pointer cid : C) (sc : SignedCommit C)
      (leaves nb : BlockMap C) (diff : List (DiffOp C))
      (signed : IsSigned commits (unsigned codec commits out did pointer rev) signer cid sc)
      (built : diff_blocks codec commits out leaves diff new_block_map ≡ ok nb) where
    built_get :
        (d : C) → get nb d ≡ (if adds diff d && BlockMap.has leaves d then get leaves d else none)
    built_get d =
        diff_blocks-get leaves new_block_map nb diff d built
        ∙ ap (λ z. if adds diff d && BlockMap.has leaves d then get leaves d else z) (get_new d)

    commit_data-IsDataOf :
        IsDataOf did signer root pointer leaves diff
          (commit_data codec commits out root rev nb cid sc)
    unfolding commit_data
    commit_data-IsDataOf = elim (Bool-cases (cid == root)) [
      | inl same ↦ rw same (record {
        signature = signed;
        blocks = λ d. rw same (built_get d);
        relevant = λ d. rw same (get_new d);
        removed = λ d. rw same (has_new d);
        prev_is = rw signed.prev_is;
      })
      | inr moved ↦ rw moved (record {
        signature = signed;
        blocks = λ d. rw (moved, get-set cid d sc.raw nb, built_get d);
        relevant = λ d. rw (moved, get-set cid d sc.raw new_block_map, get_new d);
        removed = λ d. rw (moved, has-add root d (new_cid_set []), has_new d) (ground arith);
        prev_is = rw signed.prev_is;
      })
    ]

  -- A FormatCommit that succeeds made all writes in order, asked for the difference of the
  -- repository's root and the pointer of the tree that the writes left, and returns the data of a
  -- commit of that pointer: the new blocks are the leaves of the writes that the difference adds
  -- and, if its CID is not the root, the commit; then the root is the one removed CID.
  pub format_commit-IsDataOf :
      (r : Repo C out.Tree) (signer : Signer) (t : out.Tree) (writes : List (RecordWriteOp R))
      (w : out.World) (cd : CommitData C)
      → (format_commit codec commits out r signer t writes w).0 ≡ ok cd
      → (leaves : BlockMap C) × (t' : out.Tree) × (pointer : C) × (diff : List (DiffOp C))
        × ((write_loop codec commits out writes (new_block_map, t) w).0 ≡ ok (leaves, t'))
        × ((out.get_pointer t' (write_loop codec commits out writes (new_block_map, t) w).1).0
            ≡ ok pointer)
        × ((out.diff_trees r.root pointer
              (out.get_pointer t' (write_loop codec commits out writes (new_block_map, t) w).1).1).0
            ≡ ok diff)
        × IsDataOf r.commit.did signer r.root pointer leaves diff cd
  unfolding format_commit
  format_commit-IsDataOf r signer t writes w cd h =
      let m = write_loop codec commits out writes (new_block_map, t) w in
      let ((leaves, t'), hm, h₁, _) = continue-eq-ok m.0 m.1 _ cd h in
      let p = out.get_pointer t' m.1 in
      let (pointer, hp, h₂, _) = continue-eq-ok p.0 p.1 _ cd h₁ in
      let f = out.diff_trees r.root pointer p.1 in
      let (diff, hf, h₃, _) = continue-eq-ok f.0 f.1 _ cd h₂ in
      let (nb, hb, h₄, _) =
        continue-eq-ok (diff_blocks codec commits out leaves diff new_block_map) f.1 _ cd h₃ in
      let n = out.next_tid f.1 in
      let (rev, hn, h₅, _) = continue-eq-ok n.0 n.1 _ cd h₄ in
      let u = unsigned codec commits out r.commit.did pointer rev in
      let (made, hs, h₆, _) =
        continue-eq-ok (sign_commit_with_signer commits u signer) n.1 _ cd h₅ in
      let signed = sign_commit_with_signer-IsSigned commits u signer made.0 made.1 hs in
      (
        leaves,
        t',
        pointer,
        diff,
        hm,
        hp,
        hf,
        subst (IsDataOf r.commit.did signer r.root pointer leaves diff) (ok_injective h₆) (
            commit_data-IsDataOf r.commit.did rev signer r.root pointer made.0 made.1 leaves nb diff
              signed hb),
      )
