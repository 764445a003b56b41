-- ===== src/Actorstore/Blocks.antt =====
-- internal/actorstore/repo_transactor.go: the blocks of the new records.
use at.Prelude.{
  ◌≡◌, ◌⊎◌, inl, inr, ap, subst, ◌∙◌, arith, true, not, ◌||◌, List, [], ◌∷◌, Bool-cases,
}
use at.Prelude.Eq.{Eq, elem}
use at.Prelude.Result.{Result, ok, ok_injective}
use at.Prelude.Exec.{continue-eq-ok}
use at.Repo.BlockMap
use at.Repo.BlockMap.{Bytes, BlockMap}
use at.Repo.BlockMap.Laws.{has-add_map}
use at.Repo.BlockMap.GetMany.{get_many_lem}
use at.Actorstore.Reader.{BlockResult, get_blocks}
use at.Actorstore.Reader.Splits.{elem-absent, get_blocks_splits}
use at.Repo.Codec.{Codec}
use at.Repo.Commit.{CommitCodec}
use at.Repo.Outside.{Outside}
use at.Repo.Repository.{Repo, load, tree_of}
use at.Repo.Format.{CommitData, format_commit}
use at.Actorstore.{
  RootInfo, Storage, Gathered, get_duplicate_record_cids, remove_all, add_blocks, sign,
  format_writes,
}

module _ {C R : Type 0} ⦃e : Eq C⦄ (codec : Codec C R) (commits : CommitCodec C) (out : Outside C)
    (storage : Storage out) where
  open out use {World, set_rev}
  open storage use {reader}

  -- When the end of FormatCommit succeeds, which asks GetBlocks for those CIDs of new records that
  -- have no relevant block and adds what it returns, each new record that had a block keeps one; and
  -- any other has one exactly if GetBlocks, which succeeded, did not report its CID as missing.
  pub add_blocks_lem :
      (cd left : CommitData C) (cids : List C) (w : World)
      → (add_blocks codec commits out storage cd (BlockMap.get_many cd.relevant_blocks cids).1 w).0
        ≡ ok left
      → (c : C) → elem c cids ≡ true
      → ((BlockMap.has cd.relevant_blocks c ≡ true) × (BlockMap.has left.relevant_blocks c ≡ true))
        ⊎ ((r : BlockResult C) × ((get_blocks reader
                (BlockMap.get_many cd.relevant_blocks cids).1
                w).0
              ≡ ok r)
            × (BlockMap.has left.relevant_blocks c ≡ not (elem c r.missing)))
  unfolding add_blocks
  add_blocks_lem cd left cids w h c asked =
      let misses = (get_many_lem cd.relevant_blocks cids).1 in
      go (BlockMap.get_many cd.relevant_blocks cids).1 h
        (ap (elem c) misses ∙ elem-absent cd.relevant_blocks cids c ∙ rw asked)
    where
      go :
          (missing : List C)
          → (add_blocks codec commits out storage cd missing w).0 ≡ ok left
          → elem c missing ≡ not (BlockMap.has cd.relevant_blocks c)
          → ((BlockMap.has cd.relevant_blocks c ≡ true)
              × (BlockMap.has left.relevant_blocks c ≡ true))
            ⊎ ((r : BlockResult C) × ((get_blocks reader missing w).0 ≡ ok r)
                × (BlockMap.has left.relevant_blocks c ≡ not (elem c r.missing)))
      go [] h q =
          let old : BlockMap.has cd.relevant_blocks c ≡ true = ground (arith, q) in
          inl (
            old,
            subst (λ (x : CommitData C). BlockMap.has x.relevant_blocks c ≡ true) (ok_injective h)
                old,
          )
      go (m ∷ missing) h q =
          let f = get_blocks reader (m ∷ missing) w in
          let (r, found, h₁, _) = continue-eq-ok f.0 f.1 _ left h in
          let has_left : BlockMap.has left.relevant_blocks c
              ≡ (BlockMap.has r.blocks c || BlockMap.has cd.relevant_blocks c) =
            subst
              (λ (x : CommitData C).
                BlockMap.has x.relevant_blocks c
                ≡ (BlockMap.has r.blocks c || BlockMap.has cd.relevant_blocks c))
              (ok_injective h₁) (has-add_map cd.relevant_blocks r.blocks c) in
          elim (Bool-cases (BlockMap.has cd.relevant_blocks c)) [
            | inl old ↦ inl (old, ground (arith, has_left, old))
            | inr new ↦
                let splits = get_blocks_splits reader (m ∷ missing) w r found c (q ∙ rw new) in
                inr (r, found, ground (arith, has_left, new, splits))
          ]

  pub add_blocks-cid :
      (cd left : CommitData C) (missing : List C) (w : World)
      → (add_blocks codec commits out storage cd missing w).0 ≡ ok left
      → cd.cid ≡ left.cid
  unfolding add_blocks
  add_blocks-cid cd left [] w h = ap (λ (x : CommitData C). x.cid) (ok_injective h)
  add_blocks-cid cd left (m ∷ missing) w h =
      let f = get_blocks reader (m ∷ missing) w in
      let (bm, found, h₁, _) = continue-eq-ok f.0 f.1 _ left h in
      ap (λ (x : CommitData C). x.cid) (ok_injective h₁)

  pub format_writes-ok :
      (hash_and_sign : Bytes → Result Bytes) (root : RootInfo C) (g : Gathered C R) (w : World)
      (left : CommitData C)
      → (format_writes codec commits out storage hash_and_sign root g w).0 ≡ ok left
      → (r : Repo C out.Tree) × (cd : CommitData C) × (dupes : List C) × (w₁ w₂ w₃ w₄ : World)
        × ((load codec commits out root.cid w₁).0 ≡ ok r)
        × ((format_commit codec commits out r
              (sign codec commits out storage hash_and_sign)
              (tree_of codec commits out r r.mst)
              g.write_ops
              w₂).0
            ≡ ok cd)
        × ((get_duplicate_record_cids codec commits out storage cd.removed_cids
              g.del_and_update_uris w₃).0
            ≡ ok dupes)
        × ((add_blocks codec commits out storage
              (record cd {
                removed_cids = remove_all codec commits out storage dupes cd.removed_cids;
              })
              (BlockMap.get_many cd.relevant_blocks g.new_record_cids).1
              w₄).0
            ≡ ok left)
  unfolding format_writes
  format_writes-ok hash_and_sign root g w left h =
      let v = set_rev root.rev w in
      let (u, hv, h₁, _) = continue-eq-ok v.0 v.1 _ left h in
      let l = load codec commits out root.cid v.1 in
      let (r, hl, h₂, _) = continue-eq-ok l.0 l.1 _ left h₁ in
      let signer = sign codec commits out storage hash_and_sign in
      let f =
        format_commit codec commits out r signer (tree_of codec commits out r r.mst) g.write_ops
          l.1 in
      let (cd, hf, h₃, _) = continue-eq-ok f.0 f.1 _ left h₂ in
      let d =
        get_duplicate_record_cids codec commits out storage cd.removed_cids g.del_and_update_uris
          f.1 in
      let (dupes, hd, h₄, _) = continue-eq-ok d.0 d.1 _ left h₃ in
      (r, cd, dupes, v.1, l.1, f.1, d.1, hl, hf, hd, h₄)
