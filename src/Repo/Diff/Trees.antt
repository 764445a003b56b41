-- ===== src/Repo/Diff/Trees.antt =====
-- The tree operations of a diff, and what DiffFrom makes of a list of operations.
use at.Prelude.{
  ◌≡◌, refl, subst, Bool, true, false, ◌&&◌, ◌||◌, List, [], ◌∷◌, arith, inl, inr, Bool-cases,
}
use at.Prelude.Eq.{Eq, ◌==◌, ==_iff, ==_refl, string_eq}
use at.Prelude.GoMap.{lookup}
use at.Prelude.Result.{ok_injective, ok}
use at.Prelude.Exec.{Exec, pure, continue, continue-eq-ok}
use at.Repo.BlockMap
use at.Repo.BlockMap.{Bytes}
use at.Repo.BlockMap.Laws.{has-set}
use at.Repo.CidSet
use at.Repo.CidSet.Laws.{has-add}
use at.Repo.Outside.{DiffOp, Outside}
use at.Repo.Diff.{DataDiff, tree_add, tree_delete, diff_step, diff_loop, diff_from, empty_diff}

module _ {C : Type 0} ⦃e : Eq C⦄ where
  -- No block is both new and removed.
  abbrev pub BlocksApart : DataDiff C → Type 0
  BlocksApart dd =
      (c : C) → BlockMap.has dd.new_blocks c ≡ true → CidSet.has dd.removed_cids c ≡ false

  pub tree_add-BlocksApart :
      (c : C) (b : Bytes) (dd : DataDiff C) → BlocksApart dd → BlocksApart (tree_add c b dd)
  unfolding tree_add
  tree_add-BlocksApart c b dd h d = ground (
    arith,
    h d,
    has-set c d b dd.new_blocks,
    CidSet.Laws.has-delete c d dd.removed_cids,
    ==_iff c d,
  )

  pub tree_delete-BlocksApart :
      (c : C) (dd : DataDiff C) → BlocksApart dd → BlocksApart (tree_delete c dd)
  unfolding tree_delete
  tree_delete-BlocksApart c dd h d = ground (
    arith,
    h d,
    BlockMap.Laws.has-delete c d dd.new_blocks,
    has-add c d dd.removed_cids,
    ==_iff c d,
  )

  -- Adding a block and deleting it again leaves which blocks are new and which CIDs are removed as
  -- they were, if the block was not new before.
  pub tree_delete-tree_add :
      (c d : C) (b : Bytes) (dd : DataDiff C)
      → BlockMap.has dd.new_blocks c ≡ false
      → (BlockMap.has (tree_delete c (tree_add c b dd)).new_blocks d ≡ BlockMap.has dd.new_blocks d)
        × (CidSet.has (tree_delete c (tree_add c b dd)).removed_cids d
            ≡ CidSet.has dd.removed_cids d)
  unfolding tree_add tree_delete
  tree_delete-tree_add c d b dd h = ground (
    arith,
    has-set c d b dd.new_blocks,
    has-set c c b dd.new_blocks,
    CidSet.Laws.has-delete c d dd.removed_cids,
    BlockMap.Laws.has-delete c d (BlockMap.set c b dd.new_blocks),
    has-add c d (CidSet.delete c dd.removed_cids),
    ==_iff c d,
    ==_refl c,
  )

  -- Some operation of the list adds, or removes, the CID.
  abbrev pub adds : List (DiffOp C) → C → Bool
  adds [] c = false
  adds (o ∷ os) c = (o.op == "add" && o.new_cid == c) || adds os c

  abbrev pub removes : List (DiffOp C) → C → Bool
  removes [] c = false
  removes (o ∷ os) c =
      ((o.op == "del" && o.new_cid == c) || (o.op == "mut" && o.old_cid == c)) || removes os c

  module _ (out : Outside C) where
    -- What `dd'` has beyond `dd` comes of the operations.
    abbrev pub Grown : List (DiffOp C) → DataDiff C → DataDiff C → C → Type 0
    Grown ops dd dd' c =
        (BlockMap.has dd'.new_blocks c ≡ (adds ops c || BlockMap.has dd.new_blocks c))
        × (CidSet.has dd'.removed_cids c ≡ (removes ops c || CidSet.has dd.removed_cids c))

    diff_step-Grown :
        (o : DiffOp C) (dd dd' : DataDiff C) (w : out.World) (c : C)
        → (diff_step out o dd w).0 ≡ ok dd'
        → Grown (o ∷ []) dd dd' c
    unfolding diff_step
    diff_step-Grown o dd dd' w c h = elim (Bool-cases (o.op == "add")) [
      | inl add ↦
          let name = (==_iff o.op "add").0 add in
          let not_del : (o.op == "del") ≡ false = rw name in
          let not_mut : (o.op == "mut") ≡ false = rw name in
          let f = out.fetch o.new_cid w in
          let run : (continue f.0 f.1 (stored o dd)).0 ≡ ok dd' = rw add at h in
          let (b, _, h₁, _) = continue-eq-ok f.0 f.1 (stored o dd) dd' run in
          let made = ok_injective h₁ in
          subst (λ z. Grown (o ∷ []) dd z c) made
            (rw (add, not_del, not_mut) (ground (arith, has-set o.new_cid c b dd.new_blocks)))
      | inr not_add ↦ elim (Bool-cases (o.op == "del")) [
        | inl del ↦
            let name = (==_iff o.op "del").0 del in
            let not_mut : (o.op == "mut") ≡ false = rw name in
            ground (arith, has-add o.new_cid c dd.removed_cids)
        | inr not_del ↦ ground (arith, has-add o.old_cid c dd.removed_cids)
      ]
    ]
      where
        stored : DiffOp C → DataDiff C → Bytes → Exec out.World (DataDiff C)
        stored o dd b = pure (record dd { new_blocks = BlockMap.set o.new_cid b dd.new_blocks })

    diff_loop-Grown :
        (ops : List (DiffOp C)) (dd dd' : DataDiff C) (w : out.World) (c : C)
        → (diff_loop out ops dd w).0 ≡ ok dd'
        → Grown ops dd dd' c
    unfolding diff_loop
    diff_loop-Grown [] dd dd' w c h = subst (λ z. Grown [] dd z c) (ok_injective h) (refl, refl)
    diff_loop-Grown (o ∷ ops) dd dd' w c h =
        let m = diff_step out o dd w in
        let (mid, hm, h₁, _) = continue-eq-ok m.0 m.1 _ dd' h in
        let one = diff_step-Grown o dd mid w c hm in
        let rest = diff_loop-Grown ops mid dd' m.1 c h₁ in ground arith

    -- When diffFrom returns a difference, that has as new blocks exactly the new CIDs of the `add`
    -- operations, and as removed CIDs exactly the new CIDs of the `del` operations and the old CIDs
    -- of the `mut` operations.
    pub diff_from_lem :
        (ops : List (DiffOp C)) (dd : DataDiff C) (w : out.World) (c : C)
        → (diff_from out ops w).0 ≡ ok dd
        → (BlockMap.has dd.new_blocks c ≡ adds ops c)
          × (CidSet.has dd.removed_cids c ≡ removes ops c)
    unfolding diff_from
    diff_from_lem ops dd w c h =
        let grown = diff_loop-Grown ops empty_diff dd w c h in
        let no_block : BlockMap.has (empty_diff {C = C}).new_blocks c ≡ false =
          unfold BlockMap.has BlockMap.new_block_map lookup in refl in
        let no_cid : CidSet.has (empty_diff {C = C}).removed_cids c ≡ false =
          unfold CidSet.has CidSet.new_cid_set lookup in refl in
        ground arith
