-- ===== src/Repo/Diff/Leaves.antt =====
-- The leaf operations of a diff keep what is new and what is removed apart.
use at.Prelude.{◌≡◌, ◌⊎◌, true, false, some, String, arith, inl, inr, Bool-cases}
use at.Prelude.Eq.{Eq, ◌==◌, ==_iff, ==_refl, string_eq}
use at.Prelude.GoMap.{lookup, lookup-insert_self}
use at.Repo.CidSet
use at.Repo.CidSet.Laws.{has-add, has-delete}
use at.Repo.Diff.{DataDiff, leaf_add, leaf_update, leaf_delete}

module _ {C : Type 0} ⦃e : Eq C⦄ where
  -- No leaf is both new and removed.
  abbrev pub LeavesApart : DataDiff C → Type 0
  LeavesApart dd =
      (c : C) → CidSet.has dd.new_leaf_cids c ≡ true → CidSet.has dd.removed_cids c ≡ false

  pub leaf_add-LeavesApart :
      (key : String) (c : C) (dd : DataDiff C) → LeavesApart dd → LeavesApart (leaf_add key c dd)
  unfolding leaf_add
  leaf_add-LeavesApart key c dd h d =
      ground (arith, h d, has-add c d dd.new_leaf_cids, has-delete c d dd.removed_cids, ==_iff c d)

  pub leaf_delete-LeavesApart :
      (key : String) (c : C) (dd : DataDiff C) → LeavesApart dd → LeavesApart (leaf_delete key c dd)
  unfolding leaf_delete
  leaf_delete-LeavesApart key c dd h d =
      ground (arith, h d, has-delete c d dd.new_leaf_cids, has-add c d dd.removed_cids, ==_iff c d)

  -- A leaf that is added and deleted again leaves both sets as they were, if it was not new before.
  pub leaf_delete-leaf_add :
      (key key' : String) (c d : C) (dd : DataDiff C)
      → CidSet.has dd.new_leaf_cids c ≡ false
      → (CidSet.has (leaf_delete key' c (leaf_add key c dd)).new_leaf_cids d
          ≡ CidSet.has dd.new_leaf_cids d)
        × (CidSet.has (leaf_delete key' c (leaf_add key c dd)).removed_cids d
            ≡ CidSet.has dd.removed_cids d)
  unfolding leaf_add leaf_delete
  leaf_delete-leaf_add key key' c d dd h = ground (
    arith,
    has-add c d dd.new_leaf_cids,
    has-add c c dd.new_leaf_cids,
    has-delete c d dd.removed_cids,
    has-delete c d (CidSet.add c dd.new_leaf_cids),
    has-add c d (CidSet.delete c dd.removed_cids),
    ==_iff c d,
    ==_refl c,
  )

  -- An update to the CID that the leaf has changes nothing; any other records the new CID under the
  -- key, and makes the old CID removed and the new one new.
  pub leaf_update_lem :
      (key : String) (prev c : C) (dd : DataDiff C)
      → (leaf_update key prev prev dd ≡ dd)
        × ((prev ≡ c)
            ⊎ ((lookup key (leaf_update key prev c dd).updates
                  ≡ some (record { key = key; cid = c; prev = prev }))
                × (CidSet.has (leaf_update key prev c dd).removed_cids prev ≡ true)
                × (CidSet.has (leaf_update key prev c dd).new_leaf_cids c ≡ true)))
  unfolding leaf_update
  leaf_update_lem key prev c dd = (
    rw ==_refl,
    elim (Bool-cases (prev == c)) [
      | inl same ↦ inl ((==_iff prev c).0 same)
      | inr differ ↦ rw differ (
          inr (
            rw lookup-insert_self,
            ground (arith, has-add prev prev dd.removed_cids, ==_refl prev),
            ground (arith, has-add c c dd.new_leaf_cids, ==_refl c),
          ))
    ],
  )
