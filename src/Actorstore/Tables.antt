-- ===== src/Actorstore/Tables.antt =====
-- internal/actorstore/repo_transactor.go: the query for duplicates.
use at.Prelude.{
  ◌≡◌, ◌⊎◌, inl, inr, refl, sym, ap, ◌∙◌, arith, false, not, ◌&&◌, some, List, [], ◌∷◌, ◌++◌,
  String,
}
use at.Prelude.Eq.{Eq, elem, ◌==◌, ==_iff}
use at.Prelude.Result.{Error, Result, ok, err, ok_injective}
use at.Prelude.Exec.{continue-eq-ok}
use at.Repo.BlockMap.{Bytes}
use at.Repo.CidSet
use at.Repo.CidSet.{CidSet}
use at.Repo.CidSet.Laws.{elem-to_list}
use at.Repo.Codec.{Codec}
use at.Repo.Write.{
  WriteOpAction, create, update, delete, other, PreparedWrite, get_action, get_uri, get_cid,
  get_swap_cid,
}
use at.Repo.Commit.{CommitCodec, Signer}
use at.Repo.Outside.{Outside}
use at.Repo.Repository.{Repo, RecordWriteOp}
use at.Repo.Repository.Commits.{load_lem}
use at.Repo.Format.{CommitData, format_commit}
use at.Repo.Format.Blocks.{format_commit-IsDataOf}
use at.Actorstore.Swaps.{format_prepared-ok}
use at.Actorstore.Blocks.{add_blocks-cid, format_writes-ok}
use at.Actorstore.{
  RootInfo, Storage, Gathered, check_swap, new_record_cid, touched_uri, select_unless_empty,
  get_duplicate_record_cids, gather, format_prepared,
}

module _ {C R : Type 0} ⦃e : Eq C⦄ (codec : Codec C R) (commits : CommitCodec C) (out : Outside C)
    (storage : Storage out) where
  open out use {World, set_rev}
  open storage use {select_cids}

  -- The database has no table "reocrd".
  abbrev pub NoTable : Type 0
  NoTable =
      (cids : List C) (uris : List String) (w : World)
      → (x : Error) × ((select_cids "reocrd" cids uris w).0 ≡ err x)

  abbrev pub AllCreates : List (PreparedWrite C R) → Type 0
  AllCreates [] = Unit
  AllCreates (write ∷ writes) = (get_action write ≡ create) × AllCreates writes

  select_unless_empty-ok :
      NoTable
      → (cids dupes : List C) (uris : List String) (w : World)
      → (select_unless_empty codec commits out storage cids uris w).0 ≡ ok dupes
      → (cids ≡ []) ⊎ (uris ≡ [])
  unfolding select_unless_empty
  select_unless_empty-ok missing cids dupes [] w h = inr refl
  select_unless_empty-ok missing [] dupes (u ∷ uris) w h = inl refl
  select_unless_empty-ok missing (c ∷ cids) dupes (u ∷ uris) w h =
      let (x, q) = missing (c ∷ cids) (u ∷ uris) w in cc

  touched_uri-empty :
      (action : WriteOpAction) (uri : String) (rest : List String)
      → touched_uri codec commits out storage action uri ++ rest ≡ []
      → (action ≡ create) × (rest ≡ [])
  unfolding touched_uri
  touched_uri-empty create uri rest h = (refl, h)
  touched_uri-empty update uri rest h = cc
  touched_uri-empty delete uri rest h = cc
  touched_uri-empty (other s) uri rest h = cc

  gather-AllCreates :
      (writes : List (PreparedWrite C R)) (g : Gathered C R) (w : World)
      → (gather codec commits out storage writes w).0 ≡ ok g
      → g.del_and_update_uris ≡ []
      → AllCreates writes
  unfolding gather
  gather-AllCreates [] g w h none_touched = tt
  gather-AllCreates (write ∷ writes) g w h none_touched =
      let n = new_record_cid codec commits out storage (get_action write) (get_cid codec write) in
      let (cids, hn, h₁, _) = continue-eq-ok n w _ g h in
      let s =
        check_swap codec commits out storage (get_action write) (get_uri write) (get_swap_cid write)
          w in
      let (u, checked, h₂, _) = continue-eq-ok s.0 s.1 _ g h₁ in
      let r = gather codec commits out storage writes s.1 in
      let (rest, gathered, h₃, _) = continue-eq-ok r.0 r.1 _ g h₂ in
      let lists : touched_uri codec commits out storage (get_action write) (get_uri write)
            ++ rest.del_and_update_uris
          ≡ [] =
        ap (λ (x : Gathered C R). x.del_and_update_uris) (ok_injective h₃) ∙ none_touched in
      let (is_create, empty) =
        touched_uri-empty (get_action write) (get_uri write) rest.del_and_update_uris lists in
      (is_create, gather-AllCreates writes rest s.1 gathered empty)

  removes_nothing :
      (r : Repo C out.Tree) (signer : Signer) (t : out.Tree) (ops : List (RecordWriteOp R))
      (w : World) (cd : CommitData C)
      → (format_commit codec commits out r signer t ops w).0 ≡ ok cd
      → CidSet.to_list cd.removed_cids ≡ []
      → cd.cid ≡ r.root
  removes_nothing r signer t ops w cd h empty =
      let (leaves, t', pointer, diff, _, _, _, is_data) =
        format_commit-IsDataOf codec commits out r signer t ops w cd h in
      let holds_root : CidSet.has cd.removed_cids r.root
          ≡ (not (cd.cid == r.root) && r.root == r.root) =
        is_data.removed r.root in
      let holds_none : CidSet.has cd.removed_cids r.root ≡ false =
        sym (elem-to_list cd.removed_cids r.root) ∙ ap (elem r.root) empty in
      ground (arith, ==_iff cd.cid r.root, ==_iff r.root r.root)

  -- If the database has no table "reocrd", a FormatCommit that succeeds has creations only, or
  -- made a commit with the CID of its root.
  pub format_prepared-AllCreates :
      NoTable
      → (hash_and_sign : Bytes → Result Bytes) (writes : List (PreparedWrite C R)) (swap_commit : C)
        (w : World) (left : CommitData C)
      → (format_prepared codec commits out storage hash_and_sign writes swap_commit w).0 ≡ ok left
      → AllCreates writes
        ⊎ ((root : RootInfo C) × ((storage.get_root_detailed w).0 ≡ ok (some root))
            × (left.cid ≡ root.cid))
  unfolding get_duplicate_record_cids
  format_prepared-AllCreates missing hash_and_sign writes swap_commit w left h =
      let (root, g, w₂, found, _, gathered, made) =
        format_prepared-ok codec commits out storage hash_and_sign writes swap_commit w left h in
      let (r, cd, dupes, w₃, w₄, w₅, w₆, loaded, formatted, selected, added) =
        format_writes-ok codec commits out storage hash_and_sign root g w₂ left made in
      elim (select_unless_empty-ok missing (CidSet.to_list cd.removed_cids) dupes
        g.del_and_update_uris w₅ selected) [
          | inr no_uris ↦ inl (gather-AllCreates writes g _ gathered no_uris)
          | inl no_cids ↦ inr (
            root,
            found,
            sym (add_blocks-cid codec commits out storage _ left _ w₆ added)
                ∙ removes_nothing r _ _ g.write_ops w₄ cd formatted no_cids
                ∙ (load_lem codec commits out root.cid w₃ r loaded).3,
          )
        ]
