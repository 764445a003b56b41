-- ===== src/Repo/Repository/Records.antt =====
-- Reading a record after writing it, and what a failed write leaves.
use at.Prelude.{◌≡◌, inl, inr, refl, ap, ◌∙◌, sym, subst, true, some, String}
use at.Prelude.Result.{Error, Result, ok_injective, ok, err}
use at.Prelude.Exec.{pure, continue-eq-ok, continue-eq-err}
use at.Repo.BlockMap.{Bytes}
use at.Repo.Codec.{Codec}
use at.Repo.Commit.{CommitCodec}
use at.Repo.Outside.{Outside}
use at.Repo.Repository.{State, get_tree, tree_of, ipld_put, put_block, put_record, get_record_bytes}

-- What Put-then-Get relies on: a tree has the entry that was just added, a block store has the
-- block that was just put, no call of the tree disturbs the blocks that are there, and a block can
-- be made of an encoding and its CID.
pub record Stores {C : Type 0} (out : Outside C) : Type 0 where
  pub block_ok : (b : Bytes) (c : C) → out.new_block b c ≡ ok tt
  pub get_add :
      (t t' : out.Tree) (k : String) (c : C) (w : out.World)
      → (out.tree_add t k c w).0 ≡ ok t'
      → (out.tree_get t' k (out.tree_add t k c w).1).0 ≡ ok c
  pub fetch_store :
      (c : C) (b : Bytes) (w : out.World)
      → (out.store c b w).0 ≡ ok tt
      → (out.fetch c (out.store c b w).1).0 ≡ ok b
  pub fetch_add :
      (t : out.Tree) (k : String) (c d : C) (b : Bytes) (w : out.World)
      → (out.fetch d w).0 ≡ ok b
      → (out.fetch d (out.tree_add t k c w).1).0 ≡ ok b
  pub fetch_get :
      (t : out.Tree) (k : String) (d : C) (b : Bytes) (w : out.World)
      → (out.fetch d w).0 ≡ ok b
      → (out.fetch d (out.tree_get t k w).1).0 ≡ ok b

module _ {C R : Type 0} (codec : Codec C R) (commits : CommitCodec C) (out : Outside C) where
  open out use {World, Tree}

  -- A Put that returns a CID with no error has stored the encoding under it.
  fetch-ipld_put :
      (stores : Stores out) (m : Result Bytes) (w : World) (c : C)
      → (ipld_put codec commits out m w).0 ≡ ok c
      → (b : Bytes) × (m ≡ ok b)
        × (codec.sum b ≡ ok c)
        × ((out.fetch c (ipld_put codec commits out m w).1).0 ≡ ok b)
  unfolding ipld_put
  fetch-ipld_put stores m w c h =
      let (b, hb, h₁, e₁) = continue-eq-ok m w _ c h in
      let (d, hd, h₂, e₂) = continue-eq-ok (codec.sum b) w _ c h₁ in
      let made = ap (λ r. put_block codec commits out b d r w) (stores.block_ok b d) in
      let p = out.store d b w in
      let (u, hu, h₃, e₃) =
        continue-eq-ok p.0 p.1 (λ _. pure d) c (ap (λ r. r.0) (sym made) ∙ h₂) in
      let same : d ≡ c = ok_injective h₃ in
      let stored : (out.fetch d p.1).0 ≡ ok b = stores.fetch_store d b w hu in
      let world : (ipld_put codec commits out m w).1 ≡ p.1 =
        ap (λ (r : Result C × World). r.1) (e₁ ∙ e₂ ∙ made ∙ e₃) in
      (b, hb, hd ∙ ap ok same, rw world (subst (λ x. (out.fetch x p.1).0 ≡ ok b) same stored))

  get_record_bytes_at :
      (collection rkey : String) (s : State codec commits out) (t : Tree) (c : C) (b : Bytes)
      → s.0.mst ≡ some t
      → (out.tree_get t (out.join collection rkey) s.1).0 ≡ ok c
      → (out.fetch c (out.tree_get t (out.join collection rkey) s.1).1).0 ≡ ok b
      → (get_record_bytes codec commits out collection rkey s).0 ≡ ok (c, b)
  unfolding get_record_bytes get_tree tree_of
  get_record_bytes_at collection rkey s t c b m g f = rw (m, tree_of, g, f)

  -- If the storage returns the blocks that it stored and the tree library the records that it added
  -- (`Stores`), then after a PutRecord that returns a CID, GetRecordBytes of the same record returns
  -- that CID and the encoding of the record.
  pub get_record_bytes-put_record :
      (stores : Stores out) (collection rkey : String) (value : R) (s : State codec commits out)
      (c : C)
      → (put_record codec commits out collection rkey value s).0 ≡ ok c
      → (b : Bytes) × (codec.marshal value ≡ ok b)
        × (codec.sum b ≡ ok c)
        × ((get_record_bytes codec commits out collection rkey
              (put_record codec commits out collection rkey value s).1).0
            ≡ ok (c, b))
  unfolding put_record get_tree
  get_record_bytes-put_record stores collection rkey value s c h =
      let t = tree_of codec commits out s.0 s.0.mst in
      let key = out.join collection rkey in
      let p = ipld_put codec commits out (codec.marshal value) s.1 in
      let (d, hd, h₁, e₁) = continue-eq-ok p.0 _ _ c h in
      let a = out.tree_add t key d p.1 in
      let (t', ht, h₂, e₂) = continue-eq-ok a.0 _ _ c h₁ in
      let same : d ≡ c = ok_injective h₂ in
      let (b, hb, hs, stored) = fetch-ipld_put stores (codec.marshal value) s.1 d hd in
      (
        b,
        hb,
        hs ∙ ap ok same,
        rw (ap (λ (r : Result C × State codec commits out). r.1) (e₁ ∙ e₂)) (
            get_record_bytes_at collection rkey _ t' c b refl
              (subst (λ x. (out.tree_get t' key a.1).0 ≡ ok x) same
                (stores.get_add t t' key d p.1 ht))
              (subst (λ x. (out.fetch x (out.tree_get t' key a.1).1).0 ≡ ok b) same
                (stores.fetch_get t' key d b a.1 (stores.fetch_add t key d d b p.1 stored)))),
      )

  -- A PutRecord that fails leaves the tree that the repository had or loaded, and marks the
  -- repository dirty.
  pub put_record_failed :
      (collection rkey : String) (value : R) (s : State codec commits out) (x : Error)
      → (put_record codec commits out collection rkey value s).0 ≡ err x
      → ((put_record codec commits out collection rkey value s).1.0.mst
          ≡ some (tree_of codec commits out s.0 s.0.mst))
        × ((put_record codec commits out collection rkey value s).1.0.dirty ≡ true)
  unfolding put_record get_tree
  put_record_failed collection rkey value s x h =
      let p = ipld_put codec commits out (codec.marshal value) s.1 in
      elim (continue-eq-err p.0 _ _ x h) [
        | inl (_, e) ↦ (
          ap (λ (z : State codec commits out). z.0.mst) e,
          ap (λ (z : State codec commits out). z.0.dirty) e,
        )
        | inr (c, hc, h₁, e₁) ↦
            let t = tree_of codec commits out s.0 s.0.mst in
            elim (continue-eq-err (out.tree_add t (out.join collection rkey) c p.1).0 _ _ x h₁) [
              | inl (_, e₂) ↦ (
                ap (λ (r : Result C × State codec commits out). r.1.0.mst) e₁
                    ∙ ap (λ (z : State codec commits out). z.0.mst) e₂,
                ap (λ (r : Result C × State codec commits out). r.1.0.dirty) e₁
                    ∙ ap (λ (z : State codec commits out). z.0.dirty) e₂,
              )
              | inr (t', ht, h₂, e₂) ↦ absurd (cc)
            ]
      ]
