-- ===== src/Blockstore/Laws.antt =====
-- What the operations of the in-memory blockstore do to its blocks.
use at.Prelude.{
  ℕ, Bool, true, false, Option, none, some, List, [], ◌∷◌, ◌++◌, ◌≡◌, refl, ap, ◌∙◌, length,
  if◌then◌else◌, is_some,
}
use at.Prelude.Eq.{Eq, ◌==◌}
use at.Prelude.GoMap.{lookup, insert, lookup-insert, lookup-insert_self, lookup-delete}
use at.Prelude.Result.{Result, ok, err, panic, Error}
use at.Prelude.Exec.{continue}
use at.Blockstore.{Memory, get, put, delete_block, has, put_many, get_size}

module _ {C B : Type 0} ⦃e : Eq C⦄ (raw_data : B → List ℕ) (sum : List ℕ → Result C) where
  -- The last of the blocks whose bytes hash to `c`, else what was there before.
  abbrev pub stored : List B → C → Option B → Option B
  stored [] c old = old
  stored (blk ∷ blks) c old =
      let rest = stored blks c in
      elim (sum (raw_data blk)) [ ok d ↦ rest (if d == c then some blk else old) | _ ↦ rest old ]

  -- PutMany that succeeds leaves under every CID the last of its blocks that hashes to it, and
  -- what was there before where none does.
  pub lookup-put_many :
      (blks : List B) (m : Memory C B) (c : C)
      → (put_many raw_data sum blks m).0 ≡ ok tt
      → lookup c (put_many raw_data sum blks m).1.blocks ≡ stored blks c (lookup c m.blocks)
  unfolding put_many
  lookup-put_many [] m c h = refl
  lookup-put_many (blk ∷ blks) m c h =
      go (sum (raw_data blk))
        (λ d. lookup-put_many blks (record { blocks = insert d blk m.blocks }) c) h
    where
      go :
          (r : Result C)
          → ((d : C)
              → (put_many raw_data sum blks (record { blocks = insert d blk m.blocks })).0 ≡ ok tt
              → lookup c
                  (put_many raw_data sum blks (record { blocks = insert d blk m.blocks })).1.blocks
                ≡ stored blks c (lookup c (insert d blk m.blocks)))
          → (continue r m
              (λ d n. put_many raw_data sum blks (record { blocks = insert d blk n.blocks }))).0
            ≡ ok tt
          → lookup c
              (continue r m (λ d n.
                put_many raw_data sum blks (record { blocks = insert d blk n.blocks }))).1.blocks
            ≡ elim r [
              | ok d ↦ stored blks c (if d == c then some blk else lookup c m.blocks)
              | _ ↦ stored blks c (lookup c m.blocks)
            ]
      go (ok d) ih h = ih d h ∙ ap (stored blks c) (lookup-insert d c blk m.blocks)
      go (err x) ih h = cc
      go panic ih h = cc

  -- PutMany fails only because one of its blocks cannot be hashed. The blocks before it are then
  -- stored as a PutMany of them alone stores them, and nothing else changes.
  pub put_many_failed :
      (blks : List B) (m : Memory C B) (x : Error)
      → (put_many raw_data sum blks m).0 ≡ err x
      → (front : List B) × (bad : B) × (back : List B) × (blks ≡ front ++ (bad ∷ back))
        × (sum (raw_data bad) ≡ err x)
        × (put_many raw_data sum front m ≡ (ok tt, (put_many raw_data sum blks m).1))
  unfolding put_many
  put_many_failed [] m x h = cc
  put_many_failed (blk ∷ blks) m x h =
      go (sum (raw_data blk)) refl
        (λ d. put_many_failed blks (record { blocks = insert d blk m.blocks }) x) h
    where
      go :
          (r : Result C)
          → sum (raw_data blk) ≡ r
          → ((d : C)
              → (put_many raw_data sum blks (record { blocks = insert d blk m.blocks })).0 ≡ err x
              → (front : List B) × (bad : B) × (back : List B) × (blks ≡ front ++ (bad ∷ back))
                × (sum (raw_data bad) ≡ err x)
                × (put_many raw_data sum front (record { blocks = insert d blk m.blocks }) ≡ (
                  ok tt,
                  (put_many raw_data sum blks (record { blocks = insert d blk m.blocks })).1,
                )))
          → (continue r m
              (λ d n. put_many raw_data sum blks (record { blocks = insert d blk n.blocks }))).0
            ≡ err x
          → (front : List B) × (bad : B) × (back : List B) × ((blk ∷ blks) ≡ front ++ (bad ∷ back))
            × (sum (raw_data bad) ≡ err x)
            × (put_many raw_data sum front m ≡ (
              ok tt,
              (continue r m (λ d n.
                  put_many raw_data sum blks (record { blocks = insert d blk n.blocks }))).1,
            ))
      go (ok d) e ih h =
          let (front, bad, back, split, fails, same) = ih d h in
          (blk ∷ front, bad, back, ap (λ bs. blk ∷ bs) split, fails, rw (e, same))
      go (err y) e ih h = ([], blk, blks, refl, cc, refl)
      go panic e ih h = cc

  -- A Put of a block whose bytes have a hash succeeds; Get then finds the block under that CID, with
  -- its size, and every other CID is present as before. After DeleteBlock of a CID that one is
  -- missing, and every other is present as before.
  pub get-put :
      (blk : B) (m : Memory C B) (c d : C)
      → sum (raw_data blk) ≡ ok c
      → ((put raw_data sum blk m).0 ≡ ok tt)
        × (get raw_data sum c (put raw_data sum blk m).1 ≡ ok blk)
        × (get_size raw_data sum c (put raw_data sum blk m).1 ≡ ok (length (raw_data blk)))
        × (has raw_data sum d (put raw_data sum blk m).1
            ≡ (if c == d then true else has raw_data sum d m))
        × (has raw_data sum d (delete_block raw_data sum c m).1
            ≡ (if c == d then false else has raw_data sum d m))
  unfolding put get get_size has delete_block lookup
  get-put blk m c d h =
      (rw h, rw (h, lookup-insert_self), rw (h, lookup-insert_self), has_put, has_delete)
    where
      has_put :
          is_some (lookup d (put raw_data sum blk m).1.blocks)
          ≡ (if c == d then true else is_some (lookup d m.blocks))
      has_put = rw (h, lookup-insert c d blk m.blocks, go (c == d))
        where
          go :
              (b : Bool)
              → is_some (if b then some blk else lookup d m.blocks)
                ≡ (if b then true else is_some (lookup d m.blocks))
          go true = refl
          go false = refl

      has_delete :
          is_some (lookup d (delete_block raw_data sum c m).1.blocks)
          ≡ (if c == d then false else is_some (lookup d m.blocks))
      has_delete = rw (lookup-delete c d m.blocks, go (c == d))
        where
          go :
              (b : Bool)
              → is_some (if b then none else lookup d m.blocks)
                ≡ (if b then false else is_some (lookup d m.blocks))
          go true = refl
          go false = refl
