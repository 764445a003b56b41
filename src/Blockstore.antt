-- ===== src/Blockstore.antt =====
-- internal/blockstore/inmemory.go: the blockstore that keeps its blocks in a Go map. `C` stands for
-- cid.Cid, `B` for block.Block, of which the code calls RawData, and `sum` for the store's
-- cid.Prefix. Each method holds the lock while it touches the map, so a call is one step; HashOnRead
-- does nothing.
pub mod Laws
mod Tests
use at.Prelude.{ℕ, Bool, Option, none, some, List, [], ◌∷◌, ◌++◌, length, is_some}
use at.Prelude.Eq.{Eq}
use at.Prelude.GoMap.{GoMap, lookup, insert, delete as delete_key}
use at.Prelude.Result.{Result, ok, err, panic, msg}
use at.Prelude.Exec.{Exec, lift, gets, modify, pure, continue, ◌>>=◌, ◌>>◌}

pub record Memory (C B : Type 0) : Type 0 where
  pub blocks : GoMap C B

module _ {C B : Type 0} ⦃e : Eq C⦄ (raw_data : B → List ℕ) (sum : List ℕ → Result C) where
  abbrev pub Store : Type 0 → Type 0
  Store A = Exec (Memory C B) A

  unfoldable pub in_memory : Memory C B
  in_memory = record { blocks = [] }

  unfoldable pub clear : Store (Unit {0})
  clear = modify (λ m. record { blocks = [] })

  unfoldable pub get : C → Memory C B → Result B
  get c m = elim (lookup c m.blocks) [ some blk ↦ ok blk | none ↦ err (msg "block not found") ]

  unfoldable pub put : B → Store (Unit {0})
  put blk = do
    cid ← lift (sum (raw_data blk))
    modify (λ m. record { blocks = insert cid blk m.blocks })

  unfoldable pub delete_block : C → Store (Unit {0})
  delete_block c = modify (λ m. record { blocks = delete_key c m.blocks })

  unfoldable pub has : C → Memory C B → Bool
  has c m = is_some (lookup c m.blocks)

  unfoldable pub put_many : List B → Store (Unit {0})
  put_many [] = pure tt
  put_many (blk ∷ blks) = do
    cid ← lift (sum (raw_data blk))
    modify (λ m. record { blocks = insert cid blk m.blocks })
    put_many blks

  -- The CIDs that the channel of AllKeysChan receives, when it is read to its end.
  unfoldable pub all_keys : GoMap C B → List C
  all_keys [] = []
  all_keys ((c, blk) ∷ rest) = c ∷ all_keys rest

  unfoldable pub get_size : C → Memory C B → Result ℕ
  get_size c m = elim (get c m) [
    | ok blk ↦ ok (length (raw_data blk))
    | err x ↦ err x
    | panic ↦ panic
  ]
