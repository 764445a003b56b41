-- ===== src/Actorstore/Reader.antt =====
-- internal/actorstore/repo.go: SQLRepoReader.GetBlocks, with the cache of the reader. The database
-- is a parameter.
pub mod Splits
use at.Prelude.{Bool, true, false, not, Option, none, some, List, [], ◌∷◌, is_some, if◌then◌else◌}
use at.Prelude.Eq.{Eq}
use at.Prelude.GoMap.{GoMap, lookup, insert}
use at.Prelude.Result.{Result, ok, err, panic}
use at.Prelude.Exec.{Exec, pure, lift, gets, modify, ◌>>=◌, ◌>>◌}
use at.Repo.BlockMap
use at.Repo.BlockMap.{Bytes, Entry, BlockMap}

-- The reader: its field `cache`, kept in the world, and the query of the rows of repo_block whose
-- CID is one of a list. A row is what Scan makes of it; the rows end where rows.Next returns false.
pub record SqlRepoReader (C World : Type 0) : Type 0 where
  pub cache : World → BlockMap C
  pub set_cache : BlockMap C → World → World
  pub query_blocks : List C → Exec World (List (Result (C × Bytes)))

pub record BlockResult (C : Type 0) : Type 0 where
  pub blocks : BlockMap C
  pub missing : List C

module _ {C World : Type 0} ⦃e : Eq C⦄ (reader : SqlRepoReader C World) where
  open reader use {cache, set_cache, query_blocks}

  -- The loop over the entries of the cache.
  set_entries : List (Entry C) → BlockMap C → BlockMap C
  set_entries [] blocks = blocks
  set_entries (entry ∷ rest) blocks = set_entries rest (BlockMap.set entry.cid entry.bytes blocks)

  -- s.cache.Set
  cache_block : C → Bytes → Exec World (Unit {0})
  cache_block c content w = (ok tt, set_cache (BlockMap.set c content (cache w)) w)

  -- The loop over the rows: the blocks and foundCids.
  scan_rows :
      List (Result (C × Bytes))
      → BlockMap C
      → GoMap C (Unit {0})
      → Exec World (BlockMap C × GoMap C (Unit {0}))
  unfolding cache_block
  scan_rows [] blocks found = pure (blocks, found)
  scan_rows (row ∷ rows) blocks found = do
    (c, content) ← lift row
    cache_block c content
    scan_rows rows (BlockMap.set c content blocks) (insert c tt found)

  still_missing : GoMap C (Unit {0}) → List C → List C
  still_missing found [] = []
  still_missing found (c ∷ cids) =
      let rest = still_missing found cids in if is_some (lookup c found) then rest else c ∷ rest

  -- The query and its rows, where the cache misses some CIDs.
  fetch_missing : BlockMap C → List C → Exec World (BlockResult C)
  unfolding scan_rows still_missing
  fetch_missing blocks [] = pure (record { blocks = blocks; missing = [] })
  fetch_missing blocks (c ∷ missing) = do
    rows ← query_blocks (c ∷ missing)
    (left, found) ← scan_rows rows blocks []
    pure (record { blocks = left; missing = still_missing found (c ∷ missing) })

  unfoldable pub get_blocks : List C → Exec World (BlockResult C)
  unfolding set_entries fetch_missing
  get_blocks cids = do
    cached ← gets cache
    fetch_missing
        (set_entries (BlockMap.entries (BlockMap.get_many cached cids).0) BlockMap.new_block_map)
        (BlockMap.get_many cached cids).1
