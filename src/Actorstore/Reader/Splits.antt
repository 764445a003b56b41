-- ===== src/Actorstore/Reader/Splits.antt =====
-- internal/actorstore/repo.go: which CIDs GetBlocks finds, and which it reports missing.
use at.Prelude.{
  ◌≡◌, ◌∙◌, subst, refl, arith, Bool, true, not, ◌&&◌, ◌||◌, none, List, [], ◌∷◌, ◌++◌, is_some,
  if◌then◌else◌,
}
use at.Prelude.Eq.{Eq, elem, ==_iff}
use at.Prelude.GoMap.{GoMap, lookup, insert, lookup-insert}
use at.Prelude.Result.{Result, ok, ok_injective}
use at.Prelude.Exec.{continue-eq-ok}
use at.Repo.BlockMap
use at.Repo.BlockMap.{Bytes, Entry, BlockMap, entries_loop}
use at.Repo.BlockMap.Laws.{has-set}
use at.Repo.BlockMap.GetMany.{absent, get_many_lem}
use at.Actorstore.Reader.{
  SqlRepoReader, BlockResult, set_entries, cache_block, scan_rows, still_missing, fetch_missing,
  get_blocks,
}

pub elem-absent :
    {C : Type 0} ⦃e : Eq C⦄ (bm : BlockMap C) (cs : List C) (c : C)
    → elem c (absent bm cs) ≡ (elem c cs && not (BlockMap.has bm c))
elem-absent bm [] c = refl
elem-absent bm (d ∷ cs) c = ground (arith, elem-absent bm cs c, ==_iff d c)

module _ {C World : Type 0} ⦃e : Eq C⦄ (reader : SqlRepoReader C World) where
  set_entries-append :
      (es : List (Entry C)) (x : Entry C) (bm : BlockMap C)
      → set_entries reader (es ++ x ∷ []) bm ≡ BlockMap.set x.cid x.bytes (set_entries reader es bm)
  unfolding set_entries
  set_entries-append [] x bm = refl
  set_entries-append (y ∷ es) x bm = set_entries-append es x (BlockMap.set y.cid y.bytes bm)

  -- The entries of a map, set one after the other, give a block at each key of the map.
  has-set_entries :
      (m : GoMap C Bytes) (out : List (Entry C)) (bm : BlockMap C) (c : C)
      → BlockMap.has (set_entries reader (entries_loop m out) bm) c
        ≡ (is_some (lookup c m) || BlockMap.has (set_entries reader out bm) c)
  unfolding entries_loop lookup
  has-set_entries [] out bm c = refl
  has-set_entries ((d, b) ∷ m) out bm c =
      let x : Entry C = record { cid = d; bytes = b } in
      has-set_entries m (out ++ x ∷ []) bm c
      ∙ rw (set_entries-append out x bm, has-set d c b (set_entries reader out bm))
          (ground (arith, ==_iff d c))

  -- What the rows add to the blocks is what they add to foundCids.
  has-scan_rows :
      (rows : List (Result (C × Bytes))) (bm left : BlockMap C) (found found' : GoMap C (Unit {0}))
      (w : World)
      → (scan_rows reader rows bm found w).0 ≡ ok (left, found')
      → (c : C) (old : Bool) → BlockMap.has bm c ≡ (old || is_some (lookup c found))
      → BlockMap.has left c ≡ (old || is_some (lookup c found'))
  unfolding scan_rows cache_block
  has-scan_rows [] bm left found found' w h c old q =
      let same = ok_injective h in
      subst
        (λ (x : BlockMap C × GoMap C (Unit {0})).
          BlockMap.has x.0 c ≡ (old || is_some (lookup c x.1)))
        same q
  has-scan_rows (row ∷ rows) bm left found found' w h c old q =
      let (p, _, h₁, _) = continue-eq-ok row w _ (left, found') h in
      has-scan_rows rows (BlockMap.set p.0 p.1 bm) left (insert p.0 tt found) found' _ h₁ c old
        (ground (arith, q, has-set p.0 c p.1 bm, lookup-insert p.0 c tt found))

  elem-still_missing :
      (found : GoMap C (Unit {0})) (cs : List C) (c : C)
      → elem c (still_missing reader found cs) ≡ (elem c cs && not (is_some (lookup c found)))
  unfolding still_missing
  elem-still_missing found [] c = refl
  elem-still_missing found (d ∷ cs) c = ground (arith, elem-still_missing found cs c, ==_iff d c)

  fetch_missing_lem :
      (bm : BlockMap C) (cs : List C) (r : BlockResult C) (w : World)
      → (fetch_missing reader bm cs w).0 ≡ ok r
      → (c : C) → BlockMap.has bm c ≡ not (elem c cs)
      → BlockMap.has r.blocks c ≡ not (elem c r.missing)
  unfolding fetch_missing
  fetch_missing_lem bm [] r w h c q =
      subst (λ (x : BlockResult C). BlockMap.has x.blocks c ≡ not (elem c x.missing))
        (ok_injective h) q
  fetch_missing_lem bm (d ∷ cs) r w h c q =
      let m = reader.query_blocks (d ∷ cs) w in
      let (rows, _, h₁, _) = continue-eq-ok m.0 m.1 _ r h in
      let s = scan_rows reader rows bm [] m.1 in
      let ((left, found), scanned, h₂, _) = continue-eq-ok s.0 s.1 _ r h₁ in
      subst (λ (x : BlockResult C). BlockMap.has x.blocks c ≡ not (elem c x.missing))
        (ok_injective h₂)
        (ground (
          arith,
          q,
          has-scan_rows rows bm left [] found m.1 scanned c (BlockMap.has bm c)
              (unfold lookup in ground arith),
          elem-still_missing found (d ∷ cs) c,
        ))

  -- Whatever the cache has and whatever rows the database returns, a GetBlocks that succeeds has,
  -- for each CID that it is asked for, either a block or the CID among the missing ones, never both.
  pub get_blocks_splits :
      (cids : List C) (w : World) (r : BlockResult C)
      → (get_blocks reader cids w).0 ≡ ok r
      → (c : C) → elem c cids ≡ true
      → BlockMap.has r.blocks c ≡ not (elem c r.missing)
  unfolding get_blocks
  get_blocks_splits cids w r h c asked =
      let cached = reader.cache w in
      let (reads, misses) = get_many_lem cached cids in
      let got = (BlockMap.get_many cached cids).0 in
      fetch_missing_lem _ _ r w h c (
        rw (misses, elem-absent cached cids c, asked)
          (unfold BlockMap.entries in
            has-set_entries got.blocks [] BlockMap.new_block_map c ∙ ends cached got (reads c)))
    where
      ends :
          (cached got : BlockMap C)
          → BlockMap.get got c ≡ (if elem c cids then BlockMap.get cached c else none)
          → (is_some (lookup c got.blocks) || BlockMap.has (BlockMap.new_block_map {C = C}) c)
            ≡ not (not (BlockMap.has cached c))
      ends cached got q =
          unfold BlockMap.new_block_map BlockMap.has BlockMap.get lookup in ground (arith, q, asked)
