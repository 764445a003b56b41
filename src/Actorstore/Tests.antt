-- ===== src/Actorstore/Tests.antt =====
-- The theorems about the transactor at a storage over the concrete world of `Repo.Sample`.
use at.Prelude.{
  ℕ, ◌≡◌, ◌≢◌, ◌⊎◌, inl, inr, refl, ap, sym, subst, ◌∙◌, arith, true, false, not, eqb, ◌||◌, some,
  none, List, [], ◌∷◌, String, if◌then◌else◌,
}
use at.Prelude.Eq.{nat_eq, string_eq, elem}
use at.Prelude.GoMap.{GoMap, lookup, insert}
use at.Prelude.Result.{Result, ok, err, msg}
use at.Repo.BlockMap
use at.Repo.BlockMap.{Bytes, BlockMap}
use at.Repo.CidSet.{CidSet}
use at.Repo.Write.{
  PreparedWrite, of_create, of_update, create, update, delete, unset, get_action, get_cid,
}
use at.Repo.Commit.{sign_commit_with_signer}
use at.Repo.Repository.{load, tree_of}
use at.Repo.Format.{CommitData, format_commit}
use at.Repo.Sample.{codec, commits, out, sample_commit}
use at.Actorstore.Swaps.{AllHeld, at_loop, format_prepared-Safe}
use at.Actorstore.Blocks.{add_blocks_lem}
use at.Actorstore.Reader.{SqlRepoReader, BlockResult, get_blocks}
use at.Actorstore.Tables.{AllCreates, format_prepared-AllCreates}
use at.Actorstore.{RootInfo, Storage, format_prepared, get_duplicate_record_cids, sign}

-- A database that has the blocks of the CIDs 6 and 7.
abbrev rows_of : List ℕ → List (Result (ℕ × Bytes))
rows_of [] = []
rows_of (c ∷ cs) =
    let rest = rows_of cs in if eqb c 6 || eqb c 7 then ok (c, some (c ∷ [])) ∷ rest else rest

-- The cache has the block of 6.
abbrev reader : SqlRepoReader ℕ (GoMap ℕ Bytes)
reader = record {
  cache = λ w. record { blocks = (6, some (6 ∷ [])) ∷ [] };
  set_cache = λ bm w. w;
  query_blocks = λ cids w. (ok (rows_of cids), w);
}

abbrev root : RootInfo ℕ
root = record { cid = 4; rev = "r1" }

-- A storage in which each record has the CID 5.
abbrev storage : Storage out
storage = record {
  get_root_detailed = λ w. (ok (some root), w);
  cache_rev = λ r w. (ok tt, w);
  find_record = λ uri w. (ok (some 5), w);
  select_cids = λ table cids uris w. (ok [], w);
  reader = reader;
  must_parse = ok;
  collection = λ uri. "c";
  record_key = λ uri. uri;
}

-- The same without the table "reocrd".
abbrev broken : Storage out
broken = record storage { select_cids = λ table cids uris w. (err (msg "no such table"), w) }

abbrev new_write : PreparedWrite ℕ ℕ
new_write = of_create (record {
  action = create;
  uri = "a";
  cid = 6;
  swap_cid = none;
  rec = 6;
  blobs = [];
  validation_status = unset;
})

abbrev changed_write : PreparedWrite ℕ ℕ
changed_write = of_update (record {
  action = update;
  uri = "b";
  cid = 7;
  swap_cid = some 5;
  rec = 7;
  blobs = [];
  validation_status = unset;
})

abbrev world : GoMap ℕ Bytes
world = (4, some (4 ∷ [])) ∷ []

abbrev key : Bytes → Result Bytes
key b = ok b

abbrev both : List (PreparedWrite ℕ ℕ)
both = new_write ∷ changed_write ∷ []

abbrev commit_block : Bytes
commit_block = some (9 ∷ 7 ∷ [])

abbrev made : List ℕ → CommitData ℕ
made cids = record {
  cid = 9;
  rev = "r2";
  since = "";
  prev = 0;
  new_blocks = record { blocks = (9, commit_block) ∷ [] };
  relevant_blocks = record { blocks = (9, commit_block) ∷ map_blocks cids };
  removed_cids = record { set = (4, tt) ∷ [] };
  signed_commit = record sample_commit { sig = some (7 ∷ []); rev = "r2"; raw = commit_block };
}
  where
    map_blocks : List ℕ → GoMap ℕ Bytes
    map_blocks [] = []
    map_blocks (c ∷ cs) = (c, some (c ∷ [])) ∷ map_blocks cs

run : (format_prepared codec commits out storage key both 4 world).0 ≡ ok (made (6 ∷ 7 ∷ []))
unfolding format_prepared format_commit load tree_of lookup insert get_duplicate_record_cids sign
    sign_commit_with_signer get_action at.Repo.Write.get_swap_cid BlockMap.add
    at.Repo.CidSet.to_list at.Repo.CidSet.add at.Repo.CidSet.new_cid_set BlockMap.get_many get_cid
    BlockMap.add_map get_blocks BlockMap.entries BlockMap.set BlockMap.new_block_map
run = refl

run_broken :
    (format_prepared codec commits out broken key (new_write ∷ []) 4 world).0 ≡ ok (made (6 ∷ []))
unfolding format_prepared format_commit load tree_of lookup insert get_duplicate_record_cids sign
    sign_commit_with_signer get_action at.Repo.Write.get_swap_cid BlockMap.add
    at.Repo.CidSet.to_list at.Repo.CidSet.add at.Repo.CidSet.new_cid_set BlockMap.get_many get_cid
    BlockMap.add_map get_blocks BlockMap.entries BlockMap.set BlockMap.new_block_map
run_broken = refl

format_prepared-Safe_example :
    (r : RootInfo ℕ) × (◌≡◌ {A = Result (at.Prelude.Option (RootInfo ℕ))}
      (ok (some root))
      (ok (some r)))
    × ((◌≡◌ {A = ℕ} 4 0) ⊎ (r.cid ≡ 4))
    × AllHeld codec commits out storage both (at_loop codec commits out storage r world)
format_prepared-Safe_example =
    format_prepared-Safe codec commits out storage key both 4 world (made (6 ∷ 7 ∷ [])) run

-- GetBlocks is asked for 7, of which the database has the block, and for 8, which it reports.
abbrev asked : List ℕ
asked = 7 ∷ 8 ∷ []

add_blocks_lem_example :
    ((BlockMap.has (made []).relevant_blocks 8 ≡ true)
      × (BlockMap.has (made (7 ∷ [])).relevant_blocks 8 ≡ true))
    ⊎ ((r : BlockResult ℕ) × ((get_blocks reader
            (BlockMap.get_many (made []).relevant_blocks asked).1
            world).0
          ≡ ok r)
        × (BlockMap.has (made (7 ∷ [])).relevant_blocks 8 ≡ not (elem 8 r.missing)))
unfolding BlockMap.get_many get_blocks BlockMap.entries BlockMap.set insert lookup BlockMap.add_map
    BlockMap.new_block_map at.Actorstore.add_blocks
add_blocks_lem_example =
    add_blocks_lem codec commits out storage (made []) (made (7 ∷ [])) asked world refl 8 refl

format_prepared-AllCreates_example :
    AllCreates codec commits out broken (new_write ∷ [])
    ⊎ ((r : RootInfo ℕ) × ((broken.get_root_detailed world).0 ≡ ok (some r))
        × (◌≡◌ {A = ℕ} 9 r.cid))
format_prepared-AllCreates_example =
    format_prepared-AllCreates codec commits out broken (λ cids uris w. (msg "no such table", refl))
      key (new_write ∷ []) 4 world (made (6 ∷ [])) run_broken
