-- ===== src/Repo/BlockMap.antt =====
-- internal/repo/block_map.go: a map from CIDs to the bytes of blocks. `C` stands for cid.Cid, of
-- which the code uses only `==`. Each method holds the map's lock for its whole body, so a call is
-- one step and the mutex is not part of the state.
pub mod Laws
pub mod GetMany
pub mod Equals
mod Tests
use at.Prelude.{
  ℕ, ◌+◌, Bool, true, false, not, ◌&&◌, Option, none, some, List, [], ◌∷◌, ◌++◌, length, eqb,
  is_some, if◌then◌else◌,
}
use at.Prelude.Eq.{Eq, ◌==◌}
use at.Prelude.GoMap.{GoMap, lookup, insert, delete as delete_key}
use at.Xiter.{Seq2}
use at.Prelude.Result.{Result, ok, err, panic}

-- A Go byte slice: `none` is nil.
abbrev pub Bytes : Type 0
Bytes = Option (List ℕ)

abbrev pub content : Bytes → List ℕ
content none = []
content (some b) = b

-- bytes.Equal
unfoldable pub bytes_equal : List ℕ → List ℕ → Bool
bytes_equal [] [] = true
bytes_equal [] (y ∷ ys) = false
bytes_equal (x ∷ xs) [] = false
bytes_equal (x ∷ xs) (y ∷ ys) = eqb x y && bytes_equal xs ys

pub record Entry (C : Type 0) : Type 0 where
  pub cid : C
  pub bytes : Bytes

pub record BlockMap (C : Type 0) : Type 0 where
  pub blocks : GoMap C Bytes

unfoldable pub new_block_map : {C : Type 0} → BlockMap C
new_block_map = record { blocks = [] }

unfoldable pub block_map_from_map : {C : Type 0} → GoMap C Bytes → BlockMap C
block_map_from_map m = record { blocks = m }

module _ {C : Type 0} ⦃e : Eq C⦄ where
  unfoldable pub set : C → Bytes → BlockMap C → BlockMap C
  set cid bytes bm = record { blocks = insert cid bytes bm.blocks }

  unfoldable pub get : BlockMap C → C → Option Bytes
  get bm cid = lookup cid bm.blocks

  unfoldable pub delete : C → BlockMap C → BlockMap C
  delete cid bm = record { blocks = delete_key cid bm.blocks }

  unfoldable pub has : BlockMap C → C → Bool
  has bm cid = is_some (lookup cid bm.blocks)

  unfoldable pub clear : BlockMap C → BlockMap C
  clear bm = record { blocks = [] }

  -- `marshal` is dagcbor.Marshal and `sum` is DefaultPrefix.Sum.
  add_block : Result C → Bytes → BlockMap C → Result C × BlockMap C
  unfolding set
  add_block (ok c) b bm = (ok c, set c b bm)
  add_block (err x) b bm = (err x, bm)
  add_block panic b bm = (panic, bm)

  add_bytes : (Bytes → Result C) → Result Bytes → BlockMap C → Result C × BlockMap C
  unfolding add_block
  add_bytes sum (ok b) bm = add_block (sum b) b bm
  add_bytes sum (err x) bm = (err x, bm)
  add_bytes sum panic bm = (panic, bm)

  unfoldable pub add :
      {V : Type 0}
      → (V → Result Bytes)
      → (Bytes → Result C)
      → V
      → BlockMap C
      → Result C × BlockMap C
  unfolding add_bytes
  add marshal sum value bm = add_bytes sum (marshal value) bm

  -- The two results of the loop of GetMany: the map so far, and the missing CIDs so far.
  get_many_step : C → Option Bytes → BlockMap C × List C → BlockMap C × List C
  unfolding set
  get_many_step cid (some got) (blocks, missing) = (set cid got blocks, missing)
  get_many_step cid none (blocks, missing) = (blocks, missing ++ cid ∷ [])

  get_many_loop : BlockMap C → List C → BlockMap C × List C → BlockMap C × List C
  unfolding get_many_step
  get_many_loop bm [] acc = acc
  get_many_loop bm (cid ∷ cids) acc =
      get_many_loop bm cids (get_many_step cid (lookup cid bm.blocks) acc)

  unfoldable pub get_many : BlockMap C → List C → BlockMap C × List C
  unfolding get_many_loop new_block_map
  get_many bm cids = get_many_loop bm cids (new_block_map, [])

-- The callback of ForEach works on a state `S` of its caller.
for_each_loop {ℓ} : {C : Type 0} {S : Type ℓ} → (Bytes → C → S → S) → GoMap C Bytes → S → S
for_each_loop cb [] s = s
for_each_loop cb ((cid, bytes) ∷ rest) s = for_each_loop cb rest (cb bytes cid s)

unfoldable pub for_each {ℓ} : {C : Type 0} {S : Type ℓ} → BlockMap C → (Bytes → C → S → S) → S → S
unfolding for_each_loop
for_each bm cb s = for_each_loop cb bm.blocks s

unfoldable pub entries_loop : {C : Type 0} → GoMap C Bytes → List (Entry C) → List (Entry C)
entries_loop [] out = out
entries_loop ((c, b) ∷ rest) out = entries_loop rest (out ++ record { cid = c; bytes = b } ∷ [])

unfoldable pub entries : {C : Type 0} → BlockMap C → List (Entry C)
unfolding entries_loop
entries bm = entries_loop bm.blocks []

cids_loop : {C : Type 0} → GoMap C Bytes → List C → List C
cids_loop [] out = out
cids_loop ((c, _) ∷ rest) out = cids_loop rest (out ++ c ∷ [])

unfoldable pub cids : {C : Type 0} → BlockMap C → List C
unfolding cids_loop
cids bm = cids_loop bm.blocks []

unfoldable pub add_map : {C : Type 0} ⦃e : Eq C⦄ → BlockMap C → BlockMap C → BlockMap C
unfolding for_each set
add_map bm other = for_each other (λ bytes cid m. set cid bytes m) bm

unfoldable pub size : {C : Type 0} → BlockMap C → ℕ
size bm = length bm.blocks

byte_size_loop : {C : Type 0} → GoMap C Bytes → ℕ → ℕ
byte_size_loop [] total = total
byte_size_loop ((_, b) ∷ rest) total = byte_size_loop rest (total + length (content b))

unfoldable pub byte_size : {C : Type 0} → BlockMap C → ℕ
unfolding byte_size_loop
byte_size bm = byte_size_loop bm.blocks 0

-- `otherBytes == nil` holds of a missing key and of a nil slice alike.
same_block : Bytes → Option Bytes → Bool
unfolding bytes_equal
same_block b none = false
same_block b (some none) = false
same_block b (some (some o)) = bytes_equal (content b) o

module _ {C : Type 0} ⦃e : Eq C⦄ where
  equals_loop : BlockMap C → GoMap C Bytes → Bool
  unfolding same_block
  equals_loop other [] = true
  equals_loop other ((cid, b) ∷ rest) =
      if same_block b (lookup cid other.blocks) then equals_loop other rest else false

  unfoldable pub equals : BlockMap C → BlockMap C → Bool
  unfolding equals_loop size
  equals bm other = if eqb (size bm) (size other) then equals_loop other bm.blocks else false

iter_loop : {C : Type 0} → GoMap C Bytes → Seq2 C Bytes
iter_loop [] S yield s = s
iter_loop ((cid, bytes) ∷ rest) S yield s =
    let (go, t) = yield cid bytes s in let more = iter_loop rest S yield t in if go then more else t

unfoldable pub iter : {C : Type 0} → BlockMap C → Seq2 C Bytes
unfolding iter_loop
iter bm = iter_loop bm.blocks
