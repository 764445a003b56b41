-- ===== src/Xiter.antt =====
-- internal/xiter/xiter.go: adapters of Go's push iterators. An iter.Seq is a function that calls
-- `yield` with each value until `yield` returns false; here `yield` passes on the state `S` that
-- its body reads and writes. A `for range` over a Seq is a call with the loop's body as `yield`:
-- true continues the loop and false leaves it.
pub mod Lists
pub mod Adapters
pub mod Chunks
pub mod Merges
mod Tests
use at.Prelude.{
  ℕ, Bool, true, false, not, Option, none, some, List, [], ◌∷◌, ◌++◌, length, eqb, ltb,
  if◌then◌else◌, String,
}
use at.Prelude.Eq.{Eq, ◌==◌, string_eq}
use at.Prelude.GoMap.{GoMap, lookup, insert}
use at.Prelude.Int.{ℤ, is_positive}
use at.Prelude.Result.{Result, ok, panic}

abbrev pub Seq : Type 0 → Type 1
Seq V = (S : Type 0) → (V → S → Bool × S) → S → S

abbrev pub Seq2 : Type 0 → Type 0 → Type 1
Seq2 K V = (S : Type 0) → (K → V → S → Bool × S) → S → S

pub record Pair (K V : Type 0) : Type 0 where
  pub k : K
  pub v : V

pub record Group (K V : Type 0) : Type 0 where
  pub key : String
  pub pairs : List (Pair K V)

module _ {K V : Type 0} where
  unfoldable pub filter2 : (K → V → Bool) → Seq2 K V → Seq2 K V
  filter2 f seq S yield s = seq _ (λ k v t. if f k v then yield k v t else (true, t)) s

  unfoldable pub pairs : Seq2 K V → Seq (Pair K V)
  pairs seq S yield s = seq _ (λ k v t. yield (record { k = k; v = v }) t) s

  unfoldable pub add_to_group :
      String → Pair K V → GoMap String (List (Pair K V)) → GoMap String (List (Pair K V))
  add_to_group key p groups = elim (lookup key groups) [
    | some ps ↦ insert key (ps ++ (p ∷ [])) groups
    | none ↦ insert key (p ∷ []) groups
  ]

  unfoldable pub group_list : GoMap String (List (Pair K V)) → List (Group K V)
  group_list [] = []
  group_list ((key, group) ∷ rest) = record { key = key; pairs = group } ∷ group_list rest

  unfoldable pub group_by2 : Seq2 K V → (K → V → String) → List (Group K V)
  group_by2 seq f =
      group_list
        (seq _ (λ k v groups. (true, add_to_group (f k v) (record { k = k; v = v }) groups)) [])

  unfoldable pub keys : Seq2 K V → Seq K
  keys seq S yield s = seq _ (λ k v t. yield k t) s

  unfoldable pub vals : Seq2 K V → Seq V
  vals seq S yield s = seq _ (λ k v t. yield v t) s

unfoldable pub map_seq : {A B : Type 0} → (A → B) → Seq A → Seq B
map_seq f seq S yield s = seq _ (λ v t. yield (f v) t) s

unfoldable pub map2 : {A B C D : Type 0} → (A → B → C × D) → Seq2 A B → Seq2 C D
map2 f seq S yield s = seq _ (λ k v t. yield (f k v).0 (f k v).1 t) s

-- What the loop of Chunk keeps: `batch`, whether it returned, and the state of `yield`.
pub record ChunkState (E S : Type 0) : Type 0 where
  pub batch : Option (List E)
  pub returned : Bool
  pub inner : S

-- What the loops of MergeFunc keep: what `next` has still to return (the head is `v2`), whether
-- it returned, and the state of `yield`.
pub record MergeState (V S : Type 0) : Type 0 where
  pub rest : List V
  pub returned : Bool
  pub inner : S

module _ {E : Type 0} where
  unfoldable pub batch_items : Option (List E) → List E
  batch_items none = []
  batch_items (some b) = b

  unfoldable pub after_yield : {S : Type 0} → List E → Bool × S → Bool × ChunkState E S
  after_yield b (true, s) = (true, record { batch = none; returned = false; inner = s })
  after_yield b (false, s) = (false, record { batch = some b; returned = true; inner = s })

  unfoldable pub chunk_body :
      {S : Type 0} → ℕ → (List E → S → Bool × S) → E → ChunkState E S → Bool × ChunkState E S
  chunk_body n yield e t =
      let b = batch_items t.batch ++ (e ∷ []) in
      if eqb (length b) n
      then after_yield b (yield b t.inner)
      else (true, record { batch = some b; returned = false; inner = t.inner })

  unfoldable pub chunk_end : {S : Type 0} → (List E → S → Bool × S) → ChunkState E S → S
  chunk_end yield t =
      if t.returned
      then t.inner
      else (if ltb 0 (length (batch_items t.batch))
          then (yield (batch_items t.batch) t.inner).1
          else t.inner)

  unfoldable pub chunk_seq : Seq E → ℕ → Seq (List E)
  chunk_seq seq n S yield s =
      chunk_end yield
        (seq _ (chunk_body n yield) (record { batch = none; returned = false; inner = s }))

module _ {V : Type 0} where
  -- iter.Pull: the values that the calls of `next` return.
  unfoldable pub pull : Seq V → List V
  pull seq = seq _ (λ v vs. (true, vs ++ (v ∷ []))) []

  -- `for ok2 && f(v1, v2) > 0`, with `greater` for the test on v2.
  unfoldable pub drain :
      {S : Type 0} → (V → Bool) → (V → S → Bool × S) → List V → S → MergeState V S
  drain greater yield [] s = record { rest = []; returned = false; inner = s }
  drain greater yield (v2 ∷ vs) s =
      let (go, t) = yield v2 s in
      let more = drain greater yield vs t in
      let after = if go then more else record { rest = v2 ∷ vs; returned = true; inner = t } in
      if greater v2 then after else record { rest = v2 ∷ vs; returned = false; inner = s }

  unfoldable pub yield_first :
      {S : Type 0} → (V → S → Bool × S) → V → MergeState V S → Bool × MergeState V S
  yield_first yield v1 t =
      if t.returned
      then (false, t)
      else (let (go, s) = yield v1 t.inner in
          (go, record { rest = t.rest; returned = not go; inner = s }))

  unfoldable pub merge_body :
      {S : Type 0} → (V → V → ℤ) → (V → S → Bool × S) → V → MergeState V S → Bool × MergeState V S
  merge_body f yield v1 t =
      yield_first yield v1 (drain (λ v2. is_positive (f v1 v2)) yield t.rest t.inner)

  unfoldable pub merge_end : {S : Type 0} → (V → S → Bool × S) → MergeState V S → S
  merge_end yield t =
      if t.returned then t.inner else (drain (λ v2. true) yield t.rest t.inner).inner

  unfoldable pub merge_func : Seq V → Seq V → (V → V → ℤ) → Seq V
  merge_func x y f S yield s =
      merge_end yield
        (x _ (merge_body f yield) (record { rest = pull y; returned = false; inner = s }))

  unfoldable pub contains : ⦃e : Eq V⦄ → Seq V → V → Bool
  contains seq v = seq _ (λ item found. if item == v then (false, true) else (true, found)) false

-- `compare` is cmp.Compare of the type.
unfoldable pub merge_ordered : {V : Type 0} → (V → V → ℤ) → Seq V → Seq V → Seq V
merge_ordered compare x y = merge_func x y compare

-- `string_of` is the String method of the type.
unfoldable pub map_stringers : {V : Type 0} → (V → String) → Seq V → Seq String
map_stringers string_of seq S yield s = seq S (λ e t. yield (string_of e) t) s

-- `n < 1` panics before an iterator is made.
unfoldable pub chunk : {E : Type 0} → Seq E → ℕ → Result {1} (Seq (List E))
chunk seq n = if ltb n 1 then panic else ok (chunk_seq seq n)
