-- ===== src/Repo/BlockMap/Laws.antt =====
-- What Set, Delete, Add and AddMap do to the map that Get reads, and to its sizes.
use at.Prelude.{
  ℕ, not, ◌&&◌, ◌||◌, ◌+◌, ◌≡◌, ◌≢◌, ◌∙◌, refl, Option, none, some, [], ◌∷◌, arith, length, inl,
  inr, Bool-cases, is_some, if◌then◌else◌,
}
use at.Prelude.Eq.{Eq, ◌==◌, ==_iff}
use at.Prelude.GoMap.{
  GoMap, IsMap, lookup, insert, lookup-insert, lookup-delete, insert-IsMap, delete-IsMap,
  length-insert, length-delete,
}
use at.Prelude.Result.{Result, ok, err, panic}
use at.Repo.BlockMap.{
  Bytes, content, BlockMap, set, get, delete, has, add, add_bytes, add_block, for_each,
  for_each_loop, add_map, size, byte_size, byte_size_loop,
}

-- Every CID has one entry.
abbrev pub IsValid : {C : Type 0} ⦃e : Eq C⦄ → BlockMap C → Type 0
IsValid bm = IsMap bm.blocks

abbrev pub stored_size : Option Bytes → ℕ
stored_size none = 0
stored_size (some b) = length (content b)

module _ {C : Type 0} ⦃e : Eq C⦄ where
  pub get-set :
      (c d : C) (b : Bytes) (bm : BlockMap C)
      → get (set c b bm) d ≡ (if c == d then some b else get bm d)
  unfolding get set
  get-set c d b bm = lookup-insert c d b bm.blocks

  pub get-delete :
      (c d : C) (bm : BlockMap C) → get (delete c bm) d ≡ (if c == d then none else get bm d)
  unfolding get delete
  get-delete c d bm = lookup-delete c d bm.blocks

  pub has-get : (bm : BlockMap C) (c : C) → has bm c ≡ is_some (get bm c)
  unfolding has get
  has-get bm c = refl

  pub has-set :
      (c d : C) (b : Bytes) (bm : BlockMap C) → has (set c b bm) d ≡ ((c == d) || has bm d)
  unfolding has get
  has-set c d b bm = ground (arith, get-set c d b bm)

  pub has-delete : (c d : C) (bm : BlockMap C) → has (delete c bm) d ≡ (not (c == d) && has bm d)
  unfolding has get
  has-delete c d bm = ground (arith, get-delete c d bm)

  pub set-IsValid : (c : C) (b : Bytes) (bm : BlockMap C) → IsValid bm → IsValid (set c b bm)
  unfolding set
  set-IsValid c b bm v = insert-IsMap c b bm.blocks v

  pub delete-IsValid : (c : C) (bm : BlockMap C) → IsValid bm → IsValid (delete c bm)
  unfolding delete
  delete-IsValid c bm v = delete-IsMap c bm.blocks v

  module _ {V : Type 0} (marshal : V → Result Bytes) (sum : Bytes → Result C) (v : V)
      (bm : BlockMap C) where
    -- `bm'` is `bm` with an encoding of `v` stored under its sum `c`.
    abbrev pub Added : C → BlockMap C → Type 0
    Added c bm' =
        (b : Bytes) × (marshal v ≡ ok b)
        × (sum b ≡ ok c)
        × ((d : C) → get bm' d ≡ (if c == d then some b else get bm d))

    add_block-Added :
        (c : C) (b : Bytes) (r : Result C)
        → marshal v ≡ ok b
        → sum b ≡ r
        → (add_block r b bm).0 ≡ ok c
        → Added c (add_block r b bm).1
    unfolding add_block
    add_block-Added c b (ok c') hm hs h =
        let same : c' ≡ c = cc in (b, hm, cc, λ d. rw (get-set c' d b bm, same))
    add_block-Added c b (err x) hm hs h = cc
    add_block-Added c b panic hm hs h = cc

    add_bytes-Added :
        (c : C) (m : Result Bytes)
        → marshal v ≡ m
        → (add_bytes sum m bm).0 ≡ ok c
        → Added c (add_bytes sum m bm).1
    unfolding add_bytes
    add_bytes-Added c (ok b) hm h = add_block-Added c b (sum b) hm refl h
    add_bytes-Added c (err x) hm h = cc
    add_bytes-Added c panic hm h = cc

    -- After an Add that returns `c`, the encoding of the value, whose sum is `c`, is read under
    -- `c`, and every other CID reads as before.
    pub add-Added : (c : C) → (add marshal sum v bm).0 ≡ ok c → Added c (add marshal sum v bm).1
    unfolding add
    add-Added c h = add_bytes-Added c (marshal v) refl h

    -- An Add that returns no CID leaves the map as it was.
    pub add_failed : ((c : C) → (add marshal sum v bm).0 ≢ ok c) → (add marshal sum v bm).1 ≡ bm
    unfolding add
    add_failed h = encoded (marshal v) h
      where
        summed :
            (b : Bytes) (r : Result C)
            → ((c : C) → (add_block r b bm).0 ≢ ok c)
            → (add_block r b bm).1 ≡ bm
        summed b (ok c) h = absurd (h c refl)
        summed b (err x) h = refl
        summed b panic h = refl

        encoded :
            (m : Result Bytes)
            → ((c : C) → (add_bytes sum m bm).0 ≢ ok c)
            → (add_bytes sum m bm).1 ≡ bm
        encoded (ok b) h = summed b (sum b) h
        encoded (err x) h = refl
        encoded panic h = refl

  add_map_loop-get :
      (m : GoMap C Bytes) (bm : BlockMap C) (d : C)
      → IsMap m
      → get (for_each_loop (λ b c t. set c b t) m bm) d
        ≡ (if is_some (lookup d m) then lookup d m else get bm d)
  unfolding for_each_loop lookup
  add_map_loop-get [] bm d v = refl
  add_map_loop-get ((c, b) ∷ m) bm d v =
      ground (arith, add_map_loop-get m (set c b bm) d, get-set c d b bm, ==_iff c d)

  -- After AddMap a CID has a block exactly if it had one in either map.
  pub has-add_map :
      (bm other : BlockMap C) (c : C) → has (add_map bm other) c ≡ (has other c || has bm c)
  unfolding add_map for_each has for_each_loop lookup
  has-add_map bm other c = loop other.blocks bm
    where
      loop :
          (m : GoMap C Bytes) (bm : BlockMap C)
          → has (for_each_loop (λ b c t. set c b t) m bm) c ≡ (is_some (lookup c m) || has bm c)
      loop [] bm = refl
      loop ((d, b) ∷ m) bm =
          loop m (set d b bm) ∙ rw (has-set d c b bm) (ground (arith, ==_iff d c))

  -- After AddMap each CID reads as in the other map, which has each key once, or as before where the
  -- other map lacks it.
  pub get-add_map :
      (bm other : BlockMap C) (d : C)
      → IsValid other
      → get (add_map bm other) d ≡ (if has other d then get other d else get bm d)
  unfolding add_map get has
  get-add_map bm other d v = add_map_loop-get other.blocks bm d v

  -- Set makes the map one larger exactly when the CID was missing, and Delete one smaller exactly
  -- when it was there.
  pub size-set :
      (c : C) (b : Bytes) (bm : BlockMap C)
      → size (set c b bm) ≡ size bm + (if has bm c then 0 else 1)
  unfolding size set has
  size-set c b bm = length-insert c b bm.blocks

  pub size-delete :
      (c : C) (bm : BlockMap C)
      → IsValid bm
      → size bm ≡ size (delete c bm) + (if has bm c then 1 else 0)
  unfolding size delete has
  size-delete c bm v = length-delete c bm.blocks v

  byte_size_loop_acc : (m : GoMap C Bytes) (n : ℕ) → byte_size_loop m n ≡ n + byte_size_loop m 0
  unfolding byte_size_loop
  byte_size_loop_acc [] n = omega arith
  byte_size_loop_acc ((c, b) ∷ m) n = omega (
    arith,
    byte_size_loop_acc m (n + length (content b)),
    byte_size_loop_acc m (0 + length (content b)),
  )

  byte_size_loop-insert :
      (c : C) (b : Bytes) (m : GoMap C Bytes)
      → byte_size_loop (insert c b m) 0 + stored_size (lookup c m)
        ≡ byte_size_loop m 0 + length (content b)
  unfolding byte_size_loop lookup insert
  byte_size_loop-insert c b [] = omega arith
  byte_size_loop-insert c b ((j, w) ∷ m) = elim (Bool-cases (j == c)) [
    | inl hit ↦ rw hit (
        omega (
          arith,
          byte_size_loop_acc m (0 + length (content w)),
          byte_size_loop_acc m (0 + length (content b)),
        ))
    | inr miss ↦ rw miss (
        omega (
          arith,
          byte_size_loop-insert c b m,
          byte_size_loop_acc m (0 + length (content w)),
          byte_size_loop_acc (insert c b m) (0 + length (content w)),
        ))
  ]

  -- Set changes ByteSize by the length of the new block less the length of the block it replaces.
  pub byte_size-set :
      (c : C) (b : Bytes) (bm : BlockMap C)
      → byte_size (set c b bm) + stored_size (get bm c) ≡ byte_size bm + length (content b)
  unfolding byte_size set get
  byte_size-set c b bm = byte_size_loop-insert c b bm.blocks
