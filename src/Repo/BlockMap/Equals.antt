-- ===== src/Repo/BlockMap/Equals.antt =====
-- Equals decides whether two maps hold the same blocks.
use at.Prelude.{
  ◌≡◌, ◌≢◌, ◌↔◌, refl, ap, ◌∙◌, sym, true, false, Option, none, some, List, [], ◌∷◌, arith, ℕ,
  eqb_iff,
}
use at.Prelude.Eq.{Eq, ==_iff, ==_refl}
use at.Prelude.GoMap.{GoMap, IsMap, lookup, lookup_eq_of_sub, length_eq_of_lookup}
use at.Repo.BlockMap.{Bytes, BlockMap, bytes_equal, get, size, same_block, equals_loop, equals}
use at.Repo.BlockMap.Laws.{IsValid}

bytes_equal_iff : (a b : List ℕ) → (bytes_equal a b ≡ true) ↔ (a ≡ b)
unfolding bytes_equal
bytes_equal_iff [] [] = (λ h. refl, λ h. refl)
bytes_equal_iff [] (y ∷ ys) = (λ h. cc, λ h. cc)
bytes_equal_iff (x ∷ xs) [] = (λ h. cc, λ h. cc)
bytes_equal_iff (x ∷ xs) (y ∷ ys) = ground (arith, bytes_equal_iff xs ys)

-- No key of the map holds a nil slice.
abbrev pub NoNil : {C : Type 0} ⦃e : Eq C⦄ → GoMap C Bytes → Type 0
NoNil {C} m = (c : C) → lookup c m ≢ some none

same_block_iff : (b : Bytes) (o : Option Bytes) → b ≢ none → (same_block b o ≡ true) ↔ (o ≡ some b)
unfolding same_block
same_block_iff none o h = absurd (h refl)
same_block_iff (some b) none h = (λ e. cc, λ e. cc)
same_block_iff (some b) (some none) h = (λ e. cc, λ e. cc)
same_block_iff (some b) (some (some o)) h = ground (arith, bytes_equal_iff b o)

module _ {C : Type 0} ⦃e : Eq C⦄ where
  equals_loop-sub :
      (other : BlockMap C) (m : GoMap C Bytes) (c : C) (b : Bytes)
      → b ≢ none
      → equals_loop other m ≡ true
      → lookup c m ≡ some b
      → lookup c other.blocks ≡ some b
  unfolding equals_loop lookup
  equals_loop-sub other [] c b nn h f = cc
  equals_loop-sub other ((j, w) ∷ m) c b nn h f = ground (
    arith,
    equals_loop-sub other m c b nn,
    ==_iff j c,
    same_block_iff b (lookup c other.blocks) nn,
  )

  -- What holds of every entry of a longer map holds of the entries of its tail.
  lookup-tail :
      (j : C) (w : Bytes) (m : GoMap C Bytes) (c : C) (b : Bytes)
      → lookup j m ≡ none
      → lookup c m ≡ some b
      → lookup c ((j, w) ∷ m) ≡ some b
  unfolding lookup
  lookup-tail j w m c b out h = ground (arith, ==_iff j c)

  equals_loop-true :
      (other : BlockMap C) (m : GoMap C Bytes)
      → IsMap m
      → NoNil m
      → ((c : C) (b : Bytes) → lookup c m ≡ some b → lookup c other.blocks ≡ some b)
      → equals_loop other m ≡ true
  unfolding equals_loop
  equals_loop-true other [] v nn sub = refl
  equals_loop-true other ((j, w) ∷ m) v nn sub =
      let here : lookup j ((j, w) ∷ m) ≡ some w = unfold lookup in rw ==_refl in
      let set_w : w ≢ none = λ e. nn j (here ∙ ap some e) in
      rw ((same_block_iff w (lookup j other.blocks) set_w).1 (sub j w here)) (
        equals_loop-true other m v.1 (λ c h. nn c (lookup-tail j w m c none v.0 h))
          (λ c b h. sub c b (lookup-tail j w m c b v.0 h)))

  equals-sub :
      (bm other : BlockMap C) (c : C) (b : Bytes)
      → NoNil bm.blocks
      → equals bm other ≡ true
      → lookup c bm.blocks ≡ some b
      → lookup c other.blocks ≡ some b
  unfolding equals
  equals-sub bm other c b nn h f =
      equals_loop-sub other bm.blocks c b (λ e. nn c (f ∙ ap some e)) (ground arith) f

  size_eq_of_equals : (bm other : BlockMap C) → equals bm other ≡ true → size bm ≡ size other
  unfolding equals
  size_eq_of_equals bm other h = ground arith

  -- On two maps with each key once, of which the first holds no nil slice, Equals is true exactly when
  -- the maps read alike at every CID.
  pub equals_iff :
      (bm other : BlockMap C)
      → IsValid bm
      → IsValid other
      → NoNil bm.blocks
      → (equals bm other ≡ true) ↔ ((c : C) → get bm c ≡ get other c)
  unfolding get
  equals_iff bm other v w nn = (
    λ h.
        lookup_eq_of_sub bm.blocks other.blocks v w (unfold size in size_eq_of_equals bm other h)
          (λ c b f. equals-sub bm other c b nn h f),
    λ same.
        unfold equals size in
        rw ((eqb_iff _ _).1 (length_eq_of_lookup bm.blocks other.blocks v w same))
          (equals_loop-true other bm.blocks v nn (λ c b f. sym (same c) ∙ f)),
  )

  equals_loop_nil :
      (other : BlockMap C) (m : GoMap C Bytes) (c : C) (b : Bytes)
      → lookup c other.blocks ≡ some none
      → lookup c m ≡ some b
      → equals_loop other m ≡ false
  unfolding equals_loop lookup same_block
  equals_loop_nil other [] c b n f = cc
  equals_loop_nil other ((j, w) ∷ m) c b n f =
      ground (arith, equals_loop_nil other m c b, ==_iff j c)

  -- A map in which some key holds a nil slice is not equal to itself.
  pub equals_nil : (bm : BlockMap C) (c : C) → get bm c ≡ some none → equals bm bm ≡ false
  unfolding equals get
  equals_nil bm c h = ground (arith, equals_loop_nil bm bm.blocks c none)
