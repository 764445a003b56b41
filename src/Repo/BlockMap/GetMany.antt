-- ===== src/Repo/BlockMap/GetMany.antt =====
-- GetMany splits the requested CIDs into those the map has and those it misses.
use at.Prelude.{
  ◌≡◌, refl, ◌∙◌, sym, ◌&&◌, inl, inr, Bool-cases, Option-cases, none, List, [], ◌∷◌, ◌++◌, arith,
  append-nil, append_assoc, if◌then◌else◌,
}
use at.Prelude.Eq.{Eq, elem, ◌==◌, ==_iff}
use at.Prelude.GoMap.{lookup}
use at.Repo.BlockMap.{BlockMap, get, has, get_many, get_many_step, get_many_loop, new_block_map}
use at.Repo.BlockMap.Laws.{get-set}

module _ {C : Type 0} ⦃e : Eq C⦄ where
  -- The CIDs of the list that the map lacks, in their order.
  abbrev pub absent : BlockMap C → List C → List C
  absent bm [] = []
  absent bm (c ∷ cs) = if has bm c then absent bm cs else c ∷ absent bm cs

  get-get_many_step :
      (bm bl : BlockMap C) (ms : List C) (c d : C)
      → get (get_many_step c (lookup c bm.blocks) (bl, ms)).0 d
        ≡ (if (c == d) && has bm d then get bm d else get bl d)
  unfolding get_many_step has
  get-get_many_step bm bl ms c d = elim (Option-cases (lookup c bm.blocks)) [
    | inl out ↦ rw out (ground (arith, ==_iff c d, out))
    | inr (b, found) ↦
        rw (found, get-set c d b bl) (unfold get in ground (arith, ==_iff c d, found))
  ]

  get-get_many_loop :
      (bm bl : BlockMap C) (cs ms : List C) (d : C)
      → get (get_many_loop bm cs (bl, ms)).0 d
        ≡ (if elem d cs && has bm d then get bm d else get bl d)
  unfolding get_many_loop
  get-get_many_loop bm bl [] ms d = refl
  get-get_many_loop bm bl (c ∷ cs) ms d =
      let (bl', ms') = get_many_step c (lookup c bm.blocks) (bl, ms) in
      ground (arith, get-get_many_loop bm bl' cs ms' d, get-get_many_step bm bl ms c d)

  missing-get_many_step :
      (bm bl : BlockMap C) (ms : List C) (c : C)
      → (get_many_step c (lookup c bm.blocks) (bl, ms)).1 ≡ (if has bm c then ms else ms ++ c ∷ [])
  unfolding get_many_step has
  missing-get_many_step bm bl ms c = ground arith

  missing-get_many_loop :
      (bm bl : BlockMap C) (cs ms : List C) → (get_many_loop bm cs (bl, ms)).1 ≡ ms ++ absent bm cs
  unfolding get_many_loop
  missing-get_many_loop bm bl [] ms = sym (append-nil ms)
  missing-get_many_loop bm bl (c ∷ cs) ms =
      let (bl', ms') = get_many_step c (lookup c bm.blocks) (bl, ms) in
      missing-get_many_loop bm bl' cs ms' ∙ elim (Bool-cases (has bm c)) [
        | inl old ↦ rw (missing-get_many_step, old)
        | inr new ↦ rw (missing-get_many_step, new, append_assoc)
      ]

  -- GetMany returns a map that reads, at each requested CID, as the map itself, and nothing at any
  -- other CID, and the list of the requested CIDs that the map lacks, in the order of the request.
  pub get_many_lem :
      (bm : BlockMap C) (cs : List C)
      → ((d : C) → get (get_many bm cs).0 d ≡ (if elem d cs then get bm d else none))
        × ((get_many bm cs).1 ≡ absent bm cs)
  unfolding get_many
  get_many_lem bm cs = (
    λ d. get-get_many_loop bm (new_block_map) cs [] d ∙ requested d,
    missing-get_many_loop bm (new_block_map) cs [],
  )
    where
      requested :
          (d : C)
          → (if elem d cs && has bm d then get bm d else get (new_block_map {C = C}) d)
            ≡ (if elem d cs then get bm d else none)
      requested d = unfold get has lookup in ground arith
