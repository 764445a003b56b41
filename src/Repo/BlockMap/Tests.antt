-- ===== src/Repo/BlockMap/Tests.antt =====
-- The theorems about block maps at concrete maps.
use at.Prelude.{ℕ, ◌≡◌, ◌↔◌, refl, arith, true, false, none, some, [], ◌∷◌}
use at.Prelude.Eq.{nat_eq}
use at.Prelude.GoMap.{lookup}
use at.Prelude.Result.{Result, ok, err, msg}
use at.Repo.BlockMap.{Bytes, BlockMap, get, equals}
use at.Repo.BlockMap.Equals.{NoNil, equals_iff, equals_nil}

abbrev two : BlockMap ℕ
two = record { blocks = (1, some (10 ∷ [])) ∷ (2, some (20 ∷ 21 ∷ [])) ∷ [] }

abbrev other_way : BlockMap ℕ
other_way = record { blocks = (2, some (20 ∷ 21 ∷ [])) ∷ (1, some (10 ∷ [])) ∷ [] }

abbrev with_nil : BlockMap ℕ
with_nil = record { blocks = (1, none) ∷ [] }

abbrev marshal : ℕ → Result Bytes
marshal v = ok (some (v ∷ []))

abbrev sum : Bytes → Result ℕ
sum b = ok 3

abbrev no_sum : Bytes → Result ℕ
no_sum b = err (msg "no hash")

two-NoNil : NoNil two.blocks
unfolding lookup
two-NoNil c h = ground arith

equals_iff_example : (equals two other_way ≡ true) ↔ ((c : ℕ) → get two c ≡ get other_way c)
unfolding lookup
equals_iff_example = equals_iff two other_way (refl, (refl, tt)) (refl, (refl, tt)) two-NoNil

equals_nil_example : equals with_nil with_nil ≡ false
unfolding get lookup
equals_nil_example = equals_nil with_nil 1 refl
