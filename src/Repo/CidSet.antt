-- ===== src/Repo/CidSet.antt =====
-- internal/repo/cid_set.go, and the set of go-cid (cid.Set) that the commit code uses: a Go map
-- whose values carry nothing. Each method holds the set's lock for its whole body.
pub mod Laws
mod Tests
use at.Prelude.{ℕ, Bool, List, [], ◌∷◌, ◌++◌, length, is_some, if◌then◌else◌}
use at.Prelude.Eq.{Eq}
use at.Xiter.{Seq}
use at.Prelude.GoMap.{GoMap, lookup, insert, delete as delete_key}

pub record CidSet (C : Type 0) : Type 0 where
  pub set : GoMap C (Unit {0})

module _ {C : Type 0} ⦃e : Eq C⦄ where
  add_all : List C → GoMap C (Unit {0}) → GoMap C (Unit {0})
  add_all [] m = m
  add_all (c ∷ cs) m = add_all cs (insert c tt m)

  unfoldable pub new_cid_set : List C → CidSet C
  unfolding add_all
  new_cid_set arr = record { set = add_all arr [] }

  unfoldable pub add : C → CidSet C → CidSet C
  add cid cs = record { set = insert cid tt cs.set }

  merge : GoMap C (Unit {0}) → GoMap C (Unit {0}) → GoMap C (Unit {0})
  merge [] m = m
  merge ((c, _) ∷ rest) m = merge rest (insert c tt m)

  unfoldable pub add_set : CidSet C → CidSet C → CidSet C
  unfolding merge
  add_set to_merge cs = record { set = merge to_merge.set cs.set }

  subtract : GoMap C (Unit {0}) → GoMap C (Unit {0}) → GoMap C (Unit {0})
  subtract [] m = m
  subtract ((c, _) ∷ rest) m = subtract rest (delete_key c m)

  unfoldable pub subtract_set : CidSet C → CidSet C → CidSet C
  unfolding subtract
  subtract_set to_subtract cs = record { set = subtract to_subtract.set cs.set }

  unfoldable pub delete : C → CidSet C → CidSet C
  delete cid cs = record { set = delete_key cid cs.set }

  unfoldable pub has : CidSet C → C → Bool
  has cs cid = is_some (lookup cid cs.set)

unfoldable pub size : {C : Type 0} → CidSet C → ℕ
size cs = length cs.set

unfoldable pub clear : {C : Type 0} → CidSet C → CidSet C
clear cs = record { set = [] }

to_list_loop : {C : Type 0} → GoMap C (Unit {0}) → List C → List C
to_list_loop [] out = out
to_list_loop ((c, _) ∷ rest) out = to_list_loop rest (out ++ c ∷ [])

unfoldable pub to_list : {C : Type 0} → CidSet C → List C
unfolding to_list_loop
to_list cs = to_list_loop cs.set []

iter_loop : {C : Type 0} → GoMap C (Unit {0}) → Seq C
iter_loop [] S yield s = s
iter_loop ((c, _) ∷ rest) S yield s =
    let (go, t) = yield c s in let more = iter_loop rest S yield t in if go then more else t

unfoldable pub iter : {C : Type 0} → CidSet C → Seq C
unfolding iter_loop
iter cs = iter_loop cs.set
