-- ===== src/Repo/CidSet/Laws.antt =====
-- Membership after each operation of a CID set, and its size.
use at.Prelude.{
  suc, append-nil, append_assoc, ◌+◌, ◌≡◌, refl, ap, ◌∙◌, sym, false, not, ◌&&◌, ◌||◌, List, [],
  ◌∷◌, ◌++◌, arith, length, is_some, if◌then◌else◌,
}
use at.Prelude.Eq.{Eq, elem, ◌==◌}
use at.Prelude.GoMap.{
  GoMap, IsMap, lookup, insert, delete as delete_key, lookup-insert, lookup-delete, insert-IsMap,
  delete-IsMap, length-insert, length-delete,
}
use at.Repo.CidSet.{
  CidSet, new_cid_set, add_all, add, merge, add_set, subtract, subtract_set, delete, has, size,
  to_list, to_list_loop,
}

abbrev pub IsValid : {C : Type 0} ⦃e : Eq C⦄ → CidSet C → Type 0
IsValid cs = IsMap cs.set

module _ {C : Type 0} ⦃e : Eq C⦄ where
  pub has-add : (c d : C) (s : CidSet C) → has (add c s) d ≡ ((c == d) || has s d)
  unfolding has add
  has-add c d s = ground (arith, lookup-insert c d tt s.set)

  pub has-delete : (c d : C) (s : CidSet C) → has (delete c s) d ≡ (not (c == d) && has s d)
  unfolding has delete
  has-delete c d s = ground (arith, lookup-delete c d s.set)

  lookup-add_all :
      (cs : List C) (m : GoMap C (Unit {0})) (d : C)
      → is_some (lookup d (add_all cs m)) ≡ (elem d cs || is_some (lookup d m))
  unfolding add_all
  lookup-add_all [] m d = refl
  lookup-add_all (c ∷ cs) m d =
      ground (arith, lookup-add_all cs (insert c tt m) d, lookup-insert c d tt m)

  -- NewCIDSet holds exactly the CIDs of its argument.
  pub has-new_cid_set : (cs : List C) (d : C) → has (new_cid_set cs) d ≡ elem d cs
  unfolding has new_cid_set lookup
  has-new_cid_set cs d = ground (arith, lookup-add_all cs [] d)

  lookup-merge :
      (o m : GoMap C (Unit {0})) (d : C)
      → is_some (lookup d (merge o m)) ≡ (is_some (lookup d o) || is_some (lookup d m))
  unfolding merge lookup
  lookup-merge [] m d = refl
  lookup-merge ((c, _) ∷ o) m d =
      ground (arith, lookup-merge o (insert c tt m) d, lookup-insert c d tt m)

  -- AddSet is union.
  pub has-add_set : (o s : CidSet C) (d : C) → has (add_set o s) d ≡ (has o d || has s d)
  unfolding has add_set
  has-add_set o s d = lookup-merge o.set s.set d

  lookup-subtract :
      (o m : GoMap C (Unit {0})) (d : C)
      → is_some (lookup d (subtract o m)) ≡ (not (is_some (lookup d o)) && is_some (lookup d m))
  unfolding subtract lookup
  lookup-subtract [] m d = refl
  lookup-subtract ((c, _) ∷ o) m d =
      ground (arith, lookup-subtract o (delete_key c m) d, lookup-delete c d m)

  -- SubtractSet is difference.
  pub has-subtract_set :
      (o s : CidSet C) (d : C) → has (subtract_set o s) d ≡ (not (has o d) && has s d)
  unfolding has subtract_set
  has-subtract_set o s d = lookup-subtract o.set s.set d

  add_all-IsMap : (cs : List C) (m : GoMap C (Unit {0})) → IsMap m → IsMap (add_all cs m)
  unfolding add_all
  add_all-IsMap [] m v = v
  add_all-IsMap (c ∷ cs) m v = add_all-IsMap cs (insert c tt m) (insert-IsMap c tt m v)

  pub new_cid_set-IsValid : (cs : List C) → IsValid (new_cid_set cs)
  unfolding new_cid_set
  new_cid_set-IsValid cs = add_all-IsMap cs [] tt

  merge-IsMap : (o m : GoMap C (Unit {0})) → IsMap m → IsMap (merge o m)
  unfolding merge
  merge-IsMap [] m v = v
  merge-IsMap ((c, _) ∷ o) m v = merge-IsMap o (insert c tt m) (insert-IsMap c tt m v)

  subtract-IsMap : (o m : GoMap C (Unit {0})) → IsMap m → IsMap (subtract o m)
  unfolding subtract
  subtract-IsMap [] m v = v
  subtract-IsMap ((c, _) ∷ o) m v = subtract-IsMap o (delete_key c m) (delete-IsMap c m v)

  pub add-IsValid : (c : C) (s : CidSet C) → IsValid s → IsValid (add c s)
  unfolding add
  add-IsValid c s v = insert-IsMap c tt s.set v

  pub delete-IsValid : (c : C) (s : CidSet C) → IsValid s → IsValid (delete c s)
  unfolding delete
  delete-IsValid c s v = delete-IsMap c s.set v

  pub add_set-IsValid : (o s : CidSet C) → IsValid s → IsValid (add_set o s)
  unfolding add_set
  add_set-IsValid o s v = merge-IsMap o.set s.set v

  pub subtract_set-IsValid : (o s : CidSet C) → IsValid s → IsValid (subtract_set o s)
  unfolding subtract_set
  subtract_set-IsValid o s v = subtract-IsMap o.set s.set v

  pub size-add : (c : C) (s : CidSet C) → size (add c s) ≡ size s + (if has s c then 0 else 1)
  unfolding size add has
  size-add c s = length-insert c tt s.set

  pub size-delete :
      (c : C) (s : CidSet C) → IsValid s → size s ≡ size (delete c s) + (if has s c then 1 else 0)
  unfolding size delete has
  size-delete c s v = length-delete c s.set v

  -- The keys of a map, in order.
  abbrev pub keys : GoMap C (Unit {0}) → List C
  keys [] = []
  keys ((c, _) ∷ m) = c ∷ keys m

  to_list_loop-keys : (m : GoMap C (Unit {0})) (out : List C) → to_list_loop m out ≡ out ++ keys m
  unfolding to_list_loop
  to_list_loop-keys [] out = sym (append-nil out)
  to_list_loop-keys ((c, _) ∷ m) out =
      to_list_loop-keys m (out ++ c ∷ []) ∙ append_assoc out (c ∷ []) (keys m)

  elem-keys : (m : GoMap C (Unit {0})) (d : C) → elem d (keys m) ≡ is_some (lookup d m)
  unfolding lookup
  elem-keys [] d = refl
  elem-keys ((c, _) ∷ m) d = ground (arith, elem-keys m d)

  length-keys : (m : GoMap C (Unit {0})) → length (keys m) ≡ length m
  length-keys [] = refl
  length-keys ((c, _) ∷ m) = ap suc (length-keys m)

  abbrev pub NoDup : List C → Type 0
  NoDup [] = Unit
  NoDup (c ∷ cs) = (elem c cs ≡ false) × NoDup cs

  keys-NoDup : (m : GoMap C (Unit {0})) → IsMap m → NoDup (keys m)
  keys-NoDup [] v = tt
  keys-NoDup ((c, _) ∷ m) v = (elem-keys m c ∙ ap is_some v.0, keys-NoDup m v.1)

  pub elem-to_list : (s : CidSet C) (d : C) → elem d (to_list s) ≡ has s d
  unfolding to_list has
  elem-to_list s d = rw to_list_loop-keys (elem-keys s.set d)

  -- ToList lists the elements of a set that keeps each key once: exactly those, each once, and as many
  -- as Size says.
  pub to_list_lem :
      (s : CidSet C)
      → IsValid s
      → ((d : C) → elem d (to_list s) ≡ has s d) × NoDup (to_list s) × (length (to_list s) ≡ size s)
  unfolding to_list has size
  to_list_lem s v = (
    λ d. rw to_list_loop-keys (elem-keys s.set d),
    rw to_list_loop-keys (keys-NoDup s.set v),
    rw to_list_loop-keys (length-keys s.set),
  )
