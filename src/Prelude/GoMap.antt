-- ===== src/Prelude/GoMap.antt =====
-- Go's built-in `map`: the entries, each key once, in the order in which the next `range` visits
-- them. The language leaves that order open, so a statement about a map quantifies over it.
use at.Prelude.Tests.{Bool-cases, if◌then◌else◌, is_some}
use at.Prelude.Lists.{length}
use at.Prelude.Eq.{Eq, ◌==◌, ==_iff, ==_refl}
use Prim.Native.Nat.{suc, ◌+◌}
use mathlib.Core.Logic.{inl, inr}
use native.Mathlib.Numerals.{add-one}
use mathlib.Core.Path.{◌≡◌, ◌∙◌, refl, sym, ap, subst}
use mathlib.Core.Bool.{Bool}
use mathlib.Core.Option.{Option, none, some}
use mathlib.Core.List.{List, [], ◌∷◌}
use native.Mathlib.Omega.{arith}

abbrev pub GoMap {ℓ κ} : Type ℓ → Type κ → Type (ℓ ⊔ κ)
GoMap K V = List (K × V)

module _ {ℓ κ} {K : Type ℓ} {V : Type κ} ⦃e : Eq K⦄ where
  -- v, ok := m[k]
  unfoldable pub lookup : K → GoMap K V → Option V
  lookup k [] = none
  lookup k ((j, v) ∷ m) = if j == k then some v else lookup k m

  -- m[k] = v
  unfoldable pub insert : K → V → GoMap K V → GoMap K V
  insert k v [] = (k, v) ∷ []
  insert k v ((j, w) ∷ m) = if j == k then (k, v) ∷ m else (j, w) ∷ insert k v m

  -- delete(m, k)
  unfoldable pub delete : K → GoMap K V → GoMap K V
  delete k [] = []
  delete k ((j, w) ∷ m) = let rest = delete k m in if j == k then rest else (j, w) ∷ rest

  abbrev pub has_key : K → GoMap K V → Bool
  has_key k m = is_some (lookup k m)

  -- Each key occurs once.
  abbrev pub IsMap : GoMap K V → Type κ
  IsMap [] = Unit
  IsMap ((k, v) ∷ m) = (lookup k m ≡ none) × IsMap m

  pub lookup-insert :
      (a b : K) (x : V) (m : GoMap K V)
      → lookup b (insert a x m) ≡ (if a == b then some x else lookup b m)
  unfolding insert lookup
  lookup-insert a b x ((c, y) ∷ m) =
      ground (arith, lookup-insert a b x m, ==_iff a b, ==_iff c a, ==_iff c b)
  lookup-insert a b x [] = refl

  pub lookup-insert_self : (k : K) (v : V) (m : GoMap K V) → lookup k (insert k v m) ≡ some v
  lookup-insert_self k v m = rw (lookup-insert, ==_refl)

  pub lookup-delete :
      (k j : K) (m : GoMap K V) → lookup j (delete k m) ≡ (if k == j then none else lookup j m)
  unfolding lookup delete
  lookup-delete k j [] = ground arith
  lookup-delete k j ((i, w) ∷ m) =
      ground (arith, ==_iff k j, ==_iff i k, ==_iff i j, lookup-delete k j m)

  pub insert-IsMap : (k : K) (v : V) (m : GoMap K V) → IsMap m → IsMap (insert k v m)
  unfolding lookup insert
  insert-IsMap k v [] h = (refl, tt)
  insert-IsMap k v ((j, w) ∷ m) h =
      ground (arith, ==_iff j k, ==_iff k j, lookup-insert k j v m, insert-IsMap k v m)

  pub delete-IsMap : (k : K) (m : GoMap K V) → IsMap m → IsMap (delete k m)
  unfolding lookup delete
  delete-IsMap k [] h = tt
  delete-IsMap k ((j, w) ∷ m) h =
      ground (arith, ==_iff j k, ==_iff k j, lookup-delete k j m, delete-IsMap k m)

  pub length-insert :
      (k : K) (v : V) (m : GoMap K V)
      → length (insert k v m) ≡ length m + (if has_key k m then 0 else 1)
  unfolding lookup insert
  length-insert k v [] = refl
  length-insert k v ((j, w) ∷ m) = ground (arith, length-insert k v m)

  pub delete_absent : (k : K) (m : GoMap K V) → lookup k m ≡ none → delete k m ≡ m
  unfolding lookup delete
  delete_absent k [] h = refl
  delete_absent k ((j, w) ∷ m) h = ground (arith, delete_absent k m)

  pub length-delete :
      (k : K) (m : GoMap K V)
      → IsMap m
      → length m ≡ length (delete k m) + (if has_key k m then 1 else 0)
  unfolding lookup delete
  length-delete k [] h = refl
  length-delete k ((j, w) ∷ m) h = elim (Bool-cases (j == k)) [
    | inl hit ↦ rw hit (
        ap suc (
          ap length
            (sym (delete_absent k m (subst (λ i. lookup i m ≡ none) ((==_iff j k).0 hit) h.0))))
        ∙ sym (add-one _))
    | inr miss ↦ rw miss (omega (arith, length-delete k m h.1))
  ]

  -- A map that holds all entries of another map and is as long has the same entries.
  pub lookup_eq_of_sub :
      (m n : GoMap K V)
      → IsMap m
      → IsMap n
      → length m ≡ length n
      → ((k : K) (v : V) → lookup k m ≡ some v → lookup k n ≡ some v)
      → (k : K) → lookup k m ≡ lookup k n
  unfolding lookup
  lookup_eq_of_sub [] [] hm hn l sub k = refl
  lookup_eq_of_sub [] (x ∷ n) hm hn l sub k = absurd (omega arith)
  lookup_eq_of_sub ((c, x) ∷ m) n hm hn l sub k =
      let found : lookup c n ≡ some x = sub c x (rw ==_refl) in
      let shorter : length m ≡ length (delete c n) = ground (arith, length-delete c n hn, found) in
      let ih : lookup k m ≡ lookup k (delete c n) =
        lookup_eq_of_sub m (delete c n) hm.1 (delete-IsMap c n hn) shorter
          (λ j v h. ground (arith, sub j v, lookup-delete c j n, ==_iff c j)) k in
      ground (arith, ih, lookup-delete c k n, ==_iff c k, found)

  pub length_eq_of_lookup :
      (m n : GoMap K V)
      → IsMap m
      → IsMap n
      → ((k : K) → lookup k m ≡ lookup k n)
      → length m ≡ length n
  unfolding lookup
  length_eq_of_lookup [] [] hm hn same = refl
  length_eq_of_lookup [] ((c, x) ∷ n) hm hn same =
      let missing : none ≡ some x = same c ∙ rw ==_refl in cc
  length_eq_of_lookup ((c, x) ∷ m) n hm hn same =
      let found : lookup c n ≡ some x = sym (same c) ∙ rw ==_refl in
      let shorter : length m ≡ length (delete c n) =
        length_eq_of_lookup m (delete c n) hm.1 (delete-IsMap c n hn)
          (λ j. ground (arith, same j, lookup-delete c j n, ==_iff c j)) in
      ground (arith, length-delete c n hn, found, shorter)
