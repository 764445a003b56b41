-- ===== src/Array.antt =====
-- array: helpers on slices of array/array.go and array/search.go. A slice is the list of its
-- elements, and a pointer to an element of it is the index.
mod Tests
use at.Prelude.{
  ℕ, zero, suc, ◌+◌, ◌-◌, ◌/◌, Bool, true, false, Option, none, some, List, [], ◌∷◌, ◌++◌, length,
  get_elem?, set, take, if◌then◌else◌,
}
use at.Prelude.Result.{Result, ok, panic}
use at.Xiter.{Seq}

module _ {T : Type 0} where
  unfoldable pub append : List (List T) → List T
  append arrs = append_loop [] arrs
    where
      append_loop : List T → List (List T) → List T
      append_loop res [] = res
      append_loop res (arr ∷ rest) = append_loop (res ++ arr) rest

  -- s[i], s[j] = s[j], s[i], on indices of the slice.
  unfoldable pub swap : ℕ → ℕ → List T → List T
  swap i j s = elim (get_elem? s i) [
    | none ↦ s
    | some x ↦ elim (get_elem? s j) [ none ↦ s | some y ↦ set (set s i y) j x ]
  ]

  -- The loop of Reverse from `i`, with `k` rounds left.
  unfoldable pub reverse_loop : ℕ → ℕ → List T → List T
  reverse_loop zero i s = s
  reverse_loop (suc k) i s = reverse_loop k (suc i) (swap i (length s - i - 1) s)

  unfoldable pub reverse : List T → List T
  reverse s = reverse_loop (length s / 2) 0 s

  unfoldable pub iter : List T → Seq T
  iter [] S yield s = s
  iter (v ∷ vs) S yield s =
      let (go, t) = yield v s in let rest = iter vs S yield t in if go then rest else t

  -- The slice that Remove returns: the last element takes the place of the removed one. An index
  -- out of range panics, as does an empty slice.
  unfoldable pub remove : ℕ → List T → Result (List T)
  remove index arr = elim (get_elem? arr (length arr - 1)) [
    | none ↦ panic
    | some last ↦ elim (get_elem? arr index) [
      | none ↦ panic
      | some old ↦ ok (take (length arr - 1) (set arr index last))
    ]
  ]

  unfoldable pub find_from : ℕ → List T → (T → Bool) → Option ℕ
  find_from i [] fn = none
  find_from i (v ∷ vs) fn = let rest = find_from (suc i) vs fn in if fn v then some i else rest

  unfoldable pub find : List T → (T → Bool) → Option ℕ
  find arr fn = find_from 0 arr fn

  unfoldable pub find_all_from : ℕ → List T → (T → Bool) → List ℕ → List ℕ
  find_all_from i [] fn res = res
  find_all_from i (v ∷ vs) fn res =
      find_all_from (suc i) vs fn (if fn v then res ++ (i ∷ []) else res)

  unfoldable pub find_all : List T → (T → Bool) → List ℕ
  find_all arr fn = find_all_from 0 arr fn []

module _ {I O : Type 0} where
  unfoldable pub map_array : List I → (I → O) → List O
  map_array [] fn = []
  map_array (v ∷ vs) fn = fn v ∷ map_array vs fn

  -- `fn` gets a pointer to a copy of the item.
  unfoldable pub filter_map : Seq I → (I → O × Bool) → Seq O
  filter_map seq fn S yield s =
      seq S (λ item t. if (fn item).1 then yield (fn item).0 t else (true, t)) s
