-- ===== src/Xiter/Adapters.antt =====
-- The adapters of one iterator, as operations on the lists of values.
use at.Prelude.{
  Bool, true, false, List, [], ◌∷◌, ◌≡◌, refl, ◌∙◌, Bool-cases, if◌then◌else◌, inl, inr,
}
use at.Prelude.Eq.{Eq, ◌==◌, elem}
use at.Xiter.{Seq, Seq2, Pair, filter2, pairs, keys, vals, map_seq, map2, contains}
use at.Xiter.Lists.{resume, run, run2, IsSeqOf, IsSeq2Of, resume-eq, map_list, run-map_list}

module _ {K V : Type 0} where
  abbrev pub filter_pairs : (K → V → Bool) → List (K × V) → List (K × V)
  filter_pairs f [] = []
  filter_pairs f ((k, v) ∷ ps) = if f k v then (k, v) ∷ filter_pairs f ps else filter_pairs f ps

  abbrev pub to_pairs : List (K × V) → List (Pair K V)
  to_pairs = map_list (λ p. record { k = p.0; v = p.1 })

  filter_if :
      {S : Type 0} (b : Bool) (k : K) (v : V) (yield : K → V → S → Bool × S) {g : S → S}
      (ps : List (K × V)) (s : S)
      → ((t : S) → g t ≡ run2 yield ps t)
      → resume (if b then yield k v s else (true, s)) g
        ≡ run2 yield (if b then (k, v) ∷ ps else ps) s
  filter_if true k v yield ps s ih = resume-eq (yield k v s) ih
  filter_if false k v yield ps s ih = ih s

  run-filter :
      {S : Type 0} (f : K → V → Bool) (yield : K → V → S → Bool × S) (ps : List (K × V)) (s : S)
      → run2 (λ k v t. if f k v then yield k v t else (true, t)) ps s
        ≡ run2 yield (filter_pairs f ps) s
  run-filter f yield [] s = refl
  run-filter f yield ((k, v) ∷ ps) s =
      filter_if (f k v) k v yield (filter_pairs f ps) s (run-filter f yield ps)

  -- Filter2 of an iterator over a list of pairs yields the pairs that pass the test, in order,
  -- and stops when `yield` does.
  pub filter2-IsSeq2Of :
      (f : K → V → Bool) (seq : Seq2 K V) (ps : List (K × V))
      → IsSeq2Of ps seq
      → IsSeq2Of (filter_pairs f ps) (filter2 f seq)
  unfolding filter2
  filter2-IsSeq2Of f seq ps h S yield s = h S _ s ∙ run-filter f yield ps s

  -- Pairs of an iterator over a list of pairs yields them, in order, as Pair values.
  pub pairs-IsSeqOf :
      (seq : Seq2 K V) (ps : List (K × V)) → IsSeq2Of ps seq → IsSeqOf (to_pairs ps) (pairs seq)
  unfolding pairs
  pairs-IsSeqOf seq ps h S yield s = h S _ s ∙ run-map_list _ yield ps s

  -- Keys yields the keys of the pairs in order, and Vals their values.
  pub keys-vals-IsSeqOf :
      (seq : Seq2 K V) (ps : List (K × V))
      → IsSeq2Of ps seq
      → IsSeqOf (map_list (λ p. p.0) ps) (keys seq) × IsSeqOf (map_list (λ p. p.1) ps) (vals seq)
  unfolding keys vals
  keys-vals-IsSeqOf seq ps h = (
    (λ S yield s. h S _ s ∙ run-map_list (λ p. p.0) yield ps s),
    (λ S yield s. h S _ s ∙ run-map_list (λ p. p.1) yield ps s),
  )

-- Map over an iterator of a list yields the function's values, in order.
pub map_seq-IsSeqOf :
    {A B : Type 0} (f : A → B) (seq : Seq A) (xs : List A)
    → IsSeqOf xs seq
    → IsSeqOf (map_list f xs) (map_seq f seq)
unfolding map_seq
map_seq-IsSeqOf f seq xs h S yield s = h S _ s ∙ run-map_list f yield xs s

-- Map2 does the same for pairs.
pub map2-IsSeq2Of :
    {A B C D : Type 0} (f : A → B → C × D) (seq : Seq2 A B) (ps : List (A × B))
    → IsSeq2Of ps seq
    → IsSeq2Of (map_list (λ p. f p.0 p.1) ps) (map2 f seq)
unfolding map2
map2-IsSeq2Of f seq ps h S yield s =
    h S _ s ∙ run-map_list (λ p. f p.0 p.1) (λ q. yield q.0 q.1) ps s

run-contains :
    {V : Type 0} ⦃e : Eq V⦄ (v : V) (xs : List V)
    → run (λ item found. if item == v then (false, true) else (true, found)) xs false ≡ elem v xs
run-contains v [] = refl
run-contains v (x ∷ xs) = elim (Bool-cases (x == v)) [
  | inl h ↦ rw h
  | inr h ↦ rw (h, run-contains v xs)
]

-- Contains of an iterator over a list tells whether the value is one of the list.
pub contains_lem :
    {V : Type 0} ⦃e : Eq V⦄ (seq : Seq V) (xs : List V) (v : V)
    → IsSeqOf xs seq
    → contains seq v ≡ elem v xs
unfolding contains
contains_lem seq xs v h = h Bool _ false ∙ run-contains v xs
