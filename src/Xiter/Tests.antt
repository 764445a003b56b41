-- ===== src/Xiter/Tests.antt =====
-- Runs of the iterator adapters.
use at.Prelude.{ℕ, true, List, [], ◌∷◌, ◌++◌, ◌≡◌, refl, eqb, ltb, if◌then◌else◌, arith}
use at.Prelude.Eq.{nat_eq}
use at.Prelude.Int.{ℤ, pos, negsuc}
use at.Prelude.Result.{ok}
use at.Xiter.{Seq, Seq2, filter2, chunk, chunk_seq, merge_func}
use at.Xiter.Lists.{run, run2, IsSeqOf}
use at.Xiter.Chunks.{IsChunked, concat, chunk_lem}
use at.Xiter.Merges.{merge, merge_func-IsSeqOf}

abbrev up_to : ℕ → List ℕ
up_to n = 1 ∷ 3 ∷ n ∷ []

abbrev seq_of : List ℕ → Seq ℕ
seq_of xs S yield s = run yield xs s

abbrev pairs_of : List (ℕ × ℕ) → Seq2 ℕ ℕ
pairs_of ps S yield s = run2 yield ps s

abbrev some_pairs : List (ℕ × ℕ)
some_pairs = (1, 1) ∷ (1, 2) ∷ (3, 3) ∷ []

abbrev compare_ints : ℕ → ℕ → ℤ
compare_ints a b = if ltb b a then pos 1 else (if eqb a b then pos 0 else negsuc 0)

chunk_lem_example :
    (cs : List (List ℕ)) × (chunk (seq_of (up_to 7)) 2 ≡ ok (chunk_seq (seq_of (up_to 7)) 2))
    × IsSeqOf cs (chunk_seq (seq_of (up_to 7)) 2)
    × (concat cs ≡ up_to 7)
    × IsChunked 2 cs
chunk_lem_example = chunk_lem (seq_of (up_to 7)) 2 (up_to 7) (omega arith) (λ S yield s. refl)

merge_func-IsSeqOf_example :
    IsSeqOf
      (merge compare_ints (up_to 7) (up_to 5))
      (merge_func (seq_of (up_to 7)) (seq_of (up_to 5)) compare_ints)
merge_func-IsSeqOf_example =
    merge_func-IsSeqOf compare_ints (seq_of (up_to 7)) (seq_of (up_to 5)) (up_to 7) (up_to 5)
      (λ S yield s. refl) (λ S yield s. refl)

merged :
    merge_func
      (seq_of (up_to 7))
      (seq_of (up_to 5))
      compare_ints
      (List ℕ)
      (λ v vs. (true, vs ++ (v ∷ [])))
      []
    ≡ 1 ∷ 1 ∷ 3 ∷ 3 ∷ 5 ∷ 7 ∷ []
unfolding merge_func at.Xiter.merge_end at.Xiter.merge_body at.Xiter.yield_first at.Xiter.drain
    at.Xiter.pull
merged = refl
