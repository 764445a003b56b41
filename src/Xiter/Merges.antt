-- ===== src/Xiter/Merges.antt =====
-- MergeFunc of the iterators over two lists.
use at.Prelude.{
  Bool, true, false, not, List, [], ◌∷◌, ◌++◌, ◌≡◌, refl, sym, ◌∙◌, inl, inr, Bool-cases,
  if◌then◌else◌,
}
use at.Prelude.Int.{ℤ, is_positive}
use at.Xiter.{Seq, MergeState, pull, drain, yield_first, merge_body, merge_end, merge_func}
use at.Xiter.Lists.{resume, run, IsSeqOf, resume-eq, run-collect}

module _ {V : Type 0} where
  -- The longest prefix that passes a test, and what follows it.
  abbrev pub before : (V → Bool) → List V → List V
  before g [] = []
  before g (y ∷ ys) = let rest = before g ys in if g y then y ∷ rest else []

  abbrev pub after : (V → Bool) → List V → List V
  after g [] = []
  after g (y ∷ ys) = let rest = after g ys in if g y then rest else y ∷ ys

  -- The merge of two lists: each value of the first after those values of the second that stand
  -- in front and that it is greater than.
  abbrev pub merge : (V → V → ℤ) → List V → List V → List V
  merge f [] ys = ys
  merge f (x ∷ xs) ys =
      before (λ y. is_positive (f x y)) ys ++ (x ∷ merge f xs (after (λ y. is_positive (f x y)) ys))

  abbrev run_then : {S : Type 0} → (V → S → Bool × S) → List V → S → (S → S) → S
  run_then yield [] s k = k s
  run_then yield (v ∷ vs) s k = resume (yield v s) (λ t. run_then yield vs t k)

  run-run_then :
      {S : Type 0} (yield : V → S → Bool × S) (vs bs : List V) (s : S)
      → run yield (vs ++ bs) s ≡ run_then yield vs s (run yield bs)
  run-run_then yield [] bs s = refl
  run-run_then yield (a ∷ vs) bs s = resume-eq (yield a s) (run-run_then yield vs bs)

  run_then-eq :
      {S : Type 0} (yield : V → S → Bool × S) (vs : List V) (s : S) {f g : S → S}
      → ((t : S) → f t ≡ g t)
      → run_then yield vs s f ≡ run_then yield vs s g
  run_then-eq yield [] s h = h s
  run_then-eq yield (a ∷ vs) s h = resume-eq (yield a s) (λ t. run_then-eq yield vs t h)

  -- What follows a loop that may have returned.
  abbrev proceed : {S : Type 0} → MergeState V S → (List V → S → S) → S
  proceed d k = if d.returned then d.inner else k d.rest d.inner

  drain-proceed :
      {S : Type 0} (g : V → Bool) (yield : V → S → Bool × S) (ys : List V) (s : S)
      (k : List V → S → S)
      → proceed (drain g yield ys s) k ≡ run_then yield (before g ys) s (k (after g ys))
  unfolding drain
  drain-proceed g yield [] s k = refl
  drain-proceed {S = S} g yield (y ∷ ys) s k = elim (Bool-cases (g y)) [
    | inl h ↦ rw (h, go (λ t. drain-proceed g yield ys t k) (yield y s))
    | inr h ↦ rw h
  ]
    where
      go :
          ((t : S)
            → proceed (drain g yield ys t) k ≡ run_then yield (before g ys) t (k (after g ys)))
          → (r : Bool × S)
          → proceed
              (if r.0
                then drain g yield ys r.1
                else record { rest = y ∷ ys; returned = true; inner = r.1 })
              k
            ≡ resume r (λ t. run_then yield (before g ys) t (k (after g ys)))
      go ih (true, t) = ih t
      go ih (false, t) = refl

  drain_all :
      {S : Type 0} (yield : V → S → Bool × S) (ys : List V) (s : S)
      → (drain (λ v. true) yield ys s).inner ≡ run yield ys s
  unfolding drain
  drain_all yield [] s = refl
  drain_all {S = S} yield (y ∷ ys) s = go (λ t. drain_all yield ys t) (yield y s)
    where
      go :
          ((t : S) → (drain (λ v. true) yield ys t).inner ≡ run yield ys t)
          → (r : Bool × S)
          → (if r.0
              then drain (λ v. true) yield ys r.1
              else record { rest = y ∷ ys; returned = true; inner = r.1 }).inner
            ≡ resume r (run yield ys)
      go ih (true, t) = ih t
      go ih (false, t) = refl

  yield_first-end :
      {S : Type 0} (yield : V → S → Bool × S) (x : V) (d : MergeState V S)
      (k : MergeState V S → MergeState V S) (tail : List V → S → S)
      → ((r : List V) (t : S)
          → merge_end yield (k (record { rest = r; returned = false; inner = t })) ≡ tail r t)
      → merge_end yield (resume (yield_first yield x d) k)
        ≡ proceed d (λ r t. resume (yield x t) (tail r))
  unfolding yield_first merge_end
  yield_first-end {S = S} yield x d k tail h = elim (Bool-cases d.returned) [
    | inl e ↦ rw e
    | inr e ↦ rw (e, go (yield x d.inner))
  ]
    where
      go :
          (r : Bool × S)
          → merge_end yield
              (resume (r.0, record { rest = d.rest; returned = not r.0; inner = r.1 }) k)
            ≡ resume r (tail d.rest)
      go (true, t) = h d.rest t
      go (false, t) = refl

  run-merge :
      {S : Type 0} (f : V → V → ℤ) (yield : V → S → Bool × S) (xs ys : List V) (s : S)
      → merge_end yield
          (run (merge_body f yield) xs (record { rest = ys; returned = false; inner = s }))
        ≡ run yield (merge f xs ys) s
  unfolding merge_end merge_body yield_first
  run-merge f yield [] ys s = drain_all yield ys s
  run-merge f yield (x ∷ xs) ys s =
      yield_first-end yield x (drain _ yield ys s) (run (merge_body f yield) xs)
        (λ r t. run yield (merge f xs r) t) (λ r t. run-merge f yield xs r t)
      ∙ drain-proceed _ yield ys s (λ r. run yield (x ∷ merge f xs r))
      ∙ sym (run-run_then yield (before (λ y. is_positive (f x y)) ys) _ s)

  pull_lem : (seq : Seq V) (vs : List V) → IsSeqOf vs seq → pull seq ≡ vs
  unfolding pull
  pull_lem seq vs h = h _ _ [] ∙ run-collect vs []

  -- MergeFunc of the iterators over two lists yields the values of the merged list, in order, and
  -- stops when `yield` does.
  pub merge_func-IsSeqOf :
      (f : V → V → ℤ) (x y : Seq V) (xs ys : List V)
      → IsSeqOf xs x
      → IsSeqOf ys y
      → IsSeqOf (merge f xs ys) (merge_func x y f)
  unfolding merge_func
  merge_func-IsSeqOf f x y xs ys hx hy S yield s = rw (
    pull_lem y ys hy,
    hx _ (merge_body f yield) (record { rest = ys; returned = false; inner = s }),
    run-merge f yield xs ys s,
  )
