-- ===== src/Xiter/Lists.antt =====
-- Iterators as lists: what a push iterator does to every `yield`, and lemmas on runs over lists.
use at.Prelude.{
  Bool, true, false, List, [], ◌∷◌, ◌++◌, ◌≡◌, refl, ◌∙◌, sym, append-nil, append_assoc,
}
use at.Xiter.{Seq, Seq2}

-- What a call of `yield` that returned (continue, state) goes on to do.
abbrev pub resume : {S : Type 0} → Bool × S → (S → S) → S
resume (true, s) k = k s
resume (false, s) k = s

abbrev pub run : {V S : Type 0} → (V → S → Bool × S) → List V → S → S
run yield [] s = s
run yield (v ∷ vs) s = resume (yield v s) (run yield vs)

abbrev pub run2 : {K V S : Type 0} → (K → V → S → Bool × S) → List (K × V) → S → S
run2 yield = run (λ p. yield p.0 p.1)

-- The iterator passes the values of `vs`, in order, to every `yield` until one returns false.
abbrev pub IsSeqOf : {V : Type 0} → List V → Seq V → Type 1
IsSeqOf {V = V} vs seq =
    (S : Type 0) (yield : V → S → Bool × S) (s : S) → seq S yield s ≡ run yield vs s

abbrev pub IsSeq2Of : {K V : Type 0} → List (K × V) → Seq2 K V → Type 1
IsSeq2Of {K = K} {V = V} ps seq =
    (S : Type 0) (yield : K → V → S → Bool × S) (s : S) → seq S yield s ≡ run2 yield ps s

pub resume-eq :
    {S : Type 0} (r : Bool × S) {f g : S → S} → ((s : S) → f s ≡ g s) → resume r f ≡ resume r g
resume-eq (true, s) h = h s
resume-eq (false, s) h = refl

module _ {A B : Type 0} where
  abbrev pub map_list : (A → B) → List A → List B
  map_list f [] = []
  map_list f (x ∷ xs) = f x ∷ map_list f xs

  pub run-map_list :
      {S : Type 0} (f : A → B) (yield : B → S → Bool × S) (xs : List A) (s : S)
      → run (λ x. yield (f x)) xs s ≡ run yield (map_list f xs) s
  run-map_list f yield [] s = refl
  run-map_list f yield (x ∷ xs) s = resume-eq (yield (f x) s) (run-map_list f yield xs)

-- A body that always continues folds over the values.
pub run-collect :
    {V : Type 0} (vs acc : List V) → run (λ v ws. (true, ws ++ (v ∷ []))) vs acc ≡ acc ++ vs
run-collect [] acc = sym (append-nil acc)
run-collect (v ∷ vs) acc = run-collect vs (acc ++ (v ∷ [])) ∙ append_assoc acc (v ∷ []) vs
