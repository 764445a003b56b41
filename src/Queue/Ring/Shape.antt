-- ===== src/Queue/Ring/Shape.antt =====
-- queue/list.go: the shape of a ring, and what changing its links does to it.
use at.Prelude.{
  ℕ, ◌+◌, ◌≤◌, Option, none, some, List, [], ◌∷◌, ◌++◌, ◌≡◌, ◌≢◌, eqb, if◌then◌else◌, arith,
}
use at.Queue.Ring.{assign}

-- From `a`, the next pointers lead through `ps` to `b`, and the previous pointers back.
abbrev pub Links : (ℕ → Option ℕ) → (ℕ → Option ℕ) → ℕ → List ℕ → ℕ → Type 0
Links nx pv a [] b = (nx a ≡ some b) × (pv b ≡ some a)
Links nx pv a (p ∷ ps) b = (nx a ≡ some p) × (pv p ≡ some a) × Links nx pv p ps b

abbrev pub count : ℕ → List ℕ → ℕ
count x [] = 0
count x (y ∷ ys) = (if eqb y x then 1 else 0) + count x ys

abbrev pub Distinct : List ℕ → Type 0
Distinct ps = (x : ℕ) → count x ps ≤ 1

pub count-append : (x : ℕ) (ps qs : List ℕ) → count x (ps ++ qs) ≡ count x ps + count x qs
count-append x [] qs = omega arith
count-append x (p ∷ ps) qs = omega (arith, count-append x ps qs)

pub Links-append :
    (nx pv : ℕ → Option ℕ) (a p b : ℕ) (ps qs : List ℕ)
    → Links nx pv a ps p
    → Links nx pv p qs b
    → Links nx pv a (ps ++ (p ∷ qs)) b
Links-append nx pv a p b [] qs (h, k) l = (h, k, l)
Links-append nx pv a p b (x ∷ ps) qs (h, k, m) l = (h, k, Links-append nx pv x p b ps qs m l)

pub Links-split :
    (nx pv : ℕ → Option ℕ) (a p b : ℕ) (ps qs : List ℕ)
    → Links nx pv a (ps ++ (p ∷ qs)) b
    → Links nx pv a ps p × Links nx pv p qs b
Links-split nx pv a p b [] qs (h, k, l) = ((h, k), l)
Links-split nx pv a p b (x ∷ ps) qs (h, k, l) =
    let (m, n) = Links-split nx pv x p b ps qs l in ((h, k, m), n)

-- A ring may be read from any of its elements.
pub rotate :
    (nx pv : ℕ → Option ℕ) (a p : ℕ) (ps qs : List ℕ)
    → Links nx pv a (ps ++ (p ∷ qs)) a
    → Links nx pv p (qs ++ (a ∷ ps)) p
rotate nx pv a p ps qs h =
    let (m, n) = Links-split nx pv a p a ps qs h in Links-append nx pv p a p qs ps n m

pub assign_other : (f : ℕ → Option ℕ) (x q : ℕ) (v : Option ℕ) → q ≢ x → assign x v f q ≡ f q
assign_other f x q v h = ground arith

pub assign_same : (f : ℕ → Option ℕ) (x : ℕ) (v : Option ℕ) → assign x v f x ≡ v
assign_same f x v = ground arith

-- Writes to other elements leave a segment alone.
pub Links-assign_next :
    (nx pv : ℕ → Option ℕ) (x : ℕ) (v : Option ℕ) (a b : ℕ) (ps : List ℕ)
    → count x (a ∷ ps) ≡ 0
    → Links nx pv a ps b
    → Links (assign x v nx) pv a ps b
Links-assign_next nx pv x v a b [] c (h, k) = (ground arith, k)
Links-assign_next nx pv x v a b (p ∷ ps) c (h, k, l) =
    (ground arith, k, Links-assign_next nx pv x v p b ps (ground arith) l)

pub Links-assign_prev :
    (nx pv : ℕ → Option ℕ) (x : ℕ) (v : Option ℕ) (a b : ℕ) (ps : List ℕ)
    → count x (b ∷ ps) ≡ 0
    → Links nx pv a ps b
    → Links nx (assign x v pv) a ps b
Links-assign_prev nx pv x v a b [] c (h, k) = (h, ground arith)
Links-assign_prev nx pv x v a b (p ∷ ps) c (h, k, l) =
    (h, ground arith, Links-assign_prev nx pv x v p b ps (ground arith) l)

-- The element that stands first in `ps` and then `p`.
abbrev pub first : ℕ → List ℕ → ℕ
first p [] = p
first p (q ∷ qs) = q

pub next-first :
    (nx pv : ℕ → Option ℕ) (a b : ℕ) (ps : List ℕ) → Links nx pv a ps b → nx a ≡ some (first b ps)
next-first nx pv a b [] (h, k) = h
next-first nx pv a b (q ∷ qs) (h, k, l) = h

-- Links that put `e` between `p` and `n`.
abbrev pub linked_next : (ℕ → Option ℕ) → ℕ → ℕ → ℕ → ℕ → Option ℕ
linked_next nx e p n = assign p (some e) (assign e (some n) nx)

abbrev pub linked_prev : (ℕ → Option ℕ) → ℕ → ℕ → ℕ → ℕ → Option ℕ
linked_prev pv e p n = assign n (some e) (assign e (some p) pv)

pub Links-linked :
    (nx pv : ℕ → Option ℕ) (e p : ℕ) (ps : List ℕ)
    → Links nx pv p ps p
    → Distinct (e ∷ p ∷ ps)
    → Links (linked_next nx e p (first p ps)) (linked_prev pv e p (first p ps)) p (e ∷ ps) p
Links-linked nx pv e p [] (h, k) d =
    let apart = d e in (ground arith, ground arith, (ground arith, ground arith))
Links-linked nx pv e p (q ∷ qs) (h, k, l) d =
    let at_e = d e in
    let at_p = d p in
    let at_q = d q in
    (
      ground arith,
      ground arith,
      (
        ground arith,
        ground arith,
        Links-assign_next _ _ p _ q p qs (ground arith) (
            Links-assign_next _ _ e _ q p qs (ground arith) (
              Links-assign_prev _ _ q _ q p qs (ground arith)
                (Links-assign_prev _ _ e _ q p qs (ground arith) l))),
      ),
    )

-- Links that take `e` out between `p` and `n`, with its own links reset.
abbrev pub unlinked_next : (ℕ → Option ℕ) → ℕ → ℕ → ℕ → ℕ → Option ℕ
unlinked_next nx e p n = assign e none (assign p (some n) nx)

abbrev pub unlinked_prev : (ℕ → Option ℕ) → ℕ → ℕ → ℕ → ℕ → Option ℕ
unlinked_prev pv e p n = assign e none (assign n (some p) pv)

pub Links-unlinked :
    (nx pv : ℕ → Option ℕ) (e p : ℕ) (ps : List ℕ)
    → Links nx pv p (e ∷ ps) p
    → Distinct (e ∷ p ∷ ps)
    → Links (unlinked_next nx e p (first p ps)) (unlinked_prev pv e p (first p ps)) p ps p
Links-unlinked nx pv e p [] (h, k, (i, j)) d = let apart = d e in (ground arith, ground arith)
Links-unlinked nx pv e p (q ∷ qs) (h, k, (i, j, l)) d =
    let at_e = d e in
    let at_p = d p in
    let at_q = d q in
    (
      ground arith,
      ground arith,
      Links-assign_next _ _ e _ q p qs (ground arith) (
          Links-assign_next _ _ p _ q p qs (ground arith) (
            Links-assign_prev _ _ e _ q p qs (ground arith)
              (Links-assign_prev _ _ q _ q p qs (ground arith) l))),
    )
