-- ===== src/Queue/Ring/Iteration.antt =====
-- queue/list.go: RevIter over the sequence of a list's values, and the empty list that Init makes.
use at.Prelude.{
  ℕ, ◌≤◌, ◌<◌, Bool, true, false, none, some, List, [], ◌∷◌, ◌≡◌, refl, if◌then◌else◌, arith,
  length,
}
use at.Prelude.Result.{ok}
use at.Prelude.Exec.{pure, ◌>>=◌}
use at.Xiter.Lists.{run, resume}
use at.Queue.Ring.{Heap, Ptr, Store, init, next, inside, front}
use at.Queue.Ring.Places.{rev_iter, rev_iter_loop}
use at.Queue.Ring.Shape.{Links, count, first, next-first}
use at.Queue.Ring.Laws.{Holds}
use at.Queue.Ring.Sequences.{values}

abbrev pub start : List ℕ → Ptr
start [] = none
start (p ∷ ps) = some p

inside-first :
    (l : ℕ) (ps : List ℕ) → count l ps ≡ 0 → inside (some l) (some (first l ps)) ≡ start ps
unfolding inside
inside-first l [] c = ground arith
inside-first l (p ∷ ps) c = ground arith

module _ {T : Type 0} where
  -- Init at an address of the store makes the list there empty.
  pub init-Holds : (h : Heap T) (l : ℕ) → l < h.fresh → Holds (init l h).1 l []
  unfolding init
  init-Holds h l k = (
    (ground arith, ground arith),
    (λ x. ground arith),
    ground arith,
    (λ p c. ground arith),
    (λ p c. ground arith),
  )

  next_run :
      (h : Heap T) (l p : ℕ) (ps : List ℕ)
      → Links h.next h.prev p ps l
      → h.list p ≡ some l
      → count l ps ≡ 0
      → next (some p) h ≡ (ok (start ps), h)
  unfolding next
  next_run h l p ps links own c =
      rw (own, next-first h.next h.prev p l ps links, inside-first l ps c)

  go_on :
      {S : Type 0} (h : Heap T) (p : ℕ) (e : Ptr) (more : Ptr → S → Store T S)
      (yield : T → S → Bool × S) (vs : List T)
      → next (some p) h ≡ (ok e, h)
      → ((t : S) → more e t h ≡ (ok (run yield vs t), h))
      → (r : Bool × S)
      → (if r.0 then next (some p) >>= (λ e'. more e' r.1) else pure r.1) h
        ≡ (ok (resume r (run yield vs)), h)
  go_on h p e more yield vs step ih (true, t) = rw (step, ih t)
  go_on h p e more yield vs step ih (false, t) = refl

  rev_iter_loop-run :
      {S : Type 0} (h : Heap T) (l a : ℕ) (ps : List ℕ) (yield : T → S → Bool × S) (s : S)
      → Links h.next h.prev a ps l
      → ((p : ℕ) → 1 ≤ count p ps → h.list p ≡ some l)
      → count l ps ≡ 0
      → rev_iter_loop yield (length ps) (start ps) s h ≡ (ok (run yield (values h ps) s), h)
  unfolding rev_iter_loop
  rev_iter_loop-run h l a [] yield s links own c = refl
  rev_iter_loop-run h l a (p ∷ ps) yield s (out, back, links) own c =
      go_on h p (start ps) (λ e' t. rev_iter_loop yield (length ps) e' t) yield (values h ps)
        (next_run h l p ps links (own p (ground arith)) (ground arith))
        (λ t. rev_iter_loop-run h l p ps yield t links (λ q k. own q (ground arith)) (ground arith))
        (yield (h.value p) s)

  pub front_run : (h : Heap T) (l : ℕ) (ps : List ℕ) → Holds h l ps → front l h ≡ (ok (start ps), h)
  unfolding front
  front_run h l [] (links, once, size, own, old) = rw size
  front_run h l (p ∷ ps) (links, once, size, own, old) = rw (size, links.0)

  -- RevIter over a list yields the values of its elements, in their order, until `yield` returns
  -- false; it does not panic, and changes nothing.
  pub rev_iter_lem :
      {S : Type 0} (h : Heap T) (l : ℕ) (ps : List ℕ) (yield : T → S → Bool × S) (s : S)
      → Holds h l ps
      → rev_iter l yield s h ≡ (ok (run yield (values h ps) s), h)
  unfolding rev_iter
  rev_iter_lem h l ps yield s holds =
      let (links, once, size, own, old) = holds in
      let a = once l in
      rw (size, front_run h l ps holds)
        (rev_iter_loop-run h l l ps yield s links own (ground arith))
