-- ===== src/Queue/Stack.antt =====
-- The linked stack as the list of its values, the last pushed first.
use at.Prelude.{
  Bool, true, false, Option, none, some, List, [], ◌∷◌, ◌≡◌, refl, ap, length, if◌then◌else◌, suc,
}
use at.Prelude.Int.{ℤ, pos, incr, decr, decr-incr}
use at.Xiter.Lists.{run, resume, IsSeqOf}
use at.Queue.{
  QueueElem, no_elem, elem, Queue, reset, push, push_back, push_front, empty, len, pop, iter,
  iter_from,
}

module _ {T : Type 0} where
  abbrev pub chain : QueueElem T → List T
  chain no_elem = []
  chain (elem v prev) = v ∷ chain prev

  -- The queue holds the values of `vs` and counts them.
  abbrev pub Holds : Queue T → List T → Type 0
  Holds q vs = (chain q.end ≡ vs) × (q.len ≡ pos (length vs))

  -- The list that Pop leaves, with the value it returns.
  abbrev pub popped : List T → Option T × List T
  popped [] = (none, [])
  popped (v ∷ vs) = (some v, vs)

  abbrev pub is_nil : List T → Bool
  is_nil [] = true
  is_nil (v ∷ vs) = false

  abbrev pub Behaves : Queue T → List T → T → Type 0
  Behaves q vs v =
      Holds (push v q) (v ∷ vs)
      × Holds (push_back v q) (v ∷ vs)
      × Holds (push_front v q) (v ∷ vs)
      × ((pop q).0 ≡ (popped vs).0)
      × Holds (pop q).1 (popped vs).1
      × Holds (reset q) []
      × (len q ≡ pos (length vs))
      × (empty q ≡ is_nil vs)

  behaves :
      (e : QueueElem T) (n : ℤ) (vs : List T) (v : T)
      → Holds (record { end = e; len = n }) vs
      → Behaves (record { end = e; len = n }) vs v
  unfolding push push_back push_front pop reset len empty
  behaves no_elem n [] v (hc, hl) =
      (after_push, after_push, after_push, refl, (hc, hl), (refl, refl), hl, refl)
    where
      after_push : (v ∷ [] ≡ v ∷ []) × (incr n ≡ pos 1)
      after_push = (refl, ap incr hl)
  behaves no_elem n (w ∷ ws) v (hc, hl) = cc
  behaves (elem u prev) n [] v (hc, hl) = cc
  behaves (elem u prev) n (w ∷ ws) v (hc, hl) =
      (after_push, after_push, after_push, cc, (cc, ap decr hl), (refl, refl), hl, refl)
    where
      after_push : (v ∷ u ∷ chain prev ≡ v ∷ w ∷ ws) × (incr n ≡ pos (suc (suc (length ws))))
      after_push = (ap (λ us. v ∷ us) hc, ap incr hl)

  -- On a queue that holds a list of values and counts it: a value pushed, at the back or at the front,
  -- stands first; Pop takes the first value if there is one; Reset leaves none; Empty tells whether
  -- the list is empty, and Len its length.
  pub queue_Holds : (q : Queue T) (vs : List T) (v : T) → Holds q vs → Behaves q vs v
  queue_Holds q vs v h = behaves q.end q.len vs v h

  -- Pop undoes Push: it returns the value pushed and leaves the queue as it was.
  pub pop-push : (q : Queue T) (v : T) → pop (push v q) ≡ (some v, q)
  unfolding pop push
  pop-push q v = ap (λ n. (some v, record { end = q.end; len = n })) (decr-incr q.len)

  iter_step :
      {S : Type 0} (more : S → S) (vs : List T) (yield : T → S → Bool × S)
      → ((t : S) → more t ≡ run yield vs t)
      → (r : Bool × S) → (if r.0 then more r.1 else r.1) ≡ resume r (run yield vs)
  iter_step more vs yield ih (true, t) = ih t
  iter_step more vs yield ih (false, t) = refl

  run-chain :
      {S : Type 0} (e : QueueElem T) (yield : T → S → Bool × S) (s : S)
      → iter_from e S yield s ≡ run yield (chain e) s
  unfolding iter_from
  run-chain no_elem yield s = refl
  run-chain {S = S} (elem v prev) yield s =
      iter_step (iter_from prev S yield) (chain prev) yield (run-chain prev yield) (yield v s)

  -- Iter yields the values of the queue, the last pushed first, until `yield` returns false.
  pub iter-IsSeqOf : (q : Queue T) → IsSeqOf (chain q.end) (iter q)
  unfolding iter
  iter-IsSeqOf q S yield s = run-chain q.end yield s
