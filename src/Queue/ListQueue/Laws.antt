-- ===== src/Queue/ListQueue/Laws.antt =====
-- queue/queue.go: Pop of a ListQueue against the sequence of its list.
use at.Prelude.{ℕ, Option, none, some, List, [], ◌∷◌, ◌≡◌, refl}
use at.Prelude.Result.{Result, ok}
use at.Queue.Ring.{Heap}
use at.Queue.Ring.Laws.{Holds}
use at.Queue.Ring.Sequences.{remove-Removes}
use at.Queue.Ring.Iteration.{front_run}
use at.Queue.ListQueue.{pop}

module _ {T : Type 0} where
  -- What a Pop of a queue with the elements `ps` comes to.
  abbrev pub Pops : Heap T → ℕ → List ℕ → Result (Option T) × Heap T → Type 0
  Pops h q [] r = r ≡ (ok none, h)
  Pops h q (e ∷ ps) r = (r.0 ≡ ok (some (h.value e))) × Holds r.1 q ps × (r.1.value ≡ h.value)

  -- Pop of an empty queue returns false and changes nothing. Else it returns the value of the first
  -- element and takes that out; the others stay in order, with their values.
  pub pop-Pops : (h : Heap T) (q : ℕ) (ps : List ℕ) → Holds h q ps → Pops h q ps (pop q h)
  unfolding pop
  pop-Pops h q [] holds = let (links, once, size, own, old) = holds in rw size
  pop-Pops h q (e ∷ ps) holds =
      let (links, once, size, own, old) = holds in
      let (value, kept, same) = remove-Removes h q e [] ps holds in
      rw (size, front_run h q (e ∷ ps) holds, value) (refl, kept, same)
