-- ===== src/Queue/Tests.antt =====
-- Runs of the queues.
use at.Prelude.{ℕ, Bool, true, none, some, arith, List, [], ◌∷◌, ◌++◌, ◌≡◌, refl}
use at.Prelude.Int.{pos}
use at.Prelude.Result.{ok}
use at.Prelude.Exec.{◌>>=◌, ◌>>◌}
use at.Queue.Ring.Laws.{Holds}
use at.Queue.Ring.Iteration.{init-Holds}
use at.Queue.Ring.Sequences.{
  values, Inserts, Removes, push_front-Inserts, push_back-Inserts, remove-Removes,
}
use at.Queue
use at.Queue.{Queue, elem, no_elem, push, pop, iter}
use at.Queue.Ring.{Heap, Store, init, push_front, push_back, remove}
use at.Queue.Ring.Places.{rev_iter, push_back_list, move_to_front, insert_before, insert_after}
use at.Queue.Stack.{Behaves, queue_Holds}

abbrev two : Queue ℕ
two = record { end = elem 8 (elem 7 no_elem); len = pos 2 }

queue_Holds_example : Behaves two (8 ∷ 7 ∷ []) 9
queue_Holds_example = queue_Holds two (8 ∷ 7 ∷ []) 9 (refl, refl)

-- A ring at address 0 in an empty store.
abbrev blank : Heap ℕ
blank = record {
  next = λ p. none;
  prev = λ p. none;
  list = λ p. none;
  value = λ p. 0;
  len = λ p. pos 0;
  fresh = 1;
}

abbrev collect : ℕ → List ℕ → Bool × List ℕ
collect v vs = (true, vs ++ (v ∷ []))

abbrev ring_run : Store ℕ (List ℕ)
ring_run = do
  push_back 0 5
  push_back 0 6
  e ← push_front 0 4
  insert_before 0 9 e
  move_to_front 0 (some 2)
  remove 0 (some 1)
  push_back_list 0 0
  rev_iter 0 collect []

ring_values : (ring_run blank).0 ≡ ok (6 ∷ 9 ∷ 4 ∷ 6 ∷ 9 ∷ 4 ∷ [])
unfolding push_back push_front insert_before move_to_front remove push_back_list rev_iter
    at.Queue.Ring.lazy_init init at.Queue.Ring.insert_value at.Queue.Ring.new_element
    at.Queue.Ring.insert at.Queue.Ring.link at.Queue.Ring.move_element at.Queue.Ring.unlink
    at.Queue.Ring.remove_element at.Queue.Ring.front at.Queue.Ring.Places.copy_back
    at.Queue.Ring.next at.Queue.Ring.inside at.Queue.Ring.Places.rev_iter_loop
ring_values = refl

abbrev started : Heap ℕ
started = (init 0 blank).1

started-Holds : Holds started 0 []
started-Holds = init-Holds blank 0 (ground arith)

abbrev single : Heap ℕ
single = (push_front 0 5 started).1

single-Holds : Holds single 0 (started.fresh ∷ [])
single-Holds = (push_front-Inserts started 0 [] 5 started-Holds).1

push_back-Inserts_example :
    Inserts single 0
      (started.fresh ∷ single.fresh ∷ [])
      (values single (started.fresh ∷ []) ++ (7 ∷ []))
      (push_back 0 7 single)
push_back-Inserts_example = push_back-Inserts single 0 (started.fresh ∷ []) 7 single-Holds

remove-Removes_example : Removes single 0 started.fresh [] (remove 0 (some started.fresh) single)
remove-Removes_example = remove-Removes single 0 started.fresh [] [] single-Holds
