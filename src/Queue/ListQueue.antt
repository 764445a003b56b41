-- ===== src/Queue/ListQueue.antt =====
-- queue/queue.go: ListQueue, a queue over the ring of its `list`, named by the ring's address.
pub mod Laws
use at.Prelude.{ℕ, Bool, Option, none, some, if◌then◌else◌}
use at.Prelude.Int.{ℤ, is_zero}
use at.Prelude.Exec.{pure, gets, modify, ◌>>=◌, ◌>>◌}
use at.Queue.Ring.{
  Store, assign, len_of, init as init_list, front, back, remove, push_front,
  push_back as push_list_back,
}
use at.Queue.Ring.Places.{iter as iter_list, rev_iter as rev_iter_list}

module _ {T : Type 0} where
  unfoldable pub init : ℕ → Store T (Unit {0})
  init q = init_list q >> pure tt

  -- `zero_value` is the zero value of the element type.
  unfoldable pub reset : T → ℕ → Store T (Unit {0})
  reset zero_value q = do
    modify (λ h. record h {
      next = assign q none h.next;
      prev = assign q none h.prev;
      list = assign q none h.list;
      value = assign q zero_value h.value;
    })
    init q

  unfoldable pub push : ℕ → T → Store T (Unit {0})
  push q v = push_front q v >> pure tt

  unfoldable pub push_back : ℕ → T → Store T (Unit {0})
  push_back q v = push_list_back q v >> pure tt

  unfoldable pub empty : ℕ → Store T Bool
  empty q = gets (λ h. is_zero (h.len q))

  unfoldable pub len : ℕ → Store T ℤ
  len q = len_of q

  -- `none` is the zero value with false.
  unfoldable pub pop : ℕ → Store T (Option T)
  pop q = do
    n ← len_of q
    if is_zero n then pure none else (do e ← front q; v ← remove q e; pure (some v))

  unfoldable pub pop_back : ℕ → Store T T
  pop_back q = back q >>= remove q

  unfoldable pub iter : {S : Type 0} → ℕ → (T → S → Bool × S) → S → Store T S
  iter q yield s = iter_list q yield s

  unfoldable pub rev_iter : {S : Type 0} → ℕ → (T → S → Bool × S) → S → Store T S
  rev_iter q yield s = rev_iter_list q yield s
