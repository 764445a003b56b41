-- ===== src/Queue.antt =====
-- queue: the linked stack Queue of queue.go, and below this module the ring of list.go and the
-- queue over it.
pub mod Ring
pub mod Stack
pub mod ListQueue
mod Tests
use at.Prelude.{Bool, true, false, Option, none, some, List, [], ◌∷◌, if◌then◌else◌}
use at.Prelude.Int.{ℤ, pos, incr, decr}
use at.Xiter.{Seq}

-- QueueElem: an element is never written after it was made, so a pointer to it is the element;
-- `no_elem` is nil.
pub data QueueElem (T : Type 0) : Type 0 where
  no_elem : QueueElem T
  elem : T → QueueElem T → QueueElem T

pub record Queue (T : Type 0) : Type 0 where
  pub end : QueueElem T
  pub len : ℤ

module _ {T : Type 0} where
  unfoldable pub init : Queue T → Queue T
  init q = q

  unfoldable pub reset : Queue T → Queue T
  reset q = record { end = no_elem; len = pos 0 }

  unfoldable pub push : T → Queue T → Queue T
  push v q = record { end = elem v q.end; len = incr q.len }

  unfoldable pub push_back : T → Queue T → Queue T
  push_back v q = push v q

  unfoldable pub push_front : T → Queue T → Queue T
  push_front v q = push v q

  unfoldable pub empty : Queue T → Bool
  empty q = elim q.end [ no_elem ↦ true | elem v prev ↦ false ]

  unfoldable pub len : Queue T → ℤ
  len q = q.len

  -- The value and the flag that Pop returns: `none` is the zero value with false.
  unfoldable pub pop : Queue T → Option T × Queue T
  pop q = elim q.end [
    | no_elem ↦ (none, q)
    | elem v prev ↦ (some v, record { end = prev; len = decr q.len })
  ]

  unfoldable pub iter_from : QueueElem T → Seq T
  iter_from no_elem S yield s = s
  iter_from (elem v prev) S yield s =
      let (go, t) = yield v s in let rest = iter_from prev S yield t in if go then rest else t

  unfoldable pub iter : Queue T → Seq T
  iter q = iter_from q.end
