-- ===== src/Queue/Ring/Places.antt =====
-- queue/list.go: insertion and moves at a mark, copies of a list, and iteration.
use at.Prelude.{ℕ, zero, suc, Bool, none, some, if◌then◌else◌, not, ◌||◌}
use at.Prelude.Int.{turns}
use at.Prelude.Exec.{pure, ◌>>=◌, ◌>>◌}
use at.Queue.Ring.{
  same, Store, Ptr, next_of, prev_of, list_of, value_of, len_of, next, prev, front, back, lazy_init,
  insert_value, move_element,
}

module _ {T : Type 0} where
  unfoldable pub insert_before : ℕ → T → Ptr → Store T Ptr
  insert_before l v mark = do
    o ← list_of mark
    if same o (some l) then prev_of mark >>= insert_value l v else pure none

  unfoldable pub insert_after : ℕ → T → Ptr → Store T Ptr
  insert_after l v mark = do
    o ← list_of mark
    if same o (some l) then insert_value l v mark else pure none

  unfoldable pub move_to_front : ℕ → Ptr → Store T (Unit {0})
  move_to_front l e = do
    o ← list_of e
    first ← next_of (some l)
    if not (same o (some l)) || same first e then pure tt else move_element e (some l)

  unfoldable pub move_to_back : ℕ → Ptr → Store T (Unit {0})
  move_to_back l e = do
    o ← list_of e
    last ← prev_of (some l)
    if not (same o (some l)) || same last e then pure tt else move_element e last

  unfoldable pub move_before : ℕ → Ptr → Ptr → Store T (Unit {0})
  move_before l e mark = do
    o ← list_of e
    if not (same o (some l)) || same e mark then pure tt else (do
      o' ← list_of mark
      if same o' (some l) then prev_of mark >>= move_element e else pure tt)

  unfoldable pub move_after : ℕ → Ptr → Ptr → Store T (Unit {0})
  move_after l e mark = do
    o ← list_of e
    if not (same o (some l)) || same e mark
        then pure tt
        else (do o' ← list_of mark; if same o' (some l) then move_element e mark else pure tt)

  -- The loops run as often as the length of `other` that was read before them. The post statement
  -- reads the next element after the last turn too.
  unfoldable pub copy_back : ℕ → ℕ → Ptr → Store T (Unit {0})
  copy_back zero l e = pure tt
  copy_back (suc i) l e = do
    v ← value_of e
    p ← prev_of (some l)
    insert_value l v p
    e' ← next e
    copy_back i l e'

  unfoldable pub push_back_list : ℕ → ℕ → Store T (Unit {0})
  push_back_list l other = do
    lazy_init l
    n ← len_of other
    e ← front other
    copy_back (turns n) l e

  unfoldable pub copy_front : ℕ → ℕ → Ptr → Store T (Unit {0})
  copy_front zero l e = pure tt
  copy_front (suc i) l e = do
    v ← value_of e
    insert_value l v (some l)
    e' ← prev e
    copy_front i l e'

  unfoldable pub push_front_list : ℕ → ℕ → Store T (Unit {0})
  push_front_list l other = do
    lazy_init l
    n ← len_of other
    e ← back other
    copy_front (turns n) l e

  -- Iter goes from the back to the front and RevIter from the front to the back; `yield` passes on
  -- a state of its own and stops the loop with false.
  unfoldable pub iter_loop : {S : Type 0} → (T → S → Bool × S) → ℕ → Ptr → S → Store T S
  iter_loop yield zero e s = pure s
  iter_loop yield (suc i) e s = do
    v ← value_of e
    let (go, s') = yield v s
    if go then prev e >>= (λ e'. iter_loop yield i e' s') else pure s'

  unfoldable pub iter : {S : Type 0} → ℕ → (T → S → Bool × S) → S → Store T S
  iter l yield s = do n ← len_of l; e ← back l; iter_loop yield (turns n) e s

  unfoldable pub rev_iter_loop : {S : Type 0} → (T → S → Bool × S) → ℕ → Ptr → S → Store T S
  rev_iter_loop yield zero e s = pure s
  rev_iter_loop yield (suc i) e s = do
    v ← value_of e
    let (go, s') = yield v s
    if go then next e >>= (λ e'. rev_iter_loop yield i e' s') else pure s'

  unfoldable pub rev_iter : {S : Type 0} → ℕ → (T → S → Bool × S) → S → Store T S
  rev_iter l yield s = do n ← len_of l; e ← front l; rev_iter_loop yield (turns n) e s
