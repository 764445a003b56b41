-- ===== src/Queue/Ring.antt =====
-- queue/list.go: doubly linked lists as rings in a store of elements. A pointer is a number; a list
-- is named by the address of its root element, which is the address of the list. The methods of a
-- nil element or list panic.
pub mod Places
pub mod Shape
pub mod Laws
pub mod Sequences
pub mod Iteration
use at.Prelude.{
  ℕ, zero, suc, Bool, true, false, Option, none, some, List, [], ◌∷◌, eqb, if◌then◌else◌, not, ◌||◌,
}
use at.Prelude.Int.{ℤ, pos, incr, decr, is_zero, turns}
use at.Prelude.Result.{Result, ok, err, panic}
use at.Prelude.Exec.{Exec, pure, lift, gets, modify, continue, ◌>>=◌, ◌>>◌}

-- The fields of the elements and, at the address of its root, of each list. `fresh` is the address
-- of the next element that is made. An element that holds no value holds `zero_value`.
pub record Heap (T : Type 0) : Type 0 where
  pub next : ℕ → Option ℕ
  pub prev : ℕ → Option ℕ
  pub list : ℕ → Option ℕ
  pub value : ℕ → T
  pub len : ℕ → ℤ
  pub fresh : ℕ

-- A field after an assignment.
abbrev pub assign {ℓ} : {A : Type ℓ} → ℕ → A → (ℕ → A) → ℕ → A
assign p v f q = if eqb q p then v else f q

abbrev pub Ptr : Type 0
Ptr = Option ℕ

abbrev pub same : Ptr → Ptr → Bool
same none none = true
same none (some q) = false
same (some p) none = false
same (some p) (some q) = eqb p q

abbrev pub Store : Type 0 → Type 0 → Type 0
Store T A = Exec (Heap T) A

-- The test of Element.Next and Element.Prev: nil outside a list and at its root.
unfoldable pub inside : Ptr → Ptr → Ptr
inside none p = none
inside (some l) p = if same p (some l) then none else p

module _ {T : Type 0} where
  -- Reads and writes of a field, which panic at nil.
  abbrev pub next_of : Ptr → Store T Ptr
  next_of none h = (panic, h)
  next_of (some p) h = (ok (h.next p), h)

  abbrev pub prev_of : Ptr → Store T Ptr
  prev_of none h = (panic, h)
  prev_of (some p) h = (ok (h.prev p), h)

  abbrev pub list_of : Ptr → Store T Ptr
  list_of none h = (panic, h)
  list_of (some p) h = (ok (h.list p), h)

  abbrev pub value_of : Ptr → Store T T
  value_of none h = (panic, h)
  value_of (some p) h = (ok (h.value p), h)

  abbrev pub set_next : Ptr → Ptr → Store T (Unit {0})
  set_next none q h = (panic, h)
  set_next (some p) q h = (ok tt, record h { next = assign p q h.next })

  abbrev pub set_prev : Ptr → Ptr → Store T (Unit {0})
  set_prev none q h = (panic, h)
  set_prev (some p) q h = (ok tt, record h { prev = assign p q h.prev })

  abbrev pub set_list : Ptr → Ptr → Store T (Unit {0})
  set_list none q h = (panic, h)
  set_list (some p) q h = (ok tt, record h { list = assign p q h.list })

  abbrev pub set_len : ℕ → ℤ → Store T (Unit {0})
  set_len l n = modify (λ h. record h { len = assign l n h.len })

  abbrev pub len_of : ℕ → Store T ℤ
  len_of l = gets (λ h. h.len l)

  -- &Element[T]{Value: v}
  unfoldable pub new_element : T → Store T Ptr
  new_element v h = (
    ok (some h.fresh),
    record {
      next = assign h.fresh none h.next;
      prev = assign h.fresh none h.prev;
      list = assign h.fresh none h.list;
      value = assign h.fresh v h.value;
      len = h.len;
      fresh = suc h.fresh;
    },
  )

  unfoldable pub next : Ptr → Store T Ptr
  next e = do p ← next_of e; l ← list_of e; pure (inside l p)

  unfoldable pub prev : Ptr → Store T Ptr
  prev e = do p ← prev_of e; l ← list_of e; pure (inside l p)

  unfoldable pub init : ℕ → Store T Ptr
  init l = do
    set_next (some l) (some l)
    set_prev (some l) (some l)
    set_len l (pos 0)
    pure (some l)

  unfoldable pub front : ℕ → Store T Ptr
  front l = do n ← len_of l; if is_zero n then pure none else next_of (some l)

  unfoldable pub back : ℕ → Store T Ptr
  back l = do n ← len_of l; if is_zero n then pure none else prev_of (some l)

  unfoldable pub lazy_init : ℕ → Store T (Unit {0})
  lazy_init l = do p ← next_of (some l); if same p none then init l >> pure tt else pure tt

  unfoldable pub link : Ptr → Ptr → Store T (Unit {0})
  link e at = do
    set_prev e at
    n ← next_of at
    set_next e n
    p ← prev_of e
    set_next p e
    n' ← next_of e
    set_prev n' e

  unfoldable pub unlink : Ptr → Store T (Unit {0})
  unlink e = do
    p ← prev_of e
    n ← next_of e
    set_next p n
    n' ← next_of e
    p' ← prev_of e
    set_prev n' p'

  unfoldable pub insert : ℕ → Ptr → Ptr → Store T Ptr
  insert l e at = do link e at; set_list e (some l); n ← len_of l; set_len l (incr n); pure e

  unfoldable pub insert_value : ℕ → T → Ptr → Store T Ptr
  insert_value l v at = do e ← new_element v; insert l e at

  -- The unexported `remove` and `move`.
  unfoldable pub remove_element : ℕ → Ptr → Store T (Unit {0})
  remove_element l e = do
    unlink e
    set_next e none
    set_prev e none
    set_list e none
    n ← len_of l
    set_len l (decr n)

  unfoldable pub move_element : Ptr → Ptr → Store T (Unit {0})
  move_element e at = if same e at then pure tt else unlink e >> link e at

  unfoldable pub remove : ℕ → Ptr → Store T T
  remove l e = do o ← list_of e; if same o (some l) then remove_element l e else pure tt; value_of e

  unfoldable pub push_front : ℕ → T → Store T Ptr
  push_front l v = do lazy_init l; insert_value l v (some l)

  unfoldable pub push_back : ℕ → T → Store T Ptr
  push_back l v = do lazy_init l; p ← prev_of (some l); insert_value l v p
