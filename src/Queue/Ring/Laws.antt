-- ===== src/Queue/Ring/Laws.antt =====
-- queue/list.go: insertion and removal, as operations on the sequence of a ring's elements.
use at.Prelude.{
  ℕ, suc, ◌+◌, ◌≤◌, true, none, some, List, ◌∷◌, ◌++◌, ◌≡◌, ◌≢◌, ◌∙◌, eqb, arith, length,
  length-append,
}
use at.Prelude.Int.{pos, incr, decr}
use at.Prelude.Result.{ok}
use at.Queue.Ring.{
  Heap, assign, new_element, insert_value, insert, link, unlink, remove_element, remove,
}
use at.Queue.Ring.Shape.{
  Links, count, Distinct, count-append, rotate, assign_other, assign_same, Links-assign_next,
  Links-assign_prev, first, linked_next, linked_prev, Links-linked, unlinked_next, unlinked_prev,
  Links-unlinked,
}

module _ {T : Type 0} where
  -- The list `l` holds the elements `ps`, in order: they are linked in a ring with its root, each
  -- once, they name the list, its length counts them, and all were made before.
  abbrev pub Holds : Heap T → ℕ → List ℕ → Type 0
  Holds h l ps =
      Links h.next h.prev l ps l
      × Distinct (l ∷ ps)
      × (h.len l ≡ pos (length ps))
      × ((p : ℕ) → 1 ≤ count p ps → h.list p ≡ some l)
      × ((p : ℕ) → h.fresh ≤ p → count p (l ∷ ps) ≡ 0)

  -- The store after a new element with the value `v` was put between `p` and `n` in `l`.
  abbrev pub inserted : Heap T → ℕ → ℕ → ℕ → T → Heap T
  inserted h l p n v = record {
    next = linked_next (assign h.fresh none h.next) h.fresh p n;
    prev = linked_prev (assign h.fresh none h.prev) h.fresh p n;
    list = assign h.fresh (some l) (assign h.fresh none h.list);
    value = assign h.fresh v h.value;
    len = assign l (incr (h.len l)) h.len;
    fresh = suc h.fresh;
  }

  pub insert_value_run :
      (h : Heap T) (l p n : ℕ) (v : T)
      → h.next p ≡ some n
      → p ≢ h.fresh
      → insert_value l v (some p) h ≡ (ok (some h.fresh), inserted h l p n v)
  unfolding insert_value insert link new_element
  insert_value_run h l p n v hn apart =
      let e₁ : assign h.fresh none h.next p ≡ some n =
        assign_other h.next h.fresh p none apart ∙ hn in
      let e₂ = assign_same (assign h.fresh none h.prev) h.fresh (some p) in
      let e₃ : linked_next (assign h.fresh none h.next) h.fresh p n h.fresh ≡ some n =
        ground arith in
      rw (e₁, e₂, e₃)

  -- The store after `e` was taken out between `p` and `n` in `l`.
  abbrev pub removed : Heap T → ℕ → ℕ → ℕ → ℕ → Heap T
  removed h l e p n = record h {
    next = unlinked_next h.next e p n;
    prev = unlinked_prev h.prev e p n;
    list = assign e none h.list;
    len = assign l (decr (h.len l)) h.len;
  }

  pub remove_run :
      (h : Heap T) (l e p n : ℕ)
      → h.prev e ≡ some p
      → h.next e ≡ some n
      → p ≢ e
      → h.list e ≡ some l
      → remove l (some e) h ≡ (ok (h.value e), removed h l e p n)
  unfolding remove remove_element unlink
  remove_run h l e p n hp hn apart own =
      let e₁ : assign p (h.next e) h.next e ≡ h.next e = ground arith in
      let same_list : eqb l l ≡ true = ground arith in rw (own, same_list, hp, e₁, hn, hp)

  pub inserted_front :
      (h : Heap T) (l : ℕ) (ps : List ℕ) (v : T)
      → Holds h l ps
      → Holds (inserted h l l (first l ps) v) l (h.fresh ∷ ps)
  inserted_front h l ps v (links, once, size, own, old) = (
    Links-linked _ _ e l ps
        (Links-assign_next _ _ e none l l ps (old e (ground arith))
          (Links-assign_prev _ _ e none l l ps (old e (ground arith)) links))
        distinct,
    ground arith,
    ground arith,
    ground arith,
    ground arith,
  )
    where
      e : ℕ
      e = h.fresh

      distinct : Distinct (h.fresh ∷ l ∷ ps)
      distinct x = let a = once x in let b = old h.fresh in ground arith

  pub inserted_after :
      (h : Heap T) (l p : ℕ) (fs bs : List ℕ) (v : T)
      → Holds h l (fs ++ (p ∷ bs))
      → Holds (inserted h l p (first p (bs ++ (l ∷ fs))) v) l (fs ++ (p ∷ h.fresh ∷ bs))
  inserted_after h l p fs bs v (links, once, size, own, old) = (
    rotate _ _ p l (h.fresh ∷ bs) fs (
        Links-linked _ _ h.fresh p rest
          (Links-assign_next _ _ h.fresh none p p rest (around h.fresh ∙ old h.fresh (ground arith))
            (Links-assign_prev _ _ h.fresh none p p rest
              (around h.fresh ∙ old h.fresh (ground arith)) (rotate _ _ l p fs bs links)))
          distinct),
    (λ x.
        let a = once x in
        let b = old h.fresh in
        let c = count-append x fs (p ∷ h.fresh ∷ bs) in
        let d = count-append x fs (p ∷ bs) in ground arith),
    size',
    own',
    old',
  )
    where
      rest : List ℕ
      rest = bs ++ (l ∷ fs)

      around : (x : ℕ) → count x (p ∷ (bs ++ (l ∷ fs))) ≡ count x (l ∷ (fs ++ (p ∷ bs)))
      around x = omega (arith, count-append x bs (l ∷ fs), count-append x fs (p ∷ bs))

      distinct : Distinct (h.fresh ∷ p ∷ (bs ++ (l ∷ fs)))
      distinct x =
          let a = once x in
          let b = old h.fresh in
          let c = count-append x bs (l ∷ fs) in let d = count-append x fs (p ∷ bs) in ground arith

      size' : assign l (incr (h.len l)) h.len l ≡ pos (length (fs ++ (p ∷ h.fresh ∷ bs)))
      size' =
          let c = length-append fs (p ∷ h.fresh ∷ bs) in
          let d = length-append fs (p ∷ bs) in ground arith

      own' :
          (x : ℕ)
          → 1 ≤ count x (fs ++ (p ∷ h.fresh ∷ bs))
          → assign h.fresh (some l) (assign h.fresh none h.list) x ≡ some l
      own' x =
          let c = count-append x fs (p ∷ h.fresh ∷ bs) in
          let d = count-append x fs (p ∷ bs) in let o = own x in ground arith

      old' : (x : ℕ) → suc h.fresh ≤ x → count x (l ∷ (fs ++ (p ∷ h.fresh ∷ bs))) ≡ 0
      old' x =
          let c = count-append x fs (p ∷ h.fresh ∷ bs) in
          let d = count-append x fs (p ∷ bs) in let o = old x in ground arith

  pub removed_front :
      (h : Heap T) (l e : ℕ) (ps : List ℕ)
      → Holds h l (e ∷ ps)
      → Holds (removed h l e l (first l ps)) l ps
  removed_front h l e ps (links, once, size, own, old) = (
    Links-unlinked _ _ e l ps links (λ x. let a = once x in ground arith),
    (λ x. let a = once x in ground arith),
    ground arith,
    (λ x k. let a = once x in let o = own x in ground arith),
    (λ x k. let o = old x in ground arith),
  )

  pub removed_after :
      (h : Heap T) (l p e : ℕ) (fs bs : List ℕ)
      → Holds h l (fs ++ (p ∷ e ∷ bs))
      → Holds (removed h l e p (first p (bs ++ (l ∷ fs)))) l (fs ++ (p ∷ bs))
  removed_after h l p e fs bs (links, once, size, own, old) = (
    rotate _ _ p l bs fs
        (Links-unlinked _ _ e p (bs ++ (l ∷ fs)) (rotate _ _ l p fs (e ∷ bs) links) distinct),
    (λ x. let a = once x in let c = long x in let d = short x in ground arith),
    size',
    (λ x k. let a = once x in let o = own x in let c = long x in let d = short x in ground arith),
    (λ x k. let o = old x in let c = long x in let d = short x in ground arith),
  )
    where
      long : (x : ℕ) → count x (fs ++ (p ∷ e ∷ bs)) ≡ count x fs + count x (p ∷ e ∷ bs)
      long x = count-append x fs (p ∷ e ∷ bs)

      short : (x : ℕ) → count x (fs ++ (p ∷ bs)) ≡ count x fs + count x (p ∷ bs)
      short x = count-append x fs (p ∷ bs)

      distinct : Distinct (e ∷ p ∷ (bs ++ (l ∷ fs)))
      distinct x =
          let a = once x in let c = count-append x bs (l ∷ fs) in let d = long x in ground arith

      size' : assign l (decr (h.len l)) h.len l ≡ pos (length (fs ++ (p ∷ bs)))
      size' =
          let c = length-append fs (p ∷ e ∷ bs) in let d = length-append fs (p ∷ bs) in ground arith
