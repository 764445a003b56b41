-- ===== src/Queue/Ring/Sequences.antt =====
-- queue/list.go: a list as the sequence of its elements, and the exported operations on it.
use at.Prelude.{
  ℕ, ◌≤◌, true, Option, some, List, [], ◌∷◌, ◌++◌, ◌≡◌, ◌≢◌, refl, sym, ap, subst, ◌∙◌, eqb, arith,
  append_assoc, ◌⊎◌, inl, inr,
}
use at.Prelude.Result.{Result, ok}
use at.Xiter.Lists.{map_list}
use at.Queue.Ring.{Heap, assign, remove, push_front, push_back, lazy_init, insert_value}
use at.Queue.Ring.Places.{insert_after}
use at.Queue.Ring.Shape.{count, count-append, first, next-first, rotate, Links-split}
use at.Queue.Ring.Laws.{
  Holds, inserted, insert_value_run, remove_run, inserted_front, inserted_after, removed_front,
  removed_after,
}

snoc_cases : (ps : List ℕ) → (ps ≡ []) ⊎ ((fs : List ℕ) × (p : ℕ) × (ps ≡ fs ++ (p ∷ [])))
snoc_cases [] = inl refl
snoc_cases (p ∷ ps) = elim (snoc_cases ps) [
  | inl e ↦ inr ([], p, ap (λ qs. p ∷ qs) e)
  | inr (fs, q, e) ↦ inr (p ∷ fs, q, ap (λ qs. p ∷ qs) e)
]

module _ {T : Type 0} where
  -- The values of some elements of a store.
  abbrev pub values : Heap T → List ℕ → List T
  values h = map_list h.value

  values_assign :
      (f : ℕ → T) (x : ℕ) (v : T) (ps : List ℕ)
      → count x ps ≡ 0
      → map_list (assign x v f) ps ≡ map_list f ps
  values_assign f x v [] c = refl
  values_assign f x v (p ∷ ps) c =
      let rest = values_assign f x v ps (ground arith) in
      let here : assign x v f p ≡ f p = ground arith in rw (here, rest)

  values_new :
      (f : ℕ → T) (x : ℕ) (v : T) (ps qs : List ℕ)
      → count x ps ≡ 0
      → count x qs ≡ 0
      → map_list (assign x v f) (ps ++ (x ∷ qs)) ≡ map_list f ps ++ (v ∷ map_list f qs)
  values_new f x v [] qs c d =
      let here : assign x v f x ≡ v = ground arith in rw (here, values_assign f x v qs d)
  values_new f x v (p ∷ ps) qs c d =
      let here : assign x v f p ≡ f p = ground arith in
      rw (here, values_new f x v ps qs (ground arith) d)

  lazy_init_run : (h : Heap T) (l : ℕ) (ps : List ℕ) → Holds h l ps → lazy_init l h ≡ (ok tt, h)
  unfolding lazy_init
  lazy_init_run h l ps holds = rw (next-first h.next h.prev l l ps holds.0)

  not_fresh :
      (h : Heap T) (l : ℕ) (ps : List ℕ) (p : ℕ) → Holds h l ps → 1 ≤ count p (l ∷ ps) → p ≢ h.fresh
  not_fresh h l ps p (links, once, size, own, old) c = let o = old p in ground arith

  fresh_count : (h : Heap T) (l : ℕ) (ps : List ℕ) → Holds h l ps → count h.fresh ps ≡ 0
  fresh_count h l ps (links, once, size, own, old) = let o = old h.fresh in ground arith

  -- The outcome of an insertion: the new element is returned, the list holds `ps`, and these have
  -- the values `vs`.
  abbrev pub Inserts : Heap T → ℕ → List ℕ → List T → Result (Option ℕ) × Heap T → Type 0
  Inserts h l ps vs r = (r.0 ≡ ok (some h.fresh)) × Holds r.1 l ps × (values r.1 ps ≡ vs)

  push_front_run :
      (h : Heap T) (l : ℕ) (ps : List ℕ) (v : T)
      → Holds h l ps
      → push_front l v h ≡ (ok (some h.fresh), inserted h l l (first l ps) v)
  unfolding push_front
  push_front_run h l ps v holds =
      let made =
        insert_value_run h l l (first l ps) v (next-first h.next h.prev l l ps holds.0)
          (not_fresh h l ps l holds (ground arith)) in
      rw (lazy_init_run h l ps holds, made)

  -- PushFront on a list returns a new element, and puts it with the value in front of the others,
  -- which keep their order and their values.
  pub push_front-Inserts :
      (h : Heap T) (l : ℕ) (ps : List ℕ) (v : T)
      → Holds h l ps
      → Inserts h l (h.fresh ∷ ps) (v ∷ values h ps) (push_front l v h)
  push_front-Inserts h l ps v holds =
      subst (Inserts h l (h.fresh ∷ ps) (v ∷ values h ps)) (sym (push_front_run h l ps v holds)) (
        refl,
        inserted_front h l ps v holds,
        values_new h.value h.fresh v [] ps refl (fresh_count h l ps holds),
      )

  after_run :
      (h : Heap T) (l p : ℕ) (fs bs : List ℕ) (v : T)
      → Holds h l (fs ++ (p ∷ bs))
      → insert_value l v (some p) h
        ≡ (ok (some h.fresh), inserted h l p (first p (bs ++ (l ∷ fs))) v)
  after_run h l p fs bs v holds =
      let c = count-append p fs (p ∷ bs) in
      insert_value_run h l p _ v
        (next-first h.next h.prev p p (bs ++ (l ∷ fs)) (rotate h.next h.prev l p fs bs holds.0))
        (not_fresh h l (fs ++ (p ∷ bs)) p holds (ground arith))

  after-Inserts :
      (h : Heap T) (l p : ℕ) (fs bs : List ℕ) (v : T)
      → Holds h l (fs ++ (p ∷ bs))
      → Inserts h l
          (fs ++ (p ∷ h.fresh ∷ bs))
          (values h (fs ++ (p ∷ [])) ++ (v ∷ values h bs))
          (insert_value l v (some p) h)
  after-Inserts h l p fs bs v holds =
      let c = count-append h.fresh fs (p ∷ bs) in
      let d = count-append h.fresh fs (p ∷ []) in
      let z = fresh_count h l (fs ++ (p ∷ bs)) holds in
      subst
        (Inserts h l (fs ++ (p ∷ h.fresh ∷ bs)) (values h (fs ++ (p ∷ [])) ++ (v ∷ values h bs)))
        (sym (after_run h l p fs bs v holds))
        (
          refl,
          inserted_after h l p fs bs v holds,
          ap (map_list (assign h.fresh v h.value)) (sym (append_assoc fs (p ∷ []) (h.fresh ∷ bs)))
              ∙ values_new h.value h.fresh v (fs ++ (p ∷ [])) bs (ground arith) (ground arith),
        )

  -- InsertAfter at an element of a list returns a new element, and puts it with the value right
  -- after the mark; the others keep their order and their values.
  pub insert_after-Inserts :
      (h : Heap T) (l mark : ℕ) (fs bs : List ℕ) (v : T)
      → Holds h l (fs ++ (mark ∷ bs))
      → Inserts h l
          (fs ++ (mark ∷ h.fresh ∷ bs))
          (values h (fs ++ (mark ∷ [])) ++ (v ∷ values h bs))
          (insert_after l v (some mark) h)
  unfolding insert_after
  insert_after-Inserts h l mark fs bs v holds =
      let (links, once, size, own, old) = holds in
      let c = count-append mark fs (mark ∷ bs) in
      let here : h.list mark ≡ some l = own mark (ground arith) in
      let same_list : eqb l l ≡ true = ground arith in
      rw (here, same_list) (after-Inserts h l mark fs bs v holds)

  push_back_empty :
      (h : Heap T) (l : ℕ) (v : T)
      → Holds h l []
      → Inserts h l (h.fresh ∷ []) (v ∷ []) (push_back l v h)
  unfolding push_back
  push_back_empty h l v holds =
      let made = insert_value_run h l l l v holds.0.0 (not_fresh h l [] l holds (ground arith)) in
      let run : push_back l v h ≡ (ok (some h.fresh), inserted h l l l v) =
        rw (lazy_init_run h l [] holds, holds.0.1, made) in
      subst (Inserts h l (h.fresh ∷ []) (v ∷ [])) (sym run)
        (refl, inserted_front h l [] v holds, values_new h.value h.fresh v [] [] refl refl)

  push_back_full :
      (h : Heap T) (l : ℕ) (fs : List ℕ) (p : ℕ) (v : T)
      → Holds h l (fs ++ (p ∷ []))
      → Inserts h l
          ((fs ++ (p ∷ [])) ++ (h.fresh ∷ []))
          (values h (fs ++ (p ∷ [])) ++ (v ∷ []))
          (push_back l v h)
  unfolding push_back
  push_back_full h l fs p v holds =
      let back = (Links-split h.next h.prev l p l fs [] holds.0).1 in
      rw (lazy_init_run h l (fs ++ (p ∷ [])) holds, back.1)
        (subst
          (λ ps.
            Inserts h l ps (values h (fs ++ (p ∷ [])) ++ (v ∷ [])) (insert_value l v (some p) h))
          (sym (append_assoc fs (p ∷ []) (h.fresh ∷ []))) (after-Inserts h l p fs [] v holds))

  -- PushBack on a list returns a new element, and puts it with the value behind the others, which
  -- keep their order and their values.
  pub push_back-Inserts :
      (h : Heap T) (l : ℕ) (ps : List ℕ) (v : T)
      → Holds h l ps
      → Inserts h l (ps ++ (h.fresh ∷ [])) (values h ps ++ (v ∷ [])) (push_back l v h)
  push_back-Inserts h l ps v holds = elim (snoc_cases ps) [
    | inl e ↦ at_end [] e (push_back_empty h l v)
    | inr (fs, p, e) ↦ at_end (fs ++ (p ∷ [])) e (push_back_full h l fs p v)
  ]
    where
      at_end :
          (qs : List ℕ)
          → ps ≡ qs
          → (Holds h l qs
              → Inserts h l (qs ++ (h.fresh ∷ [])) (values h qs ++ (v ∷ [])) (push_back l v h))
          → Inserts h l (ps ++ (h.fresh ∷ [])) (values h ps ++ (v ∷ [])) (push_back l v h)
      at_end qs e step =
          subst
            (λ rs. Inserts h l (rs ++ (h.fresh ∷ [])) (values h rs ++ (v ∷ [])) (push_back l v h))
            (sym e) (step (subst (Holds h l) e holds))

  -- The outcome of a removal of `e`: its value is returned, the list holds `ps`, and no value has
  -- changed.
  abbrev pub Removes : Heap T → ℕ → ℕ → List ℕ → Result T × Heap T → Type 0
  Removes h l e ps r = (r.0 ≡ ok (h.value e)) × Holds r.1 l ps × (r.1.value ≡ h.value)

  remove_front :
      (h : Heap T) (l e : ℕ) (bs : List ℕ)
      → Holds h l (e ∷ bs)
      → Removes h l e bs (remove l (some e) h)
  remove_front h l e bs holds =
      let ((out, back, links), once, size, own, old) = holds in
      let a = once e in
      subst (Removes h l e bs)
        (sym (
          remove_run h l e l (first l bs) back (next-first h.next h.prev e l bs links)
            (ground arith) (own e (ground arith))))
        (refl, removed_front h l e bs holds, refl)

  remove_after :
      (h : Heap T) (l p e : ℕ) (fs bs : List ℕ)
      → Holds h l (fs ++ (p ∷ e ∷ bs))
      → Removes h l e (fs ++ (p ∷ bs)) (remove l (some e) h)
  remove_after h l p e fs bs holds =
      let (ring, once, size, own, old) = holds in
      let (out, back, links) = rotate h.next h.prev l p fs (e ∷ bs) ring in
      let a = once e in
      let c = count-append e fs (p ∷ e ∷ bs) in
      subst (Removes h l e (fs ++ (p ∷ bs)))
        (sym (
          remove_run h l e p (first p (bs ++ (l ∷ fs))) back
            (next-first h.next h.prev e p (bs ++ (l ∷ fs)) links) (ground arith)
            (own e (ground arith))))
        (refl, removed_after h l p e fs bs holds, refl)

  -- Remove of an element of a list returns its value and takes it out of the list; the others keep
  -- their order, and no element changes its value.
  pub remove-Removes :
      (h : Heap T) (l e : ℕ) (fs bs : List ℕ)
      → Holds h l (fs ++ (e ∷ bs))
      → Removes h l e (fs ++ bs) (remove l (some e) h)
  remove-Removes h l e fs bs holds = elim (snoc_cases fs) [
    | inl q ↦ behind [] q (remove_front h l e bs)
    | inr (gs, p, q) ↦ behind (gs ++ (p ∷ [])) q (λ k.
        subst (λ ps. Removes h l e ps (remove l (some e) h)) (sym (append_assoc gs (p ∷ []) bs))
          (remove_after h l p e gs bs (subst (Holds h l) (append_assoc gs (p ∷ []) (e ∷ bs)) k)))
  ]
    where
      behind :
          (gs : List ℕ)
          → fs ≡ gs
          → (Holds h l (gs ++ (e ∷ bs)) → Removes h l e (gs ++ bs) (remove l (some e) h))
          → Removes h l e (fs ++ bs) (remove l (some e) h)
      behind gs q step =
          subst (λ rs. Removes h l e (rs ++ bs) (remove l (some e) h)) (sym q)
            (step (subst (λ rs. Holds h l (rs ++ (e ∷ bs))) q holds))
