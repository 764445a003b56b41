-- ===== src/Pubsub/Closing.antt =====
-- pubsub/channels.go: what Close does to the queues of a bus.
use at.Prelude.{
  ℕ, zero, suc, ◌+◌, ◌-◌, ◌≤◌, ◌<◌, ◌≡◌, ◌≢◌, ◌⊎◌, inl, inr, refl, sym, ap, subst, ◌∙◌, arith, Bool,
  true, false, Option, none, some, List, [], ◌∷◌, ◌++◌, length, get_elem?, set, take, length-set,
  eqb, if◌then◌else◌, Bool-cases, Option-cases,
}
use at.Prelude.Int.{pos, negsuc}
use at.Prelude.Result.{Result, ok, err, panic}
use at.Prelude.Exec.{continue}
use at.Array
use at.Pubsub.{
  Queue, Bus, mark, mark_removed, with_queues, remove, close_channels, close_chan, close_slot,
  close_loop, close,
}

module _ {A : Type 0} where
  get_elem?_bound : (xs : List A) (i : ℕ) (a : A) → get_elem? xs i ≡ some a → i < length xs
  get_elem?_bound [] i a h = cc
  get_elem?_bound (x ∷ xs) zero a h = omega arith
  get_elem?_bound (x ∷ xs) (suc i) a h = omega (arith, get_elem?_bound xs i a h)

  get_elem?-take :
      (n : ℕ) (xs : List A) (i : ℕ) (a : A)
      → get_elem? (take n xs) i ≡ some a
      → get_elem? xs i ≡ some a
  get_elem?-take zero xs i a h = cc
  get_elem?-take (suc n) [] i a h = h
  get_elem?-take (suc n) (x ∷ xs) zero a h = h
  get_elem?-take (suc n) (x ∷ xs) (suc i) a h = get_elem?-take n xs i a h

  get_elem?-set :
      (xs : List A) (i j : ℕ) (a : A) → i ≢ j → get_elem? (set xs i a) j ≡ get_elem? xs j
  get_elem?-set [] i j a h = refl
  get_elem?-set (x ∷ xs) zero zero a h = absurd (h refl)
  get_elem?-set (x ∷ xs) zero (suc j) a h = refl
  get_elem?-set (x ∷ xs) (suc i) zero a h = refl
  get_elem?-set (x ∷ xs) (suc i) (suc j) a h = get_elem?-set xs i j a (λ e. h (ap suc e))

  length-take : (n : ℕ) (xs : List A) → length (take n xs) ≤ n
  length-take zero xs = omega arith
  length-take (suc n) [] = omega arith
  length-take (suc n) (x ∷ xs) = omega (arith, length-take n xs)

-- From the place `i` on, each queue has its place as its index.
abbrev pub IndexedFrom : ℕ → List Queue → Type 0
IndexedFrom i qs = (j : ℕ) (q : Queue) → i ≤ j → get_elem? qs j ≡ some q → q.ix ≡ pos j

mark-IndexedFrom :
    (i : ℕ) (o : Option Queue) (qs : List Queue)
    → IndexedFrom (suc i) qs
    → IndexedFrom (suc i) (mark i o qs)
unfolding mark
mark-IndexedFrom i none qs h j q l e = h j q l e
mark-IndexedFrom i (some m) qs h j q l e =
    h j q l (sym (get_elem?-set qs i j (record m { ix = negsuc 0 }) (λ s. omega (arith, l, s))) ∙ e)

length-mark : (i : ℕ) (o : Option Queue) (qs : List Queue) → length (mark i o qs) ≡ length qs
unfolding mark
length-mark i none qs = refl
length-mark i (some m) qs = length-set qs i (record m { ix = negsuc 0 })

-- The slice that Remove at `i` returns is shorter, and the same behind `i`.
remove-Shorter :
    (i : ℕ) (qs left : List Queue)
    → Array.remove i qs ≡ ok left
    → IndexedFrom i qs
    → (suc (length left) ≤ length qs) × IndexedFrom (suc i) left
unfolding Array.remove
remove-Shorter i qs left h indexed = elim (Option-cases (get_elem? qs (length qs - 1))) [
  | inl e ↦ let z : ◌≡◌ {A = Result (List Queue)} panic (ok left) = rw (Array.remove, e) at h in cc
  | inr (last, e) ↦ elim (Option-cases (get_elem? qs i)) [
    | inl e' ↦
        let z : ◌≡◌ {A = Result (List Queue)} panic (ok left) = rw (Array.remove, e, e') at h in cc
    | inr (old, e') ↦
        shorter last (at.Prelude.Result.ok_injective (rw (Array.remove, e, e') at h))
          (get_elem?_bound qs i old e')
  ]
]
  where
    shorter :
        (last : Queue)
        → take (length qs - 1) (set qs i last) ≡ left
        → i < length qs
        → (suc (length left) ≤ length qs) × IndexedFrom (suc i) left
    shorter last e bound =
        let kept = take (length qs - 1) (set qs i last) in
        let short : suc (length kept) ≤ length qs =
          omega (arith, length-take (length qs - 1) (set qs i last), bound) in
        let behind : IndexedFrom (suc i) kept = λ j q l f. indexed j q (omega (arith, l)) (
          sym (get_elem?-set qs i j last (λ s. omega (arith, l, s)))
          ∙ get_elem?-take (length qs - 1) (set qs i last) j q f) in
        subst (λ x. (suc (length x) ≤ length qs) × IndexedFrom (suc i) x) e (short, behind)

remove_no_error :
    (i : ℕ) (qs : List Queue) (x : at.Prelude.Result.Error) → Array.remove i qs ≢ err x
unfolding Array.remove
remove_no_error i qs x h = elim (Option-cases (get_elem? qs (length qs - 1))) [
  | inl e ↦ let z : ◌≡◌ {A = Result (List Queue)} panic (err x) = rw (Array.remove, e) at h in cc
  | inr (last, e) ↦ elim (Option-cases (get_elem? qs i)) [
    | inl e' ↦
        let z : ◌≡◌ {A = Result (List Queue)} panic (err x) = rw (Array.remove, e, e') at h in cc
    | inr (old, e') ↦
        let z : ◌≡◌ {A = Result (List Queue)} (ok (take (length qs - 1) (set qs i last))) (err x) =
          rw (Array.remove, e, e') at h in
        cc
  ]
]

module _ {E : Type 0} where
  -- Closing the queue in the place `i` panics, or leaves fewer queues.
  CloseStep : ℕ → Bus E → Result (Unit {0}) × Bus E → Type 0
  CloseStep i cb r =
      (r.0 ≡ panic)
      ⊎ ((r.0 ≡ ok tt)
          × (i < length cb.queues)
          × (suc (length r.1.queues) ≤ length cb.queues)
          × IndexedFrom (suc i) r.1.queues)

  slot_closed :
      (i : ℕ) (q : Queue) (cb : Bus E)
      → IndexedFrom i cb.queues
      → get_elem? cb.queues i ≡ some q
      → q.ix ≡ pos i
      → CloseStep i cb (close_slot i (some q) cb)
  unfolding close_slot close_channels CloseStep remove with_queues mark_removed
  slot_closed i q cb indexed found place = elim (Bool-cases (cb.closed q.chan)) [
    | inl e ↦ rw e (inl refl)
    | inr e ↦ rw (e, place) (removed (Array.remove i cb.queues) refl)
  ]
    where
      cb' : Bus E
      cb' = record cb { closed = close_chan cb.closed q.chan }

      removed :
          (r : Result (List Queue))
          → Array.remove i cb.queues ≡ r
          → CloseStep i cb (
              continue
                (remove (pos i) cb').0
                (remove (pos i) cb').1
                (λ _ left. (ok tt, mark_removed (pos i) i left)))
      removed (ok left) e = rw e (
          let (short, behind) = remove-Shorter i cb.queues left e indexed in
          let o = get_elem? left i in
          inr (
            refl,
            get_elem?_bound cb.queues i q found,
            subst (λ n. suc n ≤ length cb.queues) (sym (length-mark i o left)) short,
            mark-IndexedFrom i o left behind,
          ))
      removed (err x) e = absurd (remove_no_error i cb.queues x e)
      removed panic e = rw e (inl refl)

  slot-CloseStep :
      (i : ℕ) (cb : Bus E)
      → IndexedFrom i cb.queues
      → CloseStep i cb (close_slot i (get_elem? cb.queues i) cb)
  slot-CloseStep i cb indexed = go (get_elem? cb.queues i) refl
    where
      go : (o : Option Queue) → get_elem? cb.queues i ≡ o → CloseStep i cb (close_slot i o cb)
      go none e = unfold close_slot CloseStep in inl refl
      go (some q) e = slot_closed i q cb indexed e (indexed i q (omega arith) e)

  close_loop_panics :
      (r i : ℕ) (cb : Bus E)
      → 1 ≤ i
      → 1 ≤ r
      → length cb.queues ≤ r
      → IndexedFrom i cb.queues
      → (close_loop i r cb).0 ≡ panic
  unfolding close_loop CloseStep
  close_loop_panics zero i cb l m n indexed = absurd (omega (arith, m))
  close_loop_panics (suc r) i cb l m n indexed =
      let s = close_slot i (get_elem? cb.queues i) cb in
      elim (slot-CloseStep i cb indexed) [
        | inl p ↦ rw p
        | inr (done, bound, short, behind) ↦ rw done (
            close_loop_panics r (suc i) s.1 (omega arith) (omega (arith, l, n, bound))
              (omega (arith, n, short)) behind)
      ]

  -- Close panics on a bus with two subscribers or more whose queues have their places as their
  -- indexes: the loop counts the queues first, and each round removes one.
  pub close_panics :
      (cb : Bus E) → 2 ≤ length cb.queues → IndexedFrom 0 cb.queues → (close cb).0 ≡ panic
  unfolding close close_loop CloseStep
  close_panics cb two indexed = go (length cb.queues) refl
    where
      go : (n : ℕ) → length cb.queues ≡ n → (close cb).0 ≡ panic
      go zero e = absurd (omega (arith, two, e))
      go (suc r) e =
          let s = close_slot 0 (get_elem? cb.queues 0) cb in
          elim (slot-CloseStep 0 cb indexed) [
            | inl p ↦ rw (e, p)
            | inr (done, bound, short, behind) ↦ rw (
              e,
              done,
              close_loop_panics r 1 s.1 (omega arith) (omega (arith, two, e))
                  (omega (arith, e, short)) behind,
            )
          ]
