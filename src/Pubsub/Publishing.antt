-- ===== src/Pubsub/Publishing.antt =====
-- pubsub/channels.go: subscribing, closing the latest subscriber, and publishing.
use at.Prelude.{
  ◌≤◌, eqb, ℕ, zero, suc, ◌-◌, ◌<◌, ◌≡◌, ◌⊎◌, inl, inr, refl, sym, ap, subst, ◌∙◌, arith, false,
  Option, none, some, List, [], ◌∷◌, ◌++◌, map, append-nil, append_assoc, length, length-append,
  get_elem?, set, take,
}
use at.Prelude.Int.{pos, negsuc}
use at.Prelude.Result.{Error, ok}
use at.Array
use at.Pubsub.Closing.{IndexedFrom}
use at.Pubsub.{
  close_chan, Queue, Bus, subscriber, with_queues, remove, close_channels, queue_close, send,
  send_all, publish,
}

get_elem?-append-last :
    {A : Type 0} (xs : List A) (a : A) → get_elem? (xs ++ a ∷ []) (length xs) ≡ some a
get_elem?-append-last [] a = refl
get_elem?-append-last (x ∷ xs) a = get_elem?-append-last xs a

set-append-last :
    {A : Type 0} (xs : List A) (a : A) → set (xs ++ a ∷ []) (length xs) a ≡ xs ++ a ∷ []
set-append-last [] a = refl
set-append-last (x ∷ xs) a = ap (λ l. x ∷ l) (set-append-last xs a)

take-append-length : {A : Type 0} (xs ys : List A) → take (length xs) (xs ++ ys) ≡ xs
take-append-length [] ys = refl
take-append-length (x ∷ xs) ys = ap (λ l. x ∷ l) (take-append-length xs ys)

get_elem?-append :
    {A : Type 0} (xs : List A) (a b : A) (j : ℕ)
    → get_elem? (xs ++ a ∷ []) j ≡ some b
    → (get_elem? xs j ≡ some b) ⊎ ((j ≡ length xs) × (a ≡ b))
get_elem?-append [] a b zero h = inr (refl, cc)
get_elem?-append [] a b (suc j) h = cc
get_elem?-append (x ∷ xs) a b zero h = inl h
get_elem?-append (x ∷ xs) a b (suc j) h = elim (get_elem?-append xs a b j h) [
  | inl e ↦ inl e
  | inr (e, q) ↦ inr (ap suc e, q)
]

remove_last : (qs : List Queue) (q : Queue) → Array.remove (length qs) (qs ++ q ∷ []) ≡ ok qs
unfolding Array.remove
remove_last qs q =
    let one : length (qs ++ q ∷ []) - 1 ≡ length qs = omega (arith, length-append qs (q ∷ [])) in
    let last = get_elem?-append-last qs q in
    rw (Array.remove, one, last, last, one, set-append-last qs q, take-append-length qs (q ∷ []))

module _ {E : Type 0} where
  -- Each queue of the bus has its place as its index and a number below the next one, and neither a
  -- queue of the bus nor a later one is closed.
  pub record IsOpen (cb : Bus E) : Type 0 where
    pub indexed : IndexedFrom 0 cb.queues
    pub known : (j : ℕ) (q : Queue) → get_elem? cb.queues j ≡ some q → q.chan < cb.next
    pub alive : (j : ℕ) (q : Queue) → get_elem? cb.queues j ≡ some q → cb.closed q.chan ≡ false
    pub fresh : (c : ℕ) → cb.next ≤ c → cb.closed c ≡ false

  -- Subscribing to an open bus leaves it open, with one queue more.
  pub subscriber-IsOpen :
      (cb : Bus E)
      → IsOpen cb
      → IsOpen (subscriber cb).1 × ((subscriber cb).1.queues ≡ cb.queues ++ (subscriber cb).0 ∷ [])
  unfolding subscriber
  subscriber-IsOpen cb h = (
    record {
      indexed = places;
      known = numbers;
      alive = living;
      fresh = λ c l. h.fresh c (omega (arith, l));
    },
    refl,
  )
    where
      new : Queue
      new = record { chan = cb.next; ix = pos (length cb.queues) }

      places : IndexedFrom 0 (cb.queues ++ new ∷ [])
      places j q l e = elim (get_elem?-append cb.queues new q j e) [
        | inl old ↦ h.indexed j q l old
        | inr (at, same) ↦ subst (λ (x : Queue). x.ix ≡ pos j) same (ap pos (sym at))
      ]

      numbers :
          (j : ℕ) (q : Queue) → get_elem? (cb.queues ++ new ∷ []) j ≡ some q → q.chan < suc cb.next
      numbers j q e = elim (get_elem?-append cb.queues new q j e) [
        | inl old ↦ omega (arith, h.known j q old)
        | inr (at, same) ↦ subst (λ (x : Queue). x.chan < suc cb.next) same (omega arith)
      ]

      living :
          (j : ℕ) (q : Queue)
          → get_elem? (cb.queues ++ new ∷ []) j ≡ some q
          → cb.closed q.chan ≡ false
      living j q e = elim (get_elem?-append cb.queues new q j e) [
        | inl old ↦ h.alive j q old
        | inr (at, same) ↦
            subst (λ (x : Queue). cb.closed x.chan ≡ false) same (h.fresh cb.next (omega arith))
      ]

  -- What a bus is when the latest subscriber has closed its queue.
  abbrev after_close : Bus E → Bus E
  after_close cb = record cb { closed = close_chan cb.closed cb.next; next = suc cb.next }

  after_close-IsOpen : (cb : Bus E) → IsOpen cb → IsOpen (after_close cb)
  after_close-IsOpen cb h = record {
    indexed = h.indexed;
    known = λ j q e. omega (arith, h.known j q e);
    alive = λ j q e.
        let lower : q.chan < cb.next = h.known j q e in
        let other : eqb q.chan cb.next ≡ false = ground arith in rw other (h.alive j q e);
    fresh = λ c l.
        let other : eqb c cb.next ≡ false = ground arith in rw other (h.fresh c (omega (arith, l)));
  }

  -- Closing the latest subscriber of an open bus succeeds, takes its queue off the bus, leaves the
  -- other queues as they were, and leaves the bus open.
  pub queue_close-subscriber :
      (cb : Bus E)
      → IsOpen cb
      → ((queue_close (subscriber cb).0 (subscriber cb).1).0
          ≡ ok (record (subscriber cb).0 { ix = negsuc 0 }))
        × ((queue_close (subscriber cb).0 (subscriber cb).1).1.queues ≡ cb.queues)
        × IsOpen (queue_close (subscriber cb).0 (subscriber cb).1).1
  unfolding queue_close close_channels subscriber remove with_queues
  queue_close-subscriber cb h =
      let gone = remove_last cb.queues (record { chan = cb.next; ix = pos (length cb.queues) }) in
      let new = h.fresh cb.next (omega arith) in
      (rw (new, gone), rw (new, gone), rw (new, gone) (after_close-IsOpen cb h))

  send_all-sent :
      (outcome : ℕ → Option Error) (evt : E) (qs : List Queue) (cb : Bus E)
      → ((j : ℕ) (q : Queue) → get_elem? qs j ≡ some q → cb.closed q.chan ≡ false)
      → ((c : ℕ) → outcome c ≡ none)
      → send_all outcome evt qs cb
        ≡ (ok tt, record cb { sent = cb.sent ++ map (λ q. (q.chan, evt)) qs })
  unfolding send_all send
  send_all-sent outcome evt [] cb alive all =
      ap (λ l. (ok tt, record cb { sent = l })) (sym (append-nil cb.sent))
  send_all-sent outcome evt (q ∷ qs) cb alive all =
      let sent = record cb { sent = cb.sent ++ (q.chan, evt) ∷ [] } in
      rw (send, all q.chan, alive zero q refl)
        (send_all-sent outcome evt qs sent (λ j x e. alive (suc j) x e) all
          ∙ ap (λ l. (ok tt, record cb { sent = l }))
              (append_assoc cb.sent ((q.chan, evt) ∷ []) (map (λ x. (x.chan, evt)) qs)))

  -- On an open bus whose subscribers receive, an event is sent to each queue once, in their order,
  -- and nothing else changes.
  pub publish_lem :
      (outcome : ℕ → Option Error) (evt : E) (cb : Bus E)
      → IsOpen cb
      → ((c : ℕ) → outcome c ≡ none)
      → publish outcome evt cb
        ≡ (ok tt, record cb { sent = cb.sent ++ map (λ q. (q.chan, evt)) cb.queues })
  unfolding publish
  publish_lem outcome evt cb h all = send_all-sent outcome evt cb.queues cb h.alive all
