-- ===== src/Pubsub/Tests.antt =====
-- A bus with two subscribers, and the theorems about it.
use at.Prelude.{ℕ, zero, suc, ◌<◌, ◌≡◌, refl, subst, arith, Option, none, some, [], ◌∷◌, get_elem?}
use at.Prelude.Int.{pos, negsuc}
use at.Prelude.Result.{ok, panic}
use at.Array
use at.Pubsub.{Queue, Bus, new_memory_bus, subscriber, remove, queue_close, close}
use at.Pubsub.Closing.{IndexedFrom, close_panics}
use at.Pubsub.Publishing.{IsOpen, subscriber-IsOpen, queue_close-subscriber}

abbrev first : Queue
first = record { chan = 0; ix = pos 0 }

abbrev second : Queue
second = record { chan = 1; ix = pos 1 }

abbrev one : Bus ℕ
one = record new_memory_bus { queues = first ∷ []; next = 1 }

abbrev two : Bus ℕ
two = record new_memory_bus { queues = first ∷ second ∷ []; next = 2 }

subscribed : (subscriber new_memory_bus ≡ (first, one)) × (subscriber one ≡ (second, two))
unfolding subscriber
subscribed = (refl, refl)

-- Closing the first subscriber moves the second queue, whose own Close then panics.
closed_in_order : (queue_close second (queue_close first two).1).0 ≡ panic
unfolding queue_close remove Array.remove
closed_in_order = refl

one-IsOpen : IsOpen one
one-IsOpen = record {
  indexed = λ j q l h. places j q h;
  known = λ j q h. numbers j q h;
  alive = λ j q h. refl;
  fresh = λ c l. refl;
}
  where
    places : (j : ℕ) (q : Queue) → get_elem? (first ∷ []) j ≡ some q → q.ix ≡ pos j
    places zero q h = cc
    places (suc j) q h = cc

    below : Option Queue → Type 0
    below none = Unit
    below (some x) = x.chan < 1

    numbers : (j : ℕ) (q : Queue) → get_elem? (first ∷ []) j ≡ some q → q.chan < 1
    numbers zero q h = subst below h (omega arith)
    numbers (suc j) q h = cc

two_indexed : IndexedFrom 0 two.queues
two_indexed zero q l h = cc
two_indexed (suc zero) q l h = cc
two_indexed (suc (suc j)) q l h = cc

close_panics_example : (close two).0 ≡ panic
close_panics_example = close_panics two (omega arith) two_indexed

subscriber-IsOpen_example :
    IsOpen (subscriber one).1 × ((subscriber one).1.queues ≡ first ∷ (subscriber one).0 ∷ [])
subscriber-IsOpen_example = subscriber-IsOpen one one-IsOpen

queue_close-subscriber_example :
    ((queue_close (subscriber one).0 (subscriber one).1).0
      ≡ ok (record (subscriber one).0 { ix = negsuc 0 }))
    × ((queue_close (subscriber one).0 (subscriber one).1).1.queues ≡ first ∷ [])
    × IsOpen (queue_close (subscriber one).0 (subscriber one).1).1
queue_close-subscriber_example = queue_close-subscriber one one-IsOpen
