-- ===== src/Pubsub.antt =====
-- pubsub/channels.go: the bus in memory, its subscribers and their closing. A queue is named by a
-- number that stands for its three channels; each call is one step, as its lock makes it, and the
-- goroutine that passes on a subscriber's events is not modelled.
pub mod Closing
pub mod Publishing
mod Tests
use at.Prelude.{
  ℕ, zero, suc, ◌+◌, ◌-◌, Bool, true, false, Option, none, some, List, [], ◌∷◌, ◌++◌, length,
  get_elem?, set, eqb, if◌then◌else◌,
}
use at.Prelude.Int.{ℤ, pos, negsuc}
use at.Prelude.Result.{Error, Result, ok, err, panic, msg}
use at.Prelude.Exec.{Exec, pure, throw, lift, ◌>>=◌, ◌>>◌}
use at.Array

-- The fields `pub`, `sub` and `done` are the channels of `chan`; the bus of a queue is that of the
-- calls.
pub record Queue : Type 0 where
  pub chan : ℕ
  pub ix : ℤ

-- `closed` says which queues' channels `pub` and `done` are closed, `next` is a number that no queue
-- has, and `sent` has the events that were sent, with their queues.
pub record Bus (E : Type 0) : Type 0 where
  pub queues : List Queue
  pub closed : ℕ → Bool
  pub next : ℕ
  pub sent : List (ℕ × E)

abbrev pub new_memory_bus : {E : Type 0} → Bus E
new_memory_bus = record { queues = []; closed = λ c. false; next = 0; sent = [] }

abbrev pub close_chan : (ℕ → Bool) → ℕ → ℕ → Bool
close_chan closed c c' = if eqb c' c then true else closed c'

-- The write `q.ix = -1` to the place `i` of the slice, if the slice has not become too short to
-- show it.
mark : ℕ → Option Queue → List Queue → List Queue
mark i none qs = qs
mark i (some q) qs = set qs i (record q { ix = negsuc 0 })

module _ {E : Type 0} where
  -- The new queue is put on the bus and a copy of it is returned.
  unfoldable pub subscriber : Bus E → Queue × Bus E
  subscriber cb =
      let q : Queue = record { chan = cb.next; ix = pos (length cb.queues) } in
      (q, record cb { queues = cb.queues ++ q ∷ []; next = suc cb.next })

  with_queues : Bus E → Result (List Queue) → Result (Unit {0}) × Bus E
  with_queues cb (ok qs) = (ok tt, record cb { queues = qs })
  with_queues cb (err x) = (err x, cb)
  with_queues cb panic = (panic, cb)

  -- ChannelBus.remove, without the write to `q.ix`, which the callers below do.
  unfoldable pub remove : ℤ → Exec (Bus E) (Unit {0})
  unfolding with_queues
  remove (negsuc n) cb = (ok tt, cb)
  remove (pos n) cb = with_queues cb (Array.remove n cb.queues)

  close_channels : Queue → Exec (Bus E) (Unit {0})
  close_channels q cb =
      if cb.closed q.chan
      then (panic, cb)
      else (ok tt, record cb { closed = close_chan cb.closed q.chan })

  -- Close of the copy that a subscriber has; the copy that is left has the index -1.
  unfoldable pub queue_close : Queue → Exec (Bus E) Queue
  unfolding close_channels
  queue_close q = do close_channels q; remove q.ix; pure (record q { ix = negsuc 0 })

  mark_removed : ℤ → ℕ → Bus E → Bus E
  unfolding mark
  mark_removed (negsuc n) i cb = cb
  mark_removed (pos n) i cb = record cb { queues = mark i (get_elem? cb.queues i) cb.queues }

  -- cb.queues[i].Close(), on the place `i` itself.
  close_slot : ℕ → Option Queue → Exec (Bus E) (Unit {0})
  unfolding close_channels mark_removed
  close_slot i none cb = (panic, cb)
  close_slot i (some q) cb =
      (close_channels q >> remove q.ix >> (λ left. (ok tt, mark_removed q.ix i left))) cb

  -- The rest of the loop of ChannelBus.Close from `i` on, with `r` rounds left.
  close_loop : ℕ → ℕ → Exec (Bus E) (Unit {0})
  unfolding close_slot
  close_loop i zero cb = (ok tt, cb)
  close_loop i (suc r) cb = (close_slot i (get_elem? cb.queues i) >> close_loop (suc i) r) cb

  check_closed : List Queue → Exec (Bus E) (Unit {0})
  check_closed [] cb = (ok tt, record cb { queues = [] })
  check_closed (q ∷ qs) cb = (err (msg "failed to close all subscribers"), cb)

  unfoldable pub close : Exec (Bus E) (Unit {0})
  unfolding close_loop check_closed
  close cb = (close_loop 0 (length cb.queues) >> (λ left. check_closed left.queues left)) cb

  -- Pub of a queue. `outcome` says which case the select takes: the error of a context that has
  -- ended, or the send, which panics on a closed channel.
  send : (ℕ → Option Error) → E → Queue → Exec (Bus E) (Unit {0})
  send outcome evt q cb = elim (outcome q.chan) [
    | some x ↦ (err x, cb)
    | none ↦
        if cb.closed q.chan
        then (panic, cb)
        else (ok tt, record cb { sent = cb.sent ++ (q.chan, evt) ∷ [] })
  ]

  send_all : (ℕ → Option Error) → E → List Queue → Exec (Bus E) (Unit {0})
  unfolding send
  send_all outcome evt [] = pure tt
  send_all outcome evt (q ∷ qs) = send outcome evt q >> send_all outcome evt qs

  -- ChannelBus.pub
  unfoldable pub publish : (ℕ → Option Error) → E → Exec (Bus E) (Unit {0})
  unfolding send_all
  publish outcome evt cb = send_all outcome evt cb.queues cb
