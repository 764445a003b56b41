-- ===== src/Parallel.antt =====
-- internal/parallel: jobs that run in goroutines and send their outcomes over one channel without a
-- buffer to the function that started them. Every access to the channel or the context is one step,
-- in any order.
pub mod First
pub mod Do
pub mod Dropped
pub mod MapJobs
pub mod Runs
pub mod Progress
mod Tests
use at.Prelude.{
  ℕ, ◌<◌, ◌≡◌, Bool, true, false, ◌||◌, Option, none, some, List, [], ◌∷◌, ◌++◌, eqb, if◌then◌else◌,
}
use at.Prelude.Int.{ℤ, pos, is_positive}

abbrev pub update {ℓ} : {A : Type ℓ} → (ℕ → A) → ℕ → A → ℕ → A
update f i a j = if eqb j i then a else f j

-- JobConfig, without its logger; a timeout is in nanoseconds.
pub record JobConfig : Type 0 where
  pub timeout : ℤ

-- The deadline that JobConfig.context adds to a context: none, if the timeout is not positive.
unfoldable pub context : JobConfig → Option ℤ
context jc = if is_positive jc.timeout then some jc.timeout else none

unfoldable pub new_ctrl : Option JobConfig → JobConfig
new_ctrl none = record { timeout = pos 0 }
new_ctrl (some config) = config

-- Jobs.Add and BasicJobs.Add
unfoldable pub add_jobs {ℓ} : {J : Type ℓ} → List J → List J → List J
add_jobs jobs more = jobs ++ more

-- Where the goroutine of a job stands: in the job, before the send of what the job returned, or
-- after its wg.Done.
pub data Place (P : Type 0) : Type 0 where
  running : Place P
  sending : P → Place P
  finished : Place P

-- The caller: in its loop with a local state, or returned.
pub data Main (M R : Type 0) : Type 0 where
  waiting : M → Main M R
  returned : R → Main M R

-- `expired` says that the parent's context or the timeout has ended the context, and `canceled` that
-- the deferred cancel has.
pub record System (P M R : Type 0) : Type 0 where
  pub place : ℕ → Place P
  pub expired : Bool
  pub canceled : Bool
  pub closed : Bool
  pub main : Main M R

module _ {P M R : Type 0} where
  -- ctx.Done is closed.
  abbrev pub done : System P M R → Bool
  done s = s.expired || s.canceled

  abbrev pub put : System P M R → ℕ → Place P → System P M R
  put s i p = record s { place = update s.place i p }

  -- The caller goes on; when it returns, its deferred cancel runs.
  abbrev pub settle : Main M R → System P M R → System P M R
  settle (waiting m) s = record s { main = waiting m }
  settle (returned r) s = record s { main = returned r; canceled = true }

  abbrev pub start : M → System P M R
  start m = record {
    place = λ i. running;
    expired = false;
    canceled = false;
    closed = false;
    main = waiting m;
  }

-- What the caller does: with a received value, given whether the context is done; when it finds the
-- channel closed; and when its loop selects ctx.Done.
pub record Loop (P M R : Type 0) : Type 0 where
  pub receive : Bool → M → P → Main M R
  pub at_close : M → R
  pub at_done : M → Option R

-- One step of `n` jobs, the goroutine that closes the channel, and the caller. `Returns i p` says
-- that job `i` may return `p`.
pub data Step {P M R : Type 0} (n : ℕ) (Returns : ℕ → P → Type 0) (loop : Loop P M R)
    (s : System P M R) : System P M R → Type 0 where
  expire : Step n Returns loop s (record s { expired = true })
  finish :
      (i : ℕ) (p : P)
      → i < n
      → s.place i ≡ running
      → Returns i p
      → Step n Returns loop s (put s i (sending p))
  give_up :
      (i : ℕ) (p : P)
      → i < n
      → s.place i ≡ sending p
      → done s ≡ true
      → Step n Returns loop s (put s i finished)
  deliver :
      (i : ℕ) (p : P) (m : M)
      → i < n
      → s.place i ≡ sending p
      → s.main ≡ waiting m
      → Step n Returns loop s (settle (loop.receive (done s) m p) (put s i finished))
  close :
      ((i : ℕ) → i < n → s.place i ≡ finished) → Step n Returns loop s (record s { closed = true })
  read_closed :
      (m : M)
      → s.closed ≡ true
      → s.main ≡ waiting m
      → Step n Returns loop s (settle (returned (loop.at_close m)) s)
  see_done :
      (m : M) (r : R)
      → done s ≡ true
      → s.main ≡ waiting m
      → loop.at_done m ≡ some r
      → Step n Returns loop s (settle (returned r) s)

pub data Reach {P M R : Type 0} (n : ℕ) (Returns : ℕ → P → Type 0) (loop : Loop P M R)
    (s : System P M R) : System P M R → Type 0 where
  here : Reach n Returns loop s s
  next :
      {t u : System P M R}
      → Reach n Returns loop s t
      → Step n Returns loop t u
      → Reach n Returns loop s u
