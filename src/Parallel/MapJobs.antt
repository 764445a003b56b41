-- ===== src/Parallel/MapJobs.antt =====
-- internal/parallel/map.go: Map. Its workers write their results to a shared slice and send only
-- errors, so that it has a step relation of its own.
pub mod Results
use at.Prelude.{ℕ, ◌<◌, ◌≡◌, ◌⊎◌, inl, inr, Bool, true, false, ◌||◌, Option, none, some}
use at.Prelude.Result.{Error}
use at.Parallel.{update, Main, waiting, returned}

-- Where a worker stands: before its first select, in the job, before the send of the context's
-- error, which it makes without a select, before the send of its own error, or after its wg.Done.
pub data WorkerPlace : Type 0 where
  starting running finished : WorkerPlace
  forced failing : Error → WorkerPlace

pub record MapSystem (O : Type 0) : Type 0 where
  pub place : ℕ → WorkerPlace
  pub results : ℕ → O
  pub expired : Bool
  pub canceled : Bool
  pub closed : Bool
  pub main : Main (Unit {0}) (Option Error)

module _ {O : Type 0} where
  abbrev pub is_done : MapSystem O → Bool
  is_done s = s.expired || s.canceled

  abbrev pub put_worker : MapSystem O → ℕ → WorkerPlace → MapSystem O
  put_worker s i p = record s { place = update s.place i p }

  -- The caller returns, and its deferred cancel runs.
  abbrev pub return_with : Option Error → MapSystem O → MapSystem O
  return_with r s = record s { main = returned r; canceled = true }

  -- Before the first step; the slice has zero values.
  abbrev pub start_map : O → MapSystem O
  start_map zero_value = record {
    place = λ i. starting;
    results = λ i. zero_value;
    expired = false;
    canceled = false;
    closed = false;
    main = waiting tt;
  }

-- One step of `n` workers, the goroutine that closes the channel, and the caller. `Returns i o` says
-- that the job may return `o` on the element `i`, and `Fails i e` that it may return the error `e`.
pub data MapStep {O : Type 0} (ctx_err : Error) (n : ℕ) (Returns : ℕ → O → Type 0)
    (Fails : ℕ → Error → Type 0) (s : MapSystem O) : MapSystem O → Type 0 where
  expire : MapStep ctx_err n Returns Fails s (record s { expired = true })
  skip :
      (i : ℕ)
      → i < n
      → s.place i ≡ starting
      → is_done s ≡ true
      → MapStep ctx_err n Returns Fails s (put_worker s i (forced ctx_err))
  begin :
      (i : ℕ)
      → i < n
      → s.place i ≡ starting
      → is_done s ≡ false
      → MapStep ctx_err n Returns Fails s (put_worker s i running)
  succeed :
      (i : ℕ) (o : O)
      → i < n
      → s.place i ≡ running
      → Returns i o
      → MapStep ctx_err n Returns Fails s
          (record (put_worker s i finished) { results = update s.results i o })
  fail :
      (i : ℕ) (x : Error)
      → i < n
      → s.place i ≡ running
      → Fails i x
      → MapStep ctx_err n Returns Fails s (put_worker s i (failing x))
  give_up :
      (i : ℕ) (x : Error)
      → i < n
      → s.place i ≡ failing x
      → is_done s ≡ true
      → MapStep ctx_err n Returns Fails s (put_worker s i finished)
  deliver :
      (i : ℕ) (x : Error)
      → i < n
      → (s.place i ≡ failing x) ⊎ (s.place i ≡ forced x)
      → s.main ≡ waiting tt
      → MapStep ctx_err n Returns Fails s (return_with (some x) (put_worker s i finished))
  close :
      ((i : ℕ) → i < n → s.place i ≡ finished)
      → MapStep ctx_err n Returns Fails s (record s { closed = true })
  read_closed :
      s.closed ≡ true → s.main ≡ waiting tt → MapStep ctx_err n Returns Fails s (return_with none s)

pub data MapReach {O : Type 0} (ctx_err : Error) (n : ℕ) (Returns : ℕ → O → Type 0)
    (Fails : ℕ → Error → Type 0) (s : MapSystem O) : MapSystem O → Type 0 where
  here : MapReach ctx_err n Returns Fails s s
  next :
      {t u : MapSystem O}
      → MapReach ctx_err n Returns Fails s t
      → MapStep ctx_err n Returns Fails t u
      → MapReach ctx_err n Returns Fails s u
