-- ===== src/Parallel/Tests.antt =====
-- The theorems about FirstOf and Do at runs of two jobs.
use at.Prelude.{◌+◌, ℕ, zero, suc, ◌<◌, ◌≡◌, refl, ◌⊎◌, true, false, Option, none, some, arith}
use at.Prelude.Result.{Error, msg}
use at.Prelude.Int.{pos}
use at.Parallel.First.{Payload, first_of, first_of-Sound, first_of-CanReturn, first_of_all_fail}
use at.Parallel.Do.{State, do_loop, do_loop-Sound}
use at.Parallel.Dropped.{do_loop_loses_errors}
use at.Parallel.MapJobs.{
  WorkerPlace, MapSystem, put_worker, return_with, start_map, MapStep, MapReach,
}
use at.Parallel.MapJobs.Results.{map_jobs-Sound, map_jobs-LeftBehind}
use at.Parallel.Progress.{PathTo, HasReturned}
use at.Parallel.{
  update, sending, finished, waiting, returned, System, put, settle, start, finish, deliver, close,
  read_closed, Reach, here, next, context,
}

context_runs :
    (context (record { timeout = pos 0 }) ≡ none)
    × (context (record { timeout = pos 5 }) ≡ some (pos 5))
unfolding context
context_runs = (refl, refl)

abbrev late : Error
late = msg "late"

abbrev failure : Error
failure = msg "failure"

-- The first job fails, the second returns 7.
data OneWins : ℕ → Payload ℕ → Type 0 where
  loser : OneWins 0 (0, some failure)
  winner : OneWins 1 (7, none)

abbrev sent : System (Payload ℕ) (Option Error) (Payload ℕ)
sent = put (start none) 1 (sending (7, none))

abbrev won : System (Payload ℕ) (Option Error) (Payload ℕ)
won = settle (returned (7, none)) (put sent 1 finished)

win : Reach 2 OneWins (first_of 0 late) (start none) won
unfolding first_of
win =
    next (next here (finish 1 (7, none) (omega arith) refl winner))
      (deliver 1 (7, none) none (omega arith) refl refl)

first_of-Sound_example :
    ((i : ℕ) × (i < 2) × OneWins i (7, none))
    ⊎ ((◌≡◌ {A = ℕ} 7 0) × ((i : ℕ) → i < 2 → won.place i ≡ finished))
first_of-Sound_example = first_of-Sound 0 late 2 OneWins 7 win refl

each : (i : ℕ) → i < 2 → (p : Payload ℕ) × OneWins i p
each zero l = ((0, some failure), loser)
each (suc zero) l = ((7, none), winner)
each (suc (suc i)) l = absurd (omega (arith, l))

first_of-CanReturn_example :
    PathTo 2 OneWins (first_of 0 late) sent (HasReturned 2 OneWins (first_of 0 late))
first_of-CanReturn_example =
    first_of-CanReturn 0 late 2 OneWins none
      (next here (finish 1 (7, none) (omega arith) refl winner)) each refl

-- Every job fails.
data Fails : ℕ → Payload ℕ → Type 0 where
  fails : (i : ℕ) → Fails i (0, some failure)

first_of_all_fail_example :
    (t : System (Payload ℕ) (Option Error) (Payload ℕ)) × Reach 2 Fails
      (first_of 3 late)
      (start none)
      t
    × (t.main ≡ returned (3, none))
first_of_all_fail_example =
    first_of_all_fail 3 late 2 Fails (λ i l. ((0, some failure), fails i)) only_errors
  where
    only_errors : (i : ℕ) (p : Payload ℕ) → Fails i p → (e : Error) × (p.1 ≡ some e)
    only_errors i p (fails j) = (failure, refl)

-- Every job returns nil.
data Succeeds : ℕ → Option Error → Type 0 where
  succeeds : (i : ℕ) → Succeeds i none

abbrev Dos : Type 0
Dos = System (Option Error) (Unit {0}) (Option Error)

abbrev first_sent : Dos
first_sent = put (start tt) 0 (sending none)

abbrev first_ended : Dos
first_ended = settle (waiting tt) (put first_sent 0 finished)

abbrev second_sent : Dos
second_sent = put first_ended 1 (sending none)

abbrev both_ended : Dos
both_ended = settle (waiting tt) (put second_sent 1 finished)

abbrev done_both : Dos
done_both = settle (returned none) (record both_ended { closed = true })

all_ended : (i : ℕ) → i < 2 → both_ended.place i ≡ finished
all_ended zero l = refl
all_ended (suc zero) l = refl
all_ended (suc (suc i)) l = absurd (omega (arith, l))

one_sent : Reach 2 Succeeds (do_loop late) (start tt) first_sent
one_sent = next here (finish 0 none (omega arith) refl (succeeds 0))

do_both : Reach 2 Succeeds (do_loop late) (start tt) done_both
unfolding do_loop
do_both =
    next
      (next
        (next
          (next (next one_sent (deliver 0 none tt (omega arith) refl refl))
            (finish 1 none (omega arith) refl (succeeds 1)))
          (deliver 1 none tt (omega arith) refl refl))
        (close all_ended))
      (read_closed tt refl refl)

do_loop-Sound_example :
    (done_both.place 1 ≡ finished) × (done_both.expired ≡ false → Succeeds 1 none)
do_loop-Sound_example = do_loop-Sound late 2 Succeeds do_both refl 1 (omega arith)

-- Every job returns an error.
data Breaks : ℕ → Option Error → Type 0 where
  breaks : (i : ℕ) → Breaks i (some failure)

do_loop_loses_errors_example :
    (t : State late 2 Breaks) × Reach 2 Breaks (do_loop late) (start tt) t
    × (t.main ≡ returned none)
do_loop_loses_errors_example = do_loop_loses_errors late 2 Breaks (λ i l. (some failure, breaks i))

-- Two elements, of which the job makes their double.
data Doubles : ℕ → ℕ → Type 0 where
  doubles : (i : ℕ) → Doubles i (i + i)

data Never : ℕ → Error → Type 0 where

abbrev started : MapSystem ℕ
started = start_map 0

abbrev first_done : MapSystem ℕ
first_done = record (put_worker (put_worker started 0 WorkerPlace.running) 0 WorkerPlace.finished) {
  results = update started.results 0 0;
}

abbrev second_done : MapSystem ℕ
second_done =
    record (put_worker (put_worker first_done 1 WorkerPlace.running) 1 WorkerPlace.finished) {
      results = update first_done.results 1 2;
    }

abbrev mapped : MapSystem ℕ
mapped = return_with none (record second_done { closed = true })

both_done : (i : ℕ) → i < 2 → second_done.place i ≡ WorkerPlace.finished
both_done zero l = refl
both_done (suc zero) l = refl
both_done (suc (suc i)) l = absurd (omega (arith, l))

map_run : MapReach late 2 Doubles Never started mapped
map_run =
    MapReach.next
      (MapReach.next
        (MapReach.next
          (MapReach.next
            (MapReach.next (MapReach.next MapReach.here (MapStep.begin 0 (omega arith) refl refl))
              (MapStep.succeed 0 0 (omega arith) refl (doubles 0)))
            (MapStep.begin 1 (omega arith) refl refl))
          (MapStep.succeed 1 2 (omega arith) refl (doubles 1)))
        (MapStep.close both_done))
      (MapStep.read_closed refl refl)

map_jobs-Sound_example : Doubles 1 (mapped.results 1)
map_jobs-Sound_example = map_jobs-Sound late 2 Doubles Never 0 map_run refl refl 1 (omega arith)

-- Map has returned an error before the worker 1 has started.
abbrev failed_early : MapSystem ℕ
failed_early = return_with (some failure) (put_worker started 0 WorkerPlace.finished)

abbrev behind : MapSystem ℕ
behind = put_worker failed_early 1 (WorkerPlace.forced late)

map_jobs-LeftBehind_example :
    ((record behind { expired = true }).place 1 ≡ WorkerPlace.forced late)
    × ((record behind { expired = true }).closed ≡ false)
map_jobs-LeftBehind_example =
    map_jobs-LeftBehind late 2 Doubles Never 1 late (some failure) {s = behind}
      (MapReach.next MapReach.here MapStep.expire) (omega arith) refl refl refl
