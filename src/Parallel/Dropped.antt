-- ===== src/Parallel/Dropped.antt =====
-- internal/parallel/parallel.go: the errors that Do does not see when its context ends first.
use at.Prelude.{ℕ, zero, suc, ◌<◌, ◌≤◌, ◌≡◌, refl, true, false, Option, none, eqb, arith}
use at.Prelude.Result.{Error}
use at.Parallel.Do.{State, do_loop}
use at.Parallel.Progress.{put_drained, update_same}
use at.Parallel.{
  running, sending, finished, waiting, returned, put, start, expire, finish, give_up, close,
  read_closed, Reach, here, next,
}

module _ (ctx_err : Error) (n : ℕ) (Returns : ℕ → Option Error → Type 0) where
  -- The context has ended, the first `k` jobs have given up and the others run.
  record Abandoned (k : ℕ) (t : State ctx_err n Returns) : Type 0 where
    run : Reach n Returns (do_loop ctx_err) (start tt) t
    expired : t.expired ≡ true
    waits : t.main ≡ waiting tt
    behind : (j : ℕ) → j < k → t.place j ≡ finished
    ahead : (j : ℕ) → k ≤ j → t.place j ≡ running

  abandon_one :
      (k : ℕ) (p : Option Error) (t : State ctx_err n Returns)
      → k < n
      → Returns k p
      → Abandoned k t
      → Abandoned (suc k) (put (put t k (sending p)) k finished)
  abandon_one k p t l r a = record {
    run =
        next (next a.run (finish k p l (a.ahead k (omega arith)) r))
          (give_up k p l (update_same t.place k (sending p)) (rw a.expired));
    expired = a.expired;
    waits = a.waits;
    behind =
        put_drained n Returns (do_loop ctx_err) (put t k (sending p)) k
          (λ j below. let other : eqb j k ≡ false = ground arith in rw other (a.behind j below));
    ahead = λ j above.
        let other : eqb j k ≡ false = ground arith in rw other (a.ahead j (omega (arith, above)));
  }

  abandon :
      (k : ℕ)
      → k ≤ n
      → ((i : ℕ) → i < n → (p : Option Error) × Returns i p)
      → (t : State ctx_err n Returns) × Abandoned k t
  abandon zero l jobs = (
    record (start tt) { expired = true },
    record {
      run = next here expire;
      expired = refl;
      waits = refl;
      behind = λ j below. absurd (omega (arith, below));
      ahead = λ j above. refl;
    },
  )
  abandon (suc k) l jobs =
      let (t, a) = abandon k (omega (arith, l)) jobs in
      let (p, r) = jobs k l in (_, abandon_one k p t l r a)

  -- Whatever the jobs return, errors included, some order of the steps makes Do return nil: the
  -- context ends first, so that every job may give up its send, and the channel is closed without
  -- a value.
  pub do_loop_loses_errors :
      ((i : ℕ) → i < n → (p : Option Error) × Returns i p)
      → (t : State ctx_err n Returns) × Reach n Returns (do_loop ctx_err) (start tt) t
        × (t.main ≡ returned none)
  unfolding do_loop
  do_loop_loses_errors jobs =
      let (t, a) = abandon n (omega arith) jobs in
      (_, next (next a.run (close a.behind)) (read_closed tt refl a.waits), refl)
