-- ===== src/Parallel/MapJobs/Results.antt =====
-- internal/parallel/map.go: the results of Map, and the workers that it leaves behind.
use at.Prelude.{
  ℕ, ◌<◌, ◌≡◌, ◌≢◌, refl, sym, subst, ◌⊎◌, inl, inr, true, false, Option, none, some, eqb, arith,
  Bool-cases,
}
use at.Prelude.Result.{Error}
use at.Parallel.Runs.{update_cases}
use at.Parallel.{update, waiting, returned}
use at.Parallel.MapJobs.{
  WorkerPlace, running, finished, forced, failing, MapSystem, is_done, put_worker, start_map,
  MapStep, expire, skip, begin, succeed, fail, give_up, deliver, close, read_closed, MapReach, here,
  next,
}

module _ {O : Type 0} (ctx_err : Error) (n : ℕ) (Returns : ℕ → O → Type 0)
    (Fails : ℕ → Error → Type 0) where
  -- Why a worker has finished: its result stands in the slice, or the context was ended from
  -- outside, or the caller has returned an error.
  abbrev Reason : ℕ → MapSystem O → Type 0
  Reason i s =
      Returns i (s.results i) ⊎ ((s.expired ≡ true) ⊎ ((x : Error) × (s.main ≡ returned (some x))))

  record Inv (s : MapSystem O) : Type 0 where
    ended : (i : ℕ) → i < n → s.place i ≡ finished → Reason i s
    all_ended : s.closed ≡ true → (i : ℕ) → i < n → s.place i ≡ finished
    by_return : s.main ≡ waiting tt → s.canceled ≡ false
    by_close : s.main ≡ returned none → s.closed ≡ true
    not_failed :
        s.canceled ≡ true → (s.closed ≡ true) ⊎ ((x : Error) × (s.main ≡ returned (some x)))

  -- A worker that has not finished moves on to a place that is not the end.
  move-Inv :
      (s : MapSystem O) (i : ℕ) (p : WorkerPlace)
      → i < n
      → s.place i ≢ finished
      → p ≢ finished
      → Inv s
      → Inv (put_worker s i p)
  move-Inv s i p l not_yet not_now inv = record {
    ended = λ j l' h. elim (update_cases s.place i p j finished h) [
      | inl e ↦ inv.ended j l' e
      | inr (_, e) ↦ absurd (not_now e)
    ];
    all_ended = λ c. absurd (not_yet (inv.all_ended c i l));
    by_return = inv.by_return;
    by_close = inv.by_close;
    not_failed = inv.not_failed;
  }

  finish-ended :
      (s : MapSystem O) (i : ℕ)
      → ((j : ℕ) → j < n → s.place j ≡ finished → Reason j s)
      → Reason i s
      → (j : ℕ) → j < n
      → update s.place i finished j ≡ finished
      → Reason j s
  finish-ended s i old new j l h = elim (update_cases s.place i finished j finished h) [
    | inl e ↦ old j l e
    | inr (same, _) ↦ subst (λ k. Reason k s) (sym same) new
  ]

  give_up-Reason :
      (s : MapSystem O) (i : ℕ) (x : Error)
      → i < n
      → s.place i ≡ failing x
      → is_done s ≡ true
      → Inv s
      → Reason i s
  give_up-Reason s i x l at d inv = elim (Bool-cases s.expired) [
    | inl e ↦ inr (inl e)
    | inr e ↦ elim (inv.not_failed (rw e at d)) [
      | inl c ↦ let q = inv.all_ended c i l in cc
      | inr f ↦ inr (inr f)
    ]
  ]

  succeed-ended :
      (s : MapSystem O) (i : ℕ) (o : O)
      → ((j : ℕ) → j < n → s.place j ≡ finished → Reason j s)
      → Returns i o
      → (j : ℕ) → j < n
      → update s.place i finished j ≡ finished
      → Reason j (record (put_worker s i finished) { results = update s.results i o })
  succeed-ended s i o old new j l h = elim (Bool-cases (eqb j i)) [
    | inl e ↦
        inl (let same : j ≡ i = ground arith in rw e (subst (λ k. Returns k o) (sym same) new))
    | inr e ↦ elim (old j l (rw e at h)) [ inl r ↦ inl (rw e r) | inr other ↦ inr other ]
  ]

  Step-Inv : {s t : MapSystem O} → MapStep ctx_err n Returns Fails s t → Inv s → Inv t
  Step-Inv expire inv = record {
    ended = λ i l h. inr (inl refl);
    all_ended = inv.all_ended;
    by_return = inv.by_return;
    by_close = inv.by_close;
    not_failed = inv.not_failed;
  }
  Step-Inv {s = s} (skip i l at d) inv = move-Inv s i (forced ctx_err) l (λ h. cc) (λ h. cc) inv
  Step-Inv {s = s} (begin i l at d) inv = move-Inv s i running l (λ h. cc) (λ h. cc) inv
  Step-Inv {s = s} (fail i x l at r) inv = move-Inv s i (failing x) l (λ h. cc) (λ h. cc) inv
  Step-Inv {s = s} (succeed i o l at r) inv = record {
    ended = succeed-ended s i o inv.ended r;
    all_ended = λ c. let q = inv.all_ended c i l in cc;
    by_return = inv.by_return;
    by_close = inv.by_close;
    not_failed = inv.not_failed;
  }
  Step-Inv {s = s} (give_up i x l at d) inv = record {
    ended = finish-ended s i inv.ended (give_up-Reason s i x l at d inv);
    all_ended = λ c. let q = inv.all_ended c i l in cc;
    by_return = inv.by_return;
    by_close = inv.by_close;
    not_failed = inv.not_failed;
  }
  Step-Inv {s = s} (deliver i x l at w) inv = record {
    ended = λ j l' h. inr (inr (x, refl));
    all_ended = λ c. elim at [
      | inl f ↦ let q = inv.all_ended c i l in cc
      | inr f ↦ let q = inv.all_ended c i l in cc
    ];
    by_return = λ h. cc;
    by_close = λ h. cc;
    not_failed = λ h. inr (x, refl);
  }
  Step-Inv (close all) inv = record {
    ended = inv.ended;
    all_ended = λ h. all;
    by_return = inv.by_return;
    by_close = λ h. refl;
    not_failed = λ h. inl refl;
  }
  Step-Inv {s = s} (read_closed c w) inv = record {
    ended = λ i l h. elim (inv.ended i l h) [
      | inl r ↦ inl r
      | inr (inl e) ↦ inr (inl e)
      | inr (inr (x, e)) ↦ absurd (cc)
    ];
    all_ended = inv.all_ended;
    by_return = λ h. cc;
    by_close = λ h. c;
    not_failed = λ h. inl c;
  }

  Reach-Inv :
      {zero_value : O} {t : MapSystem O}
      → MapReach ctx_err n Returns Fails (start_map zero_value) t
      → Inv t
  Reach-Inv here = record {
    ended = λ i l h. cc;
    all_ended = λ h. cc;
    by_return = λ h. refl;
    by_close = λ h. cc;
    not_failed = λ h. cc;
  }
  Reach-Inv (next r st) = Step-Inv st (Reach-Inv r)

  -- Whatever the order of the steps, when Map returns a nil error and the context was not ended by
  -- its parent or the timeout, each place of the slice holds what the job returned on that element.
  pub map_jobs-Sound :
      (zero_value : O) {t : MapSystem O}
      → MapReach ctx_err n Returns Fails (start_map zero_value) t
      → t.main ≡ returned none
      → t.expired ≡ false
      → (i : ℕ) → i < n
      → Returns i (t.results i)
  map_jobs-Sound zero_value {t = t} r h alive i l =
      let inv = Reach-Inv r in
      elim (inv.ended i l (inv.all_ended (inv.by_close h) i l)) [
        | inl o ↦ o
        | inr (inl e) ↦ absurd (cc)
        | inr (inr (x, e)) ↦ absurd (cc)
      ]

  other_place :
      (s : MapSystem O) (i j : ℕ) (p q : WorkerPlace)
      → s.place i ≡ p
      → s.place j ≢ p
      → update s.place j q i ≡ p
  other_place s i j p q at away = elim (Bool-cases (eqb i j)) [
    | inl e ↦ let same : i ≡ j = ground arith in absurd (away (subst (λ k. s.place k ≡ p) same at))
    | inr e ↦ rw e at
  ]

  -- The worker `i` is about to send the context's error, and the caller has returned.
  abbrev LeftBehind : ℕ → Error → Option Error → MapSystem O → Type 0
  LeftBehind i x r s = (s.place i ≡ forced x) × (s.main ≡ returned r)

  Step-LeftBehind :
      (i : ℕ) (x : Error) (r : Option Error) {s t : MapSystem O}
      → MapStep ctx_err n Returns Fails s t
      → i < n
      → LeftBehind i x r s
      → LeftBehind i x r t
  Step-LeftBehind i x r expire l (at, m) = (at, m)
  Step-LeftBehind i x r {s = s} (skip j l' a d) l (at, m) =
      (other_place s i j (forced x) _ at (λ h. cc), m)
  Step-LeftBehind i x r {s = s} (begin j l' a d) l (at, m) =
      (other_place s i j (forced x) _ at (λ h. cc), m)
  Step-LeftBehind i x r {s = s} (succeed j o l' a f) l (at, m) =
      (other_place s i j (forced x) _ at (λ h. cc), m)
  Step-LeftBehind i x r {s = s} (fail j y l' a f) l (at, m) =
      (other_place s i j (forced x) _ at (λ h. cc), m)
  Step-LeftBehind i x r {s = s} (give_up j y l' a d) l (at, m) =
      (other_place s i j (forced x) _ at (λ h. cc), m)
  Step-LeftBehind i x r (deliver j y l' a w) l (at, m) = absurd (cc)
  Step-LeftBehind i x r (close all) l (at, m) = (at, m)
  Step-LeftBehind i x r (read_closed c w) l (at, m) = absurd (cc)

  -- When Map has returned, the channel is open, and a worker is at the send of the context's error,
  -- which it makes without a select, then in every later state that worker is still at its send and
  -- the channel is still open.
  pub map_jobs-LeftBehind :
      (i : ℕ) (x : Error) (r : Option Error) {s t : MapSystem O}
      → MapReach ctx_err n Returns Fails s t
      → i < n
      → s.place i ≡ forced x
      → s.main ≡ returned r
      → s.closed ≡ false
      → (t.place i ≡ forced x) × (t.closed ≡ false)
  map_jobs-LeftBehind i x r {s = s} run l at m c = (go run).0
    where
      open_yet :
          {u v : MapSystem O}
          → MapStep ctx_err n Returns Fails u v
          → LeftBehind i x r u
          → u.closed ≡ false
          → v.closed ≡ false
      open_yet expire b c = c
      open_yet (skip j l' a d) b c = c
      open_yet (begin j l' a d) b c = c
      open_yet (succeed j o l' a f) b c = c
      open_yet (fail j y l' a f) b c = c
      open_yet (give_up j y l' a d) b c = c
      open_yet (deliver j y l' a w) b c = c
      open_yet (close all) b c = let q = all i l in cc
      open_yet (read_closed e w) b c = c

      go :
          {t : MapSystem O}
          → MapReach ctx_err n Returns Fails s t
          → ((t.place i ≡ forced x) × (t.closed ≡ false)) × LeftBehind i x r t
      go here = ((at, c), (at, m))
      go (next before st) =
          let ((_, c'), b) = go before in
          let b' = Step-LeftBehind i x r st l b in ((b'.0, open_yet st b c'), b')
