-- ===== src/Parallel/Do.antt =====
-- internal/parallel/parallel.go: Do. A job's outcome is an error that may be nil.
use at.Prelude.{
  ℕ, ◌<◌, ◌≡◌, refl, ◌⊎◌, inl, inr, Bool, true, false, Option, none, some, if◌then◌else◌,
  Bool-cases,
}
use at.Prelude.Result.{Error}
use at.Parallel.Runs.{Base, Reach-Base, update_cases}
use at.Parallel.Progress.{PathTo, HasReturned, can_return}
use at.Parallel.{
  update, Place, sending, finished, Main, waiting, returned, System, put, settle, start, done, Loop,
  Step, expire, finish, give_up, deliver, close, read_closed, see_done, Reach, here, next,
}

module _ (ctx_err : Error) where
  do_receive : Bool → Unit {0} → Option Error → Main (Unit {0}) (Option Error)
  do_receive d m (some e) = returned (some e)
  do_receive d m none = if d then returned (some ctx_err) else waiting tt

  -- The loop ranges over the channel, so that it ends with a nil error when the channel is closed.
  unfoldable pub do_loop : Loop (Option Error) (Unit {0}) (Option Error)
  unfolding do_receive
  do_loop = record { receive = do_receive; at_close = λ m. none; at_done = λ m. none }

  module _ (n : ℕ) (Returns : ℕ → Option Error → Type 0) where
    abbrev pub State : Type 0
    State = System (Option Error) (Unit {0}) (Option Error)

    abbrev Failed : State → Type 0
    Failed s = (e : Error) × (s.main ≡ returned (some e))

    -- Why a job has ended: it returned nil, or the context was ended from outside, or the caller has
    -- returned with an error.
    abbrev Excuse : ℕ → State → Type 0
    Excuse i s = Returns i none ⊎ ((s.expired ≡ true) ⊎ Failed s)

    record Inv (s : State) : Type 0 where
      ended : (i : ℕ) → i < n → s.place i ≡ finished → Excuse i s
      after_close : s.main ≡ returned none → s.closed ≡ true
      by_close : s.canceled ≡ true → (s.closed ≡ true) ⊎ Failed s

    failed-Inv : (s : State) (e : Error) → Inv (settle (returned (some e)) s)
    failed-Inv s e = record {
      ended = λ i l h. inr (inr (e, refl));
      after_close = λ h. cc;
      by_close = λ h. inr (e, refl);
    }

    -- An excuse of a caller that waits does not rest on a failure.
    while_waiting :
        (s : State) {m : Unit {0}} (i : ℕ)
        → s.main ≡ waiting m
        → Excuse i s
        → Returns i none ⊎ (s.expired ≡ true)
    while_waiting s i w (inl r) = inl r
    while_waiting s i w (inr (inl x)) = inr x
    while_waiting s i w (inr (inr (e, h))) = cc

    widen : (s : State) (i : ℕ) → Returns i none ⊎ (s.expired ≡ true) → Excuse i s
    widen s i (inl r) = inl r
    widen s i (inr x) = inr (inl x)

    give_up-Excuse :
        {s : State} (i : ℕ) {p : Option Error}
        → i < n
        → s.place i ≡ sending p
        → done s ≡ true
        → Base n Returns do_loop s
        → Inv s
        → Excuse i s
    give_up-Excuse {s = s} i l at d base inv = elim (Bool-cases s.expired) [
      | inl x ↦ inr (inl x)
      | inr x ↦ elim (inv.by_close (rw x at d)) [
        | inl c ↦ let e = base.all_ended c i l in cc
        | inr f ↦ inr (inr f)
      ]
    ]

    put-ended :
        (s : State) (i : ℕ) (q : Place (Option Error))
        → ((j : ℕ) → j < n → s.place j ≡ finished → Excuse j s)
        → (q ≡ finished → Excuse i s)
        → (j : ℕ) → j < n
        → update s.place i q j ≡ finished
        → Excuse j s
    put-ended s i q old new j l h = elim (update_cases s.place i q j finished h) [
      | inl e ↦ old j l e
      | inr (same, e) ↦ rw same (new e)
    ]

    received-Inv :
        {s : State} (i : ℕ) (m : Unit {0}) (d : Bool)
        → i < n
        → s.place i ≡ sending none
        → s.main ≡ waiting m
        → Base n Returns do_loop s
        → Inv s
        → Inv (settle (if d then returned (some ctx_err) else waiting tt) (put s i finished))
    received-Inv {s = s} i m true l at w base inv = failed-Inv (put s i finished) ctx_err
    received-Inv {s = s} i m false l at w base inv = record {
      ended = λ j l' h. widen (settle (waiting tt) (put s i finished)) j (
          while_waiting s j w
            (put-ended s i finished inv.ended (λ e. inl (base.sent i none l at)) j l' h));
      after_close = λ h. cc;
      by_close = λ h. let f = base.by_return m w in cc;
    }

    Step-Inv : {s t : State} → Step n Returns do_loop s t → Base n Returns do_loop s → Inv s → Inv t
    unfolding do_loop do_receive
    Step-Inv expire base inv = record {
      ended = λ i l h. inr (inl refl);
      after_close = inv.after_close;
      by_close = inv.by_close;
    }
    Step-Inv {s = s} (finish i p l at r) base inv = record {
      ended = put-ended s i (sending p) inv.ended (λ h. cc);
      after_close = inv.after_close;
      by_close = inv.by_close;
    }
    Step-Inv {s = s} (give_up i p l at d) base inv = record {
      ended = put-ended s i finished inv.ended (λ h. give_up-Excuse i l at d base inv);
      after_close = inv.after_close;
      by_close = inv.by_close;
    }
    Step-Inv {s = s} (deliver i (some e) m l at w) base inv = failed-Inv (put s i finished) e
    Step-Inv {s = s} (deliver i none m l at w) base inv = received-Inv i m (done s) l at w base inv
    Step-Inv (close all) base inv = record {
      ended = inv.ended;
      after_close = λ h. refl;
      by_close = λ h. inl refl;
    }
    Step-Inv {s = s} (read_closed m c w) base inv = record {
      ended = λ j l h. widen (settle (returned none) s) j (while_waiting s j w (inv.ended j l h));
      after_close = λ h. c;
      by_close = λ h. inl c;
    }
    Step-Inv (see_done m r d w q) base inv = cc

    start-Inv : Inv (start tt)
    start-Inv = record { ended = λ i l h. cc; after_close = λ h. cc; by_close = λ h. cc }

    Reach-Inv : {t : State} → Reach n Returns do_loop (start tt) t → Inv t
    Reach-Inv here = start-Inv
    Reach-Inv (next r st) = Step-Inv st (Reach-Base n Returns do_loop r) (Reach-Inv r)

    -- Whatever the order of the steps, when Do returns nil, every job has ended; and if the context
    -- was not ended by its parent or the timeout, every job returned nil.
    pub do_loop-Sound :
        {t : State}
        → Reach n Returns do_loop (start tt) t
        → t.main ≡ returned none
        → (i : ℕ) → i < n
        → (t.place i ≡ finished) × (t.expired ≡ false → Returns i none)
    do_loop-Sound {t = t} r h i l =
        let inv = Reach-Inv r in
        let at = (Reach-Base n Returns do_loop r).all_ended (inv.after_close h) i l in
        (at, λ x. without x (inv.ended i l at))
      where
        without : t.expired ≡ false → Excuse i t → Returns i none
        without x (inl r) = r
        without x (inr (inl y)) = cc
        without x (inr (inr (e, g))) = cc

    -- From every state that Do reaches before it returns, there are steps to a return, if every job
    -- may end.
    pub do_loop-CanReturn :
        {t : State}
        → Reach n Returns do_loop (start tt) t
        → ((i : ℕ) → i < n → (p : Option Error) × Returns i p)
        → t.main ≡ waiting tt
        → PathTo n Returns do_loop t (HasReturned n Returns do_loop)
    do_loop-CanReturn {t = t} r jobs w =
        can_return n Returns do_loop t tt (Reach-Base n Returns do_loop r) jobs w
