-- ===== src/Parallel/First.antt =====
-- internal/parallel/first.go: FirstOf. A job's outcome is a value and an error that may be nil.
use at.Prelude.{ℕ, ◌<◌, ◌≡◌, refl, sym, ap, subst, ◌⊎◌, inl, inr, Bool, true, Option, none, some}
use at.Prelude.Result.{Error}
use at.Parallel.Runs.{Base, Reach-Base, start-Base}
use at.Parallel.Progress.{PathTo, HasReturned, can_return}
use at.Parallel.{
  finished, Main, waiting, returned, System, put, settle, start, done, Loop, Step, expire, finish,
  give_up, deliver, close, read_closed, see_done, Reach, here, next,
}

abbrev pub Payload : Type 0 → Type 0
Payload O = O × Option Error

-- `if err == nil { err = e }`
abbrev pub or_first : Option Error → Error → Option Error
or_first none e = some e
or_first (some d) e = some d

module _ {O : Type 0} (zero_value : O) (ctx_err : Error) where
  first_receive : Bool → Option Error → Payload O → Main (Option Error) (Payload O)
  first_receive d m (o, none) = returned (o, none)
  first_receive d m (o, some e) = waiting (or_first m e)

  first_error : Option Error → Payload O
  first_error none = (zero_value, some ctx_err)
  first_error (some e) = (zero_value, some e)

  -- A receive from the closed channel gives the zero payload, whose error is nil.
  unfoldable pub first_of : Loop (Payload O) (Option Error) (Payload O)
  unfolding first_receive first_error
  first_of = record {
    receive = first_receive;
    at_close = λ m. (zero_value, none);
    at_done = λ m. some (first_error m);
  }

  returned_injective :
      {p q : Payload O}
      → ◌≡◌ {A = Main (Option Error) (Payload O)} (returned p) (returned q)
      → p ≡ q
  returned_injective {p = p} h = ap content h
    where
      content : Main (Option Error) (Payload O) → Payload O
      content (returned q) = q
      content (waiting m) = p

  module _ (n : ℕ) (Returns : ℕ → Payload O → Type 0) where
    -- What a return of FirstOf without an error rests on: some job returned the value without an
    -- error, or the channel was closed and the value is the zero value.
    abbrev Grounded : System (Payload O) (Option Error) (Payload O) → Type 0
    Grounded s =
        (o : O)
        → s.main ≡ returned (o, none)
        → ((i : ℕ) × (i < n) × Returns i (o, none)) ⊎ ((o ≡ zero_value) × (s.closed ≡ true))

    receive-Grounded :
        (d : Bool) (m : Option Error) (p : Payload O) (i : ℕ)
        (s : System (Payload O) (Option Error) (Payload O))
        → i < n
        → Returns i p
        → Grounded (settle (first_receive d m p) s)
    unfolding first_receive
    receive-Grounded d m (v, none) i s l r o h =
        inl (i, l, subst (λ (p : Payload O). Returns i p) (returned_injective h) r)
    receive-Grounded d m (v, some e) i s l r o h = cc

    Step-Grounded :
        {s t : System (Payload O) (Option Error) (Payload O)}
        → Step n Returns first_of s t
        → Base n Returns first_of s
        → Grounded s
        → Grounded t
    unfolding first_of first_receive first_error
    Step-Grounded expire base g = g
    Step-Grounded (finish i p l at r) base g = g
    Step-Grounded (give_up i p l at d) base g = g
    Step-Grounded {s = s} (deliver i p m l at w) base g =
        receive-Grounded (done s) m p i (put s i finished) l (base.sent i p l at)
    Step-Grounded (close all) base g =
        λ o h. elim (g o h) [ inl job ↦ inl job | inr (zero, c) ↦ inr (zero, refl) ]
    Step-Grounded (read_closed m c w) base g =
        λ o h. inr (ap (λ (p : Payload O). p.0) (sym (returned_injective h)), c)
    Step-Grounded (see_done none r d w q) base g = λ o h. cc
    Step-Grounded (see_done (some e) r d w q) base g = λ o h. cc

    Reach-Grounded :
        {t : System (Payload O) (Option Error) (Payload O)}
        → Reach n Returns first_of (start none) t
        → Grounded t
    Reach-Grounded here = λ o h. cc
    Reach-Grounded (next r st) =
        Step-Grounded st (Reach-Base n Returns first_of r) (Reach-Grounded r)

    -- Whatever the order of the steps, a FirstOf that returns a value with a nil error returns what
    -- some job returned with a nil error, or the zero value after every job has ended.
    pub first_of-Sound :
        {t : System (Payload O) (Option Error) (Payload O)} (o : O)
        → Reach n Returns first_of (start none) t
        → t.main ≡ returned (o, none)
        → ((i : ℕ) × (i < n) × Returns i (o, none))
          ⊎ ((o ≡ zero_value) × ((i : ℕ) → i < n → t.place i ≡ finished))
    first_of-Sound o r h = elim (Reach-Grounded r o h) [
      | inl job ↦ inl job
      | inr (zero, c) ↦ inr (zero, (Reach-Base n Returns first_of r).all_ended c)
    ]

    -- From every state that FirstOf reaches before it returns, there are steps to a return, if every
    -- job may end.
    pub first_of-CanReturn :
        {t : System (Payload O) (Option Error) (Payload O)} (m : Option Error)
        → Reach n Returns first_of (start none) t
        → ((i : ℕ) → i < n → (p : Payload O) × Returns i p)
        → t.main ≡ waiting m
        → PathTo n Returns first_of t (HasReturned n Returns first_of)
    first_of-CanReturn {t = t} m r jobs w =
        can_return n Returns first_of t m (Reach-Base n Returns first_of r) jobs w

    -- When every job ends, and only with an error, some order of the steps makes FirstOf return the
    -- zero value with a nil error.
    pub first_of_all_fail :
        ((i : ℕ) → i < n → (p : Payload O) × Returns i p)
        → ((i : ℕ) (p : Payload O) → Returns i p → (e : Error) × (p.1 ≡ some e))
        → (t : System (Payload O) (Option Error) (Payload O)) × Reach n Returns first_of
            (start none)
            t
          × (t.main ≡ returned (zero_value, none))
    unfolding first_of first_receive
    first_of_all_fail jobs fails =
        let (t, r, g) =
          can_return n Returns first_of (start none) none (start-Base n Returns first_of none) jobs
            refl in
        elim g [
          | inl (d, m, i, p, v, may, got, _) ↦ absurd (refused d m p v (fails i p may).1 got)
          | inr (m, w) ↦ (t, r, w)
        ]
      where
        refused :
            (d : Bool) (m : Option Error) (p v : Payload O) {e : Error}
            → p.1 ≡ some e
            → ¬ (first_receive d m p ≡ returned v)
        refused d m (o, none) v h q = cc
        refused d m (o, some e) v h q = cc
