-- ===== src/Parallel/Runs.antt =====
-- internal/parallel: what every step keeps, whatever the caller does with what it receives.
use at.Prelude.{ℕ, ◌<◌, ◌≡◌, refl, ap, subst, ◌⊎◌, inl, inr, true, false, eqb, arith, Bool-cases}
use at.Parallel.{
  update, Place, running, sending, finished, Main, waiting, returned, System, put, settle, start,
  Loop, Step, expire, finish, give_up, deliver, close, read_closed, see_done, Reach, here, next,
}

pub update_cases {ℓ} :
    {A : Type ℓ} (f : ℕ → A) (i : ℕ) (a : A) (j : ℕ) (b : A)
    → update f i a j ≡ b
    → (f j ≡ b) ⊎ ((j ≡ i) × (a ≡ b))
update_cases f i a j b h = elim (Bool-cases (eqb j i)) [
  | inl e ↦ inr (ground arith, rw e at h)
  | inr e ↦ inl (rw e at h)
]

pub sending_injective : {P : Type 0} {p q : P} → sending p ≡ sending q → p ≡ q
sending_injective {P = P} {p = p} h = ap carried h
  where
    carried : Place P → P
    carried (sending q) = q
    carried running = p
    carried finished = p

module _ {P M R : Type 0} (n : ℕ) (Returns : ℕ → P → Type 0) (loop : Loop P M R) where
  -- What is sent, the job returned; the channel is closed only after all jobs; and a context that
  -- the parent has not ended was ended by a return.
  pub record Base (s : System P M R) : Type 0 where
    pub sent : (i : ℕ) (p : P) → i < n → s.place i ≡ sending p → Returns i p
    pub all_ended : s.closed ≡ true → (i : ℕ) → i < n → s.place i ≡ finished
    pub by_return : (m : M) → s.main ≡ waiting m → s.canceled ≡ false

  pub start-Base : (m : M) → Base (start m)
  start-Base m = record { sent = λ i p l h. cc; all_ended = λ h. cc; by_return = λ k h. refl }

  put-Base :
      {s : System P M R} (i : ℕ) (q : Place P)
      → Base s
      → ((p : P) → q ≡ sending p → Returns i p)
      → (s.closed ≡ true → q ≡ finished)
      → Base (put s i q)
  put-Base {s = s} i q base ok_sent ok_ended = record {
    sent = λ j p l h. sent_case j p l (update_cases s.place i q j (sending p) h);
    all_ended = λ h j l. ended_case j h (Bool-cases (eqb j i)) (base.all_ended h j l);
    by_return = base.by_return;
  }
    where
      sent_case :
          (j : ℕ) (p : P)
          → j < n
          → (s.place j ≡ sending p) ⊎ ((j ≡ i) × (q ≡ sending p))
          → Returns j p
      sent_case j p l (inl h) = base.sent j p l h
      sent_case j p l (inr (same, h)) = rw same (ok_sent p h)

      ended_case :
          (j : ℕ)
          → s.closed ≡ true
          → (eqb j i ≡ true) ⊎ (eqb j i ≡ false)
          → s.place j ≡ finished
          → update s.place i q j ≡ finished
      ended_case j c (inl e) h = rw e (ok_ended c)
      ended_case j c (inr e) h = rw e h

  settle-Base : {s : System P M R} (x : Main M R) → Base s → s.canceled ≡ false → Base (settle x s)
  settle-Base (waiting m) base c = record {
    sent = base.sent;
    all_ended = base.all_ended;
    by_return = λ k h. c;
  }
  settle-Base (returned r) base c = record {
    sent = base.sent;
    all_ended = base.all_ended;
    by_return = λ k h. cc;
  }

  pub Step-Base : {s t : System P M R} → Step n Returns loop s t → Base s → Base t
  Step-Base expire base = record {
    sent = base.sent;
    all_ended = base.all_ended;
    by_return = base.by_return;
  }
  Step-Base (finish i p l at r) base =
      put-Base i (sending p) base (λ q h. subst (Returns i) (sending_injective h) r)
        (λ c. let e = base.all_ended c i l in cc)
  Step-Base (give_up i p l at d) base = put-Base i finished base (λ q h. cc) (λ c. refl)
  Step-Base (deliver i p m l at w) base =
      settle-Base _ (put-Base i finished base (λ q h. cc) (λ c. refl)) (base.by_return m w)
  Step-Base (close all) base = record {
    sent = base.sent;
    all_ended = λ h. all;
    by_return = base.by_return;
  }
  Step-Base (read_closed m c w) base =
      settle-Base (returned (loop.at_close m)) base (base.by_return m w)
  Step-Base (see_done m r d w q) base = settle-Base (returned r) base (base.by_return m w)

  pub Steps-Base : {s t : System P M R} → Reach n Returns loop s t → Base s → Base t
  Steps-Base here base = base
  Steps-Base (next r st) base = Step-Base st (Steps-Base r base)

  pub Reach-Base : {m : M} {t : System P M R} → Reach n Returns loop (start m) t → Base t
  Reach-Base {m = m} r = Steps-Base r (start-Base m)
