-- ===== src/Parallel/Progress.antt =====
-- internal/parallel: from any state, letting every job end leads to a return of the caller.
use at.Prelude.{
  ℕ, zero, suc, ◌<◌, ◌≤◌, ◌≡◌, refl, ◌⊎◌, inl, inr, Bool, false, eqb, arith, Bool-cases,
}
use at.Parallel.Runs.{Base, Steps-Base}
use at.Parallel.{
  update, Place, running, sending, finished, Main, waiting, returned, System, put, settle, done,
  Loop, finish, deliver, close, read_closed, Reach, here, next,
}

pub update_same {ℓ} : {A : Type ℓ} (f : ℕ → A) (i : ℕ) (a : A) → update f i a i ≡ a
update_same f i a = ground arith

module _ {P M R : Type 0} (n : ℕ) (Returns : ℕ → P → Type 0) (loop : Loop P M R) where
  abbrev pub PathTo : System P M R → (System P M R → Type 0) → Type 0
  PathTo s Goal = (t : System P M R) × Reach n Returns loop s t × Goal t

  Reach-trans :
      {s t u : System P M R}
      → Reach n Returns loop s t
      → Reach n Returns loop t u
      → Reach n Returns loop s u
  Reach-trans r here = r
  Reach-trans r (next q st) = next (Reach-trans r q) st

  via :
      {s t : System P M R} {Goal : System P M R → Type 0}
      → Reach n Returns loop s t
      → PathTo t Goal
      → PathTo s Goal
  via r (u, q, g) = (u, Reach-trans r q, g)

  -- The caller has returned: what the last receive returned, or the end of the loop at a close.
  abbrev pub HasReturned : System P M R → Type 0
  HasReturned t =
      ((d : Bool) × (m : M) × (i : ℕ) × (p : P) × (r : R) × Returns i p
        × (loop.receive d m p ≡ returned r)
        × (t.main ≡ returned r))
      ⊎ ((m : M) × (t.main ≡ returned (loop.at_close m)))

  abbrev Drained : ℕ → System P M R → Type 0
  Drained k t = ((m : M) × (t.main ≡ waiting m)) × ((j : ℕ) → j < k → t.place j ≡ finished)

  abbrev Advanced : ℕ → System P M R → Type 0
  Advanced k t = HasReturned t ⊎ Drained k t

  pub put_drained :
      (s : System P M R) (k : ℕ)
      → ((j : ℕ) → j < k → s.place j ≡ finished)
      → (j : ℕ) → j < suc k
      → update s.place k finished j ≡ finished
  put_drained s k h j l = elim (Bool-cases (eqb j k)) [
    | inl e ↦ rw e
    | inr e ↦ rw e (h j (ground arith))
  ]

  received :
      (s : System P M R) (k : ℕ) (p : P) (d : Bool) (m : M) (x : Main M R)
      → Returns k p
      → loop.receive d m p ≡ x
      → ((j : ℕ) → j < k → s.place j ≡ finished)
      → Advanced (suc k) (settle x (put s k finished))
  received s k p d m (waiting m') r e h = inr ((m', refl), put_drained s k h)
  received s k p d m (returned v) r e h = inl (inl (d, m, k, p, v, r, e, refl))

  send_on :
      (s : System P M R) (k : ℕ) (p : P)
      → k < n
      → Returns k p
      → s.place k ≡ sending p
      → Drained k s
      → PathTo s (Advanced (suc k))
  send_on s k p l r at ((m, w), h) = (
    _,
    next here (deliver k p m l at w),
    received s k p (done s) m (loop.receive (done s) m p) r refl h,
  )

  one_job :
      (s : System P M R) (k : ℕ) (p : P)
      → k < n
      → Returns k p
      → ((q : P) → s.place k ≡ sending q → Returns k q)
      → Drained k s
      → PathTo s (Advanced (suc k))
  one_job s k p l r sent ((m, w), h) = go (s.place k) refl
    where
      kept : (j : ℕ) → j < k → update s.place k (sending p) j ≡ finished
      kept j below = let other : eqb j k ≡ false = ground arith in rw other (h j below)

      all : s.place k ≡ finished → (j : ℕ) → j < suc k → s.place j ≡ finished
      all e j below = elim (Bool-cases (eqb j k)) [
        | inl same ↦ let q : j ≡ k = ground arith in rw q e
        | inr other ↦ h j (ground arith)
      ]

      go : (q : Place P) → s.place k ≡ q → PathTo s (Advanced (suc k))
      go running e =
          let same = update_same s.place k (sending p) in
          via (next here (finish k p l e r))
            (send_on (put s k (sending p)) k p l r same ((m, w), kept))
      go (sending q) e = send_on s k q l (sent q e) e ((m, w), h)
      go finished e = (s, here, inr ((m, w), all e))

  all_jobs :
      (s : System P M R) (k : ℕ)
      → k ≤ n
      → ((i : ℕ) → i < n → (p : P) × Returns i p)
      → Base n Returns loop s
      → Drained 0 s
      → PathTo s (Advanced k)
  all_jobs s zero l jobs base d = (s, here, inr d)
  all_jobs s (suc k) l jobs base d =
      let (t, r, a) = all_jobs s k (omega (arith, l)) jobs base d in
      elim a [
        | inl ended ↦ (t, r, inl ended)
        | inr drained ↦
            let (p, may) = jobs k l in
            via r
              (one_job t k p l may (λ q e. (Steps-Base n Returns loop r base).sent k q l e) drained)
      ]

  shut : (s : System P M R) → Drained n s → PathTo s HasReturned
  shut s ((m, w), h) = (_, next (next here (close h)) (read_closed m refl w), inr (m, refl))

  -- From a state in which the caller waits, there are steps to a return, if every job may end.
  pub can_return :
      (s : System P M R) (m : M)
      → Base n Returns loop s
      → ((i : ℕ) → i < n → (p : P) × Returns i p)
      → s.main ≡ waiting m
      → PathTo s HasReturned
  can_return s m base jobs w =
      let (t, r, a) =
        all_jobs s n (omega arith) jobs base ((m, w), λ j l. absurd (omega (arith, l))) in
      elim a [ inl ended ↦ (t, r, ended) | inr drained ↦ via r (shut t drained) ]
