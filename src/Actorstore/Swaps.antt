-- ===== src/Actorstore/Swaps.antt =====
-- internal/actorstore/repo_transactor.go: the checks of swap CIDs.
use at.Prelude.{
  ◌≡◌, ◌≢◌, ◌⊎◌, inl, inr, refl, ap, subst, String, ◌∙◌, arith, Bool, true, false, Option, none,
  some, List, [], ◌∷◌, Bool-cases,
}
use at.Prelude.Eq.{Eq, ◌==◌, ==_iff}
use at.Prelude.Result.{Result, ok, err, bad_commit_swap, ok_injective}
use at.Prelude.Exec.{continue-eq-ok}
use at.Repo.BlockMap.{Bytes}
use at.Repo.Codec.{Codec}
use at.Repo.Write.{
  WriteOpAction, create, update, delete, other, PreparedWrite, get_action, get_uri, get_cid,
  get_swap_cid,
}
use at.Repo.Commit.{CommitCodec}
use at.Repo.Outside.{Outside}
use at.Repo.Format.{CommitData}
use at.Actorstore.{
  RootInfo, Storage, Gathered, root_or_fail, is_swap_mismatch, check_swap_commit, current_cid,
  compare_row, check_row, check_swap, new_record_cid, gather, format_writes, format_prepared,
}

module _ {C R : Type 0} ⦃e : Eq C⦄ (codec : Codec C R) (commits : CommitCodec C) (out : Outside C)
    (storage : Storage out) where
  open out use {World}
  open storage use {get_root_detailed, cache_rev, find_record}

  -- The write names no swap CID, or is no creation and the store in `w` finds the record with that
  -- CID, or no record for the undefined one.
  abbrev pub SwapHeld : PreparedWrite C R → World → Type 0
  SwapHeld write w =
      (get_swap_cid write ≡ none)
      ⊎ ((swap : C) × (row : Option C) × (get_swap_cid write ≡ some swap)
          × (get_action write ≢ create)
          × ((find_record (get_uri write) w).0 ≡ ok row)
          × (current_cid codec commits out storage row ≡ swap))

  -- The world after the read of the record of a write, which a write without a swap CID leaves out.
  abbrev pub after_read : String → Option C → World → World
  after_read uri none w = w
  after_read uri (some swap) w = (find_record uri w).1

  -- Each write held in the world that the reads for the writes before it left.
  abbrev pub AllHeld : List (PreparedWrite C R) → World → Type 0
  AllHeld [] w = Unit
  AllHeld (write ∷ writes) w =
      SwapHeld write w × AllHeld writes (after_read (get_uri write) (get_swap_cid write) w)

  compare_row-ok :
      (swap curr : C) (w : World)
      → (compare_row codec commits out storage swap curr w).0 ≡ ok tt
      → (curr ≡ swap) × ((compare_row codec commits out storage swap curr w).1 ≡ w)
  unfolding compare_row
  compare_row-ok swap curr w h = ground (arith, ==_iff curr swap)

  check_row-ok :
      (action : WriteOpAction) (swap curr : C) (w : World)
      → (check_row codec commits out storage action swap curr w).0 ≡ ok tt
      → (action ≢ create)
        × (curr ≡ swap)
        × ((check_row codec commits out storage action swap curr w).1 ≡ w)
  unfolding check_row
  check_row-ok create swap curr w h = cc
  check_row-ok update swap curr w h =
      let (same, kept) = compare_row-ok swap curr w h in (λ q. cc, same, kept)
  check_row-ok delete swap curr w h =
      let (same, kept) = compare_row-ok swap curr w h in (λ q. cc, same, kept)
  check_row-ok (other s) swap curr w h =
      let (same, kept) = compare_row-ok swap curr w h in (λ q. cc, same, kept)

  check_swap-ok :
      (write : PreparedWrite C R) (o : Option C) (w : World)
      → get_swap_cid write ≡ o
      → (check_swap codec commits out storage (get_action write) (get_uri write) o w).0 ≡ ok tt
      → SwapHeld write w
        × ((check_swap codec commits out storage (get_action write) (get_uri write) o w).1
            ≡ after_read (get_uri write) o w)
  unfolding check_swap
  check_swap-ok write none w q h = (inl q, refl)
  check_swap-ok write (some swap) w q h =
      let f = find_record (get_uri write) w in
      let (row, found, rest, e) = continue-eq-ok f.0 f.1 _ tt h in
      let (not_create, same, kept) =
        check_row-ok (get_action write) swap (current_cid codec commits out storage row) f.1 rest in
      (
        inr (swap, row, q, not_create, found, same),
        ap (λ (r : Result (Unit {0}) × World). r.1) e ∙ kept,
      )

  gather-AllHeld :
      (writes : List (PreparedWrite C R)) (g : Gathered C R) (w : World)
      → (gather codec commits out storage writes w).0 ≡ ok g
      → AllHeld writes w
  unfolding gather
  gather-AllHeld [] g w h = tt
  gather-AllHeld (write ∷ writes) g w h =
      let n = new_record_cid codec commits out storage (get_action write) (get_cid codec write) in
      let (cids, _, h₁, _) = continue-eq-ok n w _ g h in
      let s =
        check_swap codec commits out storage (get_action write) (get_uri write) (get_swap_cid write)
          w in
      let (u, checked, h₂, _) = continue-eq-ok s.0 s.1 _ g h₁ in
      let r = gather codec commits out storage writes s.1 in
      let (rest, gathered, _, _) = continue-eq-ok r.0 r.1 _ g h₂ in
      let (held, left) = check_swap-ok write (get_swap_cid write) w refl checked in
      (held, subst (AllHeld writes) left (gather-AllHeld writes rest s.1 gathered))

  root_or_fail-ok :
      (found : Option (RootInfo C)) (root : RootInfo C) (w : World)
      → (root_or_fail codec commits out storage found w).0 ≡ ok root
      → (found ≡ some root) × ((root_or_fail codec commits out storage found w).1 ≡ w)
  unfolding root_or_fail
  root_or_fail-ok none root w h = cc
  root_or_fail-ok (some r) root w h = (ap some (ok_injective h), refl)

  check_swap_commit-ok :
      (root : RootInfo C) (swap_commit : C) (w : World)
      → (check_swap_commit codec commits out storage root swap_commit w).0 ≡ ok tt
      → (is_swap_mismatch codec commits out storage root swap_commit ≡ false)
        × ((check_swap_commit codec commits out storage root swap_commit w).1 ≡ w)
  unfolding check_swap_commit
  check_swap_commit-ok root swap_commit w h =
      elim (Bool-cases (is_swap_mismatch codec commits out storage root swap_commit)) [
        | inl q ↦
            let z : ◌≡◌ {A = Result (Unit {0})} (err bad_commit_swap) (ok tt) = rw q at h in cc
        | inr q ↦ (q, rw q)
      ]

  -- The world in which the loop over the writes starts: the root was read, and its revision cached.
  abbrev pub at_loop : RootInfo C → World → World
  at_loop root w = (cache_rev root.rev (get_root_detailed w).1).1

  -- The parts of a run that succeeds: the root that was found, which passed the check, and what the
  -- writes gathered.
  pub format_prepared-ok :
      (hash_and_sign : Bytes → Result Bytes) (writes : List (PreparedWrite C R)) (swap_commit : C)
      (w : World) (cd : CommitData C)
      → (format_prepared codec commits out storage hash_and_sign writes swap_commit w).0 ≡ ok cd
      → (root : RootInfo C) × (g : Gathered C R) × (w₂ : World) × ((get_root_detailed w).0
          ≡ ok (some root))
        × (is_swap_mismatch codec commits out storage root swap_commit ≡ false)
        × ((gather codec commits out storage writes (at_loop root w)).0 ≡ ok g)
        × ((format_writes codec commits out storage hash_and_sign root g w₂).0 ≡ ok cd)
  unfolding format_prepared root_or_fail check_swap_commit
  format_prepared-ok hash_and_sign writes swap_commit w cd h =
      let f = get_root_detailed w in
      let (found, hf, h₁, _) = continue-eq-ok f.0 f.1 _ cd h in
      let r = root_or_fail codec commits out storage found f.1 in
      let (root, hr, h₂, _) = continue-eq-ok r.0 r.1 _ cd h₁ in
      let c = check_swap_commit codec commits out storage root swap_commit r.1 in
      let (u, hc, h₃, _) = continue-eq-ok c.0 c.1 _ cd h₂ in
      let k = cache_rev root.rev c.1 in
      let (v, hk, h₄, _) = continue-eq-ok k.0 k.1 _ cd h₃ in
      let m = gather codec commits out storage writes k.1 in
      let (g, hm, h₅, _) = continue-eq-ok m.0 m.1 _ cd h₄ in
      let (is_root, kept) = root_or_fail-ok found root f.1 hr in
      let (held, kept') = check_swap_commit-ok root swap_commit r.1 hc in
      let world : k.1 ≡ at_loop root w = ap (λ v. (cache_rev root.rev v).1) (kept' ∙ kept) in
      (
        root,
        g,
        m.1,
        hf ∙ ap ok is_root,
        held,
        subst (λ v. (gather codec commits out storage writes v).0 ≡ ok g) world hm,
        h₅,
      )

  -- A FormatCommit that succeeds found a root that has the swap CID of the commit, if one is given.
  -- Each write that names a swap CID is no creation, and GetRecord, in the world in which the loop
  -- called it for this write, found the record with that CID, or no record where the swap CID is the
  -- undefined one.
  pub format_prepared-Safe :
      (hash_and_sign : Bytes → Result Bytes) (writes : List (PreparedWrite C R)) (swap_commit : C)
      (w : World) (cd : CommitData C)
      → (format_prepared codec commits out storage hash_and_sign writes swap_commit w).0 ≡ ok cd
      → (root : RootInfo C) × ((get_root_detailed w).0 ≡ ok (some root))
        × ((swap_commit ≡ codec.undef) ⊎ (root.cid ≡ swap_commit))
        × AllHeld writes (at_loop root w)
  format_prepared-Safe hash_and_sign writes swap_commit w cd h =
      let (root, g, w₂, found, held, gathered, _) =
        format_prepared-ok hash_and_sign writes swap_commit w cd h in
      (root, found, matches root held, gather-AllHeld writes g (at_loop root w) gathered)
    where
      matches :
          (root : RootInfo C)
          → is_swap_mismatch codec commits out storage root swap_commit ≡ false
          → (swap_commit ≡ codec.undef) ⊎ (root.cid ≡ swap_commit)
      matches root q = elim (Bool-cases (swap_commit == codec.undef)) [
        | inl u ↦ inl ((==_iff swap_commit codec.undef).0 u)
        | inr u ↦ elim (Bool-cases (root.cid == swap_commit)) [
          | inl same ↦ inr ((==_iff root.cid swap_commit).0 same)
          | inr differs ↦ let z : ◌≡◌ {A = Bool} true false = rw (u, differs) at q in cc
        ]
      ]

  -- Where the root has another CID than the swap CID that is given, FormatCommit fails with the
  -- error of a bad swap, and has asked for nothing but the root.
  pub format_prepared_mismatch :
      (hash_and_sign : Bytes → Result Bytes) (writes : List (PreparedWrite C R)) (swap_commit : C)
      (w : World) (root : RootInfo C)
      → (get_root_detailed w).0 ≡ ok (some root)
      → swap_commit ≢ codec.undef
      → root.cid ≢ swap_commit
      → format_prepared codec commits out storage hash_and_sign writes swap_commit w
        ≡ (err bad_commit_swap, (get_root_detailed w).1)
  unfolding format_prepared root_or_fail check_swap_commit
  format_prepared_mismatch hash_and_sign writes swap_commit w root found given differs =
      let defined_swap : (swap_commit == codec.undef) ≡ false =
        ground (arith, ==_iff swap_commit codec.undef) in
      let other_root : (root.cid == swap_commit) ≡ false =
        ground (arith, ==_iff root.cid swap_commit) in
      rw (found, defined_swap, other_root)
