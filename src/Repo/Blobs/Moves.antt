-- ===== src/Repo/Blobs/Moves.antt =====
-- internal/repo/blobstore.go: what the blobs of a store are after they are put, kept and moved.
use at.Prelude.{
  ◌≡◌, ◌≢◌, ◌⊎◌, inl, inr, refl, sym, ap, subst, ◌∙◌, arith, Bool, true, false, not, Option, none,
  some, List, [], ◌∷◌, if◌then◌else◌, Bool-cases,
}
use at.Prelude.Result.{Error, Result, ok, err, panic, blob_not_found, ok_injective}
use at.Prelude.Exec.{Exec, pure, continue, continue-eq-ok}
use at.Prelude.Text.{Text}
use at.Repo.Blobs.{
  Files, DiskBlobStore, gen_key, with_error, attempt, ensure_dir, ensure_temp, ensure_quarantine,
  get_tmp_path, get_stored_path, get_quarantine_path, has_stored, copy_from, put, put_temp,
  copy_file, copy_unless, make_permanent, or_not_found, quarantine, unquarantine, get_bytes,
}

-- The documented effect of the calls on the contents of the files; a call that fails is only said
-- to leave other files alone where the code goes on after it.
pub record Contents (files : Files) : Type 0 where
  pub content : files.World → files.FilePath → Option Text
  pub mkdir_keeps :
      (p q : files.FilePath) (w : files.World) → content (files.mkdir_all p w).1 q ≡ content w q
  pub open_read_keeps :
      (p q : files.FilePath) (w : files.World) → content (files.open_read p w).1 q ≡ content w q
  pub read_keeps :
      (p q : files.FilePath) (w : files.World) → content (files.read_all p w).1 q ≡ content w q
  pub open_trunc_other :
      (p q : files.FilePath) (w : files.World)
      → p ≢ q
      → content (files.open_trunc p w).1 q ≡ content w q
  pub write_other :
      (p q : files.FilePath) (t : Text) (w : files.World)
      → p ≢ q
      → content (files.write_all p t w).1 q ≡ content w q
  pub write_same :
      (p : files.FilePath) (t : Text) (w : files.World)
      → (files.write_all p t w).0 ≡ ok tt
      → content (files.write_all p t w).1 p ≡ some t
  pub read_some :
      (p : files.FilePath) (t : Text) (w : files.World)
      → content w p ≡ some t
      → (files.read_all p w).0 ≡ ok t
  pub read_none :
      (p : files.FilePath) (w : files.World)
      → content w p ≡ none
      → (x : Error) × ((files.read_all p w).0 ≡ err x) × (files.not_exist x ≡ true)
  pub remove_other :
      (p q : files.FilePath) (w : files.World)
      → p ≢ q
      → content (files.remove p w).1 q ≡ content w q
  pub rename_to :
      (p q : files.FilePath) (w : files.World)
      → p ≢ q
      → (files.rename p q w).0 ≡ ok tt
      → content (files.rename p q w).1 q ≡ content w p
  pub rename_from :
      (p q : files.FilePath) (w : files.World)
      → p ≢ q
      → (files.rename p q w).0 ≡ ok tt
      → content (files.rename p q w).1 p ≡ none
  pub stat_none :
      (p : files.FilePath) (w : files.World)
      → content w p ≡ none
      → (x : Error) × (files.stat p w ≡ some x) × (files.not_exist x ≡ true)
  pub stat_some :
      (p : files.FilePath) (t : Text) (w : files.World)
      → content w p ≡ some t
      → files.stat p w ≡ none

attempt_world : {S A : Type 0} (m : Exec S A) (s : S) → (attempt m s).1 ≡ (m s).1
attempt_world {S} {A} m s = go (m s).0 refl
  where
    go : (r : Result A) → (m s).0 ≡ r → (attempt m s).1 ≡ (m s).1
    go (ok a) e = rw e
    go (err x) e = rw e
    go panic e = rw e

-- What a step and all that may follow it keep holds at the end of both.
continue-keeps :
    {S A B : Type 0} (P : S → Type 0) (r : Result A) (s : S) (f : A → Exec S B)
    → P s
    → ((a : A) → P (f a s).1)
    → P (continue r s f).1
continue-keeps P (ok a) s f p q = q a
continue-keeps P (err x) s f p q = p
continue-keeps P panic s f p q = p

-- A last step that changes nothing.
continue-pure :
    {S A : Type 0} (r : Result A) (s : S) → (continue {B = Unit {0}} r s (λ _. pure tt)).1 ≡ s
continue-pure (ok a) s = refl
continue-pure (err x) s = refl
continue-pure panic s = refl

module _ (files : Files) {C : Type 0} (to_string : C → Text) (d : DiskBlobStore)
    (laws : Contents files) where
  open files use {
    World, FilePath, not_exist, stat, mkdir_all, open_trunc, open_read, write_all, read_all, rename,
    remove,
  }
  open laws use {content}

  put-content :
      (path : FilePath) (t : Text) (w : World)
      → (put files to_string d path (t, none) w).0 ≡ ok tt
      → content (put files to_string d path (t, none) w).1 path ≡ some t
  unfolding put copy_from
  put-content path t w h =
      let o = open_trunc path w in
      let (u, ho, h₁, e) = continue-eq-ok o.0 o.1 _ tt h in
      subst (λ (r : Result (Unit {0}) × World). content r.1 path ≡ some t) (sym e)
        (laws.write_same path t o.1 h₁)

  -- A PutTemp that succeeds returns the key, and its file holds what was read.
  put_temp-content :
      (t key : Text) (w : World)
      → (put_temp files to_string d (t, none) w).0 ≡ ok key
      → (key ≡ gen_key)
        × (content (put_temp files to_string d (t, none) w).1 (get_tmp_path files to_string d key)
            ≡ some t)
  unfolding put_temp ensure_temp
  put_temp-content t key w h =
      let m = mkdir_all (files.join (d.tmp_location ∷ d.did ∷ [])) w in
      let (u, hm, h₁, e₁) = continue-eq-ok m.0 m.1 _ key h in
      let path = get_tmp_path files to_string d gen_key in
      let p = put files to_string d path (t, none) m.1 in
      let (v, hp, h₂, e₂) = continue-eq-ok p.0 p.1 _ key h₁ in
      let same : gen_key ≡ key = ok_injective h₂ in
      (
        sym same,
        subst
            (λ (r : Result Text × World). content r.1 (get_tmp_path files to_string d key) ≡ some t)
            (sym (e₁ ∙ e₂))
            (subst (λ k. content p.1 (get_tmp_path files to_string d k) ≡ some t) same
              (put-content path t m.1 hp)),
      )

  -- GetBytes reads the content of the blob's file.
  get_bytes-content :
      (c : C) (t : Text) (w : World)
      → content w (get_stored_path files to_string d c) ≡ some t
      → (get_bytes files to_string d c w).0 ≡ ok t
  unfolding get_bytes
  get_bytes-content c t w h = rw (laws.read_some (get_stored_path files to_string d c) t w h)

  copy_file-content :
      (src dst : FilePath) (t : Text) (w : World)
      → dst ≢ src
      → content w src ≡ some t
      → (copy_file files to_string d src dst w).0 ≡ ok tt
      → content (copy_file files to_string d src dst w).1 dst ≡ some t
  unfolding copy_file
  copy_file-content src dst t w apart at h =
      let r = open_read src w in
      let (_, hr, h₁, e₁) = continue-eq-ok r.0 r.1 _ tt h in
      let o = open_trunc dst r.1 in
      let (_, ho, h₂, e₂) = continue-eq-ok o.0 o.1 _ tt h₁ in
      let a = read_all src o.1 in
      let (t', ha, h₃, e₃) = continue-eq-ok a.0 a.1 _ tt h₂ in
      let source : content o.1 src ≡ some t =
        laws.open_trunc_other dst src r.1 apart ∙ laws.open_read_keeps src src w ∙ at in
      let same : t ≡ t' = ok_injective (sym (laws.read_some src t o.1 source) ∙ ha) in
      subst (λ (x : Result (Unit {0}) × World). content x.1 dst ≡ some t) (sym (e₁ ∙ e₂ ∙ e₃))
        (laws.write_same dst t' a.1 h₃ ∙ ap some (sym same))

  -- The end of MakePermanent: the temporary file is removed, which touches no other file.
  after_removal :
      (tmp q : FilePath) (w : World)
      → tmp ≢ q
      → content
          (continue {B = Unit {0}}
            (attempt (remove tmp) w).0
            (attempt (remove tmp) w).1
            (λ _. pure tt)).1
          q
        ≡ content w q
  after_removal tmp q w apart =
      let m = remove tmp in
      ap (λ v. content v q) (continue-pure (attempt m w).0 (attempt m w).1 ∙ attempt_world m w)
      ∙ laws.remove_other tmp q w apart

  copy_file-keeps :
      (src dst q : FilePath) (t : Text) (w : World)
      → dst ≢ q
      → content w q ≡ some t
      → content (copy_file files to_string d src dst w).1 q ≡ some t
  unfolding copy_file
  copy_file-keeps src dst q t w apart h =
      let P : World → Type 0 = λ v. content v q ≡ some t in
      let r = open_read src w in
      let o = open_trunc dst r.1 in
      let a = read_all src o.1 in
      let opened : P r.1 = laws.open_read_keeps src q w ∙ h in
      let cut : P o.1 = laws.open_trunc_other dst q r.1 apart ∙ opened in
      let got : P a.1 = laws.read_keeps src q o.1 ∙ cut in
      continue-keeps P r.0 r.1 _ opened (λ _.
        continue-keeps P o.0 o.1 _ cut
          (λ _. continue-keeps P a.0 a.1 _ got (λ x. laws.write_other dst q x a.1 apart ∙ got)))

  has_stored-some :
      (c : C) (t : Text) (w : World)
      → content w (get_stored_path files to_string d c) ≡ some t
      → has_stored files to_string d c w ≡ true
  unfolding has_stored
  has_stored-some c t w h =
      rw (has_stored, laws.stat_some (get_stored_path files to_string d c) t w h)

  has_stored-none :
      (c : C) (w : World)
      → content w (get_stored_path files to_string d c) ≡ none
      → has_stored files to_string d c w ≡ false
  unfolding has_stored
  has_stored-none c w h =
      let (x, q, m) = laws.stat_none (get_stored_path files to_string d c) w h in
      rw (has_stored, q, m)

  -- The copy is left out where the blob is stored, and goes to another file than those of blobs
  -- that are stored otherwise.
  copy_unless-keeps :
      (key : Text) (c c' : C) (t : Text) (w : World)
      → content w (get_stored_path files to_string d c') ≡ some t
      → content
          (copy_unless files to_string d (has_stored files to_string d c w) key c w).1
          (get_stored_path files to_string d c')
        ≡ some t
  unfolding copy_unless
  copy_unless-keeps key c c' t w h = elim (Bool-cases (has_stored files to_string d c w)) [
    | inl e ↦ rw e h
    | inr e ↦
        let stored = get_stored_path files to_string d c in
        let differ : stored ≢ get_stored_path files to_string d c' = λ same.
          let there = has_stored-some c t w (subst (λ p. content w p ≡ some t) (sym same) h) in
          cc in
        rw e (
          copy_file-keeps (get_tmp_path files to_string d key) stored
            (get_stored_path files to_string d c') t w differ h)
  ]

  -- Whatever it returns, a MakePermanent of any CID changes no blob that is stored, if the calls of
  -- package os do what they document and the temporary path of the key is not the path of that blob.
  pub make_permanent_keeps :
      (key : Text) (c c' : C) (t : Text) (w : World)
      → get_tmp_path files to_string d key ≢ get_stored_path files to_string d c'
      → content w (get_stored_path files to_string d c') ≡ some t
      → content (make_permanent files to_string d key c w).1 (get_stored_path files to_string d c')
        ≡ some t
  unfolding make_permanent ensure_dir
  make_permanent_keeps key c c' t w apart h =
      let q = get_stored_path files to_string d c' in
      let P : World → Type 0 = λ v. content v q ≡ some t in
      let dir = files.join (d.location ∷ d.did ∷ []) in
      let m = mkdir_all dir w in
      let kept : P m.1 = laws.mkdir_keeps dir q w ∙ h in
      let k = copy_unless files to_string d (has_stored files to_string d c m.1) key c m.1 in
      let kept' : P k.1 = copy_unless-keeps key c c' t m.1 kept in
      continue-keeps P m.0 m.1 _ kept (λ _.
        continue-keeps P k.0 k.1 _ kept'
          (λ _. after_removal (get_tmp_path files to_string d key) q k.1 apart ∙ kept'))

  make_permanent-content :
      (key : Text) (c : C) (t : Text) (w : World)
      → get_tmp_path files to_string d key ≢ get_stored_path files to_string d c
      → content w (get_tmp_path files to_string d key) ≡ some t
      → content w (get_stored_path files to_string d c) ≡ none
      → (make_permanent files to_string d key c w).0 ≡ ok tt
      → content (make_permanent files to_string d key c w).1 (get_stored_path files to_string d c)
        ≡ some t
  unfolding make_permanent ensure_dir copy_unless
  make_permanent-content key c t w apart at absent h =
      let dir = files.join (d.location ∷ d.did ∷ []) in
      let tmp = get_tmp_path files to_string d key in
      let stored = get_stored_path files to_string d c in
      let m = mkdir_all dir w in
      let (u, hm, h₁, e₁) = continue-eq-ok m.0 m.1 _ tt h in
      let new = has_stored-none c m.1 (laws.mkdir_keeps dir stored w ∙ absent) in
      let k = copy_file files to_string d tmp stored m.1 in
      let (v, hk, h₂, e₂) = continue-eq-ok k.0 k.1 _ tt (rw new at h₁) in
      let copied : content k.1 stored ≡ some t =
        copy_file-content tmp stored t m.1 (λ q. apart (sym q)) (laws.mkdir_keeps dir tmp w ∙ at)
          hk in
      subst (λ (r : Result (Unit {0}) × World). content r.1 stored ≡ some t) (sym e₁)
        (rw new (
          subst (λ (r : Result (Unit {0}) × World). content r.1 stored ≡ some t) (sym e₂)
            (after_removal tmp stored k.1 apart ∙ copied)))

  -- What a PutTemp that succeeds reads is what GetBytes returns after a MakePermanent that succeeds
  -- has given it a CID that had no blob, if the calls of package os do what they document and the
  -- temporary path of the key is not the path of the blob.
  pub get_bytes-make_permanent :
      (t key : Text) (c : C) (w : World)
      → get_tmp_path files to_string d key ≢ get_stored_path files to_string d c
      → (put_temp files to_string d (t, none) w).0 ≡ ok key
      → content (put_temp files to_string d (t, none) w).1 (get_stored_path files to_string d c)
        ≡ none
      → (make_permanent files to_string d key c (put_temp files to_string d (t, none) w).1).0
        ≡ ok tt
      → (get_bytes files to_string d c
          (make_permanent files to_string d key c (put_temp files to_string d (t, none) w).1).1).0
        ≡ ok t
  get_bytes-make_permanent t key c w apart h absent kept =
      let w' = (put_temp files to_string d (t, none) w).1 in
      get_bytes-content c t (make_permanent files to_string d key c w').1
        (make_permanent-content key c t w' apart (put_temp-content t key w h).1 absent kept)

  -- Two blobs that are put before either is made permanent share one file: if both PutTemp succeed,
  -- a MakePermanent that succeeds with the key of the first, for a CID that has no blob, stores the
  -- second under that CID, if the calls of package os do what they document and the temporary path
  -- of the key is not the path of the blob.
  pub put_temp_twice :
      (t t' key key' : Text) (c : C) (w : World)
      → get_tmp_path files to_string d key ≢ get_stored_path files to_string d c
      → (put_temp files to_string d (t, none) w).0 ≡ ok key
      → (put_temp files to_string d (t', none) (put_temp files to_string d (t, none) w).1).0
        ≡ ok key'
      → content
          (put_temp files to_string d (t', none) (put_temp files to_string d (t, none) w).1).1
          (get_stored_path files to_string d c)
        ≡ none
      → (make_permanent files to_string d key c
          (put_temp files to_string d (t', none) (put_temp files to_string d (t, none) w).1).1).0
        ≡ ok tt
      → (get_bytes files to_string d c
          (make_permanent files to_string d key c
            (put_temp files to_string d
              (t', none)
              (put_temp files to_string d (t, none) w).1).1).1).0
        ≡ ok t'
  put_temp_twice t t' key key' c w apart h h' absent kept =
      let w₁ = (put_temp files to_string d (t, none) w).1 in
      let w₂ = (put_temp files to_string d (t', none) w₁).1 in
      let (is_key', at) = put_temp-content t' key' w₁ h' in
      let same : key' ≡ key = is_key' ∙ sym (put_temp-content t key w h).0 in
      get_bytes-content c t' (make_permanent files to_string d key c w₂).1 (
        make_permanent-content key c t' w₂ apart
          (subst (λ k. content w₂ (get_tmp_path files to_string d k) ≡ some t') same at) absent
          kept)

  with_error-ok :
      (f : Error → Error) (m : Exec World (Unit {0})) (w : World)
      → (with_error f m w).0 ≡ ok tt
      → ((m w).0 ≡ ok tt) × ((with_error f m w).1 ≡ (m w).1)
  with_error-ok f m w h = go (m w).0 refl h
    where
      go :
          (r : Result (Unit {0}))
          → (m w).0 ≡ r
          → (with_error f m w).0 ≡ ok tt
          → ((m w).0 ≡ ok tt) × ((with_error f m w).1 ≡ (m w).1)
      go (ok u) e q = (e, rw e)
      go (err x) e q = let z : ◌≡◌ {A = Result (Unit {0})} (err (f x)) (ok tt) = rw e at q in cc
      go panic e q = let z : ◌≡◌ {A = Result (Unit {0})} panic (ok tt) = rw e at q in cc

  -- A Quarantine or Unquarantine that succeeds has moved the file `p` to `q`.
  Moved : FilePath → FilePath → World → World → Type 0
  Moved p q w left = (content left q ≡ content w p) × (content left p ≡ none)

  move-Moved :
      (p q dir : FilePath) (w : World)
      → p ≢ q
      → (at.Prelude.Exec.◌>>◌
          (mkdir_all dir)
          (with_error (or_not_found files to_string d) (rename p q))
          w).0
        ≡ ok tt
      → Moved p q w
          (at.Prelude.Exec.◌>>◌
            (mkdir_all dir)
            (with_error (or_not_found files to_string d) (rename p q))
            w).1
  unfolding Moved
  move-Moved p q dir w apart h =
      let m = mkdir_all dir w in
      let (u, hm, h₁, e₁) = continue-eq-ok m.0 m.1 _ tt h in
      let (renamed, same) = with_error-ok (or_not_found files to_string d) (rename p q) m.1 h₁ in
      let world = ap (λ (r : Result (Unit {0}) × World). r.1) e₁ ∙ same in
      (
        ap (λ v. content v q) world
            ∙ laws.rename_to p q m.1 apart renamed
            ∙ laws.mkdir_keeps dir p w,
        ap (λ v. content v p) world ∙ laws.rename_from p q m.1 apart renamed,
      )

  -- After a Quarantine of a stored blob that succeeds, GetBytes does not find the blob, and after an
  -- Unquarantine that succeeds it returns what it had, if the calls of package os do what they
  -- document and the blob's path is not its path in quarantine.
  pub unquarantine-quarantine :
      (c : C) (t : Text) (w : World)
      → get_stored_path files to_string d c ≢ get_quarantine_path files to_string d c
      → content w (get_stored_path files to_string d c) ≡ some t
      → (quarantine files to_string d c w).0 ≡ ok tt
      → (unquarantine files to_string d c (quarantine files to_string d c w).1).0 ≡ ok tt
      → ((get_bytes files to_string d c (quarantine files to_string d c w).1).0
          ≡ err blob_not_found)
        × ((get_bytes files to_string d c
              (unquarantine files to_string d c (quarantine files to_string d c w).1).1).0
            ≡ ok t)
  unfolding quarantine unquarantine ensure_dir ensure_quarantine get_bytes Moved
  unquarantine-quarantine c t w differ at away back =
      let stored = get_stored_path files to_string d c in
      let kept = get_quarantine_path files to_string d c in
      let (there, gone) =
        move-Moved stored kept (files.join (d.quarantine_location ∷ d.did ∷ [])) w differ away in
      let w' = (quarantine files to_string d c w).1 in
      let (again, _) =
        move-Moved kept stored (files.join (d.location ∷ d.did ∷ [])) w' (λ q. differ (sym q))
          back in
      let (x, failed, is_missing) = laws.read_none stored w' gone in
      (
        rw (failed, is_missing),
        get_bytes-content c t (unquarantine files to_string d c w').1 (again ∙ there ∙ at),
      )
