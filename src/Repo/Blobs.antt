-- ===== src/Repo/Blobs.antt =====
-- internal/repo/blobstore.go: blobs in files. The package os and the joining of paths are a
-- parameter; an error that the code wraps keeps its identity.
pub mod Moves
mod Tests
use at.Prelude.{
  ℕ, zero, suc, ◌+◌, ◌%◌, Bool, true, false, not, Option, none, some, List, [], ◌∷◌, ◌++◌,
  if◌then◌else◌, get_elem?,
}
use at.Prelude.Result.{Error, Result, ok, err, panic, blob_not_found}
use at.Prelude.Exec.{Exec, pure, throw, lift, continue, ◌>>=◌, ◌>>◌}
use at.Prelude.Text.{Text, ascii}

-- Files by path, as far as the code uses them. `join` is filepath.Join, which also cleans the path,
-- so that two lists of parts may give one path. `stat` is the error of os.Stat; a file is truncated
-- when it is opened for writing, and then written or read as a whole.
pub record Files : Type 1 where
  pub World : Type 0
  pub FilePath : Type 0
  pub join : List Text → FilePath
  pub not_exist : Error → Bool
  pub stat : FilePath → World → Option Error
  pub mkdir_all : FilePath → Exec World (Unit {0})
  pub open_trunc : FilePath → Exec World (Unit {0})
  pub open_read : FilePath → Exec World (Unit {0})
  pub write_all : FilePath → Text → Exec World (Unit {0})
  pub read_all : FilePath → Exec World Text
  pub rename : FilePath → FilePath → Exec World (Unit {0})
  pub remove : FilePath → Exec World (Unit {0})
  pub remove_all : FilePath → Exec World (Unit {0})

pub record DiskBlobStore : Type 0 where
  pub did : Text
  pub location : Text
  pub tmp_location : Text
  pub quarantine_location : Text

-- An io.Reader: what it yields, and the error that it ends with, if any.
abbrev pub Reader : Type 0
Reader = Text × Option Error

abbrev charset : Text
charset = ascii "abcdefghijklmnopqrstuvwxyz234567"

abbrev or_zero : Option ℕ → ℕ
or_zero none = 0
or_zero (some c) = c

-- result[i], for the first `n` numbers i
gen_key_loop : ℕ → Text
gen_key_loop zero = []
gen_key_loop (suc n) = gen_key_loop n ++ or_zero (get_elem? charset (n % 32)) ∷ []

unfoldable pub gen_key : Text
unfolding gen_key_loop
gen_key = gen_key_loop 32

module _ {S A : Type 0} where
  -- `if err != nil { return f(err) }`
  abbrev pub with_error : (Error → Error) → Exec S A → Exec S A
  with_error f m s = at_error (m s).0 (m s).1
    where
      at_error : Result A → S → Result A × S
      at_error (ok a) t = (ok a, t)
      at_error (err x) t = (err (f x), t)
      at_error panic t = (panic, t)

  -- The error of a call, which the code looks at.
  abbrev pub attempt : Exec S A → Exec S (Option Error)
  attempt m s = seen (m s).0 (m s).1
    where
      seen : Result A → S → Result (Option Error) × S
      seen (ok a) t = (ok none, t)
      seen (err x) t = (ok (some x), t)
      seen panic t = (panic, t)

module _ (files : Files) {C : Type 0} (to_string : C → Text) (d : DiskBlobStore) where
  open files use {
    World, FilePath, join, not_exist, stat, mkdir_all, open_trunc, open_read, write_all, read_all,
    rename, remove, remove_all,
  }

  unfoldable pub ensure_dir : Exec World (Unit {0})
  ensure_dir = mkdir_all (join (d.location ∷ d.did ∷ []))

  unfoldable pub ensure_temp : Exec World (Unit {0})
  ensure_temp = mkdir_all (join (d.tmp_location ∷ d.did ∷ []))

  unfoldable pub ensure_quarantine : Exec World (Unit {0})
  ensure_quarantine = mkdir_all (join (d.quarantine_location ∷ d.did ∷ []))

  -- `to_string` is the method String of a CID.
  abbrev pub get_tmp_path : Text → FilePath
  get_tmp_path key = join (d.tmp_location ∷ d.did ∷ key ∷ [])

  abbrev pub get_stored_path : C → FilePath
  get_stored_path c = join (d.location ∷ d.did ∷ to_string c ∷ [])

  abbrev pub get_quarantine_path : C → FilePath
  get_quarantine_path c = join (d.quarantine_location ∷ d.did ∷ to_string c ∷ [])

  abbrev missing : Option Error → Bool
  missing none = false
  missing (some x) = not_exist x

  unfoldable pub has_temp : Text → World → Bool
  has_temp key w = not (missing (stat (get_tmp_path key) w))

  -- An error other than a missing file counts as a stored blob.
  unfoldable pub has_stored : C → World → Bool
  has_stored c w = elim (stat (get_stored_path c) w) [
    | none ↦ true
    | some x ↦ if not_exist x then false else true
  ]

  -- io.Copy from a reader
  copy_from : FilePath → Reader → Exec World (Unit {0})
  copy_from path (content, none) = write_all path content
  copy_from path (content, some x) = write_all path content >> throw x

  unfoldable pub put : FilePath → Reader → Exec World (Unit {0})
  unfolding copy_from
  put path r = open_trunc path >> copy_from path r

  unfoldable pub put_temp : Reader → Exec World Text
  put_temp r = do ensure_temp; put (get_tmp_path gen_key) r; pure gen_key

  unfoldable pub put_temp_from_reader : Reader → Exec World Text
  unfolding copy_from
  put_temp_from_reader r = do
    ensure_temp
    open_trunc (get_tmp_path gen_key)
    copy_from (get_tmp_path gen_key) r
    pure gen_key

  -- The mode of the source file is left out.
  unfoldable pub copy_file : FilePath → FilePath → Exec World (Unit {0})
  copy_file src dst = do
    open_read src
    open_trunc dst
    content ← read_all src
    write_all dst content

  copy_unless : Bool → Text → C → Exec World (Unit {0})
  copy_unless true key c = pure tt
  copy_unless false key c = copy_file (get_tmp_path key) (get_stored_path c)

  -- An error of the removal is printed and dropped.
  unfoldable pub make_permanent : Text → C → Exec World (Unit {0})
  unfolding copy_unless
  make_permanent key c = do
    ensure_dir
    stored ← at.Prelude.Exec.gets (has_stored c)
    copy_unless stored key c
    attempt (remove (get_tmp_path key))
    pure tt

  unfoldable pub put_permanent : C → Reader → Exec World (Unit {0})
  put_permanent c r = ensure_dir >> put (get_stored_path c) r

  abbrev pub or_not_found : Error → Error
  or_not_found x = if not_exist x then blob_not_found else x

  unfoldable pub quarantine : C → Exec World (Unit {0})
  quarantine c =
      ensure_quarantine
      >> with_error or_not_found (rename (get_stored_path c) (get_quarantine_path c))

  unfoldable pub unquarantine : C → Exec World (Unit {0})
  unquarantine c =
      ensure_dir >> with_error or_not_found (rename (get_quarantine_path c) (get_stored_path c))

  unfoldable pub get_bytes : C → Exec World Text
  get_bytes c = with_error or_not_found (read_all (get_stored_path c))

  unless_missing : Option Error → Exec World (Unit {0})
  unless_missing none = pure tt
  unless_missing (some x) = if not (not_exist x) then throw x else pure tt

  unfoldable pub delete : C → Exec World (Unit {0})
  unfolding unless_missing
  delete c = attempt (remove (get_stored_path c)) >>= unless_missing

  unfoldable pub delete_many : List C → Exec World (Unit {0})
  delete_many [] = pure tt
  delete_many (c ∷ cids) = delete c >> delete_many cids

  remove_paths : List FilePath → Exec World (Unit {0})
  unfolding unless_missing
  remove_paths [] = pure tt
  remove_paths (path ∷ paths) = attempt (remove_all path) >>= unless_missing >> remove_paths paths

  unfoldable pub delete_all : Exec World (Unit {0})
  unfolding remove_paths
  delete_all = remove_paths (
      join (d.location ∷ d.did ∷ [])
      ∷ join (d.tmp_location ∷ d.did ∷ [])
      ∷ join (d.quarantine_location ∷ d.did ∷ [])
      ∷ [])
