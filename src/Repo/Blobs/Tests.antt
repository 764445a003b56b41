-- ===== src/Repo/Blobs/Tests.antt =====
-- The theorems about blobs at a file system that is a Go map from paths to contents.
use at.Prelude.{
  ℕ, ◌≡◌, ◌≢◌, inl, inr, refl, arith, Option, none, some, List, [], ◌∷◌, ◌++◌, true, Option-cases,
}
use at.Prelude.Eq.{==_iff, ==_refl}
use at.Prelude.GoMap.{GoMap, lookup, insert, delete, lookup-insert, lookup-delete}
use at.Prelude.Result.{Error, Result, ok, err, msg, blob_not_found}
use at.Prelude.Text.{Text, ascii, text_eq}
use at.Repo.Blobs.{
  Files, DiskBlobStore, gen_key, put_temp, put, make_permanent, copy_file, has_stored, get_bytes,
  quarantine, unquarantine, ensure_dir, ensure_temp, ensure_quarantine, get_tmp_path,
  get_stored_path, get_quarantine_path,
}
use at.Repo.Blobs.Moves.{
  Contents, make_permanent_keeps, get_bytes-make_permanent, put_temp_twice, unquarantine-quarantine,
}

abbrev join_parts : List Text → Text
join_parts [] = []
join_parts (part ∷ parts) = part ++ 47 ∷ join_parts parts

abbrev Disk : Type 0
Disk = GoMap Text Text

abbrev gone : Error
gone = msg "missing"

abbrev read_found : Option Text → Result Text
read_found none = err gone
read_found (some t) = ok t

abbrev stat_found : Option Text → Option Error
stat_found none = some gone
stat_found (some t) = none

abbrev renamed : Text → Text → Option Text → Disk → Result (Unit {0}) × Disk
renamed p q none w = (err gone, w)
renamed p q (some t) w = (ok tt, delete p (insert q t w))

abbrev files : Files
files = record {
  World = Disk;
  FilePath = Text;
  join = join_parts;
  not_exist = λ x. true;
  stat = λ p w. stat_found (lookup p w);
  mkdir_all = λ p w. (ok tt, w);
  open_trunc = λ p w. (ok tt, insert p [] w);
  open_read = λ p w. (ok tt, w);
  write_all = λ p t w. (ok tt, insert p t w);
  read_all = λ p w. (read_found (lookup p w), w);
  rename = λ p q w. renamed p q (lookup p w) w;
  remove = λ p w. (ok tt, delete p w);
  remove_all = λ p w. (ok tt, delete p w);
}

contents : Contents files
contents = record {
  content = λ w p. lookup p w;
  mkdir_keeps = λ p q w. refl;
  open_read_keeps = λ p q w. refl;
  read_keeps = λ p q w. refl;
  open_trunc_other = λ p q w apart. ground (arith, lookup-insert p q [] w, ==_iff p q);
  write_other = λ p q t w apart. ground (arith, lookup-insert p q t w, ==_iff p q);
  write_same = λ p t w h. ground (arith, lookup-insert p p t w, ==_refl p);
  read_some = λ p t w h. rw h;
  read_none = λ p w h. (gone, rw h, refl);
  remove_other = λ p q w apart. ground (arith, lookup-delete p q w, ==_iff p q);
  rename_to = λ p q w apart h. to p q w apart h;
  rename_from = λ p q w apart h. from p q w apart h;
  stat_none = λ p w h. (gone, rw h, refl);
  stat_some = λ p t w h. rw h;
}
  where
    to :
        (p q : Text) (w : Disk)
        → p ≢ q
        → (renamed p q (lookup p w) w).0 ≡ ok tt
        → lookup q (renamed p q (lookup p w) w).1 ≡ lookup p w
    to p q w apart h = elim (Option-cases (lookup p w)) [
      | inl e ↦ let z : ◌≡◌ {A = Result (Unit {0})} (err gone) (ok tt) = rw e at h in cc
      | inr (t, e) ↦ rw e (
          ground
            (arith, lookup-delete p q (insert q t w), lookup-insert q q t w, ==_iff p q, ==_refl q))
    ]

    from :
        (p q : Text) (w : Disk)
        → p ≢ q
        → (renamed p q (lookup p w) w).0 ≡ ok tt
        → lookup p (renamed p q (lookup p w) w).1 ≡ none
    from p q w apart h = elim (Option-cases (lookup p w)) [
      | inl e ↦ let z : ◌≡◌ {A = Result (Unit {0})} (err gone) (ok tt) = rw e at h in cc
      | inr (t, e) ↦ rw e (ground (arith, lookup-delete p p (insert q t w), ==_refl p))
    ]

abbrev store : DiskBlobStore
store = record {
  did = ascii "d";
  location = ascii "s";
  tmp_location = ascii "t";
  quarantine_location = ascii "q";
}

abbrev name : ℕ → Text
name c = c ∷ []

-- Each path starts with its directory.
apart_from_temp :
    (key : Text) (c : ℕ) → get_tmp_path files name store key ≢ get_stored_path files name store c
apart_from_temp key c h = ground arith

apart_from_quarantine :
    (c : ℕ) → get_stored_path files name store c ≢ get_quarantine_path files name store c
apart_from_quarantine c h = ground arith

-- The key of every temporary blob.
gen_key_run : gen_key ≡ ascii "abcdefghijklmnopqrstuvwxyz234567"
unfolding gen_key
gen_key_run = refl

abbrev one : Text
one = 1 ∷ []

abbrev two : Text
two = 2 ∷ []

abbrev temp : Text → Disk
temp t = (get_tmp_path files name store gen_key, t) ∷ []

put_one : put_temp files name store (one, none) [] ≡ (ok gen_key, temp one)
unfolding put_temp put ensure_temp insert gen_key
put_one = refl

abbrev after_one : Disk
after_one = (put_temp files name store (one, none) []).1

abbrev after_two : Disk
after_two = (put_temp files name store (two, none) after_one).1

get_bytes-make_permanent_example :
    (get_bytes files name store 5 (make_permanent files name store gen_key 5 after_one).1).0
    ≡ ok one
unfolding put_temp put ensure_temp insert gen_key lookup make_permanent ensure_dir has_stored
    copy_file delete contents
get_bytes-make_permanent_example =
    get_bytes-make_permanent files name store contents one gen_key 5 [] (apart_from_temp gen_key 5)
      refl refl refl

put_temp_twice_example :
    (get_bytes files name store 5 (make_permanent files name store gen_key 5 after_two).1).0
    ≡ ok two
unfolding put_temp put ensure_temp insert gen_key lookup make_permanent ensure_dir has_stored
    copy_file delete contents
put_temp_twice_example =
    put_temp_twice files name store contents one two gen_key gen_key 5 []
      (apart_from_temp gen_key 5) refl refl refl refl

abbrev stored : Disk
stored = (get_stored_path files name store 5, one) ∷ []

make_permanent_keeps_example :
    contents.content
      (make_permanent files name store gen_key 6 stored).1
      (get_stored_path files name store 5)
    ≡ some one
unfolding lookup contents
make_permanent_keeps_example =
    make_permanent_keeps files name store contents gen_key 6 5 one stored
      (apart_from_temp gen_key 5) refl

unquarantine-quarantine_example :
    ((get_bytes files name store 5 (quarantine files name store 5 stored).1).0 ≡ err blob_not_found)
    × ((get_bytes files name store 5
          (unquarantine files name store 5 (quarantine files name store 5 stored).1).1).0
        ≡ ok one)
unfolding lookup contents quarantine unquarantine ensure_dir ensure_quarantine insert delete
unquarantine-quarantine_example =
    unquarantine-quarantine files name store contents 5 one stored (apart_from_quarantine 5) refl
      refl refl
