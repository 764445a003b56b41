-- ===== src/Repo/Write/Tests.antt =====
-- The theorems about write operations at concrete operations.
use at.Prelude.{ℕ, ◌≡◌, inr, refl, none, some, [], arith}
use at.Prelude.Eq.{nat_eq}
use at.Prelude.Result.{ok, panic}
use at.Repo.Codec.{new_cid}
use at.Repo.Sample.{codec}
use at.Repo.Write.{
  create, update, delete, PreparedCreate, PreparedUpdate, PreparedDelete, PreparedWrite, delete_op,
  of_create, of_update, unset, prep_write, prepare_write, derive_cid,
}
use at.Repo.Write.Laws.{
  Reads, Prepared, prep_write_delete, prepare_write_total, derive_cid_twice_update,
}

abbrev sample_create : PreparedCreate ℕ ℕ
sample_create = record {
  action = create;
  uri = "at://a/c/k";
  cid = 0;
  swap_cid = none;
  rec = 5;
  blobs = [];
  validation_status = unset;
}

abbrev sample_update : PreparedUpdate ℕ ℕ
sample_update = record {
  action = update;
  uri = "at://a/c/k";
  cid = 0;
  swap_cid = some 4;
  rec = 5;
  blobs = [];
  validation_status = unset;
}

abbrev sample_delete : PreparedDelete ℕ ℕ
sample_delete = record { action = delete; uri = "at://a/c/k"; swap_cid = none }

prep_write_delete_example :
    (w : PreparedWrite ℕ ℕ) × (prep_write codec (delete_op sample_delete) ≡ ok w)
    × (w.prepared_delete ≡ none)
    × Reads codec w update "at://a/c/k" none 0 0 []
prep_write_delete_example = prep_write_delete codec sample_delete

abbrev prepared : PreparedWrite ℕ ℕ
prepared = of_create (record sample_create { cid = 5 })

prepare_write_total_example :
    (w : PreparedWrite ℕ ℕ) × (prepare_write codec update "at://a/c/k" 5 none [] ≡ ok w)
    × Prepared codec update "at://a/c/k" 5 none [] w
unfolding new_cid
prepare_write_total_example =
    prepare_write_total codec update "at://a/c/k" "at://a/c/k" 5 none [] 5 refl
      (inr (inr refl, refl))

derive_cid_twice_update_example :
    (derive_cid codec (derive_cid codec (of_update sample_update)).1).0 ≡ panic
unfolding derive_cid new_cid
derive_cid_twice_update_example = derive_cid_twice_update codec sample_update 5 (omega arith) refl
