-- ===== src/Repo/Write.antt =====
-- internal/repo/ops.go: write operations. A `*T` that the code only sets once and then reads and
-- writes through is an `Option` by value.

pub mod Laws
mod Tests
use at.Prelude.{Bool, true, false, Option, none, some, List, [], String, if◌then◌else◌}
use at.Prelude.Eq.{Eq}
use at.Prelude.Result.{Result, ok, err, panic, msg, ◌>>=◌}
use at.Repo.BlockMap.{Bytes}
use at.Repo.Codec.{Codec, defined, new_cid}

-- A Go string type with three constants; `other` is any other string, `other ""` the zero value.
pub data WriteOpAction : Type 0 where
  create update delete : WriteOpAction
  other : String → WriteOpAction

pub data ValidationStatus : Type 0 where
  valid unknown unset : ValidationStatus

pub record BlobConstraint : Type 0 where
  pub accept : List String
  pub max_size : Option Prim.Native.Nat.ℕ

pub record PreparedBlobRef (C : Type 0) : Type 0 where
  pub cid : C
  pub mime_type : String
  pub constraints : BlobConstraint

-- The field `Record` is called `rec` here.
pub record PreparedCreate (C R : Type 0) : Type 0 where
  pub action : WriteOpAction
  pub uri : String
  pub cid : C
  pub swap_cid : Option C
  pub rec : R
  pub blobs : List (PreparedBlobRef C)
  pub validation_status : ValidationStatus

pub record PreparedUpdate (C R : Type 0) : Type 0 where
  pub action : WriteOpAction
  pub uri : String
  pub cid : C
  pub swap_cid : Option C
  pub rec : R
  pub blobs : List (PreparedBlobRef C)
  pub validation_status : ValidationStatus

pub record PreparedDelete (C R : Type 0) : Type 0 where
  pub action : WriteOpAction
  pub uri : String
  pub swap_cid : Option C

pub record PreparedWrite (C R : Type 0) : Type 0 where
  pub prepared_create : Option (PreparedCreate C R)
  pub prepared_update : Option (PreparedUpdate C R)
  pub prepared_delete : Option (PreparedDelete C R)

abbrev pub no_write : {C R : Type 0} → PreparedWrite C R
no_write = record { prepared_create = none; prepared_update = none; prepared_delete = none }

module _ {C R : Type 0} where
  abbrev pub of_create : PreparedCreate C R → PreparedWrite C R
  of_create c = record { prepared_create = some c; prepared_update = none; prepared_delete = none }

  abbrev pub of_update : PreparedUpdate C R → PreparedWrite C R
  of_update u = record { prepared_create = none; prepared_update = some u; prepared_delete = none }

  abbrev pub of_delete : PreparedDelete C R → PreparedWrite C R
  of_delete d = record { prepared_create = none; prepared_update = none; prepared_delete = some d }

  -- Each method of PreparedWrite tests the three pointers in turn.
  abbrev select {ℓ} :
      {A : Type ℓ}
      → (PreparedCreate C R → A)
      → (PreparedUpdate C R → A)
      → (PreparedDelete C R → A)
      → A
      → Option (PreparedCreate C R)
      → Option (PreparedUpdate C R)
      → Option (PreparedDelete C R)
      → A
  select f g h z (some c) u d = f c
  select f g h z none (some u) d = g u
  select f g h z none none (some d) = h d
  select f g h z none none none = z

  abbrev switch {ℓ} :
      {A : Type ℓ}
      → PreparedWrite C R
      → (PreparedCreate C R → A)
      → (PreparedUpdate C R → A)
      → (PreparedDelete C R → A)
      → A
      → A
  switch pw f g h z = select f g h z pw.prepared_create pw.prepared_update pw.prepared_delete

  unfoldable pub get_action : PreparedWrite C R → WriteOpAction
  get_action pw = switch pw (λ c. c.action) (λ u. u.action) (λ d. d.action) (other "")

  unfoldable pub get_uri : PreparedWrite C R → String
  get_uri pw = switch pw (λ c. c.uri) (λ u. u.uri) (λ d. d.uri) ""

  unfoldable pub get_swap_cid : PreparedWrite C R → Option C
  get_swap_cid pw = switch pw (λ c. c.swap_cid) (λ u. u.swap_cid) (λ d. d.swap_cid) none

  unfoldable pub get_blobs : PreparedWrite C R → List (PreparedBlobRef C)
  get_blobs pw = switch pw (λ c. c.blobs) (λ u. u.blobs) (λ d. []) []

  unfoldable pub get_cid : Codec C R → PreparedWrite C R → C
  get_cid codec pw = switch pw (λ c. c.cid) (λ u. u.cid) (λ d. codec.undef) codec.undef

  unfoldable pub get_record : Codec C R → PreparedWrite C R → R
  get_record codec pw = switch pw (λ c. c.rec) (λ u. u.rec) (λ d. codec.nil) codec.nil

  unfoldable pub set_action : WriteOpAction → PreparedWrite C R → PreparedWrite C R
  set_action a pw =
      switch pw (λ c. record pw { prepared_create = some (record c { action = a }) })
        (λ u. record pw { prepared_update = some (record u { action = a }) })
        (λ d. record pw { prepared_delete = some (record d { action = a }) }) pw

  unfoldable pub set_record : R → PreparedWrite C R → PreparedWrite C R
  set_record r pw =
      switch pw (λ c. record pw { prepared_create = some (record c { rec = r }) })
        (λ u. record pw { prepared_update = some (record u { rec = r }) }) (λ d. pw) pw

  unfoldable pub set_cid : C → PreparedWrite C R → PreparedWrite C R
  set_cid x pw =
      switch pw (λ c. record pw { prepared_create = some (record c { cid = x }) })
        (λ u. record pw { prepared_update = some (record u { cid = x }) }) (λ d. pw) pw

  unfoldable pub set_uri : String → PreparedWrite C R → PreparedWrite C R
  set_uri s pw =
      switch pw (λ c. record pw { prepared_create = some (record c { uri = s }) })
        (λ u. record pw { prepared_update = some (record u { uri = s }) })
        (λ d. record pw { prepared_delete = some (record d { uri = s }) }) pw

  unfoldable pub set_info :
      WriteOpAction
      → C
      → String
      → R
      → Option C
      → List (PreparedBlobRef C)
      → PreparedWrite C R
      → PreparedWrite C R
  set_info a x s r swap bs pw =
      switch pw
        (λ c. record pw {
          prepared_create =
              some
                (record c { action = a; cid = x; uri = s; rec = r; swap_cid = swap; blobs = bs });
        })
        (λ u. record pw {
          prepared_update =
              some
                (record u { action = a; cid = x; uri = s; rec = r; swap_cid = swap; blobs = bs });
        })
        (λ d. record pw {
          prepared_delete = some (record d { action = a; uri = s; swap_cid = swap });
        })
        pw

-- The interface WriteOp has four implementations in the package. A value of it is read through
-- the methods below; GetAction of PreparedDelete returns the update action.
pub data WriteOp (C R : Type 0) : Type 0 where
  create_op : PreparedCreate C R → WriteOp C R
  update_op : PreparedUpdate C R → WriteOp C R
  delete_op : PreparedDelete C R → WriteOp C R
  write_op : PreparedWrite C R → WriteOp C R

module _ {C R : Type 0} where
  unfoldable pub op_action : WriteOp C R → WriteOpAction
  op_action (create_op c) = create
  op_action (update_op u) = update
  op_action (delete_op d) = update
  op_action (write_op w) = get_action w

  unfoldable pub op_uri : WriteOp C R → String
  op_uri (create_op c) = c.uri
  op_uri (update_op u) = u.uri
  op_uri (delete_op d) = d.uri
  op_uri (write_op w) = get_uri w

  unfoldable pub op_swap_cid : WriteOp C R → Option C
  op_swap_cid (create_op c) = c.swap_cid
  op_swap_cid (update_op u) = u.swap_cid
  op_swap_cid (delete_op d) = d.swap_cid
  op_swap_cid (write_op w) = get_swap_cid w

  unfoldable pub op_blobs : WriteOp C R → List (PreparedBlobRef C)
  op_blobs (create_op c) = c.blobs
  op_blobs (update_op u) = u.blobs
  op_blobs (delete_op d) = []
  op_blobs (write_op w) = get_blobs w

  unfoldable pub op_cid : Codec C R → WriteOp C R → C
  op_cid codec (create_op c) = c.cid
  op_cid codec (update_op u) = u.cid
  op_cid codec (delete_op d) = codec.undef
  op_cid codec (write_op w) = get_cid codec w

  unfoldable pub op_record : Codec C R → WriteOp C R → R
  op_record codec (create_op c) = c.rec
  op_record codec (update_op u) = u.rec
  op_record codec (delete_op d) = codec.nil
  op_record codec (write_op w) = get_record codec w

  -- The switch of PrepWrite on the action; its default case panics.
  prep_action : Codec C R → WriteOpAction → WriteOp C R → Result (PreparedWrite C R)
  prep_action codec create v = ok (
      of_create (record {
        action = create;
        uri = op_uri v;
        cid = op_cid codec v;
        swap_cid = op_swap_cid v;
        rec = op_record codec v;
        blobs = op_blobs v;
        validation_status = unset;
      }))
  prep_action codec update v = ok (
      of_update (record {
        action = update;
        uri = op_uri v;
        cid = op_cid codec v;
        swap_cid = op_swap_cid v;
        rec = op_record codec v;
        blobs = op_blobs v;
        validation_status = unset;
      }))
  prep_action codec delete v =
      ok (of_delete (record { action = delete; uri = op_uri v; swap_cid = op_swap_cid v }))
  prep_action codec (other s) v = panic

  unfoldable pub prep_write : Codec C R → WriteOp C R → Result (PreparedWrite C R)
  unfolding prep_action
  prep_write codec v = prep_action codec (op_action v) v

  -- The zero values that PrepareWrite fills in by SetInfo.
  abbrev zero_create : Codec C R → PreparedCreate C R
  zero_create codec = record {
    action = other "";
    uri = "";
    cid = codec.undef;
    swap_cid = none;
    rec = codec.nil;
    blobs = [];
    validation_status = unset;
  }

  abbrev zero_update : Codec C R → PreparedUpdate C R
  zero_update codec = record {
    action = other "";
    uri = "";
    cid = codec.undef;
    swap_cid = none;
    rec = codec.nil;
    blobs = [];
    validation_status = unset;
  }

  fill_write :
      Codec C R
      → WriteOpAction
      → String
      → R
      → Option C
      → List (PreparedBlobRef C)
      → PreparedWrite C R
      → Result (PreparedWrite C R)
  fill_write codec action uri value swap blobs w = do
    cid ← new_cid codec value
    ok (set_info action cid uri value swap blobs w)

  prepare_action :
      Codec C R
      → WriteOpAction
      → String
      → R
      → Option C
      → List (PreparedBlobRef C)
      → Result (PreparedWrite C R)
  unfolding fill_write
  prepare_action codec create uri value swap blobs =
      fill_write codec create uri value swap blobs (of_create (zero_create codec))
  prepare_action codec update uri value swap blobs =
      fill_write codec update uri value swap blobs (of_update (zero_update codec))
  prepare_action codec delete uri value swap blobs =
      ok (of_delete (record { action = delete; uri = uri; swap_cid = swap }))
  prepare_action codec (other s) uri value swap blobs = err (msg "unknown write action")

  unfoldable pub prepare_write :
      Codec C R
      → WriteOpAction
      → String
      → R
      → Option C
      → List (PreparedBlobRef C)
      → Result (PreparedWrite C R)
  unfolding prepare_action
  prepare_write codec action uri value swap blobs = do
    aturi ← codec.parse_uri uri
    prepare_action codec action aturi value swap blobs

  -- The end of DeriveCID: the CID of the record, written back by `put`.
  derive_from :
      Codec C R → R → (C → PreparedWrite C R) → PreparedWrite C R → Result C × PreparedWrite C R
  derive_from codec value put pw = elim (new_cid codec value) [
    | ok c ↦ (ok c, put c)
    | err x ↦ (err x, pw)
    | panic ↦ (panic, pw)
  ]

  -- On an update whose CID is defined the code reads the CID of `pw.PreparedCreate`, which is nil
  -- there, and panics.
  unfoldable pub derive_cid :
      ⦃e : Eq C⦄ → Codec C R → PreparedWrite C R → Result C × PreparedWrite C R
  unfolding derive_from
  derive_cid codec pw =
      switch pw
        (λ c.
          if defined codec c.cid
          then (ok c.cid, pw)
          else derive_from codec c.rec
              (λ x. record pw { prepared_create = some (record c { cid = x }) }) pw)
        (λ u.
          if defined codec u.cid
          then (panic, pw)
          else derive_from codec u.rec
              (λ x. record pw { prepared_update = some (record u { cid = x }) }) pw)
        (λ d. (ok codec.undef, pw)) (ok codec.undef, pw)
