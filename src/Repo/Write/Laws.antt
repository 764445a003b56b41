-- ===== src/Repo/Write/Laws.antt =====
-- What PrepWrite, PrepareWrite, SetInfo and DeriveCID return, read by the getters.
use at.Prelude.{
  ◌≡◌, ◌≢◌, ◌⊎◌, inl, inr, refl, sym, ◌∙◌, is_some, ◌||◌, subst, true, Option, none, List, [],
  String, arith,
}
use at.Prelude.Eq.{Eq, ==_iff}
use at.Prelude.Result.{>>=-eq-ok, ok_injective, ok, panic}
use at.Repo.Codec.{Codec, new_cid}
use at.Repo.Write.{
  WriteOpAction, create, update, delete, other, PreparedBlobRef, PreparedCreate, PreparedUpdate,
  PreparedDelete, PreparedWrite, WriteOp, delete_op, get_action, get_uri, get_swap_cid, get_blobs,
  get_cid, get_record, set_info, op_action, op_uri, op_swap_cid, op_blobs, op_cid, op_record,
  prep_write, prepare_write, prepare_action, fill_write, derive_cid, derive_from, of_create,
  of_update,
}

module _ {C R : Type 0} (codec : Codec C R) where
  -- `w` reads as the six arguments.
  pub record Reads (w : PreparedWrite C R) (action : WriteOpAction) (uri : String) (swap : Option C)
      (cid : C) (value : R) (blobs : List (PreparedBlobRef C)) : Type 0 where
    pub action_is : get_action w ≡ action
    pub uri_is : get_uri w ≡ uri
    pub swap_is : get_swap_cid w ≡ swap
    pub cid_is : get_cid codec w ≡ cid
    pub record_is : get_record codec w ≡ value
    pub blobs_are : get_blobs w ≡ blobs

  -- PrepWrite of an operation whose action is create or update succeeds, and each getter of the
  -- result agrees with the same method of the operation.
  pub prep_write-Reads :
      (v : WriteOp C R)
      → (op_action v ≡ create) ⊎ (op_action v ≡ update)
      → (w : PreparedWrite C R) × (prep_write codec v ≡ ok w)
        × Reads w
            (op_action v)
            (op_uri v)
            (op_swap_cid v)
            (op_cid codec v)
            (op_record codec v)
            (op_blobs v)
  unfolding prep_write get_action get_uri get_swap_cid get_blobs get_cid get_record
  prep_write-Reads v (inl h) = rw h (
    _,
    refl,
    record {
      action_is = refl;
      uri_is = refl;
      swap_is = refl;
      cid_is = refl;
      record_is = refl;
      blobs_are = refl;
    },
  )
  prep_write-Reads v (inr h) = rw h (
    _,
    refl,
    record {
      action_is = refl;
      uri_is = refl;
      swap_is = refl;
      cid_is = refl;
      record_is = refl;
      blobs_are = refl;
    },
  )

  -- PrepWrite turns a PreparedDelete into an update: the write that it returns has no deletion,
  -- says that it is an update, and carries the nil record and no CID.
  pub prep_write_delete :
      (d : PreparedDelete C R)
      → (w : PreparedWrite C R) × (prep_write codec (delete_op d) ≡ ok w)
        × (w.prepared_delete ≡ none)
        × Reads w update d.uri d.swap_cid codec.undef codec.nil []
  unfolding prep_write op_action op_uri op_swap_cid op_cid op_record op_blobs get_action get_uri
      get_swap_cid get_blobs get_cid get_record
  prep_write_delete d = (
    _,
    refl,
    refl,
    record {
      action_is = refl;
      uri_is = refl;
      swap_is = refl;
      cid_is = refl;
      record_is = refl;
      blobs_are = refl;
    },
  )

  -- What a write that was prepared for `action` reads as.
  abbrev pub Prepared :
      WriteOpAction → String → R → Option C → List (PreparedBlobRef C) → PreparedWrite C R → Type 0
  Prepared create uri value swap blobs w =
      (cid : C) × (new_cid codec value ≡ ok cid) × Reads w create uri swap cid value blobs
  Prepared update uri value swap blobs w =
      (cid : C) × (new_cid codec value ≡ ok cid) × Reads w update uri swap cid value blobs
  Prepared delete uri value swap blobs w = Reads w delete uri swap codec.undef codec.nil []
  Prepared (other s) uri value swap blobs w = ⊥

  prepare_action-Prepared :
      (action : WriteOpAction) (uri : String) (value : R) (swap : Option C)
      (blobs : List (PreparedBlobRef C)) (w : PreparedWrite C R)
      → prepare_action codec action uri value swap blobs ≡ ok w
      → Prepared action uri value swap blobs w
  unfolding prepare_action fill_write get_action get_uri get_swap_cid get_blobs get_cid get_record
      set_info
  prepare_action-Prepared create uri value swap blobs w h =
      let (cid, found, e) = >>=-eq-ok (new_cid codec value) _ h in
      (
        cid,
        found,
        subst (λ x. Reads x create uri swap cid value blobs) (ok_injective e)
            (record {
              action_is = refl;
              uri_is = refl;
              swap_is = refl;
              cid_is = refl;
              record_is = refl;
              blobs_are = refl;
            }),
      )
  prepare_action-Prepared update uri value swap blobs w h =
      let (cid, found, e) = >>=-eq-ok (new_cid codec value) _ h in
      (
        cid,
        found,
        subst (λ x. Reads x update uri swap cid value blobs) (ok_injective e)
            (record {
              action_is = refl;
              uri_is = refl;
              swap_is = refl;
              cid_is = refl;
              record_is = refl;
              blobs_are = refl;
            }),
      )
  prepare_action-Prepared delete uri value swap blobs w h =
      subst (λ x. Reads x delete uri swap codec.undef codec.nil []) (ok_injective h)
        (record {
          action_is = refl;
          uri_is = refl;
          swap_is = refl;
          cid_is = refl;
          record_is = refl;
          blobs_are = refl;
        })
  prepare_action-Prepared (other s) uri value swap blobs w h = absurd (cc)

  -- The write that PrepareWrite returns reads as the arguments and the parsed URI; for a create or
  -- an update its CID is that of the record, and a deletion has no CID, record or blobs. No write
  -- is returned for any other action.
  pub prepare_write-Prepared :
      (action : WriteOpAction) (uri : String) (value : R) (swap : Option C)
      (blobs : List (PreparedBlobRef C)) (w : PreparedWrite C R)
      → prepare_write codec action uri value swap blobs ≡ ok w
      → (aturi : String) × (codec.parse_uri uri ≡ ok aturi)
        × Prepared action aturi value swap blobs w
  unfolding prepare_write
  prepare_write-Prepared action uri value swap blobs w h =
      let (aturi, parsed, e) = >>=-eq-ok (codec.parse_uri uri) _ h in
      (aturi, parsed, prepare_action-Prepared action aturi value swap blobs w e)

  prepare_write-ok :
      (action : WriteOpAction) (uri aturi : String) (value : R) (swap : Option C)
      (blobs : List (PreparedBlobRef C)) (cid : C)
      → codec.parse_uri uri ≡ ok aturi
      → (action ≡ delete)
        ⊎ (((action ≡ create) ⊎ (action ≡ update)) × (new_cid codec value ≡ ok cid))
      → (w : PreparedWrite C R) × (prepare_write codec action uri value swap blobs ≡ ok w)
  unfolding prepare_write
  prepare_write-ok action uri aturi value swap blobs cid p (inl h) = rw (p, h) (_, refl)
  prepare_write-ok action uri aturi value swap blobs cid p (inr (inl h, c)) =
      rw (p, h) (unfold prepare_action in rw (c, fill_write) (_, refl))
  prepare_write-ok action uri aturi value swap blobs cid p (inr (inr h, c)) =
      rw (p, h) (unfold prepare_action in rw (c, fill_write) (_, refl))

  -- PrepareWrite of a create or an update returns a write whenever the URI parses and the record
  -- has a CID; of a deletion, whenever the URI parses. The write reads as the action, the parsed URI
  -- and the swap CID; that of a create or an update also as the record, its CID and the blobs, and
  -- that of a deletion has no CID, record or blobs.
  pub prepare_write_total :
      (action : WriteOpAction) (uri aturi : String) (value : R) (swap : Option C)
      (blobs : List (PreparedBlobRef C)) (cid : C)
      → codec.parse_uri uri ≡ ok aturi
      → (action ≡ delete)
        ⊎ (((action ≡ create) ⊎ (action ≡ update)) × (new_cid codec value ≡ ok cid))
      → (w : PreparedWrite C R) × (prepare_write codec action uri value swap blobs ≡ ok w)
        × Prepared action aturi value swap blobs w
  prepare_write_total action uri aturi value swap blobs cid p h =
      let (w, made) = prepare_write-ok action uri aturi value swap blobs cid p h in
      let (aturi', p', reads) = prepare_write-Prepared action uri value swap blobs w made in
      let same : aturi' ≡ aturi = ok_injective (sym p' ∙ p) in
      (w, made, subst (λ u. Prepared action u value swap blobs w) same reads)

module _ {C R : Type 0} ⦃e : Eq C⦄ (codec : Codec C R) where
  -- A DeriveCID that succeeds returns the CID that the write then has.
  pub get_cid-derive_cid :
      (w : PreparedWrite C R) (c : C)
      → (derive_cid codec w).0 ≡ ok c
      → get_cid codec (derive_cid codec w).1 ≡ c
  unfolding derive_cid derive_from get_cid
  get_cid-derive_cid w c h = ground arith

  -- On a create, a second DeriveCID after one that returned a defined CID returns it again and
  -- changes nothing.
  pub derive_cid_twice_create :
      (k : PreparedCreate C R) (c : C)
      → c ≢ codec.undef
      → (derive_cid codec (of_create k)).0 ≡ ok c
      → derive_cid codec (derive_cid codec (of_create k)).1
        ≡ (ok c, (derive_cid codec (of_create k)).1)
  unfolding derive_cid derive_from
  derive_cid_twice_create k c h d = ground (arith, ==_iff c codec.undef)

  -- On an update, a second DeriveCID after one that returned a defined CID panics.
  pub derive_cid_twice_update :
      (u : PreparedUpdate C R) (c : C)
      → c ≢ codec.undef
      → (derive_cid codec (of_update u)).0 ≡ ok c
      → (derive_cid codec (derive_cid codec (of_update u)).1).0 ≡ panic
  unfolding derive_cid derive_from
  derive_cid_twice_update u c h d = ground (arith, ==_iff c codec.undef)

  -- After SetInfo, a write that has a create or an update reads as the arguments in all six getters.
  pub set_info-Reads :
      (a : WriteOpAction) (uri : String) (swap : Option C) (cid : C) (value : R)
      (blobs : List (PreparedBlobRef C)) (w : PreparedWrite C R)
      → (is_some w.prepared_create || is_some w.prepared_update) ≡ true
      → Reads codec (set_info a cid uri value swap blobs w) a uri swap cid value blobs
  unfolding set_info get_action get_uri get_swap_cid get_blobs get_cid get_record
  set_info-Reads a uri swap cid value blobs w h = ground arith
