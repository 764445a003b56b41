-- ===== src/Auth/Keys/Signing.antt =====
-- internal/auth/middleware.go: the verification method that a service's key comes from.
use at.Prelude.{
  ◌≡◌, refl, sym, ap, subst, ◌∙◌, Option, none, some, List, [], ◌∷◌, ◌++◌, Bool-cases, inl, inr,
}
use at.Prelude.Eq.{◌==◌, ==_iff}
use at.Prelude.Result.{msg}
use at.Prelude.Text.{Text, ascii, text_eq}
use at.Prelude.Try.{fails, gives, >>=-eq-gives, gives_injective}
use at.Auth.Keys.{
  Resolver, VerificationMethod, get_verification_method, key_of_payload, key_of_method, default_key,
  public_key_from_did_doc, key_id_of, get_resolver_signing_key,
}
use at.Auth.{split2}

-- The method `m` of a document is one whose id has the fragment `key_id`.
abbrev pub IsMethodOf : List VerificationMethod → Text → VerificationMethod → Type 0
IsMethodOf doc key_id m =
    (before after : List VerificationMethod) × (doc ≡ before ++ m ∷ after)
    × ((split2 m.id 35).1 ≡ key_id)

get_verification_method-eq-gives :
    (doc : List VerificationMethod) (key_id : Text) (m : VerificationMethod)
    → get_verification_method doc key_id ≡ gives m
    → IsMethodOf doc key_id m
unfolding get_verification_method
get_verification_method-eq-gives [] key_id m h = cc
get_verification_method-eq-gives (d ∷ ds) key_id m h =
    elim (Bool-cases ((split2 d.id 35).1 == key_id)) [
      | inl e ↦
          let same : d ≡ m = gives_injective (rw e at h) in
          (
            [],
            ds,
            ap (λ x. x ∷ ds) same,
            subst (λ x. (split2 x.id 35).1 ≡ key_id) same ((==_iff (split2 d.id 35).1 key_id).0 e),
          )
      | inr e ↦
          let (before, after, q, fragment) =
            get_verification_method-eq-gives ds key_id m (rw e at h) in
          (d ∷ before, after, ap (λ x. d ∷ x) q, fragment)
    ]

module _ {PublicKey : Type 0} (resolver : Resolver PublicKey) where
  -- The key `k` is that of the method for signing in the document of the issuer's DID.
  abbrev pub IsKeyOf : Text → PublicKey → Type 0
  IsKeyOf iss k =
      (doc : List VerificationMethod) × (m : VerificationMethod) × (multibase : Text)
      × (resolver.get_document (split2 iss 35).0 ≡ gives doc)
      × IsMethodOf doc (key_id_of resolver (split2 iss 35).1) m
      × (m.method_type ≡ ascii "Multikey")
      × (m.public_key_multibase ≡ some multibase)
      × (resolver.parse_multibase multibase ≡ gives k)

  key_of_payload-eq-gives :
      (o : Option Text) (k : PublicKey)
      → key_of_payload resolver o ≡ gives k
      → (multibase : Text) × (o ≡ some multibase) × (resolver.parse_multibase multibase ≡ gives k)
  unfolding key_of_payload
  key_of_payload-eq-gives none k h = cc
  key_of_payload-eq-gives (some multibase) k h = (multibase, refl, h)

  key_of_method-eq-gives :
      (m : VerificationMethod) (k : PublicKey)
      → key_of_method resolver m ≡ gives k
      → (multibase : Text) × (m.method_type ≡ ascii "Multikey")
        × (m.public_key_multibase ≡ some multibase)
        × (resolver.parse_multibase multibase ≡ gives k)
  unfolding key_of_method
  key_of_method-eq-gives m k h = elim (Bool-cases (m.method_type == ascii "Multikey")) [
    | inl e ↦
        let (multibase, q, parsed) = key_of_payload-eq-gives m.public_key_multibase k (rw e at h) in
        (multibase, (==_iff m.method_type (ascii "Multikey")).0 e, q, parsed)
    | inr e ↦ let z : fails (msg "unknown verification method type") ≡ gives k = rw e at h in cc
  ]

  default_key-key_id_of :
      (service_id : Text)
      → default_key resolver (key_id_of resolver service_id) ≡ key_id_of resolver service_id
  default_key-key_id_of service_id = elim (Bool-cases (service_id == ascii "atproto_labeler")) [
    | inl e ↦ rw e
    | inr e ↦ rw e
  ]

  pub get_resolver_signing_key-IsKeyOf :
      (iss : Text) (k : PublicKey) → get_resolver_signing_key resolver iss ≡ gives k → IsKeyOf iss k
  unfolding get_resolver_signing_key public_key_from_did_doc
  get_resolver_signing_key-IsKeyOf iss k h =
      let service = split2 iss 35 in
      let key_id = key_id_of resolver service.1 in
      let (doc, found, h₁) =
        >>=-eq-gives (resolver.get_document service.0)
          (λ d. public_key_from_did_doc resolver d key_id) h in
      let (m, q, h₂) =
        >>=-eq-gives (get_verification_method doc (default_key resolver key_id))
          (key_of_method resolver) h₁ in
      let (multibase, is_multikey, payload, parsed) = key_of_method-eq-gives m k h₂ in
      let q' : get_verification_method doc key_id ≡ gives m =
        ap (get_verification_method doc) (sym (default_key-key_id_of service.1)) ∙ q in
      (
        doc,
        m,
        multibase,
        found,
        get_verification_method-eq-gives doc key_id m q',
        is_multikey,
        payload,
        parsed,
      )
