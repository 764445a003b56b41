-- ===== src/Auth/Keys.antt =====
-- internal/auth/middleware.go: the key of a service, from the document of its DID.
pub mod Signing
use at.Prelude.{ℕ, Bool, true, false, Option, none, some, List, [], ◌∷◌, if◌then◌else◌}
use at.Prelude.Eq.{◌==◌}
use at.Prelude.Result.{Error, msg}
use at.Prelude.Text.{Text, ascii, text_eq}
use at.Prelude.Try.{Try, fails, gives, ◌>>=◌, map_error}
use at.Auth.{split2, Jwt, Key, public}

-- The fields that the code reads of did.VerificationMethod.
pub record VerificationMethod : Type 0 where
  pub id : Text
  pub method_type : Text
  pub public_key_multibase : Option Text

-- What the code uses of a resolver and of the crypto package: GetDocument, as far as the
-- verification methods of the document, and ParsePublicMultibase.
pub record Resolver (PublicKey : Type 0) : Type 0 where
  pub get_document : Text → Try Error (List VerificationMethod)
  pub parse_multibase : Text → Try Error PublicKey

unfoldable pub get_verification_method :
    List VerificationMethod → Text → Try Error VerificationMethod
get_verification_method [] key_id = fails (msg "could not find verification method")
get_verification_method (m ∷ ms) key_id =
    let rest = get_verification_method ms key_id in
    if (split2 m.id 35).1 == key_id then gives m else rest

module _ {PublicKey : Type 0} (resolver : Resolver PublicKey) where
  key_of_payload : Option Text → Try Error PublicKey
  key_of_payload none = fails (msg "verification method type does not match actual payload")
  key_of_payload (some multibase) = resolver.parse_multibase multibase

  key_of_method : VerificationMethod → Try Error PublicKey
  unfolding key_of_payload
  key_of_method m =
      if m.method_type == ascii "Multikey"
      then key_of_payload m.public_key_multibase
      else fails (msg "unknown verification method type")

  abbrev default_key : Text → Text
  default_key key_id = if key_id == [] then ascii "atproto" else key_id

  unfoldable pub public_key_from_did_doc : List VerificationMethod → Text → Try Error PublicKey
  unfolding key_of_method
  public_key_from_did_doc doc key_id =
      get_verification_method doc (default_key key_id) >>= key_of_method

  abbrev pub key_id_of : Text → Text
  key_id_of service_id =
      if service_id == ascii "atproto_labeler" then ascii "atproto_label" else ascii "atproto"

  unfoldable pub get_resolver_signing_key : Text → Try Error PublicKey
  get_resolver_signing_key iss =
      let service = split2 iss 35 in
      resolver.get_document service.0 >>= λ doc. public_key_from_did_doc doc (key_id_of service.1)

-- The key function of ServiceJwt.
unfoldable pub service_key :
    (jwt : Jwt) → Resolver jwt.PublicKey → jwt.Token → Try Error (Key jwt.PublicKey)
service_key jwt resolver t = do
  iss ← jwt.issuer t
  key ← get_resolver_signing_key resolver iss
  gives (public key)
