-- ===== src/Auth/Middleware/Service.antt =====
-- internal/auth/middleware.go: ServiceJwt and the key that a service's token is checked with.
use at.Prelude.{◌≡◌, ◌⊎◌, inl, inr, refl, sym, subst, Option, []}
use at.Prelude.Result.{Error}
use at.Prelude.Text.{Text, ascii, text_eq}
use at.Prelude.Try.{Try, gives, >>=-eq-gives, gives_injective}
use at.Auth.Headers.{HasScheme, get_raw_token-bearer, get_raw_token-basic}
use at.Auth.Bearer.{validate_bearer_token_iff}
use at.Auth.Middleware.Safety.{
  IsAdmin, as_admin, as_bearer, validate_basic_auth_iff, answer_basic-served, answer_bearer-served,
}
use at.Auth.Middleware.{Context, served, service_jwt, service_case}
use at.Auth.Keys.{Resolver, service_key}
use at.Auth.Keys.Signing.{IsKeyOf, get_resolver_signing_key-IsKeyOf}
use at.Auth.{
  split2, get_raw_token, TokenType, invalid, empty, bearer, basic, Opts, validate_basic_auth,
  Response, Jwt, Key, public, secret,
}

module _ (jwt : Jwt) (resolver : Resolver jwt.PublicKey) where
  open jwt use {Token, PublicKey, parse, issuer}

  service_key-IsKeyOf :
      (t : Token) (k : Key PublicKey)
      → service_key jwt resolver t ≡ gives k
      → (iss : Text) × (p : PublicKey) × (issuer t ≡ gives iss)
        × IsKeyOf resolver iss p
        × (k ≡ public p)
  unfolding service_key
  service_key-IsKeyOf t k h =
      let (iss, q, h₁) = >>=-eq-gives _ _ h in
      let (p, found, h₂) = >>=-eq-gives _ _ h₁ in
      (iss, p, q, get_resolver_signing_key-IsKeyOf resolver iss p found, sym (gives_injective h₂))

  -- ParseWithClaims asks the key function for a key, and accepts only what it has verified with it.
  abbrev pub Verifies : (Text → Key PublicKey → Type 0) → Type 0
  Verifies Verified =
      (raw : Text) (keyfn : Token → Try Error (Key PublicKey)) (tok : Token)
      (claims : at.Auth.Claims)
      → parse raw keyfn ≡ gives (tok, claims)
      → (k : Key PublicKey) × (keyfn tok ≡ gives k) × Verified raw k

  -- A request that ServiceJwt serves has the password of the administrator, or a token that was
  -- verified with the key that the document of its issuer's DID has for signing, if the library
  -- verifies what it accepts with the key that it is given.
  pub service_jwt-Safe :
      (decode : Text → Option Text) (opts : Opts) (Verified : Text → Key PublicKey → Type 0)
      (header : Text) (ctx left : Context Token)
      → Verifies Verified
      → service_jwt jwt decode opts resolver header ctx ≡ served left
      → (IsAdmin decode opts header × (as_admin ctx ≡ left))
        ⊎ ((raw : Text) × (tok : Token) × (did iss : Text) × (k : PublicKey) × HasScheme 98
              (ascii "earer ")
              header
              raw
            × (issuer tok ≡ gives iss)
            × IsKeyOf resolver iss k
            × Verified raw (public k)
            × (as_bearer ctx tok did ≡ left))
  unfolding service_jwt service_case
  service_jwt-Safe decode opts Verified header ctx left verifies = go (get_raw_token header) refl
    where
      go :
          (p : Text × TokenType)
          → get_raw_token header ≡ p
          → service_case jwt decode opts resolver ctx p ≡ served left
          → (IsAdmin decode opts header × (as_admin ctx ≡ left))
            ⊎ ((raw : Text) × (tok : Token) × (did iss : Text) × (k : PublicKey) × HasScheme 98
                  (ascii "earer ")
                  header
                  raw
                × (issuer tok ≡ gives iss)
                × IsKeyOf resolver iss k
                × Verified raw (public k)
                × (as_bearer ctx tok did ≡ left))
      go (raw, invalid) q h = cc
      go (raw, empty) q h = cc
      go (raw, basic) q h =
          let (user, checked, same) =
            answer_basic-served ctx left (validate_basic_auth decode opts raw) h in
          let (is_user, payload) = (validate_basic_auth_iff decode opts raw user).0 checked in
          inl ((raw, get_raw_token-basic header raw q, payload), rw is_user at same)
      go (raw, bearer) q h =
          let (tok, did, checked, same) = answer_bearer-served ctx left _ h in
          let (claims, parsed, is_valid, scope, subject) =
            (validate_bearer_token_iff jwt raw [] (service_key jwt resolver) tok did).0 checked in
          let (k, given, verified) = verifies raw (service_key jwt resolver) tok claims parsed in
          let (iss, p, issued, is_key, is_public) = service_key-IsKeyOf tok k given in
          inr (
            raw,
            tok,
            did,
            iss,
            p,
            get_raw_token-bearer header raw q,
            issued,
            is_key,
            subst (Verified raw) is_public verified,
            same,
          )
