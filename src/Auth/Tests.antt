-- ===== src/Auth/Tests.antt =====
-- Headers and middleware at concrete requests, and the theorems about them.
use at.Prelude.{
  ℕ, ◌≡◌, ◌≢◌, ◌↔◌, ◌⊎◌, refl, sym, ap, subst, ◌∙◌, eqb, if◌then◌else◌, Option, none, some, [], ◌∷◌,
  ◌++◌, true,
}
use at.Prelude.Result.{Error, msg}
use at.Prelude.GoMap.{lookup}
use at.Prelude.Text.{Text, ascii, text_eq}
use at.Prelude.Try.{Try, fails, gives, ◌>>=◌, >>=-eq-gives, gives_injective}
use at.Auth.Headers.{HasScheme}
use at.Auth.Keys.{
  Resolver, get_verification_method, public_key_from_did_doc, get_resolver_signing_key, service_key,
}
use at.Auth.Keys.Signing.{IsKeyOf}
use at.Auth.Middleware.{
  Context, served, required, admin_only, refresh_token_only, service_jwt, extract_token, store_user,
  store_token,
}
use at.Auth.Middleware.Safety.{
  IsAdmin, as_admin, as_bearer, Required, HasToken, required_iff, admin_only_iff,
  refresh_token_only_iff,
}
use at.Auth.Middleware.Service.{Verifies, service_jwt-Safe}
use at.Auth.Middleware.Answers.{Refusal, middleware-Refusal}
use at.Auth.Middleware.Extract.{FromJson, extract_token_lem}
use at.Auth.{
  string_value, scope_value, Claims, Jwt, Key, public, secret, scope_refresh, get_raw_token,
  lower_first, bearer, basic, empty, invalid, validate_bearer_token, secret_key, split2, Opts,
}

get_raw_token_runs :
    (get_raw_token (ascii "Bearer abc") ≡ (ascii "abc", bearer))
    × (get_raw_token (ascii "basic x") ≡ (ascii "x", basic))
    × (get_raw_token [] ≡ ([], empty))
    × (get_raw_token (ascii "BEARER abc") ≡ ([], invalid))
unfolding get_raw_token lower_first
get_raw_token_runs = (refl, refl, refl, refl)

abbrev claims : Claims
claims = (ascii "scope", string_value scope_refresh) ∷ []

-- The keys that the library accepts: every secret, and one public key.
abbrev accepts : Key ℕ → Try Error (Unit {0})
accepts (secret s) = gives tt
accepts (public n) = if eqb n 11 then gives tt else fails (msg "signature")

-- Every text that the key function has such a key for is a token of `claims`.
abbrev jwt : Jwt
jwt = record {
  Token = ℕ;
  PublicKey = ℕ;
  parse = λ raw keyfn. keyfn 4 >>= λ k. accepts k >>= λ _. gives (4, claims);
  is_valid = λ t. true;
  issuer = λ t. gives (ascii "did:plc:a");
  get_subject = λ c. gives (ascii "did:plc:b");
}

abbrev decode : Text → Option Text
decode raw = some (ascii "admin:" ++ raw)

abbrev opts : Opts
opts = record { jwt_secret = ascii "s"; admin_password = ascii "pw" }

abbrev ctx : Context ℕ
ctx = record { token = none; user = none }

abbrev admin_header : Text
admin_header = ascii "Basic pw"

abbrev token_header : Text
token_header = ascii "Bearer abc"

required_iff_example :
    (required jwt decode opts admin_header ctx ≡ served (as_admin ctx))
    ↔ Required jwt decode opts admin_header ctx (as_admin ctx)
required_iff_example = required_iff jwt decode opts admin_header ctx (as_admin ctx)

admin_only_iff_example :
    (admin_only jwt decode opts admin_header ctx ≡ served (as_admin ctx))
    ↔ (IsAdmin decode opts admin_header × (as_admin ctx ≡ as_admin ctx))
admin_only_iff_example = admin_only_iff jwt decode opts admin_header ctx (as_admin ctx)

abbrev with_token : Context ℕ
with_token = as_bearer ctx 4 (ascii "did:plc:b")

refresh_token_only_iff_example :
    (refresh_token_only jwt decode opts token_header ctx ≡ served with_token) ↔ (
      (tok : ℕ) × (did : Text) × HasToken jwt decode opts scope_refresh token_header tok did
      × (as_bearer ctx tok did ≡ with_token))
refresh_token_only_iff_example = refresh_token_only_iff jwt decode opts token_header ctx with_token

-- The token of the refresh scope passes RefreshTokenOnly.
refresh_run : refresh_token_only jwt decode opts token_header ctx ≡ served with_token
unfolding refresh_token_only get_raw_token lower_first validate_bearer_token secret_key store_user
    store_token lookup
refresh_run = refl

abbrev resolver : Resolver ℕ
resolver = record {
  get_document = λ did. gives (
      record {
        id = ascii "did:plc:a#atproto";
        method_type = ascii "Multikey";
        public_key_multibase = some (ascii "z");
      }
      ∷ []);
  parse_multibase = λ m. gives 11;
}

verifies : Verifies jwt resolver (λ raw k. accepts k ≡ gives tt)
verifies raw keyfn tok found h =
    let (k, given, rest) = >>=-eq-gives (keyfn 4) (λ x. accepts x >>= λ _. gives (4, claims)) h in
    let (u, accepted, e) = >>=-eq-gives (accepts k) (λ _. gives (4, claims)) rest in
    (k, ap keyfn (ap (λ p. p.0) (sym (gives_injective e))) ∙ given, accepted)

service_run : service_jwt jwt decode opts resolver token_header ctx ≡ served with_token
unfolding service_jwt get_raw_token lower_first validate_bearer_token service_key
    get_resolver_signing_key public_key_from_did_doc get_verification_method split2 store_user
    store_token
service_run = refl

service_jwt-Safe_example :
    (IsAdmin decode opts token_header × (as_admin ctx ≡ with_token))
    ⊎ ((raw : Text) × (tok : ℕ) × (did iss : Text) × (k : ℕ) × HasScheme 98
          (ascii "earer ")
          token_header
          raw
        × (jwt.issuer tok ≡ gives iss)
        × IsKeyOf resolver iss k
        × (accepts (public k) ≡ gives tt)
        × (as_bearer ctx tok did ≡ with_token))
service_jwt-Safe_example =
    service_jwt-Safe jwt resolver decode opts (λ raw k. accepts k ≡ gives tt) token_header ctx
      with_token verifies service_run

from_json : FromJson jwt (λ s. s) (ascii "s")
unfolding lookup
from_json raw keyfn tok found s h =
    let (k, given, rest) = >>=-eq-gives (keyfn 4) (λ x. accepts x >>= λ _. gives (4, claims)) h in
    let (u, accepted, e) = >>=-eq-gives (accepts k) (λ _. gives (4, claims)) rest in
    subst (λ c. lookup (ascii "scope") c ≢ some (scope_value s)) (ap (λ p. p.1) (gives_injective e))
      string_is_no_scope
  where
    string_is_no_scope : lookup (ascii "scope") claims ≢ some (scope_value s)
    string_is_no_scope q = cc

extract_token_lem_example : extract_token jwt (λ s. s) (ascii "s") token_header ctx ≡ ctx
extract_token_lem_example = extract_token_lem jwt (λ s. s) (ascii "s") from_json token_header ctx

middleware-Refusal_example :
    Refusal (required jwt decode opts (ascii "Basic x") ctx)
    × Refusal (admin_only jwt decode opts (ascii "Basic x") ctx)
    × Refusal (refresh_token_only jwt decode opts (ascii "Basic x") ctx)
    × Refusal (service_jwt jwt decode opts resolver (ascii "Basic x") ctx)
middleware-Refusal_example = middleware-Refusal jwt decode opts resolver (ascii "Basic x") ctx
