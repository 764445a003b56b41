-- ===== src/Auth/Middleware.antt =====
-- internal/auth/middleware.go: the handlers that stand before another handler.
pub mod Safety
pub mod Service
pub mod Extract
pub mod Answers
use at.Prelude.{
  ℕ, Bool, true, false, not, ◌||◌, Option, none, some, List, [], ◌∷◌, String, if◌then◌else◌,
}
use at.Prelude.Eq.{◌==◌}
use at.Prelude.GoMap.{GoMap, lookup}
use at.Prelude.Result.{Error}
use at.Prelude.Text.{Text, ascii, text_eq, cut_prefix}
use at.Prelude.Try.{Try, fails, gives, ◌>>=◌, map_error}
use at.Xrpc.{
  ErrorResponse, Code, of_code, new_invalid_request, new_auth_required, wrap, forbidden,
  invalid_request, auth_required, other, write_error_response,
}
use at.Auth.Keys.{Resolver, service_key}
use at.Auth.{
  Any, string_value, scope_value, other_value, Claims, Key, secret, public, Fault, outside,
  Response, Jwt, scope_access, scope_refresh, TokenType, invalid, empty, bearer, basic,
  get_raw_token, Auth, Opts, is_not_admin, parse_basic_auth, validate_basic_auth, secret_key,
  validate_bearer_token,
}

-- The two values that the package keeps in the context of a request.
pub record Context (Token : Type 0) : Type 0 where
  pub token : Option Token
  pub user : Option Auth

-- A middleware writes an error and stops, or serves the next handler in a context.
pub data Answer (Token : Type 0) : Type 0 where
  wrote : ℕ × Response → Answer Token
  served : Context Token → Answer Token

module _ {Token : Type 0} where
  unfoldable pub store_token : Context Token → Token → Context Token
  store_token ctx tok = record ctx { token = some tok }

  unfoldable pub store_user : Context Token → Auth → Context Token
  store_user ctx user = record ctx { user = some user }

  unfoldable pub stash_user : Context Token → Auth → Context Token
  stash_user ctx user = record ctx { user = some user }

  unfoldable pub token_from_context : Context Token → Option Token
  token_from_context ctx = ctx.token

  unfoldable pub user_from_context : Context Token → Option Auth
  user_from_context ctx = ctx.user

  -- An error is written by WriteError with a default; all errors here are responses.
  write_as : Response → Code → Answer Token
  write_as e default = wrote (write_error_response e default)

  pub answer_basic : Context Token → Try Response Text → Answer Token
  unfolding write_as
  answer_basic ctx (fails e) = write_as e (other "")
  answer_basic ctx (gives username) =
      served (store_user ctx (record { handle = username; did = [] }))

  -- The basic case of Required, which has its own copy of the check of the password.
  answer_admin : Opts → Context Token → Try Response (Text × Text) → Answer Token
  unfolding write_as
  answer_admin opts ctx (fails e) = write_as e invalid_request
  answer_admin opts ctx (gives pair) =
      if is_not_admin opts pair
      then write_as (of_code forbidden "") (other "")
      else served (store_user ctx (record { handle = pair.0; did = [] }))

  pub answer_bearer : Context Token → Try Response (Token × Text) → Answer Token
  unfolding write_as
  answer_bearer ctx (fails e) = write_as e (other "")
  answer_bearer ctx (gives (tok, did)) =
      served (store_token (store_user ctx (record { handle = []; did = did })) tok)

module _ (jwt : Jwt) (decode : Text → Option Text) (opts : Opts) where
  open jwt use {Token, PublicKey, parse}

  required_case : Context Token → Text × TokenType → Answer Token
  unfolding write_as answer_admin answer_bearer
  required_case ctx (raw, invalid) = write_as (of_code auth_required "") forbidden
  required_case ctx (raw, empty) = write_as (of_code auth_required "") forbidden
  required_case ctx (raw, basic) = answer_admin opts ctx (parse_basic_auth decode raw)
  required_case ctx (raw, bearer) =
      answer_bearer ctx (validate_bearer_token jwt raw scope_access (secret_key jwt opts))

  -- Each handler takes the Authorization header and the context of a request.
  unfoldable pub required : Text → Context Token → Answer Token
  unfolding required_case
  required header ctx = required_case ctx (get_raw_token header)

  admin_only_case : Context Token → Text × TokenType → Answer Token
  unfolding write_as answer_basic
  admin_only_case ctx (raw, basic) = answer_basic ctx (validate_basic_auth decode opts raw)
  admin_only_case ctx (raw, invalid) = write_as (of_code auth_required "Auth required") forbidden
  admin_only_case ctx (raw, empty) = write_as (of_code auth_required "Auth required") forbidden
  admin_only_case ctx (raw, bearer) = write_as (of_code auth_required "Auth required") forbidden

  unfoldable pub admin_only : Text → Context Token → Answer Token
  unfolding admin_only_case
  admin_only header ctx = admin_only_case ctx (get_raw_token header)

  refresh_case : Context Token → Text × TokenType → Answer Token
  unfolding write_as answer_bearer
  refresh_case ctx (raw, bearer) =
      answer_bearer ctx (validate_bearer_token jwt raw scope_refresh (secret_key jwt opts))
  refresh_case ctx (raw, invalid) = write_as (of_code auth_required "") forbidden
  refresh_case ctx (raw, empty) = write_as (of_code auth_required "") forbidden
  refresh_case ctx (raw, basic) = write_as (of_code auth_required "") forbidden

  unfoldable pub refresh_token_only : Text → Context Token → Answer Token
  unfolding refresh_case
  refresh_token_only header ctx = refresh_case ctx (get_raw_token header)

  service_case : Resolver PublicKey → Context Token → Text × TokenType → Answer Token
  unfolding write_as answer_basic answer_bearer
  service_case resolver ctx (raw, empty) = write_as (new_auth_required "Empty auth") auth_required
  service_case resolver ctx (raw, invalid) =
      write_as (new_invalid_request "Invalid auth token") invalid_request
  service_case resolver ctx (raw, basic) = answer_basic ctx (validate_basic_auth decode opts raw)
  service_case resolver ctx (raw, bearer) =
      answer_bearer ctx (validate_bearer_token jwt raw [] (service_key jwt resolver))

  unfoldable pub service_jwt : Resolver PublicKey → Text → Context Token → Answer Token
  unfolding service_case
  service_jwt resolver header ctx = service_case resolver ctx (get_raw_token header)

-- getToken and ExtractToken. The header is put in lower case twice, the second time to no effect;
-- `to_lower` is strings.ToLower.
module _ (jwt : Jwt) (to_lower : Text → Text) (jwt_secret : Text) where
  open jwt use {Token, PublicKey, parse}

  -- The type assertion `scope.(Scope)`.
  scope_assertion : Token → Any → Try Response Token
  scope_assertion tok (scope_value s) =
      if s == scope_access
      then gives tok
      else fails (new_invalid_request "Token scope should be an access token scope")
  scope_assertion tok (string_value s) =
      fails (new_invalid_request "Token scope should be an access token scope")
  scope_assertion tok (other_value n) =
      fails (new_invalid_request "Token scope should be an access token scope")

  scope_of : Token → Option Any → Try Response Token
  unfolding scope_assertion
  scope_of tok none = fails (new_invalid_request "Token scope required")
  scope_of tok (some v) = scope_assertion tok v

  secret_of : Token → Try Error (Key PublicKey)
  secret_of t = gives (secret jwt_secret)

  token_of : Option Text → Try Response Token
  unfolding scope_of secret_of
  token_of none = fails (of_code auth_required "")
  token_of (some token) =
      map_error (λ e. wrap (outside e) (new_invalid_request "Invalid token"))
        (parse token secret_of)
      >>= λ parsed. scope_of parsed.0 (lookup (ascii "scope") parsed.1)

  unfoldable pub get_token : Text → Try Response Token
  unfolding token_of
  get_token authorization = token_of (cut_prefix (to_lower authorization) (ascii "bearer "))

  extracted : Context Token → Try Response Token → Context Token
  extracted ctx (fails e) = ctx
  extracted ctx (gives tok) = store_token ctx tok

  -- The context in which the next handler is served; this middleware writes nothing.
  unfoldable pub extract_token : Text → Context Token → Context Token
  unfolding extracted
  extract_token header ctx = extracted ctx (get_token (to_lower header))
