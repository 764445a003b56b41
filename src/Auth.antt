-- ===== src/Auth.antt =====
-- internal/auth: who may make a request. This file has the Authorization header and the checks of
-- its two kinds of credentials (middleware.go); the children have the keys of services, the
-- middleware and the tokens that the server makes.
pub mod Keys
pub mod Middleware
pub mod Headers
pub mod Bearer
mod Tests
use at.Prelude.{
  ℕ, zero, suc, ◌+◌, ◌/◌, ◌%◌, Bool, true, false, not, ◌||◌, ◌&&◌, Option, none, some, List, [],
  ◌∷◌, ◌++◌, leb, ltb, eqb, if◌then◌else◌, String,
}
use at.Prelude.Eq.{◌==◌}
use at.Prelude.GoMap.{GoMap, lookup}
use at.Prelude.Result.{Error}
use at.Prelude.Text.{Text, ascii, text_eq, cut_prefix, split_once}
use at.Prelude.Try.{Try, fails, gives, ◌>>=◌, map_error}
use at.Xrpc.{
  ErrorResponse, Code, of_code, new_invalid_request, wrap, forbidden, invalid_request,
  auth_required, write_error_response,
}

-- A value of the type `any`, as far as the code asks for its dynamic type.
pub data Any : Type 0 where
  string_value : Text → Any
  scope_value : Text → Any
  other_value : ℕ → Any

abbrev pub Claims : Type 0
Claims = GoMap Text Any

-- A key that a key function returns: the secret of the server, or the public key of a service.
pub data Key (PublicKey : Type 0) : Type 0 where
  secret : Text → Key PublicKey
  public : PublicKey → Key PublicKey

-- An error inside a response: one of other code, or a response with a code and a message alone.
pub data Fault : Type 0 where
  outside : Error → Fault
  within : Code → String → Fault

abbrev pub Response : Type 0
Response = ErrorResponse Fault

abbrev as_fault : Response → Fault
as_fault e = within e.code e.message

-- What the code uses of github.com/golang-jwt/jwt: ParseWithClaims, the field Valid, and the
-- issuer and the subject of claims.
pub record Jwt : Type 1 where
  pub Token : Type 0
  pub PublicKey : Type 0
  pub parse : Text → (Token → Try Error (Key PublicKey)) → Try Error (Token × Claims)
  pub is_valid : Token → Bool
  pub issuer : Token → Try Error Text
  pub get_subject : Claims → Try Error Text

abbrev pub scope_access : Text
scope_access = ascii "com.atproto.access"

abbrev pub scope_refresh : Text
scope_refresh = ascii "com.atproto.refresh"

pub data TokenType : Type 0 where
  invalid empty bearer basic : TokenType

-- string(unicode.ToLower(rune(b))) of a byte `b`: a Latin-1 letter in lower case, in UTF-8.
abbrev lower_rune : ℕ → ℕ
lower_rune r =
    if (leb 65 r && leb r 90) || ((leb 192 r && leb r 222) && not (eqb r 215)) then r + 32 else r

abbrev utf8 : ℕ → Text
utf8 r = if ltb r 128 then r ∷ [] else (192 + r / 64) ∷ (128 + r % 64) ∷ []

unfoldable pub lower_first : ℕ → Text
lower_first b = utf8 (lower_rune b)

cut_basic : Option Text → Text × TokenType
cut_basic (some v) = (v, basic)
cut_basic none = ([], invalid)

cut_bearer : Text → Option Text → Text × TokenType
unfolding cut_basic
cut_bearer h (some v) = (v, bearer)
cut_bearer h none = cut_basic (cut_prefix h (ascii "basic "))

-- The header of the request; an absent one is empty.
unfoldable pub get_raw_token : Text → Text × TokenType
unfolding cut_bearer
get_raw_token [] = ([], empty)
get_raw_token (c ∷ s) = let h = lower_first c ++ s in cut_bearer h (cut_prefix h (ascii "bearer "))

two_parts : Text × Option Text → Try Response (Text × Text)
two_parts (user, some password) = gives (user, password)
two_parts (user, none) = fails (new_invalid_request "Invalid basic auth payload, missing ':'")

-- The header of a request, with what base64.StdEncoding.DecodeString makes of it.
decoded : Option Text → Try Response (Text × Text)
unfolding two_parts
decoded none = fails (new_invalid_request "Invalid basic auth, could not decode base64")
decoded (some payload) = two_parts (split_once 58 payload)

unfoldable pub parse_basic_auth : (Text → Option Text) → Text → Try Response (Text × Text)
unfolding decoded
parse_basic_auth decode raw = decoded (decode raw)

unfoldable pub split2 : Text → ℕ → Text × Text
split2 s sep = elim (split_once sep s).1 [
  | none ↦ ((split_once sep s).0, [])
  | some after ↦ ((split_once sep s).0, after)
]

-- xrpc.Auth, without the two tokens, which no code here sets.
pub record Auth : Type 0 where
  pub handle : Text
  pub did : Text

-- The options of a middleware; the logger is left out and the resolver is a parameter of Keys.
pub record Opts : Type 0 where
  pub jwt_secret : Text
  pub admin_password : Text

-- username != "admin" || password != opts.AdminPassword
abbrev pub is_not_admin : Opts → Text × Text → Bool
is_not_admin opts (user, password) =
    not (user == ascii "admin") || not (password == opts.admin_password)

abbrev pub check_admin : Opts → Text × Text → Try Response Text
check_admin opts pair =
    if is_not_admin opts pair then fails (of_code forbidden "Invalid auth") else gives pair.0

unfoldable pub validate_basic_auth : (Text → Option Text) → Opts → Text → Try Response Text
validate_basic_auth decode opts raw =
    map_error (λ e. wrap (as_fault e) (new_invalid_request "Invalid admin auth"))
      (parse_basic_auth decode raw)
    >>= check_admin opts

-- The checks of the claim "scope" of a token that is to have the scope `expected`.
check_value : Text → Any → Try Response (Unit {0})
check_value expected (string_value scope) =
    if not (scope == expected)
    then fails (new_invalid_request "Expected refresh token")
    else gives tt
check_value expected (scope_value s) = fails (new_invalid_request "Invalid JWT claims")
check_value expected (other_value n) = fails (new_invalid_request "Invalid JWT claims")

check_found : Text → Option Any → Try Response (Unit {0})
unfolding check_value
check_found expected none = fails (new_invalid_request "Invalid JWT claims")
check_found expected (some v) = check_value expected v

check_scope : Text → Claims → Try Response (Unit {0})
unfolding check_found
check_scope [] claims = gives tt
check_scope (c ∷ s) claims = check_found (c ∷ s) (lookup (ascii "scope") claims)

module _ (jwt : Jwt) where
  open jwt use {Token, PublicKey, parse, is_valid, issuer, get_subject}

  -- Opts.secret
  unfoldable pub secret_key : Opts → Token → Try Error (Key PublicKey)
  secret_key opts t = gives (secret opts.jwt_secret)

  subject_of : Token → Claims → Try Response (Token × Text)
  subject_of tok claims = do
    sub ←
        map_error (λ e. wrap (outside e) (new_invalid_request "JWT claims has no sub."))
          (get_subject claims)
    gives (tok, sub)

  validate_parsed : Text → Token × Claims → Try Response (Token × Text)
  unfolding check_scope subject_of
  validate_parsed expected (tok, claims) =
      if not (is_valid tok)
      then fails (new_invalid_request "Invalid token")
      else check_scope expected claims >>= λ _. subject_of tok claims

  -- An empty `expected` is no scope to check.
  unfoldable pub validate_bearer_token :
      Text → Text → (Token → Try Error (Key PublicKey)) → Try Response (Token × Text)
  unfolding validate_parsed
  validate_bearer_token raw expected keyfn = do
    parsed ←
        map_error (λ e. wrap (outside e) (new_invalid_request "Invalid token")) (parse raw keyfn)
    validate_parsed expected parsed
