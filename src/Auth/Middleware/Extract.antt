-- ===== src/Auth/Middleware/Extract.antt =====
-- internal/auth/middleware.go: getToken and ExtractToken.
use at.Prelude.{◌≡◌, ◌≢◌, refl, ap, Option, none, some}
use at.Prelude.GoMap.{lookup}
use at.Prelude.Result.{Error}
use at.Prelude.Text.{Text, ascii, text_eq, cut_prefix}
use at.Prelude.Try.{Try, fails, gives, >>=-eq-gives, map_error-eq-gives}
use at.Auth.Middleware.{
  Context, get_token, token_of, scope_of, scope_assertion, secret_of, extract_token, extracted,
}
use at.Auth.{Any, string_value, scope_value, other_value, Claims, Key, Jwt, Response}

module _ (jwt : Jwt) (to_lower : Text → Text) (jwt_secret : Text) where
  open jwt use {Token, PublicKey, parse}

  -- The claims of a token are decoded from JSON, whose strings have the type string.
  abbrev pub FromJson : Type 0
  FromJson =
      (raw : Text) (keyfn : Token → Try Error (Key PublicKey)) (tok : Token) (claims : Claims)
      (s : Text)
      → parse raw keyfn ≡ gives (tok, claims)
      → lookup (ascii "scope") claims ≢ some (scope_value s)

  scope_assertion-eq-gives :
      (t tok : Token) (v : Any)
      → scope_assertion jwt to_lower jwt_secret t v ≡ gives tok
      → (s : Text) × (v ≡ scope_value s)
  unfolding scope_assertion
  scope_assertion-eq-gives t tok (scope_value s) h = (s, refl)
  scope_assertion-eq-gives t tok (string_value s) h = cc
  scope_assertion-eq-gives t tok (other_value n) h = cc

  scope_of-eq-gives :
      (t tok : Token) (o : Option Any)
      → scope_of jwt to_lower jwt_secret t o ≡ gives tok
      → (s : Text) × (o ≡ some (scope_value s))
  unfolding scope_of
  scope_of-eq-gives t tok none h = cc
  scope_of-eq-gives t tok (some v) h =
      let (s, e) = scope_assertion-eq-gives t tok v h in (s, ap some e)

  token_of-fails :
      FromJson → (o : Option Text) (tok : Token) → token_of jwt to_lower jwt_secret o ≢ gives tok
  unfolding token_of
  token_of-fails json none tok h = cc
  token_of-fails json (some text) tok h =
      let ((t, claims), q, rest) = >>=-eq-gives _ _ h in
      let (s, found) = scope_of-eq-gives t tok (lookup (ascii "scope") claims) rest in
      json text (secret_of jwt to_lower jwt_secret) t claims s (map_error-eq-gives _ _ q) found

  -- If the claims of tokens are decoded from JSON, ExtractToken stores no token, whatever the
  -- header: the type assertion in getToken asks for a Scope where there is a string.
  pub extract_token_lem :
      FromJson
      → (header : Text) (ctx : Context Token)
      → extract_token jwt to_lower jwt_secret header ctx ≡ ctx
  unfolding extract_token get_token extracted
  extract_token_lem json header ctx = go (get_token jwt to_lower jwt_secret (to_lower header)) refl
    where
      go :
          (r : Try Response Token)
          → get_token jwt to_lower jwt_secret (to_lower header) ≡ r
          → extracted jwt to_lower jwt_secret ctx r ≡ ctx
      go (fails e) q = refl
      go (gives tok) q =
          absurd
            (token_of-fails json (cut_prefix (to_lower (to_lower header)) (ascii "bearer ")) tok q)
