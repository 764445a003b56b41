-- ===== src/Auth/Middleware/Safety.antt =====
-- internal/auth/middleware.go: the requests that the middleware lets through.
use at.Prelude.{
  ◌≡◌, ◌↔◌, ◌⊎◌, inl, inr, refl, sym, ap, ◌∙◌, true, false, Option, some, [], ◌++◌, Bool-cases,
}
use at.Prelude.Eq.{==_refl}
use at.Prelude.Text.{Text, ascii, text_eq}
use at.Prelude.Try.{Try, fails, gives, >>=-eq-gives, map_error-eq-gives, gives_injective}
use at.Auth.Headers.{
  HasScheme, get_raw_token-bearer, get_raw_token-basic, HasScheme-bearer, HasScheme-basic,
  parse_basic_auth_lem, is_not_admin-false,
}
use at.Auth.Bearer.{Vouches, validate_bearer_token_iff}
use at.Auth.Middleware.{
  Context, Answer, wrote, served, store_token, store_user, write_as, answer_basic, answer_admin,
  answer_bearer, required, required_case, admin_only, admin_only_case, refresh_token_only,
  refresh_case,
}
use at.Auth.{
  get_raw_token, TokenType, invalid, empty, bearer, basic, parse_basic_auth, decoded, two_parts,
  Opts, is_not_admin, check_admin, validate_basic_auth, Response, Jwt, scope_access, scope_refresh,
  secret_key,
}

abbrev pub admin : Text
admin = ascii "admin"

-- The header has the scheme "basic" and the encoding of "admin:" and the password of the options.
abbrev pub IsAdmin : (Text → Option Text) → Opts → Text → Type 0
IsAdmin decode opts header =
    (raw : Text) × HasScheme 98 (ascii "asic ") header raw
    × (decode raw ≡ some (ascii "admin:" ++ opts.admin_password))

parse_basic_auth-admin :
    (decode : Text → Option Text) (raw password : Text)
    → decode raw ≡ some (ascii "admin:" ++ password)
    → parse_basic_auth decode raw ≡ gives (admin, password)
unfolding parse_basic_auth decoded two_parts
parse_basic_auth-admin decode raw password h = rw h

pub validate_basic_auth_iff :
    (decode : Text → Option Text) (opts : Opts) (raw user : Text)
    → (validate_basic_auth decode opts raw ≡ gives user)
      ↔ ((user ≡ admin) × (decode raw ≡ some (ascii "admin:" ++ opts.admin_password)))
unfolding validate_basic_auth
validate_basic_auth_iff decode opts raw user = (forward, backward)
  where
    passed :
        (pair : Text × Text)
        → parse_basic_auth decode raw ≡ gives pair
        → (is_not_admin opts pair ≡ true) ⊎ (is_not_admin opts pair ≡ false)
        → check_admin opts pair ≡ gives user
        → (user ≡ admin) × (decode raw ≡ some (ascii "admin:" ++ opts.admin_password))
    passed pair q (inl e) h = let z : fails _ ≡ gives user = rw e at h in cc
    passed (a, b) q (inr e) h =
        let (is_user, is_password) = is_not_admin-false opts a b e in
        let same = gives_injective (rw e at h) in
        (sym same ∙ is_user, parse_basic_auth_lem decode raw a b q ∙ rw (is_user, is_password))

    forward :
        validate_basic_auth decode opts raw ≡ gives user
        → (user ≡ admin) × (decode raw ≡ some (ascii "admin:" ++ opts.admin_password))
    forward h =
        let (pair, q, rest) = >>=-eq-gives _ _ h in
        passed pair (map_error-eq-gives _ _ q) (Bool-cases (is_not_admin opts pair)) rest

    backward :
        (user ≡ admin) × (decode raw ≡ some (ascii "admin:" ++ opts.admin_password))
        → validate_basic_auth decode opts raw ≡ gives user
    backward (is_user, h) = rw (
      parse_basic_auth-admin decode raw opts.admin_password h,
      ==_refl opts.admin_password,
      is_user,
    )

module _ {Token : Type 0} where
  served_injective : {c d : Context Token} → served c ≡ served d → c ≡ d
  served_injective {c = c} h = ap content h
    where
      content : Answer Token → Context Token
      content (served x) = x
      content (wrote x) = c

  -- The context of a request of the administrator, and of one with a token.
  abbrev pub as_admin : Context Token → Context Token
  as_admin ctx = record ctx { user = some (record { handle = admin; did = [] }) }

  abbrev pub as_bearer : Context Token → Token → Text → Context Token
  as_bearer ctx tok did = record {
    token = some tok;
    user = some (record { handle = []; did = did });
  }

  pub answer_basic-served :
      (ctx left : Context Token) (r : Try Response Text)
      → answer_basic ctx r ≡ served left
      → (user : Text) × (r ≡ gives user)
        × (record ctx { user = some (record { handle = user; did = [] }) } ≡ left)
  unfolding answer_basic write_as store_user
  answer_basic-served ctx left (fails e) h = cc
  answer_basic-served ctx left (gives user) h = (user, refl, served_injective h)

  pub answer_bearer-served :
      (ctx left : Context Token) (r : Try Response (Token × Text))
      → answer_bearer ctx r ≡ served left
      → (tok : Token) × (did : Text) × (r ≡ gives (tok, did)) × (as_bearer ctx tok did ≡ left)
  unfolding answer_bearer write_as store_user store_token
  answer_bearer-served ctx left (fails e) h = cc
  answer_bearer-served ctx left (gives (tok, did)) h = (tok, did, refl, served_injective h)

  answer_admin-served :
      (opts : Opts) (ctx left : Context Token) (r : Try Response (Text × Text))
      → answer_admin opts ctx r ≡ served left
      → (r ≡ gives (admin, opts.admin_password)) × (as_admin ctx ≡ left)
  unfolding answer_admin write_as store_user
  answer_admin-served opts ctx left (fails e) h = cc
  answer_admin-served opts ctx left (gives (a, b)) h =
      elim (Bool-cases (is_not_admin opts (a, b))) [
        | inl e ↦ let z : wrote _ ≡ served left = rw e at h in cc
        | inr e ↦
            let (is_user, is_password) = is_not_admin-false opts a b e in
            let q = served_injective (rw e at h) in (rw (is_user, is_password), rw is_user at q)
      ]

module _ (jwt : Jwt) (decode : Text → Option Text) (opts : Opts) where
  open jwt use {Token, PublicKey, parse}

  -- A token of the server's own secret and the scope `expected`, in a header of the scheme "bearer".
  abbrev pub HasToken : Text → Text → Token → Text → Type 0
  HasToken expected header tok did =
      (raw : Text) × HasScheme 98 (ascii "earer ") header raw
      × Vouches jwt raw expected (secret_key jwt opts) tok did

  abbrev pub Required : Text → Context Token → Context Token → Type 0
  Required header ctx left =
      (IsAdmin decode opts header × (as_admin ctx ≡ left))
      ⊎ ((tok : Token) × (did : Text) × HasToken scope_access header tok did
          × (as_bearer ctx tok did ≡ left))

  -- Required serves a request exactly if its header has the password of the administrator, or a
  -- valid token of the server's secret with the access scope; the context it serves the request in
  -- names the administrator, or the token and its subject.
  pub required_iff :
      (header : Text) (ctx left : Context Token)
      → (required jwt decode opts header ctx ≡ served left) ↔ Required header ctx left
  unfolding required required_case answer_admin answer_bearer store_user store_token
  required_iff header ctx left = (forward (get_raw_token header) refl, backward)
    where
      forward :
          (p : Text × TokenType)
          → get_raw_token header ≡ p
          → required_case jwt decode opts ctx p ≡ served left
          → Required header ctx left
      forward (raw, invalid) q h = cc
      forward (raw, empty) q h = cc
      forward (raw, basic) q h =
          let (checked, same) = answer_admin-served opts ctx left (parse_basic_auth decode raw) h in
          inl (
            (
              raw,
              get_raw_token-basic header raw q,
              parse_basic_auth_lem decode raw admin opts.admin_password checked,
            ),
            same,
          )
      forward (raw, bearer) q h =
          let (tok, did, checked, same) = answer_bearer-served ctx left _ h in
          inr (
            tok,
            did,
            (
              raw,
              get_raw_token-bearer header raw q,
              (validate_bearer_token_iff jwt raw scope_access (secret_key jwt opts) tok did).0
                  checked,
            ),
            same,
          )

      backward : Required header ctx left → required jwt decode opts header ctx ≡ served left
      backward (inl ((raw, scheme, h), same)) =
          rw
            (
              HasScheme-basic header raw scheme,
              parse_basic_auth-admin decode raw opts.admin_password h,
              ==_refl opts.admin_password,
            )
            (ap served same)
      backward (inr (tok, did, (raw, scheme, h), same)) =
          rw
            (
              HasScheme-bearer header raw scheme,
              (validate_bearer_token_iff jwt raw scope_access (secret_key jwt opts) tok did).1 h,
            )
            (ap served same)

  -- AdminOnly serves a request exactly if its header has the password of the administrator.
  pub admin_only_iff :
      (header : Text) (ctx left : Context Token)
      → (admin_only jwt decode opts header ctx ≡ served left)
        ↔ (IsAdmin decode opts header × (as_admin ctx ≡ left))
  unfolding admin_only admin_only_case answer_basic store_user
  admin_only_iff header ctx left = (forward (get_raw_token header) refl, backward)
    where
      forward :
          (p : Text × TokenType)
          → get_raw_token header ≡ p
          → admin_only_case jwt decode opts ctx p ≡ served left
          → IsAdmin decode opts header × (as_admin ctx ≡ left)
      forward (raw, invalid) q h = cc
      forward (raw, empty) q h = cc
      forward (raw, bearer) q h = cc
      forward (raw, basic) q h =
          let (user, checked, same) =
            answer_basic-served ctx left (validate_basic_auth decode opts raw) h in
          let (is_user, payload) = (validate_basic_auth_iff decode opts raw user).0 checked in
          ((raw, get_raw_token-basic header raw q, payload), rw is_user at same)

      backward :
          IsAdmin decode opts header × (as_admin ctx ≡ left)
          → admin_only jwt decode opts header ctx ≡ served left
      backward ((raw, scheme, h), same) =
          rw
            (
              HasScheme-basic header raw scheme,
              (validate_basic_auth_iff decode opts raw admin).1 (refl, h),
            )
            (ap served same)

  -- RefreshTokenOnly serves a request exactly if its header has a valid token of the server's
  -- secret with the refresh scope.
  pub refresh_token_only_iff :
      (header : Text) (ctx left : Context Token)
      → (refresh_token_only jwt decode opts header ctx ≡ served left) ↔ (
          (tok : Token) × (did : Text) × HasToken scope_refresh header tok did
          × (as_bearer ctx tok did ≡ left))
  unfolding refresh_token_only refresh_case answer_bearer store_user store_token
  refresh_token_only_iff header ctx left = (forward (get_raw_token header) refl, backward)
    where
      forward :
          (p : Text × TokenType)
          → get_raw_token header ≡ p
          → refresh_case jwt decode opts ctx p ≡ served left
          → (tok : Token) × (did : Text) × HasToken scope_refresh header tok did
            × (as_bearer ctx tok did ≡ left)
      forward (raw, invalid) q h = cc
      forward (raw, empty) q h = cc
      forward (raw, basic) q h = cc
      forward (raw, bearer) q h =
          let (tok, did, checked, same) = answer_bearer-served ctx left _ h in
          (
            tok,
            did,
            (
              raw,
              get_raw_token-bearer header raw q,
              (validate_bearer_token_iff jwt raw scope_refresh (secret_key jwt opts) tok did).0
                  checked,
            ),
            same,
          )

      backward :
          ((tok : Token) × (did : Text) × HasToken scope_refresh header tok did
            × (as_bearer ctx tok did ≡ left))
          → refresh_token_only jwt decode opts header ctx ≡ served left
      backward (tok, did, (raw, scheme, h), same) =
          rw
            (
              HasScheme-bearer header raw scheme,
              (validate_bearer_token_iff jwt raw scope_refresh (secret_key jwt opts) tok did).1 h,
            )
            (ap served same)
