-- ===== src/Auth/Middleware/Answers.antt =====
-- internal/auth/middleware.go: the errors that the middleware writes.
use at.Prelude.{
  ℕ, ◌≡◌, ◌⊎◌, inl, inr, refl, sym, ap, ◌∙◌, arith, Bool, true, false, not, Option, none, some,
  List, [], ◌∷◌, if◌then◌else◌, Bool-cases, String,
}
use at.Prelude.GoMap.{lookup}
use at.Prelude.Int.{pos}
use at.Prelude.Result.{Error}
use at.Prelude.Text.{Text, ascii, text_eq, split_once}
use at.Prelude.Try.{Try, fails, gives, ◌>>=◌, map_error}
use at.Xrpc.{
  Code, status, of_code, new_invalid_request, new_auth_required, wrap, invalid_request, forbidden,
  auth_required, other,
}
use at.Xrpc.Status.{write_error_response_coded}
use at.Auth.Keys.{Resolver, service_key}
use at.Auth.Middleware.{
  Context, Answer, wrote, served, write_as, answer_basic, answer_admin, answer_bearer, required,
  required_case, admin_only, admin_only_case, refresh_token_only, refresh_case, service_jwt,
  service_case,
}
use at.Auth.{
  Any, string_value, scope_value, other_value, Claims, Key, get_raw_token, TokenType, invalid,
  empty, bearer, basic, parse_basic_auth, decoded, two_parts, Opts, is_not_admin, check_admin,
  validate_basic_auth, Response, Jwt, scope_access, scope_refresh, secret_key, check_value,
  check_found, check_scope, subject_of, validate_parsed, validate_bearer_token,
}

-- A response without a status of its own, whose code is one of three.
abbrev Coded : Response → Type 0
Coded e =
    (e.http_status ≡ pos 0)
    × ((e.code ≡ invalid_request) ⊎ ((e.code ≡ auth_required) ⊎ (e.code ≡ forbidden)))

abbrev FailsCoded : {A : Type 0} → Try Response A → Type 0
FailsCoded (fails e) = Coded e
FailsCoded (gives a) = Unit

>>=-FailsCoded :
    {A B : Type 0} (r : Try Response A) (f : A → Try Response B)
    → FailsCoded r
    → ((a : A) → FailsCoded (f a))
    → FailsCoded (r >>= f)
>>=-FailsCoded (fails e) f h k = h
>>=-FailsCoded (gives a) f h k = k a

map_error-FailsCoded :
    {X A : Type 0} (f : X → Response) (r : Try X A)
    → ((x : X) → Coded (f x))
    → FailsCoded (map_error f r)
map_error-FailsCoded f (fails x) h = h x
map_error-FailsCoded f (gives a) h = tt

wrapped-Coded : (m : String) (x : at.Auth.Fault) → Coded (wrap x (new_invalid_request m))
unfolding wrap new_invalid_request
wrapped-Coded m x = (refl, inl refl)

two_parts-FailsCoded : (p : Text × Option Text) → FailsCoded (two_parts p)
unfolding two_parts new_invalid_request
two_parts-FailsCoded (u, none) = (refl, inl refl)
two_parts-FailsCoded (u, some w) = tt

decoded-FailsCoded : (o : Option Text) → FailsCoded (decoded o)
unfolding decoded new_invalid_request
decoded-FailsCoded none = (refl, inl refl)
decoded-FailsCoded (some payload) = two_parts-FailsCoded (split_once 58 payload)

parse_basic_auth-FailsCoded :
    (decode : Text → Option Text) (raw : Text) → FailsCoded (parse_basic_auth decode raw)
unfolding parse_basic_auth
parse_basic_auth-FailsCoded decode raw = decoded-FailsCoded (decode raw)

check_admin-FailsCoded : (opts : Opts) (pair : Text × Text) → FailsCoded (check_admin opts pair)
check_admin-FailsCoded opts pair = elim (Bool-cases (is_not_admin opts pair)) [
  | inl e ↦ rw e (refl, inr (inr refl))
  | inr e ↦ rw e tt
]

validate_basic_auth-FailsCoded :
    (decode : Text → Option Text) (opts : Opts) (raw : Text)
    → FailsCoded (validate_basic_auth decode opts raw)
unfolding validate_basic_auth
validate_basic_auth-FailsCoded decode opts raw =
    >>=-FailsCoded _ (check_admin opts)
      (map_error-FailsCoded _ (parse_basic_auth decode raw)
        (λ x. wrapped-Coded "Invalid admin auth" _))
      (check_admin-FailsCoded opts)

check_value-FailsCoded : (expected : Text) (v : Any) → FailsCoded (check_value expected v)
unfolding check_value new_invalid_request
check_value-FailsCoded expected (string_value scope) =
    elim (Bool-cases (at.Prelude.Eq.◌==◌ scope expected)) [
      | inl e ↦ rw e tt
      | inr e ↦ rw e (refl, inl refl)
    ]
check_value-FailsCoded expected (scope_value s) = (refl, inl refl)
check_value-FailsCoded expected (other_value n) = (refl, inl refl)

check_found-FailsCoded : (expected : Text) (o : Option Any) → FailsCoded (check_found expected o)
unfolding check_found new_invalid_request
check_found-FailsCoded expected none = (refl, inl refl)
check_found-FailsCoded expected (some v) = check_value-FailsCoded expected v

check_scope-FailsCoded :
    (expected : Text) (claims : Claims) → FailsCoded (check_scope expected claims)
unfolding check_scope
check_scope-FailsCoded [] claims = tt
check_scope-FailsCoded (c ∷ s) claims =
    check_found-FailsCoded (c ∷ s) (lookup (ascii "scope") claims)

module _ {Token : Type 0} where
  -- The status of a refusal is 400, 401 or 403, and that of the code in its body.
  abbrev pub Refusal : Answer Token → Type 0
  Refusal (served ctx) = Unit
  Refusal (wrote (s, e)) = ((s ≡ 400) ⊎ ((s ≡ 401) ⊎ (s ≡ 403))) × (status e.code ≡ s)

write_as-Refusal :
    (Token : Type 0) (e : Response) (default : Code)
    → Coded e
    → Refusal (write_as {Token = Token} e default)
unfolding write_as status
write_as-Refusal Token e default (z, inl c) =
    let (a, b) =
      write_error_response_coded e default z
        (λ h. let q : status invalid_request ≡ 0 = ap status (sym c) ∙ h in cc) in
    (inl (a ∙ ap status c), ap status b ∙ sym a)
write_as-Refusal Token e default (z, inr (inl c)) =
    let (a, b) =
      write_error_response_coded e default z
        (λ h. let q : status auth_required ≡ 0 = ap status (sym c) ∙ h in cc) in
    (inr (inl (a ∙ ap status c)), ap status b ∙ sym a)
write_as-Refusal Token e default (z, inr (inr c)) =
    let (a, b) =
      write_error_response_coded e default z
        (λ h. let q : status forbidden ≡ 0 = ap status (sym c) ∙ h in cc) in
    (inr (inr (a ∙ ap status c)), ap status b ∙ sym a)

module _ {Token : Type 0} where
  answer_basic-Refusal :
      (ctx : Context Token) (r : Try Response Text) → FailsCoded r → Refusal (answer_basic ctx r)
  unfolding answer_basic
  answer_basic-Refusal ctx (fails e) h = write_as-Refusal Token e (other "") h
  answer_basic-Refusal ctx (gives user) h = tt

  answer_bearer-Refusal :
      (ctx : Context Token) (r : Try Response (Token × Text))
      → FailsCoded r
      → Refusal (answer_bearer ctx r)
  unfolding answer_bearer
  answer_bearer-Refusal ctx (fails e) h = write_as-Refusal Token e (other "") h
  answer_bearer-Refusal ctx (gives (tok, did)) h = tt

  answer_admin-Refusal :
      (opts : Opts) (ctx : Context Token) (r : Try Response (Text × Text))
      → FailsCoded r
      → Refusal (answer_admin opts ctx r)
  unfolding answer_admin
  answer_admin-Refusal opts ctx (fails e) h = write_as-Refusal Token e invalid_request h
  answer_admin-Refusal opts ctx (gives pair) h = elim (Bool-cases (is_not_admin opts pair)) [
    | inl e ↦ rw e (write_as-Refusal Token (of_code forbidden "") (other "") (refl, inr (inr refl)))
    | inr e ↦ rw e tt
  ]

module _ (jwt : Jwt) (decode : Text → Option Text) (opts : Opts) where
  open jwt use {Token, PublicKey, parse, get_subject, is_valid}

  subject_of-FailsCoded : (tok : Token) (claims : Claims) → FailsCoded (subject_of jwt tok claims)
  unfolding subject_of
  subject_of-FailsCoded tok claims =
      >>=-FailsCoded _ _
        (map_error-FailsCoded _ (get_subject claims)
          (λ x. wrapped-Coded "JWT claims has no sub." (at.Auth.outside x)))
        (λ sub. tt)

  validate_parsed-FailsCoded :
      (expected : Text) (p : Token × Claims) → FailsCoded (validate_parsed jwt expected p)
  unfolding validate_parsed new_invalid_request
  validate_parsed-FailsCoded expected (tok, claims) = elim (Bool-cases (is_valid tok)) [
    | inr e ↦ rw e (refl, inl refl)
    | inl e ↦ rw e (
        >>=-FailsCoded (check_scope expected claims) (λ _. subject_of jwt tok claims)
          (check_scope-FailsCoded expected claims) (λ _. subject_of-FailsCoded tok claims))
  ]

  validate_bearer_token-FailsCoded :
      (raw expected : Text) (keyfn : Token → Try Error (Key PublicKey))
      → FailsCoded (validate_bearer_token jwt raw expected keyfn)
  unfolding validate_bearer_token
  validate_bearer_token-FailsCoded raw expected keyfn =
      >>=-FailsCoded _ (validate_parsed jwt expected)
        (map_error-FailsCoded _ (parse raw keyfn)
          (λ x. wrapped-Coded "Invalid token" (at.Auth.outside x)))
        (validate_parsed-FailsCoded expected)

  required_case-Refusal :
      (ctx : Context Token) (p : Text × TokenType) → Refusal (required_case jwt decode opts ctx p)
  unfolding required_case
  required_case-Refusal ctx (raw, invalid) =
      write_as-Refusal Token _ forbidden (refl, inr (inl refl))
  required_case-Refusal ctx (raw, empty) = write_as-Refusal Token _ forbidden (refl, inr (inl refl))
  required_case-Refusal ctx (raw, basic) =
      answer_admin-Refusal opts ctx _ (parse_basic_auth-FailsCoded decode raw)
  required_case-Refusal ctx (raw, bearer) =
      answer_bearer-Refusal ctx _
        (validate_bearer_token-FailsCoded raw scope_access (secret_key jwt opts))

  admin_only_case-Refusal :
      (ctx : Context Token) (p : Text × TokenType) → Refusal (admin_only_case jwt decode opts ctx p)
  unfolding admin_only_case
  admin_only_case-Refusal ctx (raw, invalid) =
      write_as-Refusal Token _ forbidden (refl, inr (inl refl))
  admin_only_case-Refusal ctx (raw, empty) =
      write_as-Refusal Token _ forbidden (refl, inr (inl refl))
  admin_only_case-Refusal ctx (raw, bearer) =
      write_as-Refusal Token _ forbidden (refl, inr (inl refl))
  admin_only_case-Refusal ctx (raw, basic) =
      answer_basic-Refusal ctx _ (validate_basic_auth-FailsCoded decode opts raw)

  refresh_case-Refusal :
      (ctx : Context Token) (p : Text × TokenType) → Refusal (refresh_case jwt decode opts ctx p)
  unfolding refresh_case
  refresh_case-Refusal ctx (raw, invalid) =
      write_as-Refusal Token _ forbidden (refl, inr (inl refl))
  refresh_case-Refusal ctx (raw, empty) = write_as-Refusal Token _ forbidden (refl, inr (inl refl))
  refresh_case-Refusal ctx (raw, basic) = write_as-Refusal Token _ forbidden (refl, inr (inl refl))
  refresh_case-Refusal ctx (raw, bearer) =
      answer_bearer-Refusal ctx _
        (validate_bearer_token-FailsCoded raw scope_refresh (secret_key jwt opts))

  service_case-Refusal :
      (resolver : Resolver PublicKey) (ctx : Context Token) (p : Text × TokenType)
      → Refusal (service_case jwt decode opts resolver ctx p)
  unfolding service_case new_auth_required new_invalid_request
  service_case-Refusal resolver ctx (raw, empty) =
      write_as-Refusal Token _ auth_required (refl, inr (inl refl))
  service_case-Refusal resolver ctx (raw, invalid) =
      write_as-Refusal Token _ invalid_request (refl, inl refl)
  service_case-Refusal resolver ctx (raw, basic) =
      answer_basic-Refusal ctx _ (validate_basic_auth-FailsCoded decode opts raw)
  service_case-Refusal resolver ctx (raw, bearer) =
      answer_bearer-Refusal ctx _
        (validate_bearer_token-FailsCoded raw [] (service_key jwt resolver))

  -- Whatever the header, each middleware serves the request or writes an error with the status 400,
  -- 401 or 403, which is that of the code in the body.
  pub middleware-Refusal :
      (resolver : Resolver PublicKey) (header : Text) (ctx : Context Token)
      → Refusal (required jwt decode opts header ctx)
        × Refusal (admin_only jwt decode opts header ctx)
        × Refusal (refresh_token_only jwt decode opts header ctx)
        × Refusal (service_jwt jwt decode opts resolver header ctx)
  unfolding required admin_only refresh_token_only service_jwt
  middleware-Refusal resolver header ctx =
      let p = get_raw_token header in
      (
        required_case-Refusal ctx p,
        admin_only_case-Refusal ctx p,
        refresh_case-Refusal ctx p,
        service_case-Refusal resolver ctx p,
      )
