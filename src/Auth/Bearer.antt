-- ===== src/Auth/Bearer.antt =====
-- internal/auth/middleware.go: what validateBearerToken has checked of a token that it returns.
use at.Prelude.{
  ◌≡◌, ◌↔◌, refl, sym, ap, ◌∙◌, true, Option, none, some, [], ◌∷◌, Bool-cases, inl, inr,
}
use at.Prelude.Eq.{◌==◌, ==_iff, ==_refl}
use at.Prelude.GoMap.{lookup}
use at.Prelude.Result.{Error}
use at.Prelude.Text.{Text, ascii, text_eq}
use at.Prelude.Try.{Try, fails, gives, >>=-eq-gives, map_error-eq-gives, gives_injective}
use at.Xrpc.{new_invalid_request}
use at.Auth.{
  Response, Jwt, Key, Claims, Any, string_value, scope_value, other_value, check_value, check_found,
  check_scope, subject_of, validate_parsed, validate_bearer_token,
}

abbrev pub ScopeIs : Text → Claims → Type 0
ScopeIs [] claims = Unit
ScopeIs (c ∷ s) claims = lookup (ascii "scope") claims ≡ some (string_value (c ∷ s))

check_value-ok :
    (expected : Text) (v : Any) → check_value expected v ≡ gives tt → v ≡ string_value expected
unfolding check_value
check_value-ok expected (string_value scope) h = elim (Bool-cases (scope == expected)) [
  | inl e ↦ ap string_value ((==_iff scope expected).0 e)
  | inr e ↦ let q : fails _ ≡ gives tt = rw e at h in cc
]
check_value-ok expected (scope_value s) h = cc
check_value-ok expected (other_value n) h = cc

check_found-ok :
    (expected : Text) (o : Option Any)
    → check_found expected o ≡ gives tt
    → o ≡ some (string_value expected)
unfolding check_found
check_found-ok expected none h = cc
check_found-ok expected (some v) h = ap some (check_value-ok expected v h)

check_scope-ok :
    (expected : Text) (claims : Claims)
    → check_scope expected claims ≡ gives tt
    → ScopeIs expected claims
unfolding check_scope
check_scope-ok [] claims h = tt
check_scope-ok (c ∷ s) claims h = check_found-ok (c ∷ s) (lookup (ascii "scope") claims) h

ScopeIs-check_scope :
    (expected : Text) (claims : Claims)
    → ScopeIs expected claims
    → check_scope expected claims ≡ gives tt
unfolding check_scope check_found check_value
ScopeIs-check_scope [] claims h = refl
ScopeIs-check_scope (c ∷ s) claims h = rw (h, ==_refl (c ∷ s))

module _ (jwt : Jwt) where
  open jwt use {Token, PublicKey, parse, is_valid, issuer, get_subject}

  -- The library has accepted `raw` with a key of `keyfn`, and its claims name the scope, if one is
  -- expected, and the subject `did`.
  abbrev pub Vouches : Text → Text → (Token → Try Error (Key PublicKey)) → Token → Text → Type 0
  Vouches raw expected keyfn tok did =
      (claims : Claims) × (parse raw keyfn ≡ gives (tok, claims))
      × (is_valid tok ≡ true)
      × ScopeIs expected claims
      × (get_subject claims ≡ gives did)

  subject_of-ok :
      (t tok : Token) (claims : Claims) (did : Text)
      → subject_of jwt t claims ≡ gives (tok, did)
      → (t ≡ tok) × (get_subject claims ≡ gives did)
  unfolding subject_of
  subject_of-ok t tok claims did h =
      let (sub, q, e) = >>=-eq-gives _ _ h in
      let same = gives_injective e in
      (ap (λ p. p.0) same, map_error-eq-gives _ _ q ∙ λ i. gives (same i).1)

  validate_parsed-ok :
      (expected : Text) (t tok : Token) (claims : Claims) (did : Text)
      → validate_parsed jwt expected (t, claims) ≡ gives (tok, did)
      → (t ≡ tok) × (is_valid t ≡ true) × ScopeIs expected claims × (get_subject claims ≡ gives did)
  unfolding validate_parsed
  validate_parsed-ok expected t tok claims did h = elim (Bool-cases (is_valid t)) [
    | inr e ↦ absurd (refused (rw e at h))
    | inl e ↦
        let (u, scope, rest) =
          >>=-eq-gives (check_scope expected claims) (λ _. subject_of jwt t claims) (rw e at h) in
        let (same, sub) = subject_of-ok t tok claims did rest in
        (same, e, check_scope-ok expected claims scope, sub)
  ]
    where
      refused : ¬ (
          ◌≡◌ {A = Try Response (Token × Text)}
            (fails (new_invalid_request "Invalid token"))
            (gives (tok, did)))
      refused q = cc

  -- A token and a subject are returned exactly if the library accepts the text with the key, the
  -- token is valid, the claim "scope" is the expected scope, where one is, and the subject is that
  -- of the claims.
  pub validate_bearer_token_iff :
      (raw expected : Text) (keyfn : Token → Try Error (Key PublicKey)) (tok : Token) (did : Text)
      → (validate_bearer_token jwt raw expected keyfn ≡ gives (tok, did))
        ↔ Vouches raw expected keyfn tok did
  unfolding validate_bearer_token
  validate_bearer_token_iff raw expected keyfn tok did = (forward, backward)
    where
      forward :
          validate_bearer_token jwt raw expected keyfn ≡ gives (tok, did)
          → Vouches raw expected keyfn tok did
      forward h =
          let ((t, claims), q, rest) = >>=-eq-gives _ _ h in
          let (same, valid, scope, sub) = validate_parsed-ok expected t tok claims did rest in
          (
            claims,
            map_error-eq-gives _ _ q ∙ ap (λ x. gives (x, claims)) same,
            rw (sym same) valid,
            scope,
            sub,
          )

      backward :
          Vouches raw expected keyfn tok did
          → validate_bearer_token jwt raw expected keyfn ≡ gives (tok, did)
      backward (claims, q, valid, scope, sub) =
          rw (q, valid, ScopeIs-check_scope expected claims scope, sub)
