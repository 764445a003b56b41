-- ===== src/Xrpc/Status.antt =====
-- The statuses that an error is written with.
use at.Prelude.{
  ℕ, zero, suc, ◌<◌, ◌≤◌, ◌≡◌, ◌≢◌, ◌⊎◌, inl, inr, refl, arith, String, true, false, Bool-cases,
}
use at.Prelude.Eq.{string_eq}
use at.Prelude.Int.{ℤ, pos, negsuc}
use at.Xrpc.{
  Code, status, code_from_status, code_of_class, ErrorResponse, write_error_response,
  status_of_code, response_status, fill_code, fill_message, is_empty, unknown, invalid_response,
  success, invalid_request, auth_required, forbidden, xrpc_not_supported, not_acceptable,
  payload_too_large, unsupported_media_type, rate_limit_exceeded, internal_server_error,
  method_not_implemented, upstream_failure, not_enough_resources, upstream_timeout,
  record_not_found, repo_not_found, other,
}

-- The code of the status of a code has that status, if there is one.
pub status-code_from_status :
    (c : Code) → status c ≢ 0 → status (code_from_status (status c)) ≡ status c
unfolding status code_from_status
status-code_from_status unknown h = refl
status-code_from_status invalid_response h = absurd (h refl)
status-code_from_status success h = refl
status-code_from_status invalid_request h = refl
status-code_from_status auth_required h = refl
status-code_from_status forbidden h = refl
status-code_from_status xrpc_not_supported h = refl
status-code_from_status not_acceptable h = refl
status-code_from_status payload_too_large h = refl
status-code_from_status unsupported_media_type h = refl
status-code_from_status rate_limit_exceeded h = refl
status-code_from_status internal_server_error h = refl
status-code_from_status method_not_implemented h = refl
status-code_from_status upstream_failure h = refl
status-code_from_status not_enough_resources h = refl
status-code_from_status upstream_timeout h = refl
status-code_from_status record_not_found h = refl
status-code_from_status repo_not_found h = refl
status-code_from_status (other s) h = absurd (h refl)

status_bounds : (c : Code) → status c ≢ 0 → (200 ≤ status c) × (status c < 600)
unfolding status
status_bounds unknown h = (omega arith, omega arith)
status_bounds invalid_response h = absurd (h refl)
status_bounds success h = (omega arith, omega arith)
status_bounds invalid_request h = (omega arith, omega arith)
status_bounds auth_required h = (omega arith, omega arith)
status_bounds forbidden h = (omega arith, omega arith)
status_bounds xrpc_not_supported h = (omega arith, omega arith)
status_bounds not_acceptable h = (omega arith, omega arith)
status_bounds payload_too_large h = (omega arith, omega arith)
status_bounds unsupported_media_type h = (omega arith, omega arith)
status_bounds rate_limit_exceeded h = (omega arith, omega arith)
status_bounds internal_server_error h = (omega arith, omega arith)
status_bounds method_not_implemented h = (omega arith, omega arith)
status_bounds upstream_failure h = (omega arith, omega arith)
status_bounds not_enough_resources h = (omega arith, omega arith)
status_bounds upstream_timeout h = (omega arith, omega arith)
status_bounds record_not_found h = (omega arith, omega arith)
status_bounds repo_not_found h = (omega arith, omega arith)
status_bounds (other s) h = absurd (h refl)

is_empty-code_from_status : (s : ℕ) → is_empty (code_from_status s) ≡ false
unfolding code_from_status is_empty code_of_class
is_empty-code_from_status s = ground arith

-- A response falls back on the default where neither its status nor its code gives one.
status_of_code_bounds :
    (c default : Code)
    → (status c ≢ 0) ⊎ (status default ≢ 0)
    → (1 ≤ status_of_code (status c) default) × (status_of_code (status c) default < 600)
unfolding status_of_code
status_of_code_bounds c default h = go (status c) refl h
  where
    go :
        (n : ℕ)
        → status c ≡ n
        → (status c ≢ 0) ⊎ (status default ≢ 0)
        → (1 ≤ status_of_code n default) × (status_of_code n default < 600)
    go zero e (inl q) = absurd (q e)
    go zero e (inr q) = let b = status_bounds default q in (omega (arith, b.0), b.1)
    go (suc n) e q = let b = status_bounds c (λ z. cc) in (omega arith, rw e at b.1)

status-is_empty : (c : Code) → is_empty c ≡ true → status c ≡ 0
unfolding is_empty status
status-is_empty (other s) h = refl
status-is_empty unknown h = cc
status-is_empty invalid_response h = cc
status-is_empty success h = cc
status-is_empty invalid_request h = cc
status-is_empty auth_required h = cc
status-is_empty forbidden h = cc
status-is_empty xrpc_not_supported h = cc
status-is_empty not_acceptable h = cc
status-is_empty payload_too_large h = cc
status-is_empty unsupported_media_type h = cc
status-is_empty rate_limit_exceeded h = cc
status-is_empty internal_server_error h = cc
status-is_empty method_not_implemented h = cc
status-is_empty upstream_failure h = cc
status-is_empty not_enough_resources h = cc
status-is_empty upstream_timeout h = cc
status-is_empty record_not_found h = cc
status-is_empty repo_not_found h = cc

fill_code_twice : (s : ℕ) (c : Code) → fill_code s (fill_code s c) ≡ fill_code s c
unfolding fill_code
fill_code_twice s c = ground (arith, is_empty-code_from_status s)

fill_message_twice : (c : Code) (m : String) → fill_message c (fill_message c m) ≡ fill_message c m
unfolding fill_message
fill_message_twice c m = ground arith

status_of_code_nonzero : (n : ℕ) (default : Code) → n ≢ 0 → status_of_code n default ≡ n
unfolding status_of_code
status_of_code_nonzero zero default h = absurd (h refl)
status_of_code_nonzero (suc n) default h = refl

-- The code that was filled in stands for the same status.
status_of_code-fill_code :
    (c default : Code)
    → status default ≢ 0
    → status_of_code (status (fill_code (status_of_code (status c) default) c)) default
      ≡ status_of_code (status c) default
unfolding fill_code status_of_code
status_of_code-fill_code c default h = elim (Bool-cases (is_empty c)) [
  | inr e ↦ rw e
  | inl e ↦
      rw (e, status-is_empty c e, status-code_from_status default h)
        (status_of_code_nonzero (status default) default h)
]

response_status-fill_code :
    (z : ℤ) (c default : Code)
    → status default ≢ 0
    → response_status z (fill_code (response_status z c default) c) default
      ≡ response_status z c default
unfolding response_status
response_status-fill_code (negsuc n) c default h = status_of_code-fill_code c default h
response_status-fill_code (pos n) c default h = ground (arith, status_of_code-fill_code c default h)

module _ {E : Type 0} where
  -- If the code of the response or the default has a status, the status that is given to WriteHeader
  -- lies between 1 and 599, whatever status the response was given.
  pub write_error_response-bounds :
      (e : ErrorResponse E) (default : Code)
      → (status e.code ≢ 0) ⊎ (status default ≢ 0)
      → (1 ≤ (write_error_response e default).0) × ((write_error_response e default).0 < 600)
  unfolding write_error_response response_status
  write_error_response-bounds e default h = go e.http_status
    where
      go :
          (z : ℤ)
          → (1 ≤ response_status z e.code default) × (response_status z e.code default < 600)
      go (negsuc n) = status_of_code_bounds e.code default h
      go (pos n) = let b = status_of_code_bounds e.code default h in ground (arith, b)

  -- Writing the response that was written writes the same status and the same response.
  pub write_error_response_twice :
      (e : ErrorResponse E) (default : Code)
      → status default ≢ 0
      → write_error_response (write_error_response e default).1 default
        ≡ write_error_response e default
  unfolding write_error_response
  write_error_response_twice e default h =
      let s = response_status e.http_status e.code default in
      let same = response_status-fill_code e.http_status e.code default h in
      rw (same, fill_code_twice s e.code, fill_message_twice (fill_code s e.code) e.message)

  -- A response without a status of its own is written with that of its code, if it has one.
  pub write_error_response_coded :
      (e : ErrorResponse E) (default : Code)
      → e.http_status ≡ pos 0
      → status e.code ≢ 0
      → ((write_error_response e default).0 ≡ status e.code)
        × ((write_error_response e default).1.code ≡ e.code)
  unfolding write_error_response response_status fill_code
  write_error_response_coded e default z h =
      let filled : is_empty e.code ≡ false = elim (Bool-cases (is_empty e.code)) [
        | inl q ↦ absurd (h (status-is_empty e.code q))
        | inr q ↦ q
      ] in
      (rw z (status_of_code_nonzero (status e.code) default h), rw filled)
