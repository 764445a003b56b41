-- ===== src/Xrpc.antt =====
-- xrpc/error.go: the errors of a remote call, and the answer that is written for one. A status is an
-- int in the source, so that it may be zero or negative in a response. Logging is left out.
pub mod Status
mod Tests
use at.Prelude.{
  List, [], ◌∷◌, ℕ, zero, suc, Bool, true, false, ◌||◌, ◌&&◌, not, Option, none, some, String, leb,
  ltb, eqb, if◌then◌else◌,
}
use at.Prelude.Eq.{◌==◌, string_eq}
use at.Prelude.Int.{ℤ, pos, negsuc}

-- A Go string type; `other` is any string that is not one of the constants, `other ""` the empty one.
pub data Code : Type 0 where
  unknown invalid_response success invalid_request auth_required forbidden xrpc_not_supported
        not_acceptable payload_too_large unsupported_media_type rate_limit_exceeded
        internal_server_error method_not_implemented upstream_failure not_enough_resources
        upstream_timeout record_not_found repo_not_found :
      Code
  other : String → Code

unfoldable pub status : Code → ℕ
status unknown = 400
status invalid_response = 0
status success = 200
status invalid_request = 400
status auth_required = 401
status forbidden = 403
status xrpc_not_supported = 404
status not_acceptable = 406
status payload_too_large = 413
status unsupported_media_type = 415
status rate_limit_exceeded = 429
status internal_server_error = 500
status method_not_implemented = 501
status upstream_failure = 502
status not_enough_resources = 503
status upstream_timeout = 504
status record_not_found = 400
status repo_not_found = 400
status (other s) = 0

unfoldable pub message : Code → String
message unknown = "Unknown"
message invalid_response = "Invalid Response"
message success = "Success"
message invalid_request = "Invalid Request"
message auth_required = "Authentication Required"
message forbidden = "Forbidden"
message xrpc_not_supported = "XRPC Not Supported"
message not_acceptable = ""
message payload_too_large = "Payload Too Large"
message unsupported_media_type = "Unsupported Media Type"
message rate_limit_exceeded = "Rate Limit Exceeded"
message internal_server_error = "Internal Server Error"
message method_not_implemented = "Method Not Implemented"
message upstream_failure = "Upstream Failure"
message not_enough_resources = "Not Enough Resources"
message upstream_timeout = "Upstream Timeout"
message record_not_found = ""
message repo_not_found = ""
message (other s) = ""

-- The default case of CodeFromStatus.
code_of_class : ℕ → Code
code_of_class s =
    if leb 100 s && ltb s 200
    then xrpc_not_supported
    else if leb 200 s && ltb s 300
    then success
    else if leb 300 s && ltb s 400
    then xrpc_not_supported
    else if leb 400 s && ltb s 500
    then invalid_request
    else internal_server_error

unfoldable pub code_from_status : ℕ → Code
unfolding code_of_class
code_from_status s =
    if eqb s 200
    then success
    else if eqb s 400
    then invalid_request
    else if eqb s 401
    then auth_required
    else if eqb s 403
    then forbidden
    else if eqb s 404
    then xrpc_not_supported
    else if eqb s 406
    then not_acceptable
    else if eqb s 413
    then payload_too_large
    else if eqb s 415
    then unsupported_media_type
    else if eqb s 429
    then rate_limit_exceeded
    else if eqb s 500
    then internal_server_error
    else if eqb s 501
    then method_not_implemented
    else if eqb s 502
    then upstream_failure
    else if eqb s 503
    then not_enough_resources
    else if eqb s 504
    then upstream_timeout
    else code_of_class s

is_empty : Code → Bool
is_empty (other s) = s == ""
is_empty _ = false

status_of_code : ℕ → Code → ℕ
status_of_code zero default = status default
status_of_code (suc s) default = suc s

-- Status, if it lies between 0 and 600; else the status of the code, or the default.
response_status : ℤ → Code → Code → ℕ
unfolding status_of_code
response_status (negsuc n) c default = status_of_code (status c) default
response_status (pos n) c default =
    if leb n 0 || leb 600 n then status_of_code (status c) default else n

fill_code : ℕ → Code → Code
unfolding is_empty
fill_code s c = if is_empty c then code_from_status s else c

fill_message : Code → String → String
fill_message c m = if m == "" then message c else m

-- The field `Status` is called `http_status` here. `E` is the type of the errors of the program.
pub record ErrorResponse (E : Type 0) : Type 0 where
  pub code : Code
  pub message : String
  pub http_status : ℤ
  pub inner : Option E

module _ {E : Type 0} where
  -- &ErrorResponse{Code: code, Message: msg}
  abbrev pub of_code : Code → String → ErrorResponse E
  of_code c m = record { code = c; message = m; http_status = pos 0; inner = none }

  unfoldable pub new_invalid_request : String → ErrorResponse E
  new_invalid_request m = of_code invalid_request m

  unfoldable pub new_auth_required : String → ErrorResponse E
  new_auth_required m = of_code auth_required m

  unfoldable pub new_internal_error : String → ErrorResponse E
  new_internal_error m = of_code internal_server_error m

  -- The method Wrap; it returns its receiver, which it has changed.
  unfoldable pub wrap : E → ErrorResponse E → ErrorResponse E
  wrap e er = record er { inner = some e }

  unfoldable pub with_status : ℤ → ErrorResponse E → ErrorResponse E
  with_status s er = record er { http_status = s }

  unfoldable pub with_msg : String → ErrorResponse E → ErrorResponse E
  with_msg m er = record er { message = m }

  -- The status that is given to WriteHeader, which in net/http panics below 100, and the response
  -- that is then encoded as the body: its receiver, with the code and the message filled in.
  unfoldable pub write_error_response : ErrorResponse E → Code → ℕ × ErrorResponse E
  unfolding response_status fill_code fill_message
  write_error_response e default =
      let s = response_status e.http_status e.code default in
      let c = fill_code s e.code in (s, record e { code = c; message = fill_message c e.message })

-- What package errors and the type switches say of an error: whether it is an ErrorResponse
-- itself, its Cause (nil is `none`), and what errors.As finds in its chain.
pub record ErrorChains (E : Type 0) : Type 0 where
  pub as_response : E → Option (ErrorResponse E)
  pub cause : E → Option E
  pub find_response : E → Option (ErrorResponse E)

module _ {E : Type 0} (chains : ErrorChains E) where
  abbrev cause_response : Option E → Option (ErrorResponse E)
  cause_response none = none
  cause_response (some e) = chains.as_response e

  -- The first response that one of the three ways finds.
  abbrev first_response : List (Option (ErrorResponse E)) → Option (ErrorResponse E)
  first_response [] = none
  first_response (some r ∷ rs) = some r
  first_response (none ∷ rs) = first_response rs

  write_found : Option (ErrorResponse E) → Code → ℕ × ErrorResponse E
  write_found (some r) default = write_error_response r default
  write_found none default = (status default, of_code default "Server Error")

  -- Nothing is written for a nil error.
  unfoldable pub write_error : Option E → Code → Option (ℕ × ErrorResponse E)
  unfolding write_found
  write_error none default = none
  write_error (some e) default = some (
      write_found
        (first_response
          (chains.as_response e ∷ cause_response (chains.cause e) ∷ chains.find_response e ∷ []))
        default)
