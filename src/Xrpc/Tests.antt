-- ===== src/Xrpc/Tests.antt =====
-- Errors that are written, and the theorems about them.
use at.Prelude.{ℕ, ◌<◌, ◌≤◌, ◌≡◌, ◌≢◌, refl, inr, none, some}
use at.Prelude.Int.{pos}
use at.Xrpc.{
  status, message, code_from_status, ErrorResponse, write_error_response, write_error, ErrorChains,
  response_status, fill_code, fill_message, invalid_request, internal_server_error, other,
}
use at.Xrpc.Status.{write_error_response-bounds}

-- A response without a code, whose status 999 is no status.
abbrev strange : ErrorResponse ℕ
strange = record { code = other ""; message = ""; http_status = pos 999; inner = none }

write_runs :
    (write_error_response strange invalid_request
      ≡ (400, record strange { code = invalid_request; message = "Invalid Request" }))
    × (write_error_response strange (other "")
        ≡ (0, record strange { code = internal_server_error; message = "Internal Server Error" }))
unfolding write_error_response response_status fill_code fill_message code_from_status message
    status
write_runs = (refl, refl)

abbrev chains : ErrorChains ℕ
chains = record { as_response = λ e. none; cause = λ e. some e; find_response = λ e. some strange }

write_error_runs :
    (write_error chains none invalid_request ≡ none)
    × (write_error chains (some 3) invalid_request
        ≡ some (write_error_response strange invalid_request))
unfolding write_error
write_error_runs = (refl, refl)

has_status : status invalid_request ≢ 0
unfolding status
has_status = λ h. cc

write_error_response-bounds_example :
    (1 ≤ (write_error_response strange invalid_request).0)
    × ((write_error_response strange invalid_request).0 < 600)
write_error_response-bounds_example =
    write_error_response-bounds strange invalid_request (inr has_status)
