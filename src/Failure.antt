-- ===== src/Failure.antt =====
-- src/error.rs: the errors of the server and the HTTP status that each is answered with. The
-- payloads of errors that foreign libraries produce are left out; a message is kept without the
-- values that `format!` puts into it.
use pishoo.Base.{ℕ, String, Bool, leb, Result}

pub data Error : Type 0 where
  bad_request invalid_config invalid_component invalid_identity : String → Error
  package_policy : String → ℕ → Error
  signing_status_unavailable identity_mismatch missing_handshake route_not_found : Error
  method_not_allowed denied deadline guest_exited_without_response guest_rejected_response : Error
  guest io io_invalid_input database config_database http dhttp task shutdown_deadline : Error

abbrev pub Fallible : Type 0 → Type 0
Fallible A = Result Error A

-- `Error::status`
unfoldable pub status : Error → ℕ
status (package_policy code s) = s
status signing_status_unavailable = 503
status (bad_request m) = 400
status identity_mismatch = 421
status route_not_found = 404
status method_not_allowed = 405
status denied = 403
status (invalid_identity m) = 403
status deadline = 504
status dhttp = 502
status e = 500

-- `StatusCode::is_server_error`
abbrev pub is_server_error : ℕ → Bool
is_server_error s = leb 500 s
