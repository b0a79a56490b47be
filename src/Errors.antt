-- ===== src/Errors.antt =====
-- src/errors/common.rs: the error that the handlers share, and the status that it is answered with.
use rust_panel.Prelude.{Text, codes, ℕ}

pub data CommonError : Type 0 where
  io_error internal bad_request too_many_requests unauthorized forbidden : Text → CommonError
  service_unavailable : Text → CommonError

-- the `code` and the status of `error_response`
unfoldable pub status_code : CommonError → ℕ
status_code (io_error m) = 500
status_code (internal m) = 500
status_code (bad_request m) = 400
status_code (too_many_requests m) = 429
status_code (service_unavailable m) = 503
status_code (forbidden m) = 403
status_code (unauthorized m) = 401

abbrev pub invalid_credentials : CommonError
invalid_credentials = unauthorized (codes "Invalid credentials")
