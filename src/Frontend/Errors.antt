-- ===== src/Frontend/Errors.antt =====
-- internal/frontend/grpc/errors.go: the gRPC status of a domain error.
use my_temp.Common.{String, if◌then◌else◌}
use my_temp.Errors.{
  Error, not_found, workflow_already_running, workflow_not_running, is, error_text,
}

pub data Code : Type 0 where
  already_exists failed_precondition code_not_found internal : Code

pub record Status : Type 0 where
  pub code : Code
  pub message : String

-- `err == nil` is the `ok` result of an action, which has no status.
unfoldable pub to_status : Error → Status
to_status e =
    if is e workflow_already_running
    then record { code = already_exists; message = error_text e }
    else if is e workflow_not_running
    then record { code = failed_precondition; message = error_text e }
    else if is e not_found
    then record { code = code_not_found; message = error_text e }
    else record { code = internal; message = "internal error" }
