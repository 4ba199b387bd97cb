-- ===== src/Errors/Codes.antt =====
-- The response codes of errors.go, and the texts that it has for them.
use duh_go.Prelude.{ℕ, Option, none, some, Text, str, ◌==◌, if◌then◌else◌}

abbrev pub code_ok : ℕ
code_ok = 200

abbrev pub code_bad_request : ℕ
code_bad_request = 400

abbrev pub code_unauthorized : ℕ
code_unauthorized = 401

abbrev pub code_forbidden : ℕ
code_forbidden = 403

abbrev pub code_not_found : ℕ
code_not_found = 404

abbrev pub code_conflict : ℕ
code_conflict = 409

abbrev pub code_too_many_requests : ℕ
code_too_many_requests = 429

abbrev pub code_client_error : ℕ
code_client_error = 452

abbrev pub code_request_failed : ℕ
code_request_failed = 453

abbrev pub code_retry_request : ℕ
code_retry_request = 454

abbrev pub code_client_content_error : ℕ
code_client_content_error = 455

abbrev pub code_internal_error : ℕ
code_internal_error = 500

abbrev pub code_not_implemented : ℕ
code_not_implemented = 501

-- The cases of `CodeText`; `none` is its default case.
unfoldable pub status_name : ℕ → Option Text
status_name code =
    if code == code_ok
    then some (str "OK")
    else if code == code_bad_request
    then some (str "Bad Request")
    else if code == code_unauthorized
    then some (str "Unauthorized")
    else if code == code_request_failed
    then some (str "Request Failed")
    else if code == code_retry_request
    then some (str "Retry Request")
    else if code == code_forbidden
    then some (str "Forbidden")
    else if code == code_not_found
    then some (str "Not Found")
    else if code == code_conflict
    then some (str "Conflict")
    else if code == code_client_error
    then some (str "Client Error")
    else if code == code_too_many_requests
    then some (str "Too Many Requests")
    else if code == code_internal_error
    then some (str "Internal Service Error")
    else if code == code_not_implemented
    then some (str "Not Implemented")
    else if code == code_client_content_error
    then some (str "Client Content Error")
    else none
