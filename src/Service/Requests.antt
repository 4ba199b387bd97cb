-- ===== src/Service/Requests.antt =====
-- `ReadRequest` and `ReadContent` of service.go.
use duh_go.Prelude.{ℕ, [], ◌++◌, Option, none, some, Text, str, ℤ, if◌then◌else◌}
use duh_go.Errors.{
  Details, index, GoError, plain, is_nil, Go, new_service_error, code_internal_error,
  code_client_content_error,
}
use duh_go.Errors.Chain.{Error, as_error}
use duh_go.Frames.{Bytes, Result, ok, err}
use duh_go.Media.{Encoding, negotiate, normalize_media_type}
use duh_go.Body.{Body, copy_request}

module _ ⦃go : Go⦄ where
  -- The error of a body that cannot be read.
  abbrev pub body_failure : GoError → Option Error → GoError
  body_failure e (some found) =
      new_service_error found.http_code (str "request body " ++ found.message) (GoError.nil) []
  body_failure e none = new_service_error code_internal_error [] e []

  -- A body that has been copied, or the error of it.
  unfoldable pub received : Bytes × GoError → Result Bytes
  received (b, e) = if is_nil e then ok b else err (body_failure e (as_error e))

  -- The bytes of `ReadContent`, with the Content-Type as it is.
  abbrev pub with_type : Details → Result Bytes → Result (Bytes × Text)
  with_type header (ok b) = ok (b, index (str "Content-Type") header)
  with_type header (err e) = err e

  -- `ReadContent`
  unfoldable pub read_content : (ℕ → ℕ) → Details → Body → ℤ → Option (Result (Bytes × Text))
  read_content free header body limit = elim (copy_request free limit body) [
    | none ↦ none
    | some c ↦ some (with_type header (received c))
  ]

  module _ {M : Type 0} (unmarshal : Encoding → Bytes → Result M) where
    abbrev pub decoded : Result M → Result M
    decoded (ok msg) = ok msg
    decoded (err e) = err (new_service_error code_client_content_error [] e [])

    abbrev pub decode_body : Text → Bytes → Option Encoding → Result M
    decode_body content_type b (some enc) = decoded (unmarshal enc b)
    decode_body content_type b none = err (
        new_service_error code_client_content_error []
          (plain (
            str "Content-Type header '"
            ++ (content_type ++ str "' is invalid format or unrecognized content type")))
          [])

    abbrev pub read_message : Text → Result Bytes → Result M
    read_message content_type (ok b) =
        decode_body content_type b (negotiate (normalize_media_type content_type))
    read_message content_type (err e) = err e

    -- `ReadRequest`
    unfoldable pub read_request : (ℕ → ℕ) → Details → Body → ℤ → Option (Result M)
    read_request free header body limit = elim (copy_request free limit body) [
      | none ↦ none
      | some c ↦ some (read_message (index (str "Content-Type") header) (received c))
    ]
