-- ===== src/Errors.antt =====
-- errors.go, and the part of reader.go that declares an error: the response codes, the values of
-- Go's `error` that the package makes, and the methods of its `Error` interface.
pub mod Codes
pub mod Size
pub mod Chain
pub mod Maps
unfoldable pub use Codes.*
unfoldable pub use Size.*
use duh_go.Prelude.{ℕ, Bool, true, false, List, [], ◌∷◌, ◌++◌, Text, str, text_eq, itoa, ℤ}
use duh_go.Prelude.{Option, none, some, if◌then◌else◌}

-- `map[string]string`. A nil map is the empty one; the code tells them apart nowhere that shows.
abbrev pub Details : Type 0
Details = List (Text × Text)

-- `m[k]` of a Go map by its keys and values, if the key is there.
unfoldable pub lookup {ℓ} : {V : Type ℓ} → Text → List (Text × V) → Option V
lookup k [] = none
lookup k ((j, v) ∷ m) = if text_eq j k then some v else lookup k m

-- `m[k] = v`.
unfoldable pub insert {ℓ} : {V : Type ℓ} → Text → V → List (Text × V) → List (Text × V)
insert k v [] = (k, v) ∷ []
insert k v ((j, w) ∷ m) = if text_eq j k then (k, v) ∷ m else (j, w) ∷ insert k v m

-- `m[k]`, which is "" for a missing key.
unfoldable pub index : Text → Details → Text
unfolding lookup
index k m = elim (lookup k m) [ none ↦ [] | some v ↦ v ]

-- The `v1.Reply` message.
pub record Reply : Type 0 where
  pub code : Text
  pub message : Text
  pub details : Details

-- `serviceError` without its wrapped error.
pub record ServiceError : Type 0 where
  pub details : Details
  pub code : Text
  pub http_code : ℕ

-- `ClientError` without its wrapped error.
pub record ClientError : Type 0 where
  pub details : Details
  pub msg : Text
  pub is_infra_error : Bool
  pub code : Text
  pub http_code : ℕ

-- The error values that the code compares by identity.
pub data Sentinel : Type 0 where
  eof unexpected_eof stream_closed heartbeat_timeout canceled deadline_exceeded : Sentinel

-- Go's `error`. `plain` is an `errors.New` or an error of a library, `wrapped` one that
-- `fmt.Errorf` made with `%w`; the last three are the types that implement `Error`.
pub data GoError : Type 0 where
  nil : GoError
  sentinel : Sentinel → GoError
  plain : Text → GoError
  wrapped : Text → GoError → GoError
  service : ServiceError → GoError → GoError
  client : ClientError → GoError → GoError
  data_limit : ℤ → GoError

abbrev pub is_nil : GoError → Bool
is_nil nil = true
is_nil _ = false

-- What the package calls of Go's standard library and does not define.
pub record Go : Type 0 where
  -- `http.StatusText`
  pub status_text : ℕ → Text
  -- `fmt.Errorf(msg, err)`, for a format that the caller chooses
  pub errorf : Text → GoError → GoError
  -- `fmt.Sprintf("%.1f", float64(b)/float64(div))`
  pub one_decimal : ℕ → ℕ → Text
  -- `unicode.ToLower` and `unicode.IsSpace` from U+0080 on
  pub lower_wide : ℕ → ℕ
  pub space_wide : ℕ → Bool

-- `CodeText`
unfoldable pub code_text : ⦃go : Go⦄ → ℕ → Text
unfolding status_name
code_text ⦃go⦄ code = elim (status_name code) [ some text ↦ text | none ↦ go.status_text code ]

abbrev pub sentinel_text : Sentinel → Text
sentinel_text eof = str "EOF"
sentinel_text unexpected_eof = str "unexpected EOF"
sentinel_text stream_closed = str "stream is closed"
sentinel_text heartbeat_timeout = str "stream heartbeat timeout: no frames received within deadline"
sentinel_text canceled = str "context canceled"
sentinel_text deadline_exceeded = str "context deadline exceeded"

abbrev pub details_http_method : Text
details_http_method = str "http.method"

abbrev pub details_http_url : Text
details_http_url = str "http.url"

-- `(*ErrDataLimitExceeded).Message`
unfoldable pub limit_message : ⦃go : Go⦄ → ℤ → Text
unfolding bytes_to_si
limit_message ⦃go⦄ max = str "exceeds " ++ (bytes_to_si go.one_decimal max ++ str " limit")

-- The last two returns of `(*ClientError).Error`.
unfoldable pub describe : ⦃go : Go⦄ → ClientError → Text
unfolding code_text index itoa
describe e =
    let subject =
      index details_http_method e.details ++ (str " " ++ index details_http_url e.details) in
    if e.is_infra_error
    then subject
      ++ (str " returned infrastructure error "
          ++ (itoa e.http_code ++ (str " with body: " ++ e.msg)))
    else subject
      ++ (str " returned '" ++ (code_text e.http_code ++ (str "' with message: " ++ e.msg)))

-- `err.Error()`. That of a nil error is a fault in Go, and is "" here.
unfoldable pub error_text : ⦃go : Go⦄ → GoError → Text
unfolding code_text describe limit_message
error_text nil = []
error_text (sentinel s) = sentinel_text s
error_text (plain text) = text
error_text (wrapped text e) = text
error_text (service s e) =
    if is_nil e then code_text s.http_code else code_text s.http_code ++ (str ": " ++ error_text e)
error_text (client c e) =
    if is_nil e then describe c else code_text c.http_code ++ (str ": " ++ error_text e)
error_text (data_limit max) = limit_message max

-- `fmt.Errorf(prefix + "%w", err)`
unfoldable pub wrap : ⦃go : Go⦄ → Text → GoError → GoError
unfolding error_text
wrap prefix e = wrapped (prefix ++ error_text e) e

-- The message that `NewServiceErrorWithCode` and `NewClientError` put in front.
unfoldable pub with_message : ⦃go : Go⦄ → Text → GoError → GoError
with_message ⦃go⦄ [] e = e
with_message ⦃go⦄ (c ∷ msg) e = if is_nil e then plain (c ∷ msg) else go.errorf (c ∷ msg) e

unfoldable pub new_service_error_with_code :
    ⦃go : Go⦄ → ℕ → Text → Text → GoError → Details → GoError
unfolding with_message
new_service_error_with_code http_code code msg e details =
    service (record { details = details; code = code; http_code = http_code }) (with_message msg e)

unfoldable pub new_service_error : ⦃go : Go⦄ → ℕ → Text → GoError → Details → GoError
unfolding new_service_error_with_code itoa
new_service_error http_code msg e details =
    new_service_error_with_code http_code (itoa http_code) msg e details
