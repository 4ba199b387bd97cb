-- ===== src/Errors/Chain.antt =====
-- The interface `Error` of errors.go: the methods of the three types that implement it, and
-- `errors.As`, which looks for one of them along the chain that `%w` makes.
use duh_go.Prelude.{ℕ, [], Text, itoa, ℤ, Option, none, some, if◌then◌else◌, ◌&&◌}
use mathlib.Core.Bool.{not}
use duh_go.Errors.{
  Details, Reply, ServiceError, ClientError, GoError, nil, sentinel, plain, wrapped, service,
  client, data_limit, is_nil, Go, error_text, limit_message, code_bad_request,
}
use duh_go.Prelude.{text_eq}

-- A value of the interface `Error`, by what its methods return.
pub record Error : Type 0 where
  pub proto_message : Reply
  pub code : Text
  pub http_code : ℕ
  pub error : Text
  pub details : Details
  pub message : Text

-- `(*serviceError).Message`
abbrev service_message : ⦃go : Go⦄ → GoError → Text
service_message e = if is_nil e then [] else error_text e

-- The methods of `*serviceError`.
unfoldable pub service_methods : ⦃go : Go⦄ → ServiceError → GoError → Error
service_methods s e = record {
  proto_message = record { code = s.code; message = service_message e; details = s.details };
  code = s.code;
  http_code = s.http_code;
  error = error_text (service s e);
  details = s.details;
  message = service_message e;
}

-- The methods of `*ClientError`; its Reply takes the wrapped error's text where there is no message.
unfoldable pub client_methods : ⦃go : Go⦄ → ClientError → GoError → Error
client_methods c e = record {
  proto_message = record {
    code = c.code;
    message = if not (is_nil e) && text_eq c.msg [] then error_text e else c.msg;
    details = c.details;
  };
  code = c.code;
  http_code = c.http_code;
  error = error_text (client c e);
  details = c.details;
  message = c.msg;
}

-- The methods of `*ErrDataLimitExceeded`.
unfoldable pub data_limit_methods : ⦃go : Go⦄ → ℤ → Error
data_limit_methods max = record {
  proto_message = record {
    code = itoa code_bad_request;
    message = limit_message max;
    details = [];
  };
  code = itoa code_bad_request;
  http_code = code_bad_request;
  error = limit_message max;
  details = [];
  message = limit_message max;
}

-- `errors.As(err, &e)` for `var e Error`.
unfoldable pub as_error : ⦃go : Go⦄ → GoError → Option Error
unfolding service_methods client_methods data_limit_methods
as_error nil = none
as_error (sentinel s) = none
as_error (plain text) = none
as_error (wrapped text e) = as_error e
as_error (service s e) = some (service_methods s e)
as_error (client c e) = some (client_methods c e)
as_error (data_limit max) = some (data_limit_methods max)
