-- ===== src/Responses.antt =====
-- client.go: requests, responses, and the errors that are made of them.
--
-- The body of a response is a `Source`, which `io.Copy` reads to its end.
use duh_go.Prelude.{ℕ, Bool, true, false, [], ◌∷◌, Text, str, itoa, text_eq, ◌&&◌}
use duh_go.Prelude.{if◌then◌else◌, ◌==◌}
use mathlib.Core.Bool.{not}
use duh_go.Errors.{
  Details, index, insert, Reply, GoError, nil, sentinel, eof, client, Go, wrap, code_text,
  with_message, code_client_error, code_too_many_requests, details_http_method, details_http_url,
}
use duh_go.Frames.{Bytes, Source}

pub record Request : Type 0 where
  pub method : Text
  pub url : Text

pub record Response : Type 0 where
  pub status_code : ℕ
  pub status : Text
  pub header : Details
  pub body : Source

-- What `http.Client.Do` returns.
pub data Answer : Type 0 where
  answered : Response → Answer
  failed : GoError → Answer

-- `io.Copy` of a body into an empty buffer, which keeps what came before an error.
unfoldable pub copy_body : Source → Bytes × GoError
copy_body body = elim body.ending [ sentinel eof ↦ (body.bytes, nil) | e ↦ (body.bytes, e) ]

-- `NewClientError`
unfoldable pub new_client_error : ⦃go : Go⦄ → Text → GoError → Details → GoError
new_client_error msg e details =
    client
      (record {
        details = details;
        msg = [];
        is_infra_error = false;
        code = itoa code_client_error;
        http_code = code_client_error;
      })
      (with_message msg e)

-- `for k, v := range m { details[k] = v }`
unfoldable pub insert_all : Details → Details → Details
insert_all [] details = details
insert_all ((k, v) ∷ m) details = insert_all m (insert k v details)

-- The end of `NewReplyError`: the Retry-After header of a 429.
unfoldable pub retry_after : Response → Details → Details
retry_after resp details =
    if resp.status_code == code_too_many_requests
      && not (text_eq (index (str "Retry-After") resp.header) [])
    then insert (str "http.retry-after") (index (str "Retry-After") resp.header) details
    else details

abbrev pub reply_details : ⦃go : Go⦄ → Request → Response → Details
reply_details req resp =
    (str "http.code", itoa resp.status_code)
    ∷ (str "duh.code-text", code_text resp.status_code)
    ∷ (details_http_url, req.url)
    ∷ (details_http_method, req.method)
    ∷ []

-- `NewReplyError`
unfoldable pub new_reply_error : ⦃go : Go⦄ → Request → Response → Reply → GoError
new_reply_error req resp reply =
    client
      (record {
        code = reply.code;
        http_code = resp.status_code;
        msg = reply.message;
        details = retry_after resp (insert_all reply.details (reply_details req resp));
        is_infra_error = false;
      })
      nil

-- The error of a response that is no Reply, with its body as the message.
abbrev pub body_error : Bool → Request → Response → Bytes → GoError
body_error infra req resp body =
    client
      (record {
        details =
            (str "http.code", itoa resp.status_code)
            ∷ (str "http.body", body)
            ∷ (details_http_url, req.url)
            ∷ (str "http.status", resp.status)
            ∷ (details_http_method, req.method)
            ∷ [];
        msg = body;
        code = itoa resp.status_code;
        http_code = resp.status_code;
        is_infra_error = infra;
      })
      nil

-- `NewInfraError`
unfoldable pub new_infra_error : Request → Response → Bytes → GoError
new_infra_error req resp body = body_error true req resp body

-- The error of a body that breaks.
unfoldable pub read_body_error : ⦃go : Go⦄ → Request → Response → GoError → GoError
read_body_error req resp e =
    client
      (record {
        details =
            (details_http_url, req.url)
            ∷ (details_http_method, req.method)
            ∷ (str "http.status", resp.status)
            ∷ [];
        msg = [];
        is_infra_error = false;
        code = itoa code_client_error;
        http_code = code_client_error;
      })
      (wrap (str "while reading response body: ") e)

-- The error of `http.Client.Do`.
unfoldable pub request_error : ⦃go : Go⦄ → Request → GoError → GoError
request_error req e =
    new_client_error (str "during client.Do(): %w") e
      ((details_http_url, req.url) ∷ (details_http_method, req.method) ∷ [])
