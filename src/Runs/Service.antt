-- ===== src/Runs/Service.antt =====
-- Runs of the replies of a service, and the theorems on them at concrete inputs.
use duh_go.Prelude.{[], ◌∷◌, ◌≡◌, refl, some, str}
use duh_go.Errors.{GoError, nil, service}
use duh_go.Errors.Chain.{Error, as_error, service_methods}
use duh_go.Media.{
  json, negotiate, normalize_media_type, trim_suffix, is_any, to_lower, lower, trim_space,
  trim_left, trim_right, drop_space, is_space, unmarshal_for_media_type,
}
use duh_go.Prelude.{text_eq}
use duh_go.Service.{write_content, message, reply, reply_error, ResponseWriter}
use duh_go.Service.Total.{Sent, reply_total}
use duh_go.Service.ByteStream.{
  return, write_bytes, Ends, handle_bytes, run_handler, seeded, handle_bytes-Ends,
}
use duh_go.Body.{Body, chunk, last, copy_request}
use duh_go.Body.Limits.{
  IsEager, content, ending, outcome, copy_request_within, copy_request-one_over,
}
use duh_go.Errors.{sentinel, eof}
use duh_go.Prelude.{pos, arith}
use duh_go.Errors.{Details, index, code_ok}
use duh_go.Frames.{ok, err}
use duh_go.Prelude.{◌++◌}
use duh_go.Errors.{new_service_error, code_bad_request, limit_message}
use duh_go.Service.Requests.{read_request}
use duh_go.Body.Over.{read_request_over}
use duh_go.Frames.{Source}
use duh_go.Client.{do_stream}
use duh_go.Errors.{canceled, heartbeat_timeout}
use duh_go.Streaming.Reader.{Received, recv, recv_loop, read_error, round}
use duh_go.Frames.{read_frame, read_full, after_header}
use duh_go.Client.{Response, new_stream_reader}
use mathlib.Core.Option
use duh_go.Client.Refused.{reply_error-do_stream}
use duh_go.Prelude.{ℕ, if◌then◌else◌, ltb, length}
use duh_go.Client.Delivers.{do_call-reply, do_content-write_content}
use duh_go.Client.{answered, do_call, do_content, Request}
use duh_go.Service.StreamStart.{open_stream, opened}
use duh_go.Client.Arrives.{response_of, IsUnsent, Arrived}
use duh_go.Samples.{
  of_byte, reply_of_bytes, sample_go, unsent, marshal_code, unmarshal_code, broken,
}

-- What the media types compute with.
media : Unit {0}
unfolding negotiate normalize_media_type trim_suffix is_any to_lower lower trim_space trim_left
    trim_right drop_space is_space unmarshal_for_media_type text_eq
media = tt

normalized : negotiate (normalize_media_type (str " Application/JSON ;q=1")) ≡ some json
unfolding media
normalized = refl

reply_total_example :
    Sent marshal_code unsent (reply marshal_code (str "text/html") 200 (message 5) unsent)
reply_total_example =
    reply_total marshal_code (λ enc msg e h. (_, refl)) (str "text/html") 200 (message 5) unsent

handle_bytes-Ends_example :
    Ends marshal_code [] unsent
      (handle_bytes marshal_code [] (write_bytes (1 ∷ []) (λ e. return broken)) unsent)
      (run_handler (write_bytes (1 ∷ []) (λ e. return broken)) (seeded marshal_code unsent))
handle_bytes-Ends_example =
    handle_bytes-Ends marshal_code [] (write_bytes (1 ∷ []) (λ e. return broken)) unsent refl

-- A conflict that a service reports, without a message.
abbrev conflict : GoError
conflict = service (record { details = []; code = str "409"; http_code = 409 }) nil

abbrev conflict_error : Error
conflict_error = service_methods (record { details = []; code = str "409"; http_code = 409 }) nil

fresh_response : IsUnsent unsent
fresh_response = record { uncommitted = refl; empty = refl; unbroken = refl }

abbrev request : Request
request = record { method = str "POST"; url = str "http://a/v1/b" }

-- A body of up to so many bytes, which are there before the request is canceled; more are lost.
abbrev buffered : Source → Source
buffered body = if ltb (length body.bytes) 512 then body else record { bytes = []; ending = broken }

reply_error-do_stream_example :
    (w' : ResponseWriter) × (reply_error marshal_code (str "*/*") conflict unsent ≡ some w')
    × ((x : GoError) × (do_stream unmarshal_code buffered
            (sentinel canceled)
            (pos 0)
            (pos 0)
            request
            (answered (response_of (str "409") w'))
          ≡ err x)
        × Arrived marshal_code unmarshal_code conflict_error x)
unfolding as_error media service_methods
reply_error-do_stream_example =
    reply_error-do_stream marshal_code unmarshal_code buffered (sentinel canceled) (str "*/*")
      conflict conflict_error unsent json (str "409") request (str "409") (pos 0) (pos 0) refl refl
      refl refl fresh_response refl refl

-- A request's body in two reads, of which the second ends it.
abbrev two_reads : Body
two_reads = chunk (1 ∷ 2 ∷ []) (last (3 ∷ []) (sentinel eof))

copy_request_within_example : copy_request (λ n. 512) (pos 4) two_reads ≡ some (1 ∷ 2 ∷ 3 ∷ [], nil)
unfolding content ending outcome
copy_request_within_example =
    copy_request_within (λ n. 512) (λ n. omega arith) 4 two_reads (omega arith) (omega arith)
      (omega arith) refl

copy_request-one_over_example :
    copy_request (λ n. 512) (pos 4) (chunk (1 ∷ 2 ∷ []) (last (3 ∷ 4 ∷ 5 ∷ []) (sentinel eof)))
    ≡ some (1 ∷ 2 ∷ 3 ∷ 4 ∷ 5 ∷ [], nil)
unfolding content ending IsEager
copy_request-one_over_example =
    copy_request-one_over (λ n. 512) (λ n. omega arith) 4
      (chunk (1 ∷ 2 ∷ []) (last (3 ∷ 4 ∷ 5 ∷ []) (sentinel eof))) (omega arith) (omega arith) refl
      (omega arith) refl

opens :
    (w : ResponseWriter) × (open_stream marshal_code (str "Application/DUH-stream+json; q=1") unsent
      ≡ opened json w)
unfolding open_stream media
opens = (_, refl)

do_call-reply_example :
    (w : ResponseWriter) × (reply marshal_code (str "*/*") code_ok (message 5) unsent ≡ some w)
    × (do_call unmarshal_code (λ enc b. of_byte b) request (answered (response_of (str "200 OK") w))
        ≡ ok 5)
unfolding media
do_call-reply_example =
    do_call-reply unmarshal_code (λ enc b. of_byte b) marshal_code (str "*/*") (message 5) 5 unsent
      json (5 ∷ []) request (str "200 OK") refl refl refl fresh_response

do_content-write_content_example :
    (header : Details) × (do_content unmarshal_code request (
        answered (response_of (str "200 OK") (write_content (str "image/png") (1 ∷ 2 ∷ []) unsent)))
      ≡ (1 ∷ 2 ∷ [], ok header))
    × (index (str "Content-Type") header ≡ str "image/png")
do_content-write_content_example =
    do_content-write_content unmarshal_code (str "image/png") (1 ∷ 2 ∷ []) unsent request
      (str "200 OK") fresh_response

read_request_over_example :
    read_request (λ enc b. of_byte b) (λ n. 512) [] two_reads (pos 1)
    ≡ some (
        err (
          new_service_error code_bad_request (str "request body " ++ limit_message (pos 1)) nil []))
unfolding content
read_request_over_example =
    read_request_over (λ n. 512) (λ n. omega arith) (λ enc b. of_byte b) [] 1 two_reads
      (omega arith) (omega arith) (omega arith)

-- A stream of which nothing arrives before the heartbeat timer cancels its request.
abbrev silent : Response
silent = record {
  status_code = 200;
  status = str "200 OK";
  header = [];
  body = record { bytes = []; ending = sentinel canceled };
}

silent_times_out :
    Option.map
      (λ (r : Received ℕ). r.error)
      (recv of_byte reply_of_bytes
        (new_stream_reader unmarshal_code (sentinel canceled) (pos 0) (pos 0) silent))
    ≡ some (sentinel heartbeat_timeout)
unfolding recv recv_loop round read_error read_frame read_full after_header
silent_times_out = refl
