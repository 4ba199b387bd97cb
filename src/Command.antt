-- ===== src/Command.antt =====
-- cmd/duh/main.go: the command that sends the documents of a file to a service.
--
-- Here the flags have been parsed, and the file opened; Start has what is before. What the command
-- prints is left out, but for the error with which it exits.
pub mod Documents
pub mod Cut
pub mod Start
use duh_go.Prelude.{
  ℕ, Bool, true, false, List, [], ◌∷◌, ◌++◌, ◌+◌, Option, none, some, Text, str, text_eq, ◌==◌,
  ◌&&◌, if◌then◌else◌,
}
use mathlib.Core.Bool.{not}
use duh_go.Errors.{
  Details, insert, GoError, nil, is_nil, Reply, Go, details_http_method, details_http_url,
}
use duh_go.Errors.Codes.{code_ok}
use duh_go.Frames.{Bytes, Result, ok, err}
use duh_go.Media.{content_type_json, trim_space}
use duh_go.Client.{
  Request, Response, Answer, answered, failed, copy_body, new_client_error, new_reply_error,
  new_infra_error,
}
use duh_go.Demo.Client.{Outgoing, Http, named}
use duh_go.Lines.{Scanned, scan}

-- `config`, without the name of the file; the timeout is in the HTTP client's answers.
pub record Settings : Type 0 where
  pub address : Text
  pub verbose : Bool

-- What a document holds under "api", if it has the key.
pub data Api : Type 0 where
  text : Text → Api
  other : Api

-- A YAML document as the command looks at it: its "api", and its "resource" of some type.
pub record Document (V : Type 0) : Type 0 where
  pub api : Option Api
  pub resource : Option V

-- How the command exits with status 1: the format of the message and an error for `checkErr`, in the
-- document of a number.
pub data Exit : Type 0 where
  check_err : Text → GoError → Exit
  fail : Text → Exit
  in_document : ℕ → Exit → Exit

-- The libraries that the command calls: YAML, JSON, the error of a JSON text for printing, and HTTP.
pub record Libraries (V W : Type 0) : Type 0 where
  pub yaml : Text → Result (Document V)
  pub json : V → Result Bytes
  pub indent_error : Document V → GoError
  pub json_reply : Bytes → Result Reply
  pub http : Http W

module _ {V W : Type 0} (lib : Libraries V W) ⦃go : Go⦄ (c : Settings) where
  -- A world, and an exit if there is one.
  abbrev pub Step : Type 0
  Step = W → W × Option Exit

  -- `json.Unmarshal` of the body of an error.
  abbrev pub error_of : Request → Response → Result Reply → GoError
  error_of req resp (ok reply) = new_reply_error req resp reply
  error_of req resp (err e) = new_infra_error req resp (copy_body resp.body).0

  -- `sendRequest`, on an answer. Its own `checkErr` of a body that breaks off exits at once.
  abbrev pub answer_to : Request → Answer → GoError × Option Exit
  answer_to req (failed e) = (
    new_client_error [] e ((details_http_url, req.url) ∷ (details_http_method, req.method) ∷ []),
    none,
  )
  answer_to req (answered resp) =
      if not (resp.status_code == code_ok)
      then (error_of req resp (lib.json_reply (copy_body resp.body).0), none)
      else (
        nil,
        if c.verbose && not (is_nil (copy_body resp.body).1)
            then some (check_err (str "while reading response body") (copy_body resp.body).1)
            else none,
      )

  abbrev pub exchanged : Outgoing → W × Answer → W × (GoError × Option Exit)
  exchanged o (w, a) = (w, answer_to (named o) a)

  abbrev pub send_payload : Text → Result Bytes → W → W × (GoError × Option Exit)
  send_payload api (err e) w =
      (w, (new_client_error (str "while marshaling request payload: %w") e [], none))
  send_payload api (ok payload) w =
      let o : Outgoing = record {
        method = str "POST";
        url = str "http://" ++ (c.address ++ api);
        header = insert (str "Content-Type") content_type_json [];
        body = payload;
      } in
      if is_nil (lib.http.parse_error o.url)
      then exchanged o (lib.http.exchange o w)
      else (w, (new_client_error [] (lib.http.parse_error o.url) [], none))

  -- `sendRequest`
  unfoldable pub send_request : Text → V → W → W × (GoError × Option Exit)
  send_request api req = send_payload api (lib.json req)

  -- `checkErr(err, "during sendRequest()")`
  abbrev pub checked : W × (GoError × Option Exit) → W × Option Exit
  checked (w, (e, some x)) = (w, some x)
  checked (w, (e, none)) =
      (w, if is_nil e then none else some (check_err (str "during sendRequest()") e))

  -- The fields of a document.
  abbrev pub send_fields : Option Api → Option V → Step
  send_fields none resource w =
      (w, some (fail (str "expected 'api' field at '%d', but found none")))
  send_fields (some other) resource w =
      (w, some (fail (str "expected 'api' field to be of type string at '%d', but is '%v'")))
  send_fields (some (text api)) none w =
      (w, some (fail (str "expected 'resource' field at '%d', but found none")))
  send_fields (some (text api)) (some resource) w = checked (send_request api resource w)

  abbrev pub process_document : Result (Document V) → Step
  process_document (err e) w = (w, some (check_err (str "while parsing YAML at '%d'") e))
  process_document (ok d) w =
      if c.verbose && not (is_nil (lib.indent_error d))
      then (w, some (check_err (str "error converting YAML to JSON at '%d'") (lib.indent_error d)))
      else send_fields d.api d.resource w

  abbrev pub numbered : ℕ → W × Option Exit → W × Option Exit
  numbered idx (w, none) = (w, none)
  numbered idx (w, some x) = (w, some (in_document idx x))

  -- `process`
  unfoldable pub process : Text → ℕ → Step
  process doc idx w =
      if text_eq (trim_space doc) []
      then (w, none)
      else numbered idx (process_document (lib.yaml doc) w)

  -- Nothing follows an exit.
  abbrev pub unless_exit : Step → W × Option Exit → W × Option Exit
  unless_exit next (w, none) = next w
  unless_exit next (w, some x) = (w, some x)

  -- The loop of `main` over the lines, with the document so far, and what follows it.
  unfoldable pub process_lines : Step → Text → ℕ → List Text → Step
  process_lines after doc idx [] w = unless_exit after (process doc idx w)
  process_lines after doc idx (line ∷ lines) w =
      let next = unless_exit (process_lines after [] (idx + 1) lines) (process doc idx w) in
      let longer = process_lines after (doc ++ (line ++ str "\n")) idx lines w in
      if text_eq line (str "---") then next else longer

  -- `checkErr(scanner.Err(), ...)`
  abbrev pub scan_error : GoError → Bool → Step
  scan_error e too_long w =
      (w, if too_long then some (check_err (str "while scanning '%s'") e) else none)

  -- `main`, on the text of the file; `e` is the scanner's `ErrTooLong`.
  unfoldable pub run_main : GoError → Text → Step
  run_main e file = let s = scan [] file in process_lines (scan_error e s.too_long) [] 0 s.lines
