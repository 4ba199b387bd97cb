-- ===== src/Runs/Paced.antt =====
-- A service that asks for a pause, at a concrete input.
use duh_go.Prelude.{ℕ, [], ◌∷◌, str}
use duh_go.Errors.{GoError, nil, service, Details, Reply}
use duh_go.Errors.Chain.{Error, service_methods}
use duh_go.Frames.{Bytes, Result, ok}
use duh_go.Media.{Encoding}
use duh_go.Retry.{Outcome, returned}
use duh_go.Samples.{sample_go}

abbrev limit_details : Details
limit_details = (str "ratelimit-reset", str "7") ∷ []

-- A 429 that asks for seven seconds.
abbrev limited : GoError
limited = service (record { details = limit_details; code = str "429"; http_code = 429 }) nil

abbrev limited_error : Error
limited_error =
    service_methods (record { details = limit_details; code = str "429"; http_code = 429 }) nil

abbrev unmarshal_limited : Encoding → Bytes → Result Reply
unmarshal_limited enc bytes = ok (record { code = bytes; message = []; details = limit_details })

abbrev go_on : ℕ → Outcome ℕ
go_on now = returned now nil
