-- ===== src/Retry/Streamed.antt =====
-- From a handler of streaming.go that fails, by the error frame, to the policy of policies.go.
use duh_go.Prelude.{ℕ, ◌+◌, ◌≡◌, ap, Bool, false, List, none, some, length, map, All}
use duh_go.Errors.{GoError, is_nil, Go, Reply}
use duh_go.Errors.Chain.{as_error, client_methods}
use duh_go.Frames.{Bytes, Result, ok, Sink}
use duh_go.Streaming.Writer.{build_error_reply}
use duh_go.Streaming.Reader.{StreamReader}
use duh_go.Streaming.Server.{finished, Actor, run, start}
use duh_go.Streaming.Reach.{IsFresh}
use duh_go.Streaming.Carried.{IsMarshalled}
use duh_go.Streaming.Failing.{emit_failing}
use duh_go.Streaming.Failure.{frame_error, Decodes, recv_all-emit_failing}
use duh_go.Streaming.Receive.{recv_all}
use duh_go.Streaming.Delivery.{IsCodec}
use duh_go.Retry.{should_retry, code_retry, contains, is_infra, on_retryable, retryable_codes}

module _ {F : Type 0} (jitter factor : F) ⦃go : Go⦄ where
  should_retry-frame_error :
      (status_code : ℕ) (reply : Reply)
      → status_code ≡ 200
      → should_retry (frame_error status_code reply) (on_retryable jitter factor) ≡ false
  unfolding should_retry code_retry on_retryable is_infra as_error contains client_methods
  should_retry-frame_error status_code reply h = ap (contains retryable_codes) h

  -- A handler sends `msgs` and then returns an error, without `Close`, on a connection that does not
  -- break. Under any schedule of the heartbeat goroutine, once `HandleStream` has returned, the
  -- client's loop receives `msgs` in order and then an error of the client with what the Reply for
  -- the handler's error says. `OnRetryable` does not try that again, whatever the code in the Reply,
  -- as the error has the status code of the response, which is 200.
  pub emit_failing-should_retry :
      {M : Type 0} (marshal : M → Result Bytes) (unmarshal : Bytes → Result M)
      (marshal_reply : Reply → Result Bytes) (unmarshal_reply : Bytes → Result Reply)
      (msgs : List M) (failure : GoError) (payload : Bytes) (heartbeats : Bool) (w : Sink)
      (schedule : List Actor) (sr : StreamReader)
      → All (IsCodec marshal unmarshal sr.max_payload) msgs
      → Decodes unmarshal_reply sr.max_payload payload (build_error_reply failure)
      → is_nil failure ≡ false
      → marshal_reply (build_error_reply failure) ≡ ok payload
      → All (IsMarshalled marshal) msgs
      → IsFresh w
      → w.room ≡ none
      → sr.status_code ≡ 200
      → let s =
          run marshal marshal_reply schedule (start heartbeats w (emit_failing msgs failure)) in
        s.phase ≡ finished
        → sr.source.bytes ≡ s.sw.sink.written
        → sr.done ≡ false
        → sr.has_pending ≡ false
        → (recv_all unmarshal unmarshal_reply (length msgs + 1) sr
            ≡ some (map some msgs, frame_error sr.status_code (build_error_reply failure)))
          × (should_retry
                (frame_error sr.status_code (build_error_reply failure))
                (on_retryable jitter factor)
              ≡ false)
  emit_failing-should_retry marshal unmarshal marshal_reply unmarshal_reply msgs failure payload
        heartbeats w schedule sr codec decodes fails marshalled ms fresh unlimited two_hundred f
        wire d p =
      (
        recv_all-emit_failing marshal unmarshal marshal_reply unmarshal_reply msgs failure payload
            heartbeats w schedule sr codec decodes fails marshalled ms fresh unlimited f wire d p,
        should_retry-frame_error sr.status_code _ two_hundred,
      )
