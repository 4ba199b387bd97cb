-- ===== src/Streaming/Failure.antt =====
-- A handler's error, through a stream, to the client's loop and to its retry policy.
use duh_go.Prelude.{ℕ, zero, suc, ◌+◌, ◌<◌, ◌^◌, ◌≡◌, ap, ◌∙◌, arith, Bool, false}
use duh_go.Prelude.{List, [], ◌∷◌, none, some, length, length-append, map, All, ℤ}
use mathlib.Core.Option
use duh_go.Errors.{GoError, nil, client, is_nil, Go, Reply}
use duh_go.Frames.{Bytes, Result, ok, Sink, exceeds, flag_error, flag_heartbeat}
use duh_go.Frames.Laws.{encode, length-encode}
use duh_go.Streaming.Wire.{Frame, encode_all}
use duh_go.Streaming.Writer.{build_error_reply}
use duh_go.Streaming.Reader.{StreamReader, recv_loop, dispatch, error_frame, fail}
use duh_go.Streaming.Server.{finished, Actor, run, start}
use duh_go.Streaming.Reach.{IsFresh}
use duh_go.Streaming.Carried.{Carries, heartbeat, last, IsMarshalled}
use duh_go.Streaming.Failing.{emit_failing, emit_failing-Carries}
use duh_go.Streaming.Receive.{recv_live, recv_all, recv_all_step}
use duh_go.Streaming.Delivery.{IsCodec, at, next, loop_message, exceeds_zero}

-- The client's error for a Reply in an error frame.
abbrev pub frame_error : ℕ → Reply → GoError
frame_error status_code reply =
    client
      (record {
        code = reply.code;
        http_code = status_code;
        msg = reply.message;
        details = reply.details;
        is_infra_error = false;
      })
      nil

-- The client decodes the Reply, which fits a frame and the client's limit.
pub record Decodes (unmarshal_reply : Bytes → Result Reply) (max : ℤ) (payload : Bytes)
    (reply : Reply) : Type 0 where
  pub decodes : unmarshal_reply payload ≡ ok reply
  pub small : length payload < 2 ^ 32
  pub fits : exceeds max (length payload) ≡ false

module _ {M : Type 0} (marshal : M → Result Bytes) (unmarshal : Bytes → Result M)
    (unmarshal_reply : Bytes → Result Reply) ⦃go : Go⦄ (sr : StreamReader) (payload : Bytes)
    (reply : Reply) (decodes : Decodes unmarshal_reply sr.max_payload payload reply) where
  dispatch_error :
      dispatch unmarshal unmarshal_reply (at sr []) flag_error payload
      ≡ fail unmarshal unmarshal_reply (at sr []) (frame_error sr.status_code reply)
  unfolding dispatch error_frame
  dispatch_error = ap (error_frame unmarshal unmarshal_reply (at sr [])) decodes.decodes

  -- `Recv` skips the heartbeats before the error frame, and returns its error.
  loop_error :
      {fs : List Frame} (fuel : ℕ)
      → Carries marshal ((flag_error, payload) ∷ []) [] fs
      → length (encode_all fs) < fuel
      → recv_loop unmarshal unmarshal_reply fuel (at sr (encode_all fs))
        ≡ some (fail unmarshal unmarshal_reply (at sr []) (frame_error sr.status_code reply))
  loop_error zero c h = absurd (omega arith)
  loop_error (suc fuel) (heartbeat {fs = fs} c) h =
      next marshal unmarshal unmarshal_reply sr fuel flag_heartbeat [] fs (omega arith)
        (exceeds_zero sr.max_payload)
      ∙ loop_error fuel c (
          omega (
            arith,
            length-append (encode flag_heartbeat []) (encode_all fs),
            length-encode flag_heartbeat [],
          ))
  loop_error (suc fuel) last h =
      next marshal unmarshal unmarshal_reply sr fuel flag_error payload [] decodes.small
        decodes.fits
      ∙ ap some dispatch_error

  -- The client's loop over a stream that fails.
  pub collect_failed :
      (msgs : List M) (fuel : ℕ) (fs : List Frame)
      → All (IsCodec marshal unmarshal sr.max_payload) msgs
      → Carries marshal ((flag_error, payload) ∷ []) msgs fs
      → sr.done ≡ false
      → sr.has_pending ≡ false
      → length msgs < fuel
      → recv_all unmarshal unmarshal_reply fuel (at sr (encode_all fs))
        ≡ some (map some msgs, frame_error sr.status_code reply)
  collect_failed msgs zero fs codecs c d p h = absurd (omega arith)
  collect_failed [] (suc fuel) fs codecs c d p h =
      recv_all_step unmarshal unmarshal_reply fuel _ _ (
        recv_live unmarshal unmarshal_reply (at sr (encode_all fs)) d p
        ∙ loop_error (suc (length (encode_all fs))) c (omega arith))
  collect_failed (msg ∷ msgs) (suc fuel) fs (codec, codecs) c d p h =
      let (gs, rest, shorter, e) =
        loop_message marshal unmarshal unmarshal_reply sr (suc (length (encode_all fs))) codec c
          (omega arith) in
      recv_all_step unmarshal unmarshal_reply fuel _ _
        (recv_live unmarshal unmarshal_reply (at sr (encode_all fs)) d p ∙ e)
      ∙ ap (Option.map (λ t. (some msg ∷ t.0, t.1)))
          (collect_failed msgs fuel gs codecs rest d p (omega arith))

-- A handler sends `msgs` and then returns an error, without `Close`, on a connection that does not
-- break. Under any schedule of the heartbeat goroutine, once `HandleStream` has returned, the
-- client's loop receives `msgs` in order and then an error of the client with what the Reply for
-- the handler's error says.
pub recv_all-emit_failing :
    {M : Type 0} (marshal : M → Result Bytes) (unmarshal : Bytes → Result M)
    (marshal_reply : Reply → Result Bytes) (unmarshal_reply : Bytes → Result Reply) ⦃go : Go⦄
    (msgs : List M) (failure : GoError) (payload : Bytes) (heartbeats : Bool) (w : Sink)
    (schedule : List Actor) (sr : StreamReader)
    → All (IsCodec marshal unmarshal sr.max_payload) msgs
    → Decodes unmarshal_reply sr.max_payload payload (build_error_reply failure)
    → is_nil failure ≡ false
    → marshal_reply (build_error_reply failure) ≡ ok payload
    → All (IsMarshalled marshal) msgs
    → IsFresh w
    → w.room ≡ none
    → let s = run marshal marshal_reply schedule (start heartbeats w (emit_failing msgs failure)) in
      s.phase ≡ finished
      → sr.source.bytes ≡ s.sw.sink.written
      → sr.done ≡ false
      → sr.has_pending ≡ false
      → recv_all unmarshal unmarshal_reply (length msgs + 1) sr
        ≡ some (map some msgs, frame_error sr.status_code (build_error_reply failure))
recv_all-emit_failing marshal unmarshal marshal_reply unmarshal_reply msgs failure payload
      heartbeats w schedule sr codecs decodes fails marshalled ms fresh unlimited f wire d p =
    let (fs, bytes, c) =
      emit_failing-Carries marshal marshal_reply msgs failure payload fails marshalled heartbeats w
        schedule fresh unlimited ms f in
    ap (λ b. recv_all unmarshal unmarshal_reply (length msgs + 1) (at sr b)) (wire ∙ bytes)
    ∙ collect_failed marshal unmarshal unmarshal_reply sr payload _ decodes msgs (length msgs + 1)
        fs codecs c d p (omega arith)
