-- ===== src/Streaming/Delivery.antt =====
-- A complete stream, received: the client's side, and the two sides together.
use duh_go.Prelude.{ℕ, zero, suc, ◌+◌, ◌<◌, ◌^◌, ◌≡◌, refl, sym, ap, ◌∙◌, arith, ◌≢◌}
use duh_go.Prelude.{true, false, List, [], ◌∷◌, ◌++◌, Option, none, some, length, ℤ, pos, negsuc}
use duh_go.Prelude.{All, length-append, if◌then◌else◌, ◌==◌, map}
use mathlib.Core.Option
use duh_go.Errors.{nil, sentinel, eof, Go, Reply}
use duh_go.Frames.{Bytes, Result, ok, exceeds, flag_data, flag_final, flag_heartbeat}
use duh_go.Frames.Laws.{encode, length-encode, read_frame-encode}
use duh_go.Streaming.Wire.{Frame, encode_all}
use duh_go.Streaming.Writer.{marshal_final}
use duh_go.Streaming.Reader.{
  StreamReader, Received, recv_loop, dispatch, data_frame, final_frame, final_message, fail,
}
use duh_go.Streaming.Carried.{Carries, heartbeat, message, last}
use duh_go.Streaming.Receive.{recv_loop_ok, recv_live, recv_all, recv_all_step, recv_pending, keep}

pub exceeds_zero : (max : ℤ) → exceeds max 0 ≡ false
exceeds_zero (pos zero) = refl
exceeds_zero (pos (suc n)) = ground arith
exceeds_zero (negsuc n) = refl

-- The reader, with other bytes to come.
abbrev pub at : StreamReader → Bytes → StreamReader
at sr bytes = record sr { source = record { bytes = bytes; ending = sr.source.ending } }

-- What the codec and the limits must give for a message that is sent: the client decodes what the
-- server encoded, and the payload fits a frame and the client's limit.
pub record IsCodec {M : Type 0} (marshal : M → Result Bytes) (unmarshal : Bytes → Result M)
    (max : ℤ) (msg : M) : Type 0 where
  pub decodes : (payload : Bytes) → marshal msg ≡ ok payload → unmarshal payload ≡ ok msg
  pub small : (payload : Bytes) → marshal msg ≡ ok payload → length payload < 2 ^ 32
  pub fits : (payload : Bytes) → marshal msg ≡ ok payload → exceeds max (length payload) ≡ false

-- The same for a final message, if there is one.
abbrev pub IsFinalCodec :
    {M : Type 0} → (M → Result Bytes) → (Bytes → Result M) → ℤ → Option M → Type 0
IsFinalCodec {M} marshal unmarshal max final =
    (msg : M) → final ≡ some msg → IsCodec marshal unmarshal max msg

-- A final message has some bytes, which tell it from none.
abbrev pub HasBytes : {M : Type 0} → (M → Result Bytes) → Option M → Type 0
HasBytes {M} marshal final = (msg : M) → final ≡ some msg → marshal msg ≢ ok []

-- What the client is to receive.
abbrev pub received : {M : Type 0} → List M → Option M → List (Option M)
received msgs none = map some msgs
received msgs (some msg) = map some msgs ++ (some msg ∷ [])

module _ {M : Type 0} (marshal : M → Result Bytes) (unmarshal : Bytes → Result M)
    (unmarshal_reply : Bytes → Result Reply) ⦃go : Go⦄ (sr : StreamReader) where
  -- One frame of a stream, read in a round of the loop.
  pub next :
      (fuel flag : ℕ) (payload : Bytes) (fs : List Frame)
      → length payload < 2 ^ 32
      → exceeds sr.max_payload (length payload) ≡ false
      → recv_loop unmarshal unmarshal_reply (suc fuel) (at sr (encode_all ((flag, payload) ∷ fs)))
        ≡ (if flag == flag_heartbeat
            then recv_loop unmarshal unmarshal_reply fuel (at sr (encode_all fs))
            else some (dispatch unmarshal unmarshal_reply (at sr (encode_all fs)) flag payload))
  next fuel flag payload fs small fits =
      recv_loop_ok unmarshal unmarshal_reply fuel (at sr (encode_all ((flag, payload) ∷ fs))) _ flag
        payload
        (read_frame-encode sr.max_payload flag payload (encode_all fs) sr.source.ending small fits)

  dispatch_data :
      (msg : M) (payload : Bytes) (v : StreamReader)
      → IsCodec marshal unmarshal sr.max_payload msg
      → marshal msg ≡ ok payload
      → dispatch unmarshal unmarshal_reply v flag_data payload
        ≡ record { reader = v; msg = some msg; error = nil }
  unfolding dispatch data_frame
  dispatch_data msg payload v codec e =
      ap (data_frame unmarshal unmarshal_reply v) (codec.decodes payload e)

  -- `Recv` skips the heartbeats and decodes the next message.
  pub loop_message :
      {msg : M} {msgs : List M} {end_frames fs : List Frame} (fuel : ℕ)
      → IsCodec marshal unmarshal sr.max_payload msg
      → Carries marshal end_frames (msg ∷ msgs) fs
      → length (encode_all fs) < fuel
      → (gs : List Frame) × Carries marshal end_frames msgs gs
        × (length (encode_all gs) < length (encode_all fs))
        × (recv_loop unmarshal unmarshal_reply fuel (at sr (encode_all fs))
            ≡ some (record { reader = at sr (encode_all gs); msg = some msg; error = nil }))
  loop_message zero codec c h = absurd (omega arith)
  loop_message (suc fuel) codec (heartbeat {fs = fs} c) h =
      let size = length-append (encode flag_heartbeat []) (encode_all fs) in
      let (gs, rest, shorter, e) =
        loop_message fuel codec c (omega (arith, size, length-encode flag_heartbeat [])) in
      (
        gs,
        rest,
        omega (arith, size),
        next fuel flag_heartbeat [] fs (omega arith) (exceeds_zero sr.max_payload) ∙ e,
      )
  loop_message {msg} (suc fuel) codec (message {payload} {fs} m c) h = (
    fs,
    c,
    omega (
      arith,
      length-append (encode flag_data payload) (encode_all fs),
      length-encode flag_data payload,
    ),
    next fuel flag_data payload fs (codec.small payload m) (codec.fits payload m)
        ∙ ap some (dispatch_data msg payload _ codec m),
  )

  -- What `Recv` returns at the final frame.
  abbrev at_final : Option M → Received M
  at_final none = fail unmarshal unmarshal_reply (at sr []) (sentinel eof)
  at_final (some msg) = record {
    reader = record (at sr []) { has_pending = true };
    msg = some msg;
    error = nil;
  }

  dispatch_final :
      (final : Option M) (payload : Bytes)
      → IsFinalCodec marshal unmarshal sr.max_payload final
      → HasBytes marshal final
      → marshal_final marshal final ≡ ok payload
      → dispatch unmarshal unmarshal_reply (at sr []) flag_final payload ≡ at_final final
  unfolding dispatch final_frame final_message
  dispatch_final none [] codec has e = refl
  dispatch_final none (b ∷ payload) codec has e = cc
  dispatch_final (some msg) [] codec has e = absurd (has msg refl e)
  dispatch_final (some msg) (b ∷ payload) codec has e =
      ap (final_message unmarshal unmarshal_reply (at sr []))
        ((codec msg refl).decodes (b ∷ payload) e)

  small_final :
      (final : Option M) (payload : Bytes)
      → IsFinalCodec marshal unmarshal sr.max_payload final
      → marshal_final marshal final ≡ ok payload
      → (length payload < 2 ^ 32) × (exceeds sr.max_payload (length payload) ≡ false)
  small_final none [] codec e = (omega arith, exceeds_zero sr.max_payload)
  small_final none (b ∷ payload) codec e = cc
  small_final (some msg) payload codec e =
      ((codec msg refl).small payload e, (codec msg refl).fits payload e)

  -- `Recv` skips the heartbeats before the final frame, and takes it.
  loop_final :
      {final : Option M} {payload : Bytes} {fs : List Frame} (fuel : ℕ)
      → IsFinalCodec marshal unmarshal sr.max_payload final
      → marshal_final marshal final ≡ ok payload
      → Carries marshal ((flag_final, payload) ∷ []) [] fs
      → HasBytes marshal final
      → length (encode_all fs) < fuel
      → recv_loop unmarshal unmarshal_reply fuel (at sr (encode_all fs)) ≡ some (at_final final)
  loop_final zero codec m c has h = absurd (omega arith)
  loop_final (suc fuel) codec m (heartbeat {fs = fs} c) has h =
      next fuel flag_heartbeat [] fs (omega arith) (exceeds_zero sr.max_payload)
      ∙ loop_final fuel codec m c has (
          omega (
            arith,
            length-append (encode flag_heartbeat []) (encode_all fs),
            length-encode flag_heartbeat [],
          ))
  loop_final {final} {payload} (suc fuel) codec m last has h =
      next fuel flag_final payload [] (small_final final payload codec m).0
        (small_final final payload codec m).1
      ∙ ap some (dispatch_final final payload codec has m)

  after_final :
      (final : Option M) (fuel : ℕ)
      → keep unmarshal unmarshal_reply
          (recv_all unmarshal unmarshal_reply (suc fuel))
          (some (at_final final))
        ≡ some (received [] final, sentinel eof)
  after_final none fuel = refl
  after_final (some msg) fuel =
      ap (λ o. Option.map (λ t. (some msg ∷ t.0, t.1)) o)
        (recv_all_step unmarshal unmarshal_reply fuel _ _
          (recv_pending unmarshal unmarshal_reply (record (at sr []) { has_pending = true }) refl))

  received-cons :
      (msg : M) (msgs : List M) (final : Option M)
      → received (msg ∷ msgs) final ≡ some msg ∷ received msgs final
  received-cons msg msgs none = refl
  received-cons msg msgs (some m) = refl

  -- The client's loop over a complete stream.
  pub collect :
      (final : Option M) (payload : Bytes) (m : marshal_final marshal final ≡ ok payload)
      (msgs : List M) (fuel : ℕ) (fs : List Frame)
      → All (IsCodec marshal unmarshal sr.max_payload) msgs
      → IsFinalCodec marshal unmarshal sr.max_payload final
      → Carries marshal ((flag_final, payload) ∷ []) msgs fs
      → HasBytes marshal final
      → sr.done ≡ false
      → sr.has_pending ≡ false
      → length msgs + 1 < fuel
      → recv_all unmarshal unmarshal_reply fuel (at sr (encode_all fs))
        ≡ some (received msgs final, sentinel eof)
  collect final payload m msgs zero fs codecs codec c has d p h = absurd (omega arith)
  collect final payload m [] (suc zero) fs codecs codec c has d p h = absurd (omega arith)
  collect final payload m [] (suc (suc fuel)) fs codecs codec c has d p h =
      recv_all_step unmarshal unmarshal_reply (suc fuel) _ _ (
        recv_live unmarshal unmarshal_reply (at sr (encode_all fs)) d p
        ∙ loop_final (suc (length (encode_all fs))) codec m c has (omega arith))
      ∙ after_final final fuel
  collect final payload m (msg ∷ msgs) (suc fuel) fs (at_first, codecs) codec c has d p h =
      let (gs, rest, shorter, e) =
        loop_message (suc (length (encode_all fs))) at_first c (omega arith) in
      recv_all_step unmarshal unmarshal_reply fuel _ _
        (recv_live unmarshal unmarshal_reply (at sr (encode_all fs)) d p ∙ e)
      ∙ ap (Option.map (λ t. (some msg ∷ t.0, t.1)))
          (collect final payload m msgs fuel gs codecs codec rest has d p (omega arith))
      ∙ ap (λ l. some (l, sentinel eof)) (sym (received-cons msg msgs final))
