-- ===== src/Service/Total.antt =====
-- `Reply` of service.go calls itself when it cannot send what it is given; it comes to an end.
use duh_go.Prelude.{ℕ, suc, [], Option, none, some, Text, ◌≡◌, refl, sym, ap, ◌∙◌}
use mathlib.Core.Path.{subst}
use duh_go.Errors.{Go, Reply, GoError, error_text}
use duh_go.Errors.Codes.{code_internal_error, code_client_content_error}
use duh_go.Frames.{Bytes, Result, ok, err}
use duh_go.Media.{
  Encoding, json, negotiate, normalize_media_type, content_type_json, trim_suffix, is_any, to_lower,
  lower, trim_space, trim_left, trim_right, drop_space, is_space,
}
use duh_go.Prelude.{text_eq}
use duh_go.Service.{
  Message, reply_message, ResponseWriter, send_reply, reply, reply_calls, negotiated, sent,
  code_reply,
}

negotiate-json : ⦃go : Go⦄ → negotiate (normalize_media_type content_type_json) ≡ some json
unfolding negotiate normalize_media_type trim_suffix is_any to_lower lower trim_space trim_left
    trim_right drop_space is_space text_eq
negotiate-json = refl

module _ {M : Type 0} (marshal : Encoding → Message M → Result Bytes) ⦃go : Go⦄ where
  -- A reply has been sent.
  abbrev pub Sent : ResponseWriter → Option ResponseWriter → Type 0
  Sent w o =
      (enc : Encoding) × (code : ℕ) × (b : Bytes) × (o ≡ some (send_reply marshal enc code b w))

  -- `Reply` of a message that has an encoding.
  pub negotiated_lem :
      (again : Text → ℕ → Reply → Option ResponseWriter) (accept : Text) (code : ℕ)
      (msg : Message M) (w : ResponseWriter) (o : Option Encoding) (enc : Encoding) (b : Bytes)
      → o ≡ some enc
      → marshal enc msg ≡ ok b
      → negotiated marshal again accept code msg w o ≡ some (send_reply marshal enc code b w)
  negotiated_lem again accept code msg w o enc b n m =
      ap (negotiated marshal again accept code msg w) n
      ∙ ap (sent marshal (again accept) enc code w) m

module _ {M : Type 0} (marshal : Encoding → Message M → Result Bytes) ⦃go : Go⦄
    (reports : (enc : Encoding) (msg : Message M) (e : GoError)
      → marshal enc msg ≡ err e
      → (b : Bytes) × (marshal enc
            (reply_message (code_reply marshal code_internal_error [] (error_text e)))
          ≡ ok b)) where
  -- Two calls are enough for an Accept header that is understood.
  understood-Sent :
      (fuel : ℕ) (accept : Text) (code : ℕ) (msg : Message M) (w : ResponseWriter) (enc : Encoding)
      → negotiate (normalize_media_type accept) ≡ some enc
      → Sent marshal w (reply_calls marshal (suc (suc fuel)) accept code msg w)
  unfolding reply_calls
  understood-Sent fuel accept code msg w enc n =
      subst
        (λ o. Sent marshal w (
          negotiated marshal (λ a c r. reply_calls marshal (suc fuel) a c (reply_message r) w)
            accept code msg w o))
        (sym n) (sent_lem (marshal enc msg) refl)
    where
      again : ℕ → Reply → Option ResponseWriter
      again c r = reply_calls marshal (suc fuel) accept c (reply_message r) w

      sent_lem :
          (r : Result Bytes)
          → marshal enc msg ≡ r
          → Sent marshal w (sent marshal again enc code w r)
      sent_lem (ok b) h = (enc, code, b, refl)
      sent_lem (err e) h =
          let (b, m) = reports enc msg e h in
          (
            enc,
            code_internal_error,
            b,
            negotiated_lem marshal (λ a c r. reply_calls marshal fuel a c (reply_message r) w)
                accept code_internal_error
                (reply_message (code_reply marshal code_internal_error [] (error_text e))) w _ enc b
                n m,
          )

  -- `Reply` sends exactly one reply, whatever the Accept header and the message, with the three calls
  -- that it makes at most: it is enough that the text of an encoder's error can be encoded.
  pub reply_total :
      (accept : Text) (code : ℕ) (msg : Message M) (w : ResponseWriter)
      → Sent marshal w (reply marshal accept code msg w)
  unfolding reply reply_calls
  reply_total accept code msg w = by_accept (negotiate (normalize_media_type accept)) refl
    where
      by_accept :
          (o : Option Encoding)
          → negotiate (normalize_media_type accept) ≡ o
          → Sent marshal w (reply_calls marshal 3 accept code msg w)
      by_accept (some enc) n = understood-Sent 1 accept code msg w enc n
      by_accept none n =
          subst
            (λ o. Sent marshal w (
              negotiated marshal (λ a c r. reply_calls marshal 2 a c (reply_message r) w) accept
                code msg w o))
            (sym n)
            (understood-Sent 0 content_type_json code_client_content_error _ w json negotiate-json)
