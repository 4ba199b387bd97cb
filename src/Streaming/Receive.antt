-- ===== src/Streaming/Receive.antt =====
-- The client's side of a structured stream: `Recv` over the frames of a complete stream.
use duh_go.Prelude.{ℕ, zero, suc, ◌<◌, ◌≡◌, refl, ap, arith, inl, inr}
use duh_go.Prelude.{
  Bool, true, false, List, [], ◌∷◌, Option, none, some, length, length-append, ◌&&◌,
}
use duh_go.Prelude.{if◌then◌else◌, ◌==◌, Bool-cases, if_intro}
use mathlib.Core.Bool.{not}
use mathlib.Core.Option
use duh_go.Errors.{GoError, sentinel, eof, is_nil, Go, Reply}
use duh_go.Frames.{Bytes, Result, ok, err, Source, read_frame, flag_heartbeat}
use duh_go.Frames.Laws.{read_frame_inv}
use duh_go.Streaming.Reader.{StreamReader, Received, round, recv_loop, recv, dispatch, fail}

module _ {M : Type 0} (unmarshal : Bytes → Result M) (unmarshal_reply : Bytes → Result Reply)
    ⦃go : Go⦄ where
  -- A client's loop: it receives until an error, and keeps the messages. A `Recv` that returns no
  -- error has decoded a message.
  abbrev pub keep :
      (StreamReader → Option (List (Option M) × GoError))
      → Option (Received M)
      → Option (List (Option M) × GoError)
  keep again none = none
  keep again (some r) =
      let rest = again r.reader in
      if is_nil r.error then Option.map (λ t. (r.msg ∷ t.0, t.1)) rest else some ([], r.error)

  unfoldable pub recv_all : ℕ → StreamReader → Option (List (Option M) × GoError)
  recv_all zero sr = none
  recv_all (suc fuel) sr = keep (recv_all fuel) (recv unmarshal unmarshal_reply sr)

  pub recv_all_step :
      (fuel : ℕ) (sr : StreamReader) (o : Option (Received M))
      → recv unmarshal unmarshal_reply sr ≡ o
      → recv_all (suc fuel) sr ≡ keep (recv_all fuel) o
  unfolding recv_all
  recv_all_step fuel sr o e = ap (keep (recv_all fuel)) e

  pub recv_loop_ok :
      (fuel : ℕ) (sr : StreamReader) (s : Source) (flag : ℕ) (payload : Bytes)
      → read_frame sr.max_payload sr.source ≡ (s, ok (flag, payload))
      → recv_loop unmarshal unmarshal_reply (suc fuel) sr ≡ (
          if flag == flag_heartbeat
          then recv_loop unmarshal unmarshal_reply fuel (record sr { source = s })
          else some (dispatch unmarshal unmarshal_reply (record sr { source = s }) flag payload))
  unfolding recv_loop round
  recv_loop_ok fuel sr s flag payload e =
      ap (round unmarshal unmarshal_reply (recv_loop unmarshal unmarshal_reply fuel) sr) e

  round_total :
      (again : StreamReader → Option (Received M)) (sr : StreamReader)
      → ((s : Source)
          → length s.bytes < length sr.source.bytes
          → (r : Received M) × (again (record sr { source = s }) ≡ some r))
      → (x : Source × Result (ℕ × Bytes)) → read_frame sr.max_payload sr.source ≡ x
      → (r : Received M) × (round unmarshal unmarshal_reply again sr x ≡ some r)
  unfolding round
  round_total again sr ih (s, err e) q = (_, refl)
  round_total again sr ih (s, ok (flag, payload)) q =
      let inv = read_frame_inv sr.max_payload sr.source.bytes sr.source.ending s flag payload q in
      let shorter : length s.bytes < length sr.source.bytes =
        omega (arith, ap length inv.4, length-append payload s.bytes) in
      elim (Bool-cases (flag == flag_heartbeat)) [
        | inl beats ↦ rw beats (ih s shorter)
        | inr other ↦ rw other (_, refl)
      ]

  recv_loop_total :
      (fuel : ℕ) (sr : StreamReader)
      → length sr.source.bytes < fuel
      → (r : Received M) × (recv_loop unmarshal unmarshal_reply fuel sr ≡ some r)
  unfolding recv_loop
  recv_loop_total zero sr h = absurd (omega arith)
  recv_loop_total (suc fuel) sr h =
      round_total (recv_loop unmarshal unmarshal_reply fuel) sr
        (λ s shorter. recv_loop_total fuel (record sr { source = s }) (omega arith))
        (read_frame sr.max_payload sr.source) refl

  abbrev Returns : Option (Received M) → Type 0
  Returns o = (r : Received M) × (o ≡ some r)

  -- `Recv` returns on every input: its loop takes fewer rounds than there are bytes.
  pub recv_total :
      (sr : StreamReader) → (r : Received M) × (recv unmarshal unmarshal_reply sr ≡ some r)
  unfolding recv
  recv_total sr =
      if_intro Returns (sr.done && not sr.has_pending) (λ _. (_, refl))
        (λ _.
          if_intro Returns sr.has_pending (λ _. (_, refl))
            (λ _. recv_loop_total (suc (length sr.source.bytes)) sr (omega arith)))

  -- A reader that has met no end yet goes into the loop.
  pub recv_live :
      (sr : StreamReader)
      → sr.done ≡ false
      → sr.has_pending ≡ false
      → recv unmarshal unmarshal_reply sr
        ≡ recv_loop unmarshal unmarshal_reply (suc (length sr.source.bytes)) sr
  unfolding recv
  recv_live sr d p =
      if_intro (λ (o : Option (Received M)). o ≡ looped) (sr.done && not sr.has_pending)
        (λ t. let no : ⊥ = cc (ap (λ b. b && not sr.has_pending) d) in absurd no)
        (λ _.
          if_intro (λ (o : Option (Received M)). o ≡ looped) sr.has_pending
            (λ t. let no : ⊥ = cc in absurd no) (λ _. refl))
    where
      looped : Option (Received M)
      looped = recv_loop unmarshal unmarshal_reply (suc (length sr.source.bytes)) sr

  -- After a final message, EOF.
  pub recv_pending :
      (sr : StreamReader)
      → sr.has_pending ≡ true
      → recv unmarshal unmarshal_reply sr
        ≡ some (fail unmarshal unmarshal_reply (record sr { has_pending = false }) (sentinel eof))
  unfolding recv
  recv_pending sr p =
      if_intro (λ (o : Option (Received M)). o ≡ over) (sr.done && not sr.has_pending)
        (λ t. let no : ⊥ = cc (and_not sr.done, ap (λ b. sr.done && not b) p) in absurd no)
        (λ _.
          if_intro (λ (o : Option (Received M)). o ≡ over) sr.has_pending (λ _. refl)
            (λ f. let no : ⊥ = cc in absurd no))
    where
      over : Option (Received M)
      over =
          some (fail unmarshal unmarshal_reply (record sr { has_pending = false }) (sentinel eof))

      and_not : (b : Bool) → (b && false) ≡ false
      and_not true = refl
      and_not false = refl
