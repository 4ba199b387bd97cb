-- ===== src/Body/Over.antt =====
-- What a service makes of a body that is over the limit of its `LimitReader`.
use duh_go.Prelude.{
  ℕ, zero, suc, ◌+◌, ◌-◌, ◌≤◌, ◌<◌, ◌^◌, ◌≡◌, refl, sym, ap, ◌∙◌, arith, [], ◌++◌, none, some,
  if◌then◌else◌, if_intro, ltb, leb, length, take, drop, ℤ, pos, str, take-append_ge, length-drop,
  length-take, length-append, take-append-drop,
}
use mathlib.Core.List.{append_assoc, append-nil}
use duh_go.Errors.{
  Details, index, nil, data_limit, Go, new_service_error, limit_message, code_bad_request,
}
use duh_go.Errors.Chain.{as_error, data_limit_methods}
use duh_go.Frames.{Bytes, Result, err}
use duh_go.Media.{Encoding}
use duh_go.Body.{
  Body, ended, last, chunk, Read, read_body, limited, limit_read, copied, copy_loop, reads,
  copy_request,
}
use duh_go.Body.Limits.{content, limit_read_lem, copy_request_limited}
use duh_go.Service.Requests.{read_request, received, read_message}

-- The first bytes of a text that is behind a buffer, in two parts.
take_append :
    (k m : ℕ) (buffer b rest : Bytes)
    → length (take k b) ≤ m
    → (buffer ++ take k b) ++ take (m - length (take k b)) (drop k b ++ rest)
      ≡ buffer ++ take m (b ++ rest)
take_append k m buffer b rest h =
    append_assoc buffer (take k b) (take (m - length (take k b)) (drop k b ++ rest))
    ∙ ap (λ t. buffer ++ t)
        (sym (take-append_ge m (take k b) (drop k b ++ rest) h)
          ∙ ap (take m) (
              sym (append_assoc (take k b) (drop k b) rest)
              ∙ ap (λ t. t ++ rest) (take-append-drop k b)))

module _ (free : ℕ → ℕ) (roomy : (n : ℕ) → 1 ≤ free n) where
  -- The copy of a body that is longer than what remains has what remains, and the limit's error.
  abbrev Cuts : ℕ → Type 0
  Cuts fuel =
      (body : Body) (m : ℕ) (max : ℤ) (buffer : Bytes)
      → reads body ≤ fuel
      → m < length (content body)
      → copy_loop limit_read free fuel (record { r = body; remain = pos m; max = max }) buffer
        ≡ some (buffer ++ take m (content body), data_limit max)

  copied-Cuts :
      (fuel : ℕ)
      → Cuts fuel
      → (body : Body) (m : ℕ) (max : ℤ) (buffer : Bytes) (k : ℕ) → reads body ≤ suc fuel
      → m < length (content body)
      → 1 ≤ k
      → k ≤ m
      → copied limit_read free
          (copy_loop limit_read free fuel)
          buffer
          (limited (record { r = body; remain = pos m; max = max }) (read_body k body))
        ≡ some (buffer ++ take m (content body), data_limit max)
  unfolding copied read_body content reads
  copied-Cuts fuel again (ended e) m max buffer k f c p q = absurd (omega arith)
  copied-Cuts fuel again (last b e) m max buffer k f c p q =
      if_intro
        (λ (got : Read Body).
          copied limit_read free (copy_loop limit_read free fuel) buffer
            (limited (record { r = last b e; remain = pos m; max = max }) got)
          ≡ some (buffer ++ take m b, data_limit max))
        (leb (length b) k) (λ h. let no : ⊥ = ground arith in absurd no)
        (λ h.
          again (last (drop k b) e) (m - length (take k b)) max (buffer ++ take k b)
            (ground (arith, length-drop k b)) (ground (arith, length-drop k b, length-take k b))
          ∙ ap (λ t. some (t, data_limit max))
              (ap (λ t. (buffer ++ take k b) ++ take (m - length (take k b)) t)
                  (sym (append-nil (drop k b)))
                ∙ (take_append k m buffer b [] (ground (arith, length-take k b))
                    ∙ ap (λ t. buffer ++ take m t) (append-nil b))))
  copied-Cuts fuel again (chunk b rest) m max buffer k f c p q =
      if_intro
        (λ (got : Read Body).
          copied limit_read free (copy_loop limit_read free fuel) buffer
            (limited (record { r = chunk b rest; remain = pos m; max = max }) got)
          ≡ some (buffer ++ take m (b ++ content rest), data_limit max))
        (leb (length b) k)
        (λ h.
          again rest (m - length b) max (buffer ++ b) (omega arith)
            (ground (arith, length-append b (content rest)))
          ∙ ap (λ t. some (t, data_limit max))
              (append_assoc buffer b (take (m - length b) (content rest))
                ∙ ap (λ t. buffer ++ t) (sym (take-append_ge m b (content rest) (ground arith)))))
        (λ h.
          again (chunk (drop k b) rest) (m - length (take k b)) max (buffer ++ take k b)
            (ground (arith, length-drop k b))
            (ground (
              arith,
              length-drop k b,
              length-take k b,
              length-append b (content rest),
              length-append (drop k b) (content rest),
            ))
          ∙ ap (λ t. some (t, data_limit max))
              (take_append k m buffer b (content rest) (ground (arith, length-take k b))))

  cuts : (fuel : ℕ) → Cuts fuel
  unfolding copy_loop copied limit_read reads
  cuts zero (ended e) m max buffer f c = absurd (omega arith)
  cuts zero (last b e) m max buffer f c = absurd (omega arith)
  cuts zero (chunk b rest) m max buffer f c = absurd (omega arith)
  cuts (suc fuel) body zero max buffer f c = refl
  cuts (suc fuel) body (suc m) max buffer f c =
      ap (copied limit_read free (copy_loop limit_read free fuel) buffer)
        (limit_read_lem (free (length buffer)) (suc m) max body (omega arith))
      ∙ copied-Cuts fuel (cuts fuel) body (suc m) max buffer
          (if ltb (suc m) (free (length buffer)) then suc m else free (length buffer)) f c
          (if_intro (λ x. 1 ≤ x) (ltb (suc m) (free (length buffer))) (λ _. omega arith)
            (λ _. roomy (length buffer)))
          (if_intro (λ x. x ≤ suc m) (ltb (suc m) (free (length buffer))) (λ _. omega arith)
            (λ h. ground arith))

  copy_request_over :
      (limit : ℕ) (body : Body)
      → 1 ≤ limit
      → limit + 1 < 2 ^ 63
      → limit + 1 < length (content body)
      → copy_request free (pos limit) body
        ≡ some (take (limit + 1) (content body), data_limit (pos limit))
  copy_request_over limit body l w c =
      copy_request_limited free limit body l w
      ∙ cuts (suc (reads body)) body (limit + 1) (pos limit) [] (omega arith) c

  -- Of a body that is more than one byte over its limit, `ReadRequest` decodes nothing, whatever its
  -- reads give: it returns a service error with the code 400 and a message that names the limit.
  pub read_request_over :
      {M : Type 0} (unmarshal : Encoding → Bytes → Result M) ⦃go : Go⦄ (header : Details)
      (limit : ℕ) (body : Body)
      → 1 ≤ limit
      → limit + 1 < 2 ^ 63
      → limit + 1 < length (content body)
      → read_request unmarshal free header body (pos limit)
        ≡ some (
            err (
              new_service_error code_bad_request
                (str "request body " ++ limit_message (pos limit))
                nil
                []))
  unfolding read_request received as_error data_limit_methods
  read_request_over unmarshal header limit body l w c =
      ap
        (λ o. elim o [
          | none ↦ none
          | some c ↦ some (read_message unmarshal (index (str "Content-Type") header) (received c))
        ])
        (copy_request_over limit body l w c)
