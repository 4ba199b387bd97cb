-- ===== src/Service/ByteStream.antt =====
-- `HandleBytes` of service.go, and its `bytesWriter`.
use duh_go.Prelude.{ℕ, Bool, true, false, Option, none, some, Text, str, ◌≡◌, refl, ◌⊎◌, inl, inr}
use duh_go.Prelude.{if◌then◌else◌, if_intro, ◌&&◌}
use duh_go.Errors.{Details, GoError, is_nil, Go, code_ok}
use duh_go.Frames.{Bytes, Result, Sink, flush}
use duh_go.Media.{Encoding, content_octet_stream}
use duh_go.Service.{
  Message, ResponseWriter, set_header, write_header, write_body, set_service_headers, commit,
  reply_error,
}

-- A handler, by what it does with its `BytesWriter`.
pub data BytesHandler : Type 0 where
  return : GoError → BytesHandler
  set : Text → Text → BytesHandler → BytesHandler
  write_bytes : Bytes → (GoError → BytesHandler) → BytesHandler

pub record BytesWriter : Type 0 where
  pub w : ResponseWriter
  pub wrote : Bool

-- `Flush`, where the write before it has not failed and the writer can.
abbrev pub flushed : ResponseWriter × GoError → ResponseWriter × GoError
flushed (w, e) = ((if is_nil e && w.can_flush then record w { sink = flush w.sink } else w), e)

-- The first write commits the status 200.
unfoldable pub begun : BytesWriter → ResponseWriter
begun b = if b.wrote then b.w else write_header code_ok b.w

-- `(*bytesWriter).Write`
unfoldable pub put : Bytes → BytesWriter → BytesWriter × GoError
put p b = let r = flushed (write_body p (begun b)) in (record { w = r.0; wrote = true }, r.1)

unfoldable pub run_handler : BytesHandler → BytesWriter → BytesWriter × GoError
run_handler (return e) b = (b, e)
run_handler (set k v handler) b = run_handler handler (record b { w = set_header k v b.w })
run_handler (write_bytes p handler) b = run_handler (handler (put p b).1) (put p b).0

module _ {M : Type 0} (marshal : Encoding → Message M → Result Bytes) ⦃go : Go⦄ where
  unfoldable pub end_bytes : Text → BytesWriter × GoError → Option ResponseWriter
  end_bytes accept (b, e) =
      if is_nil e then some b.w else if b.wrote then some b.w else reply_error marshal accept e b.w

  abbrev pub seeded : ResponseWriter → BytesWriter
  seeded w = record {
    w = set_service_headers (set_header (str "Content-Type") content_octet_stream w);
    wrote = false;
  }

  -- `HandleBytes`
  unfoldable pub handle_bytes : Text → BytesHandler → ResponseWriter → Option ResponseWriter
  handle_bytes accept handler w = end_bytes accept (run_handler handler (seeded w))

-- The status 200 has been committed.
abbrev pub IsOk : ResponseWriter → Type 0
IsOk w = (h : Details) × (w.committed ≡ some (code_ok, h))

-- Nothing has been sent since `sink`.
abbrev pub IsUntouched : Sink → ResponseWriter → Type 0
IsUntouched sink w = (w.committed ≡ none) × (w.sink ≡ sink)

-- The `wrote` flag tells which.
abbrev pub Tells : Sink → BytesWriter → Type 0
Tells sink b = ((b.wrote ≡ true) × IsOk b.w) ⊎ ((b.wrote ≡ false) × IsUntouched sink b.w)

commit-ok :
    (h : Details) (c : Option (ℕ × Details))
    → ((h' : Details) × (c ≡ some (code_ok, h'))) ⊎ (c ≡ none)
    → (h' : Details) × (commit code_ok h c ≡ some (code_ok, h'))
commit-ok h none k = (h, refl)
commit-ok h (some c) (inl k) = k
commit-ok h (some c) (inr k) = let no : ⊥ = cc in absurd no

write_header-IsOk :
    (w : ResponseWriter) → IsOk w ⊎ (w.committed ≡ none) → IsOk (write_header code_ok w)
unfolding write_header
write_header-IsOk w k = commit-ok w.header w.committed k

write_body-IsOk : (p : Bytes) (w : ResponseWriter) → IsOk w → IsOk (write_body p w).0
unfolding write_body
write_body-IsOk p w k = write_header-IsOk w (inl k)

flushed-IsOk : (r : ResponseWriter × GoError) → IsOk r.0 → IsOk (flushed r).0
flushed-IsOk (w, e) k = if_intro IsOk (is_nil e && w.can_flush) (λ _. k) (λ _. k)

begun-IsOk : (sink : Sink) (b : BytesWriter) → Tells sink b → IsOk (begun b)
unfolding begun
begun-IsOk sink b (inl k) = if_intro IsOk b.wrote (λ _. k.1) (λ h. let no : ⊥ = cc in absurd no)
begun-IsOk sink b (inr k) =
    if_intro IsOk b.wrote (λ h. let no : ⊥ = cc in absurd no)
      (λ _. write_header-IsOk b.w (inr k.1.0))

put-IsOk : (sink : Sink) (p : Bytes) (b : BytesWriter) → Tells sink b → IsOk (put p b).0.w
unfolding put
put-IsOk sink p b t =
    flushed-IsOk (write_body p (begun b)) (write_body-IsOk p (begun b) (begun-IsOk sink b t))

set-Tells :
    (sink : Sink) (k v : Text) (b : BytesWriter)
    → Tells sink b
    → Tells sink (record b { w = set_header k v b.w })
set-Tells sink k v b (inl t) = inl t
set-Tells sink k v b (inr t) = inr t

put_wrote : (p : Bytes) (b : BytesWriter) → (put p b).0.wrote ≡ true
unfolding put
put_wrote p b = refl

run_handler-Tells :
    (sink : Sink) (handler : BytesHandler) (b : BytesWriter)
    → Tells sink b
    → Tells sink (run_handler handler b).0
unfolding run_handler
run_handler-Tells sink (return e) b t = t
run_handler-Tells sink (set k v handler) b t =
    run_handler-Tells sink handler _ (set-Tells sink k v b t)
run_handler-Tells sink (write_bytes p handler) b t =
    run_handler-Tells sink (handler (put p b).1) (put p b).0
      (inl (put_wrote p b, put-IsOk sink p b t))

module _ {M : Type 0} (marshal : Encoding → Message M → Result Bytes) ⦃go : Go⦄ where
  -- How `HandleBytes` ends. Either the status 200 has been committed and the handler's bytes are the
  -- response, or nothing has been sent, and then an error is replied in the standard form.
  abbrev pub Ends : Text → ResponseWriter → Option ResponseWriter → BytesWriter × GoError → Type 0
  Ends accept w o (b, e) =
      ((o ≡ some b.w) × (IsOk b.w ⊎ ((is_nil e ≡ true) × IsUntouched w.sink b.w)))
      ⊎ ((o ≡ reply_error marshal accept e b.w) × (is_nil e ≡ false) × IsUntouched w.sink b.w)

  end_bytes-Ends :
      (accept : Text) (w : ResponseWriter) (b : BytesWriter) (e : GoError)
      → Tells w.sink b
      → Ends accept w (end_bytes marshal accept (b, e)) (b, e)
  unfolding end_bytes
  end_bytes-Ends accept w b e t =
      if_intro (λ o. Ends accept w o (b, e)) (is_nil e) (λ h. inl (refl, is_done t h))
        (λ h.
          if_intro (λ o. Ends accept w o (b, e)) b.wrote (λ k. inl (refl, was_ok t k))
            (λ k. inr (refl, h, was_untouched t k)))
    where
      is_done :
          Tells w.sink b → is_nil e ≡ true → IsOk b.w ⊎ ((is_nil e ≡ true) × IsUntouched w.sink b.w)
      is_done (inl k) h = inl k.1
      is_done (inr k) h = inr (h, k.1)

      was_ok :
          Tells w.sink b → b.wrote ≡ true → IsOk b.w ⊎ ((is_nil e ≡ true) × IsUntouched w.sink b.w)
      was_ok (inl k) h = inl k.1
      was_ok (inr k) h = let no : ⊥ = cc in absurd no

      was_untouched : Tells w.sink b → b.wrote ≡ false → IsUntouched w.sink b.w
      was_untouched (inl k) h = let no : ⊥ = cc in absurd no
      was_untouched (inr k) h = k.1

  -- Whatever a handler sets, writes and returns, and wherever the connection breaks: if `HandleBytes`
  -- begins with an unsent response, it either commits the status 200 and leaves what the handler
  -- wrote, or has sent nothing when the handler returns, and replies with the error if there is one.
  pub handle_bytes-Ends :
      (accept : Text) (handler : BytesHandler) (w : ResponseWriter)
      → w.committed ≡ none
      → Ends accept w
          (handle_bytes marshal accept handler w)
          (run_handler handler (seeded marshal w))
  unfolding handle_bytes set_service_headers
  handle_bytes-Ends accept handler w h =
      end_bytes-Ends accept w (run_handler handler (seeded marshal w)).0
        (run_handler handler (seeded marshal w)).1
        (run_handler-Tells w.sink handler (seeded marshal w) (inr (refl, (h, refl))))
