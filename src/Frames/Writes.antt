-- ===== src/Frames/Writes.antt =====
-- `WriteFrame` on a sink that may break at any byte: its two writes are one write of the frame.
use duh_go.Prelude.{ℕ, suc, ◌+◌, ◌-◌, ◌≤◌, ◌≡◌, refl, sym, ap, ◌∙◌, arith}
use duh_go.Prelude.{true, false, [], ◌∷◌, ◌++◌, Option, none, some, ltb, length, take}
use duh_go.Prelude.{length-append, take-append_le, take-append_ge, take_all}
use duh_go.Prelude.{inl, inr, Bool-cases, if◌then◌else◌}
use mathlib.Core.List.{append_assoc, append-nil}
use duh_go.Errors.{GoError, nil, is_nil}
use duh_go.Frames.{Bytes, Sink, fits, clip, write, header, write_payload, write_frame}
use duh_go.Frames.Laws.{encode}

-- The sink reports its breaking.
abbrev pub IsFaulty : Sink → Type 0
IsFaulty w = is_nil w.fault ≡ false

clip-append :
    (room : Option ℕ) (n : ℕ) (p q : Bytes)
    → fits room (n + length p) ≡ true
    → p ++ clip room (n + length p) q ≡ clip room n (p ++ q)
clip-append none n p q h = refl
clip-append (some r) n p q h =
    rw (take-append_ge (r - n) p q (ground arith)) (ap (λ k. p ++ take k q) (omega arith))

clip_short :
    (room : Option ℕ) (n : ℕ) (p q : Bytes)
    → fits room (n + length p) ≡ false
    → clip room n p ≡ clip room n (p ++ q)
clip_short none n p q h = cc
clip_short (some r) n p q h = sym (take-append_le (r - n) p q (ground arith))

clip_all :
    (room : Option ℕ) (n : ℕ) (p : Bytes) → fits room (n + length p) ≡ true → clip room n p ≡ p
clip_all none n p h = refl
clip_all (some r) n p h = take_all (r - n) p (ground arith)

-- A write that the sink has room for appends all of its bytes.
pub write_fits :
    (p : Bytes) (w : Sink)
    → fits w.room (length w.written + length p) ≡ true
    → write p w ≡ (record w { written = w.written ++ p }, nil)
unfolding write
write_fits p w h = rw (clip_all w.room (length w.written) p h, h)

write-write :
    (p q : Bytes) (w : Sink)
    → fits w.room (length w.written + length p) ≡ true
    → write q (record w { written = w.written ++ p }) ≡ write (p ++ q) w
unfolding write
write-write p q w h =
    let all : (w.written ++ p) ++ clip w.room (length (w.written ++ p)) q
        ≡ w.written ++ clip w.room (length w.written) (p ++ q) =
      append_assoc w.written p _
      ∙ ap (λ k. w.written ++ (p ++ clip w.room k q)) (length-append w.written p)
      ∙ ap (λ t. w.written ++ t) (clip-append w.room (length w.written) p q h) in
    let size : length (w.written ++ p) + length q ≡ length w.written + length (p ++ q) =
      omega (arith, length-append w.written p, length-append p q) in
    λ i. (record w { written = all i }, if fits w.room (size i) then nil else w.fault)

fits_less : (room : Option ℕ) (n k : ℕ) → n ≤ k → fits room n ≡ false → fits room k ≡ false
fits_less none n k le h = cc
fits_less (some r) n k le h = ground arith

-- A write that breaks writes what there is room for, so more bytes after it change nothing.
write_breaks :
    (p q : Bytes) (w : Sink)
    → fits w.room (length w.written + length p) ≡ false
    → write p w ≡ write (p ++ q) w
unfolding write
write_breaks p q w h =
    let longer : fits w.room (length w.written + length (p ++ q)) ≡ false =
      fits_less w.room _ _ (omega (arith, length-append p q)) h in
    rw (h, longer, clip_short w.room (length w.written) p q h)

write_error :
    (p : Bytes) (w : Sink)
    → IsFaulty w
    → fits w.room (length w.written + length p) ≡ false
    → is_nil (write p w).1 ≡ false
unfolding write
write_error p w broken h = rw h broken

write_payload_error : (q : Bytes) (r : Sink × GoError) → is_nil r.1 ≡ false → write_payload q r ≡ r
unfolding write_payload
write_payload_error q (w, e) h = rw h

write_payload_fits :
    (p q : Bytes) (w : Sink)
    → fits w.room (length w.written + length p) ≡ true
    → write_payload q (record w { written = w.written ++ p }, nil) ≡ write (p ++ q) w
unfolding write_payload
write_payload_fits p [] w fit = sym (write_fits p w fit) ∙ ap (λ t. write t w) (sym (append-nil p))
write_payload_fits p (x ∷ q) w fit =
    let some_bytes : ltb 0 (suc (length q)) ≡ true = ground arith in
    rw some_bytes (write-write p (x ∷ q) w fit)

pub write_payload-write :
    (p q : Bytes) (w : Sink) → IsFaulty w → write_payload q (write p w) ≡ write (p ++ q) w
write_payload-write p q w broken = elim (Bool-cases (fits w.room (length w.written + length p))) [
  | inl fit ↦ rw (write_fits p w fit) (write_payload_fits p q w fit)
  | inr short ↦
      write_payload_error q (write p w) (write_error p w broken short) ∙ write_breaks p q w short
]

-- On a sink that may break after any number of bytes, `WriteFrame` does what a single write of the
-- encoded frame does: the same bytes reach the sink, and the same error is returned.
pub write_frame-write :
    (flag : ℕ) (payload : Bytes) (w : Sink)
    → IsFaulty w
    → write_frame flag payload w ≡ write (encode flag payload) w
unfolding write_frame
write_frame-write flag payload w broken = write_payload-write (header flag payload) payload w broken

-- If `WriteFrame` returns no error, the whole frame stands at the end of what was written.
pub write_frame_ok :
    (flag : ℕ) (payload : Bytes) (w : Sink) {w' : Sink}
    → IsFaulty w
    → write_frame flag payload w ≡ (w', nil)
    → w' ≡ record w { written = w.written ++ encode flag payload }
write_frame_ok flag payload w {w'} broken h =
    let e : write (encode flag payload) w ≡ (w', nil) =
      sym (write_frame-write flag payload w broken) ∙ h in
    elim (Bool-cases (fits w.room (length w.written + length (encode flag payload)))) [
      | inl fit ↦ cc (e, write_fits (encode flag payload) w fit)
      | inr short ↦ cc (write_error (encode flag payload) w broken short, ap (λ r. is_nil r.1) e)
    ]
