-- ===== src/Frames/Laws.antt =====
-- The frame format of stream/stream.go: what a writer puts on the wire, and what a reader makes of it.
use duh_go.Prelude.{ℕ, zero, suc, ◌+◌, ◌/◌, ◌%◌, ◌^◌, ◌≤◌, ◌<◌, ◌≡◌, refl, sym, ap, ◌∙◌, arith}
use duh_go.Prelude.{true, false, [], ◌∷◌, ◌++◌, leb, length, take, drop}
use duh_go.Prelude.{
  length-append, length-take, take-append-drop, take_all, drop_all, take-append_le, drop-append_le,
  ℤ, All,
}
use duh_go.Errors.{GoError, sentinel, eof, unexpected_eof}
use duh_go.Frames.{
  Bytes, ok, err, put_uint32, uint32, header, Source, read_full, exceeds, too_large, frame_of,
  read_payload, after_header, read_frame,
}

-- A frame as it should stand on the wire.
abbrev pub encode : ℕ → Bytes → Bytes
encode flag payload = header flag payload ++ payload

pub length-header : (flag : ℕ) (payload : Bytes) → length (header flag payload) ≡ 5
unfolding header put_uint32
length-header flag payload = refl

pub length-encode : (flag : ℕ) (payload : Bytes) → length (encode flag payload) ≡ 5 + length payload
length-encode flag payload =
    length-append (header flag payload) payload
    ∙ ap (λ n. n + length payload) (length-header flag payload)

-- The four bytes of a length below 2 ^ 32 give it back.
pub uint32-put_uint32 :
    (n : ℕ)
    → n < 2 ^ 32
    → uint32 (n / 2 ^ 24 % 256) (n / 2 ^ 16 % 256) (n / 2 ^ 8 % 256) (n % 256) ≡ n
uint32-put_uint32 n h = omega arith

-- Reading after a header whose length field is `n`, where `n` bytes are there.
pub read_payload_enough :
    (max : ℤ) (flag n : ℕ) (s : Source)
    → exceeds max n ≡ false
    → n ≤ length s.bytes
    → read_payload max flag n s ≡ (record s { bytes = drop n s.bytes }, ok (flag, take n s.bytes))
unfolding read_payload read_full frame_of
read_payload_enough max flag zero s fit h = rw fit
read_payload_enough max flag (suc n) s fit h = rw fit (ground arith)

-- `ReadFrame` on a source that holds a whole header.
pub read_frame-header :
    (max : ℤ) (flag a b c d : ℕ) (rest : Bytes) (e : GoError)
    → read_frame max (record { bytes = flag ∷ a ∷ b ∷ c ∷ d ∷ rest; ending = e })
      ≡ read_payload max flag (uint32 a b c d) (record { bytes = rest; ending = e })
unfolding read_frame read_full after_header
read_frame-header max flag a b c d rest e =
    let enough : leb 5 (suc (suc (suc (suc (suc (length rest)))))) ≡ true = ground arith in
    rw enough

-- What `ReadFrame` makes of any frame on the wire within the limit, in front of any other bytes: the
-- length field keeps the payload's length modulo 2 ^ 32 only, and the bytes beyond it stay.
pub read_frame-encode_wraps :
    (max : ℤ) (flag : ℕ) (payload rest : Bytes) (e : GoError)
    → exceeds max (length payload % 2 ^ 32) ≡ false
    → read_frame max (record { bytes = encode flag payload ++ rest; ending = e }) ≡ (
      record { bytes = drop (length payload % 2 ^ 32) payload ++ rest; ending = e },
      ok (flag, take (length payload % 2 ^ 32) payload),
    )
unfolding header put_uint32
read_frame-encode_wraps max flag payload rest e fit =
    let n = length payload % 2 ^ 32 in
    let small : n ≤ length payload = omega arith in
    read_frame-header max flag _ _ _ _ (payload ++ rest) e
    ∙ ap (λ k. read_payload max flag k (record { bytes = payload ++ rest; ending = e }))
        (uint32-put_uint32 n (omega arith))
    ∙ read_payload_enough max flag n _ fit (omega (arith, length-append payload rest))
    ∙ rw (take-append_le n payload rest small, drop-append_le n payload rest small)

-- A frame that `WriteFrame` wrote is read back, and what follows it is left, whatever it is.
pub read_frame-encode :
    (max : ℤ) (flag : ℕ) (payload rest : Bytes) (e : GoError)
    → length payload < 2 ^ 32
    → exceeds max (length payload) ≡ false
    → read_frame max (record { bytes = encode flag payload ++ rest; ending = e })
      ≡ (record { bytes = rest; ending = e }, ok (flag, payload))
read_frame-encode max flag payload rest e small fit =
    let same : length payload % 2 ^ 32 ≡ length payload = omega arith in
    rw
      (
        same,
        take_all (length payload) payload (omega arith),
        drop_all (length payload) payload (omega arith),
      )
      at (read_frame-encode_wraps max flag payload rest e (rw same fit))

abbrev pub IsByte : ℕ → Type 0
IsByte b = b < 256

read_payload_inv :
    (max : ℤ) (flag n : ℕ) (s s' : Source) (flag' : ℕ) (payload : Bytes)
    → read_payload max flag n s ≡ (s', ok (flag', payload))
    → (flag' ≡ flag)
      × (length payload ≡ n)
      × (exceeds max n ≡ false)
      × (s.bytes ≡ payload ++ s'.bytes)
      × (s'.ending ≡ s.ending)
unfolding read_payload read_full frame_of
read_payload_inv max flag n s s' flag' payload h =
    ground (arith, take-append-drop n s.bytes, length-take n s.bytes)

pub read_frame_inv :
    (max : ℤ) (bytes : Bytes) (e : GoError) (s' : Source) (flag : ℕ) (payload : Bytes)
    → read_frame max (record { bytes = bytes; ending = e }) ≡ (s', ok (flag, payload))
    → (a : ℕ) × (b : ℕ) × (c : ℕ) × (d : ℕ) × (bytes ≡ flag ∷ a ∷ b ∷ c ∷ d ∷ (payload ++ s'.bytes))
      × (uint32 a b c d ≡ length payload)
      × (exceeds max (length payload) ≡ false)
      × (s'.ending ≡ e)
unfolding read_frame read_full after_header
read_frame_inv max (f ∷ a ∷ b ∷ c ∷ d ∷ rest) e s' flag payload h =
    let inv =
      read_payload_inv max f (uint32 a b c d) (record { bytes = rest; ending = e }) s' flag payload
        (sym (read_frame-header max f a b c d rest e) ∙ h) in
    (a, b, c, d, cc, sym inv.1, rw inv.1 inv.2, inv.4)
read_frame_inv max short e s' flag payload h = cc

put_uint32-uint32 :
    (a b c d : ℕ)
    → IsByte a
    → IsByte b
    → IsByte c
    → IsByte d
    → put_uint32 (uint32 a b c d % 2 ^ 32) ≡ a ∷ b ∷ c ∷ d ∷ []
unfolding put_uint32
put_uint32-uint32 a b c d ha hb hc hd = ground arith

-- If `ReadFrame` on a source of bytes returns a frame, then the source began with the encoding of
-- exactly that frame, its payload is below 2 ^ 32 bytes and within the limit, and what is left is
-- what stood behind it, with the same error at the end.
pub read_frame_sound :
    (max : ℤ) (bytes : Bytes) (e : GoError) (s' : Source) (flag : ℕ) (payload : Bytes)
    → All IsByte bytes
    → read_frame max (record { bytes = bytes; ending = e }) ≡ (s', ok (flag, payload))
    → (bytes ≡ encode flag payload ++ s'.bytes)
      × (length payload < 2 ^ 32)
      × (exceeds max (length payload) ≡ false)
      × (s'.ending ≡ e)
unfolding header
read_frame_sound max bytes e s' flag payload isb h =
    let (a, b, c, d, front, size, fit, ending) = read_frame_inv max bytes e s' flag payload h in
    let isb' : All IsByte (flag ∷ a ∷ b ∷ c ∷ d ∷ (payload ++ s'.bytes)) = rw front at isb in
    let word : put_uint32 (length payload % 2 ^ 32) ≡ a ∷ b ∷ c ∷ d ∷ [] =
      rw (← size) (put_uint32-uint32 a b c d isb'.1.0 isb'.1.1.0 isb'.1.1.1.0 isb'.1.1.1.1.0) in
    (
      rw word front,
      omega (arith, sym size, isb'.1.0, isb'.1.1.0, isb'.1.1.1.0, isb'.1.1.1.1.0),
      fit,
      ending,
    )

-- `ReadFrame` refuses a payload over the limit, and has then read no more than the header.
read_frame-too_large :
    (max : ℤ) (flag : ℕ) (payload rest : Bytes) (e : GoError)
    → length payload < 2 ^ 32
    → exceeds max (length payload) ≡ true
    → read_frame max (record { bytes = encode flag payload ++ rest; ending = e })
      ≡ (record { bytes = payload ++ rest; ending = e }, err (too_large (length payload) max))
unfolding header put_uint32 read_payload
read_frame-too_large max flag payload rest e small over =
    let same : length payload % 2 ^ 32 ≡ length payload = omega arith in
    read_frame-header max flag _ _ _ _ (payload ++ rest) e
    ∙ ap (λ k. read_payload max flag k (record { bytes = payload ++ rest; ending = e }))
        (uint32-put_uint32 (length payload % 2 ^ 32) (omega arith) ∙ same)
    ∙ rw over

abbrev pub end_error : Bytes → GoError
end_error [] = sentinel eof
end_error (b ∷ bs) = sentinel unexpected_eof

-- A payload that is cut short.
read_payload_short :
    (max : ℤ) (flag n : ℕ) (s : Source)
    → exceeds max n ≡ false
    → length s.bytes < n
    → (read_payload max flag n s).1 ≡ err (sentinel unexpected_eof)
unfolding read_payload read_full frame_of
read_payload_short max flag n s fit h = ground arith

-- On a proper prefix of an encoded frame, with EOF behind it, `ReadFrame` returns EOF if the prefix is
-- empty and ErrUnexpectedEOF if it is not, where the payload is within the limit and below 2 ^ 32
-- bytes.
pub read_frame_truncated :
    (max : ℤ) (flag : ℕ) (payload front : Bytes) (x : ℕ) (back : Bytes)
    → length payload < 2 ^ 32
    → exceeds max (length payload) ≡ false
    → encode flag payload ≡ front ++ (x ∷ back)
    → (read_frame max (record { bytes = front; ending = sentinel eof })).1 ≡ err (end_error front)
unfolding read_frame read_full after_header header put_uint32
read_frame_truncated max flag payload (f ∷ a ∷ b ∷ c ∷ d ∷ rest) x back small fit h =
    let body : payload ≡ rest ++ (x ∷ back) = cc in
    let ha : length payload % 2 ^ 32 / 2 ^ 24 % 256 ≡ a = cc in
    let hb : length payload % 2 ^ 32 / 2 ^ 16 % 256 ≡ b = cc in
    let hc : length payload % 2 ^ 32 / 2 ^ 8 % 256 ≡ c = cc in
    let hd : length payload % 2 ^ 32 % 256 ≡ d = cc in
    let size : uint32 a b c d ≡ length payload = omega arith in
    ap (λ r. r.1) (read_frame-header max f a b c d rest (sentinel eof))
    ∙ read_payload_short max f (uint32 a b c d) _ (rw size fit)
        (omega (arith, size, ap length body, length-append rest (x ∷ back)))
read_frame_truncated max flag payload short x back small fit h = refl
