-- ===== src/Streaming/Wire.antt =====
-- The shape of what a stream puts on the wire.
use duh_go.Prelude.{ℕ, zero, suc, ◌-◌, ◌≡◌, refl, sym, ap, ◌∙◌, arith, ◌⊎◌}
use duh_go.Prelude.{List, [], ◌∷◌, ◌++◌, Option, none, some, length, take, All, All-append}
use mathlib.Core.List.{append_assoc, append-nil}
use duh_go.Frames.{Bytes, clip, flag_data, flag_final, flag_error, flag_heartbeat}
use duh_go.Frames.Laws.{encode}

-- A flag and a payload.
abbrev pub Frame : Type 0
Frame = ℕ × Bytes

abbrev pub encode_all : List Frame → Bytes
encode_all [] = []
encode_all ((flag, payload) ∷ fs) = encode flag payload ++ encode_all fs

pub encode_all-append :
    (fs gs : List Frame) → encode_all (fs ++ gs) ≡ encode_all fs ++ encode_all gs
encode_all-append [] gs = refl
encode_all-append ((flag, payload) ∷ fs) gs =
    ap (λ t. encode flag payload ++ t) (encode_all-append fs gs)
    ∙ sym (append_assoc (encode flag payload) (encode_all fs) (encode_all gs))

pub encode_all-concat :
    (fs : List Frame) (flag : ℕ) (payload : Bytes)
    → encode_all (fs ++ ((flag, payload) ∷ [])) ≡ encode_all fs ++ encode flag payload
encode_all-concat fs flag payload =
    encode_all-append fs ((flag, payload) ∷ [])
    ∙ ap (λ t. encode_all fs ++ t) (append-nil (encode flag payload))

take_rest {ℓ} :
    {A : Type ℓ} (n : ℕ) (xs ys : List A)
    → take n xs ++ take (n - length (take n xs)) ys ≡ take n (xs ++ ys)
take_rest zero xs ys = refl
take_rest (suc n) [] ys = let whole : suc n - 0 ≡ suc n = omega arith in ap (λ k. take k ys) whole
take_rest (suc n) (x ∷ xs) ys =
    let gap : suc n - suc (length (take n xs)) ≡ n - length (take n xs) = omega arith in
    ap (λ k. x ∷ (take n xs ++ take k ys)) gap ∙ ap (◌∷◌ x) (take_rest n xs ys)

-- Writing `q` behind what a sink took of `p` gives what it takes of both.
pub clip-clip :
    (room : Option ℕ) (p q : Bytes)
    → clip room 0 p ++ clip room (length (clip room 0 p)) q ≡ clip room 0 (p ++ q)
clip-clip none p q = refl
clip-clip (some r) p q = let whole : r - 0 ≡ r = omega arith in rw whole (take_rest r p q)

-- Data frames and heartbeats may come at any time; a final or an error frame ends a stream.
abbrev pub IsOngoing : Frame → Type 0
IsOngoing f = (f.0 ≡ flag_data) ⊎ (f.0 ≡ flag_heartbeat)

abbrev pub IsTerminal : Frame → Type 0
IsTerminal f = (f.0 ≡ flag_final) ⊎ (f.0 ≡ flag_error)

-- A stream that may go on.
abbrev pub IsOpen : List Frame → Type 0
IsOpen = All IsOngoing

-- A stream with its last frame.
abbrev pub IsEnded : List Frame → Type 0
IsEnded fs =
    (front : List Frame) × (last : Frame) × (fs ≡ front ++ (last ∷ []))
    × IsOpen front
    × IsTerminal last

pub IsOpen-concat :
    (fs : List Frame) (f : Frame) → IsOpen fs → IsOngoing f → IsOpen (fs ++ (f ∷ []))
IsOpen-concat fs f h p = All-append IsOngoing fs (f ∷ []) h (p, tt)
