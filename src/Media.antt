-- ===== src/Media.antt =====
-- The media types of service.go: `TrimSuffix`, `normalizeMediaType`, and what the handlers make of
-- the result.
use duh_go.Prelude.{ℕ, ◌+◌, Bool, false, List, [], ◌∷◌, ◌&&◌, ◌||◌, Text, str, text_eq, ltb, leb}
use duh_go.Prelude.{if◌then◌else◌, ◌==◌, Option, some, none}
use duh_go.Errors.{Go}

abbrev pub content_type_proto_buf : Text
content_type_proto_buf = str "application/protobuf"

abbrev pub content_type_json : Text
content_type_json = str "application/json"

abbrev pub content_octet_stream : Text
content_octet_stream = str "application/octet-stream"

abbrev pub content_stream_json : Text
content_stream_json = str "application/duh-stream+json"

abbrev pub content_stream_proto_buf : Text
content_stream_proto_buf = str "application/duh-stream+protobuf"

-- Whether a character is in a set, as `strings.IndexAny` asks.
unfoldable pub is_any : Text → ℕ → Bool
is_any [] c = false
is_any (s ∷ sep) c = s == c || is_any sep c

-- `TrimSuffix`
unfoldable pub trim_suffix : Text → Text → Text
trim_suffix [] sep = []
trim_suffix (c ∷ s) sep = let rest = trim_suffix s sep in if is_any sep c then [] else c ∷ rest

-- `unicode.ToLower`, of ASCII by its table.
unfoldable pub lower : ⦃go : Go⦄ → ℕ → ℕ
lower ⦃go⦄ c =
    if ltb c 0x80 then if leb b'A' c && leb c b'Z' then c + 32 else c else go.lower_wide c

-- `unicode.IsSpace`, of ASCII: the tab to the carriage return, and the space.
unfoldable pub is_space : ⦃go : Go⦄ → ℕ → Bool
is_space ⦃go⦄ c = if ltb c 0x80 then leb 9 c && leb c 13 || c == 32 else go.space_wide c

-- `strings.ToLower`
unfoldable pub to_lower : ⦃go : Go⦄ → Text → Text
to_lower [] = []
to_lower (c ∷ s) = lower c ∷ to_lower s

unfoldable pub trim_left : ⦃go : Go⦄ → Text → Text
trim_left [] = []
trim_left (c ∷ s) = let rest = trim_left s in if is_space c then rest else c ∷ s

-- A text without the spaces at its end: a space goes if nothing is left behind it.
unfoldable pub drop_space : ⦃go : Go⦄ → ℕ → Text → Text
drop_space c [] = if is_space c then [] else c ∷ []
drop_space c (d ∷ s) = c ∷ d ∷ s

unfoldable pub trim_right : ⦃go : Go⦄ → Text → Text
trim_right [] = []
trim_right (c ∷ s) = drop_space c (trim_right s)

-- `strings.TrimSpace`
unfoldable pub trim_space : ⦃go : Go⦄ → Text → Text
trim_space s = trim_right (trim_left s)

-- `normalizeMediaType`
unfoldable pub normalize_media_type : ⦃go : Go⦄ → Text → Text
normalize_media_type value = trim_space (to_lower (trim_suffix value (str ";,")))

-- The two encodings of a message.
pub data Encoding : Type 0 where
  json protobuf : Encoding

abbrev pub one_of : List Text → Text → Bool
one_of [] t = false
one_of (u ∷ us) t = text_eq u t || one_of us t

-- The `switch` of `ReadRequest` and `Reply` on a normalized media type; `none` is the default case.
unfoldable pub negotiate : Text → Option Encoding
negotiate t =
    if one_of (str "" ∷ str "*/*" ∷ str "application/*" ∷ content_type_json ∷ []) t
    then some json
    else if text_eq content_type_proto_buf t
    then some protobuf
    else none

-- The case that `Reply` puts in its Content-Type.
abbrev pub content_type_of : Encoding → Text
content_type_of json = content_type_json
content_type_of protobuf = content_type_proto_buf

-- `unmarshalForMediaType` of client.go, by the encoding that its function reads.
unfoldable pub unmarshal_for_media_type : ⦃go : Go⦄ → Text → Option Encoding
unmarshal_for_media_type content_type =
    if text_eq content_type_json (normalize_media_type content_type)
    then some json
    else if text_eq content_type_proto_buf (normalize_media_type content_type)
    then some protobuf
    else none
