-- ===== src/Errors/Size.antt =====
-- `bytesToSI` of reader.go, which names a size in units of 1000 or of 1024 bytes.
pub mod Bounds
use duh_go.Prelude.{ℕ, zero, suc, ◌+◌, ◌*◌, ◌/◌, ◌%◌, [], ◌∷◌, ◌++◌}
use duh_go.Prelude.{Text, str, itoa, ltb, leb, ◌==◌, if◌then◌else◌, ℤ, pos, negsuc}

abbrev pub kilobyte : ℕ
kilobyte = 1000

abbrev pub kibibyte : ℕ
kibibyte = 1024

unfoldable pub unit_of : ℕ → ℕ
unit_of b = if b % kibibyte == 0 then kibibyte else kilobyte

-- The loop: `div` and `exp` when `n` has fallen below the unit. Sixty-four rounds of fuel are more
-- than an int64 needs, and `div *= unit`, an int64, is not reduced: see `scale-IsScale`.
unfoldable pub scale_loop : ℕ → ℕ → ℕ → ℕ → ℕ → ℕ × ℕ
scale_loop zero unit n div exp = (div, exp)
scale_loop (suc fuel) unit n div exp =
    let more = scale_loop fuel unit (n / unit) (div * unit) (exp + 1) in
    if leb unit n then more else (div, exp)

unfoldable pub scale : ℕ → ℕ × ℕ
unfolding unit_of scale_loop
scale b = scale_loop 64 (unit_of b) (b / unit_of b) (unit_of b) 0

-- `s[i]`; an index out of range is a fault in Go, and gives nothing here.
abbrev pub letter_at : Text → ℕ → Text
letter_at [] i = []
letter_at (c ∷ s) zero = c ∷ []
letter_at (c ∷ s) (suc i) = letter_at s i

-- The body for a size that is not negative.
unfoldable pub size_text : (ℕ → ℕ → Text) → ℕ → Text
unfolding unit_of scale itoa
size_text one_decimal b =
    let unit = unit_of b in
    let (div, exp) = scale b in
    if ltb b unit
    then itoa b ++ str "B"
    else if unit == kibibyte
    then one_decimal b div ++ (letter_at (str "KMGTPE") exp ++ str "iB")
    else one_decimal b div ++ (letter_at (str "kMGTPE") exp ++ str "B")

-- A negative size is below either unit. `one_decimal` is the float division that `%.1f` prints.
unfoldable pub bytes_to_si : (ℕ → ℕ → Text) → ℤ → Text
unfolding size_text itoa
bytes_to_si one_decimal (pos b) = size_text one_decimal b
bytes_to_si one_decimal (negsuc n) = str "-" ++ (itoa (suc n) ++ str "B")
