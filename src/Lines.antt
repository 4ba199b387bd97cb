-- ===== src/Lines.antt =====
-- `bufio.Scanner` with its lines, as log.go and cmd/duh/main.go use it.
use duh_go.Prelude.{
  ℕ, Bool, true, false, List, [], ◌∷◌, ◌++◌, length, Text, ltb, ◌+◌, ◌==◌, if◌then◌else◌,
}

-- `bufio.MaxScanTokenSize`: the scanner stops at a line that fills its buffer.
abbrev pub max_token : ℕ
max_token = 65536

abbrev pub newline : ℕ
newline = 10

-- A line without the carriage return that it may end with.
unfoldable pub drop_cr : Text → Text
drop_cr [] = []
drop_cr (c ∷ []) = if c == 13 then [] else c ∷ []
drop_cr (c ∷ d ∷ t) = c ∷ drop_cr (d ∷ t)

-- What `Scan` gives until it returns false: the lines, and whether `Err` is `ErrTooLong` then.
pub record Scanned : Type 0 where
  pub lines : List Text
  pub too_long : Bool

abbrev pub no_more : Scanned
no_more = record { lines = []; too_long = false }

abbrev pub overflow : Scanned
overflow = record { lines = []; too_long = true }

abbrev pub line_then : Text → Scanned → Scanned
line_then t s = record s { lines = drop_cr t ∷ s.lines }

-- The scan of a text, behind the `line` that has been read of one; the last needs no newline.
unfoldable pub scan : Text → Text → Scanned
scan [] [] = no_more
scan (c ∷ line) [] = line_then (c ∷ line) no_more
scan line (c ∷ t) =
    let ended = line_then line (scan [] t) in
    let longer = scan (line ++ c ∷ []) t in
    if c == newline then ended else if ltb (length line + 1) max_token then longer else overflow
