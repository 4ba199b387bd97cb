-- ===== src/Log.antt =====
-- log.go: `HttpLogAdaptor`, a writer whose lines go to a logger.
--
-- `Write` goes on once the goroutine has read the bytes from the pipe, so each byte is one step. A
-- write of no bytes is read as well, as no bytes; the scanner counts those, and gives up behind a
-- hundred of them in a row.
pub mod Pieces
use duh_go.Prelude.{
  ℕ, Bool, true, false, List, [], ◌∷◌, ◌++◌, ◌+◌, length, Text, str, ltb, ◌==◌, ◌||◌, if◌then◌else◌,
}
use duh_go.Errors.{GoError, nil, plain}
use duh_go.Frames.{Bytes}
use duh_go.Lines.{max_token, newline, drop_cr}

-- A call of the logger.
pub data Entry : Type 0 where
  info : Text → Entry
  error : Text → Entry

-- The goroutine and its pipe: what it has read of a line, how often it has since read no bytes, what
-- it has logged, and whether it has closed the pipe or its writer has.
pub record HttpLogAdaptor : Type 0 where
  pub line : Text
  pub idle : ℕ
  pub log : List Entry
  pub gone : Bool
  pub closed : Bool

-- `NewHttpLogAdaptor`
abbrev pub new_http_log_adaptor : HttpLogAdaptor
new_http_log_adaptor = record { line = []; idle = 0; log = []; gone = false; closed = false }

-- `log.Info(scanner.Text())`
abbrev pub logged : Text → HttpLogAdaptor → HttpLogAdaptor
logged t a = record a { line = []; log = a.log ++ info (drop_cr t) ∷ [] }

-- The scanner's error, after which the goroutine closes the pipe.
abbrev pub stopped : HttpLogAdaptor → HttpLogAdaptor
stopped a = record a { log = a.log ++ error (str "while reading from Writer") ∷ []; gone = true }

-- The goroutine when it has read something.
abbrev pub rested : HttpLogAdaptor → HttpLogAdaptor
rested a = record a { idle = 0 }

-- A byte that the goroutine reads.
unfoldable pub read_byte : ℕ → HttpLogAdaptor → HttpLogAdaptor
read_byte c a =
    if c == newline
    then logged a.line (rested a)
    else if ltb (length a.line + 1) max_token
    then record a { line = a.line ++ c ∷ []; idle = 0 }
    else stopped (rested a)

abbrev pub closed_pipe : GoError
closed_pipe = plain (str "io: read/write on closed pipe")

-- A line that has no newline.
abbrev pub last_line : Text → HttpLogAdaptor → HttpLogAdaptor
last_line [] a = a
last_line (c ∷ t) a = logged (c ∷ t) a

-- `maxConsecutiveEmptyReads` of the package bufio.
abbrev pub max_idle : ℕ
max_idle = 100

-- A read of no bytes. One too many of them is `io.ErrNoProgress`, behind what was read of a line.
unfoldable pub read_nothing : HttpLogAdaptor → HttpLogAdaptor
read_nothing a =
    if ltb a.idle max_idle then record a { idle = a.idle + 1 } else stopped (last_line a.line a)

-- The bytes of a write, `n` of which have been read; it stops where the goroutine does.
unfoldable pub feed : ℕ → Bytes → HttpLogAdaptor → HttpLogAdaptor × (ℕ × GoError)
feed n [] a = (a, (n, nil))
feed n (c ∷ p) a =
    let rest = feed (n + 1) p (read_byte c a) in if a.gone then (a, (n, closed_pipe)) else rest

-- A write to an open pipe.
unfoldable pub piped : Bytes → HttpLogAdaptor → HttpLogAdaptor × (ℕ × GoError)
piped [] a = (read_nothing a, (0, nil))
piped (c ∷ p) a = feed 0 (c ∷ p) a

-- `Write`
unfoldable pub write : Bytes → HttpLogAdaptor → HttpLogAdaptor × (ℕ × GoError)
write p a = if a.gone || a.closed then (a, (0, closed_pipe)) else piped p a

-- `Close`: the pipe ends, and the goroutine with it, which logs what it has of a line.
unfoldable pub close : HttpLogAdaptor → HttpLogAdaptor
close a =
    if a.gone || a.closed
    then record a { closed = true }
    else last_line a.line (record a { closed = true })
