-- ===== src/Command/Documents.antt =====
-- How the command goes through the documents of a file.
use duh_go.Prelude.{
  ℕ, false, List, [], ◌∷◌, ◌++◌, ◌+◌, ◌<◌, ◌≡◌, refl, sym, ap, ◌∙◌, arith, length, length-append,
  Option, none, some, Text, str, text_eq, ◌==◌, ltb, All,
}
use mathlib.Core.List.{append_assoc, append-nil, map}
use duh_go.Errors.{GoError, Go}
use mathlib.Core.Path.{subst}
use duh_go.Errors.Maps.{if_true, if_false}
use duh_go.Lines.{scan, newline, max_token, line_then, drop_cr}
use duh_go.Command.{
  Libraries, Settings, Exit, process, unless_exit, process_lines, scan_error, run_main,
}

-- Lines, each with its newline.
unfoldable pub text_of : List Text → Text
text_of [] = []
text_of (line ∷ lines) = line ++ (str "\n" ++ text_of lines)

-- The documents of a file, by their lines, with a separator between any two.
unfoldable pub separated : List Text → List (List Text) → List Text
separated d [] = d
separated d (d' ∷ ds) = d ++ str "---" ∷ separated d' ds

-- A line as the scanner gives it: without a newline, without a carriage return at its end, and
-- shorter than the scanner's buffer.
pub record IsLine (line : Text) : Type 0 where
  pub whole : All (λ c. (c == newline) ≡ false) line
  pub plain : drop_cr line ≡ line
  pub short : length line < max_token

-- A line that is no separator.
pub record IsContent (line : Text) : Type 0 where
  pub is_line : IsLine line
  pub kept : text_eq line (str "---") ≡ false

pub scan_line :
    (line cur t : Text)
    → All (λ c. (c == newline) ≡ false) line
    → length cur + length line < max_token
    → scan cur (line ++ newline ∷ t) ≡ line_then (cur ++ line) (scan [] t)
unfolding scan
scan_line [] cur t w h = ap (λ l. line_then l (scan [] t)) (sym (append-nil cur))
scan_line (c ∷ line) cur t (n, w) h =
    if_false _ (c == newline) n
    ∙ (if_true _ (ltb (length cur + 1) max_token) (ground arith)
        ∙ (scan_line line (cur ++ c ∷ []) t w (ground (arith, length-append cur (c ∷ [])))
            ∙ ap (λ l. line_then l (scan [] t)) (append_assoc cur (c ∷ []) line)))

scan-text_of :
    (lines : List Text)
    → All IsLine lines
    → scan [] (text_of lines) ≡ record { lines = lines; too_long = false }
unfolding text_of scan
scan-text_of [] h = refl
scan-text_of (line ∷ lines) (l, h) =
    scan_line line [] (text_of lines) l.whole (omega (arith, l.short))
    ∙ (ap (line_then line) (scan-text_of lines h)
        ∙ ap (λ l. record { lines = l ∷ lines; too_long = false }) l.plain)

contents_then : (d rest : List Text) → All IsContent d → All IsLine rest → All IsLine (d ++ rest)
contents_then [] rest h k = k
contents_then (line ∷ d) rest (l, h) k = (l.is_line, contents_then d rest h k)

separator-IsLine : IsLine (str "---")
unfolding drop_cr
separator-IsLine = record { whole = (refl, (refl, (refl, tt))); plain = refl; short = omega arith }

pub separated-IsLine :
    (d : List Text) (ds : List (List Text))
    → All IsContent d
    → All (All IsContent) ds
    → All IsLine (separated d ds)
unfolding separated
separated-IsLine d [] h hs = subst (All IsLine) (append-nil d) (contents_then d [] h tt)
separated-IsLine d (d' ∷ ds) h (h', hs) =
    contents_then d (str "---" ∷ separated d' ds) h (separator-IsLine, separated-IsLine d' ds h' hs)

module _ {V W : Type 0} (lib : Libraries V W) ⦃go : Go⦄ (c : Settings) where
  -- The documents one after the other, with their numbers, until one exits.
  unfoldable pub process_all : (W → W × Option Exit) → ℕ → List Text → W → W × Option Exit
  process_all after idx [] w = after w
  process_all after idx (doc ∷ docs) w =
      unless_exit lib c (process_all after (idx + 1) docs) (process lib c doc idx w)

  pub process_lines-append :
      (after : W → W × Option Exit) (d rest : List Text) (doc : Text) (idx : ℕ) (w : W)
      → All IsContent d
      → process_lines lib c after doc idx (d ++ rest) w
        ≡ process_lines lib c after (doc ++ text_of d) idx rest w
  unfolding process_lines text_of
  process_lines-append after [] rest doc idx w h =
      ap (λ doc. process_lines lib c after doc idx rest w) (sym (append-nil doc))
  process_lines-append after (line ∷ d) rest doc idx w (l, h) =
      if_false _ (text_eq line (str "---")) l.kept
      ∙ (process_lines-append after d rest (doc ++ (line ++ str "\n")) idx w h
          ∙ ap (λ doc. process_lines lib c after doc idx rest w)
              (append_assoc doc (line ++ str "\n") (text_of d)
                ∙ ap (λ t. doc ++ t) (append_assoc line (str "\n") (text_of d))))

  unless_exit_ext :
      (f g : W → W × Option Exit) (r : W × Option Exit)
      → ((w : W) → f w ≡ g w)
      → unless_exit lib c f r ≡ unless_exit lib c g r
  unless_exit_ext f g (w, none) h = h w
  unless_exit_ext f g (w, some x) h = refl

  pub process_lines-separated :
      (after : W → W × Option Exit) (ds : List (List Text)) (d : List Text) (doc : Text) (idx : ℕ)
      (w : W)
      → All IsContent d
      → All (All IsContent) ds
      → process_lines lib c after doc idx (separated d ds) w
        ≡ process_all after idx ((doc ++ text_of d) ∷ map text_of ds) w
  unfolding separated process_lines process_all text_eq
  process_lines-separated after [] d doc idx w h hs =
      ap (λ lines. process_lines lib c after doc idx lines w) (sym (append-nil d))
      ∙ process_lines-append after d [] doc idx w h
  process_lines-separated after (d' ∷ ds) d doc idx w h (h', hs) =
      process_lines-append after d (str "---" ∷ separated d' ds) doc idx w h
      ∙ unless_exit_ext (process_lines lib c after [] (idx + 1) (separated d' ds))
          (process_all after (idx + 1) (text_of d' ∷ map text_of ds))
          (process lib c (doc ++ text_of d) idx w)
          (λ w. process_lines-separated after ds d' [] (idx + 1) w h' hs)

  -- A file of documents with a separator between any two is processed document by document, in order
  -- and by number, until one exits, if its lines are none that the scanner changes or refuses and
  -- none within a document is a separator.
  pub run_main-separated :
      (e : GoError) (d : List Text) (ds : List (List Text)) (w : W)
      → All IsContent d
      → All (All IsContent) ds
      → run_main lib c e (text_of (separated d ds)) w
        ≡ process_all (λ w. (w, none)) 0 (text_of d ∷ map text_of ds) w
  unfolding run_main
  run_main-separated e d ds w h hs =
      ap (λ s. process_lines lib c (scan_error lib c e s.too_long) [] 0 s.lines w)
        (scan-text_of (separated d ds) (separated-IsLine d ds h hs))
      ∙ process_lines-separated (λ w. (w, none)) ds d [] 0 w h hs
