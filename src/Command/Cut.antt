-- ===== src/Command/Cut.antt =====
-- What the command does with a file that has a line too long for the scanner.
use duh_go.Prelude.{
  true, false, List, [], ◌∷◌, ◌++◌, ◌+◌, ◌<◌, ◌≤◌, ◌≡◌, ap, ◌∙◌, arith, length, refl, length-append,
  some, Text, str, ◌==◌, ltb, if_intro, All,
}
use mathlib.Core.List.{append_assoc, map}
use duh_go.Errors.{GoError, Go}
use duh_go.Errors.Maps.{if_false}
use duh_go.Lines.{scan, overflow, newline, max_token, line_then}
use duh_go.Command.{Libraries, Settings, check_err, process_lines, scan_error, run_main}
use duh_go.Command.Documents.{
  text_of, separated, IsLine, IsContent, scan_line, separated-IsLine, process_all,
  process_lines-separated,
}

-- A line that fills the buffer stops the scan, whatever is behind it.
scan_long :
    (long rest cur : Text)
    → All (λ c. (c == newline) ≡ false) long
    → length cur < max_token
    → max_token ≤ length cur + length long
    → scan cur (long ++ rest) ≡ overflow
unfolding scan
scan_long [] rest cur w h l = absurd (omega arith)
scan_long (c ∷ long) rest cur (n, w) h l =
    if_false _ (c == newline) n
    ∙ if_intro (λ s. s ≡ overflow) (ltb (length cur + 1) max_token)
        (λ k.
          scan_long long rest (cur ++ c ∷ []) w (ground (arith, length-append cur (c ∷ [])))
            (ground (arith, length-append cur (c ∷ []))))
        (λ _. refl)

scan-text_of_long :
    (lines : List Text) (long rest : Text)
    → All IsLine lines
    → All (λ c. (c == newline) ≡ false) long
    → max_token ≤ length long
    → scan [] (text_of lines ++ (long ++ rest)) ≡ record { lines = lines; too_long = true }
unfolding text_of
scan-text_of_long [] long rest h w l = scan_long long rest [] w (omega arith) (omega (arith, l))
scan-text_of_long (line ∷ lines) long rest (i, h) w l =
    ap (scan []) (append_assoc line (str "\n" ++ text_of lines) (long ++ rest))
    ∙ (scan_line line [] (text_of lines ++ (long ++ rest)) i.whole (omega (arith, i.short))
        ∙ (ap (line_then line) (scan-text_of_long lines long rest h w l)
            ∙ ap (λ l. record { lines = l ∷ lines; too_long = true }) i.plain))

module _ {V W : Type 0} (lib : Libraries V W) ⦃go : Go⦄ (c : Settings) where
  -- Of a file with a line that is too long to scan, the command processes the documents in front of
  -- that line, in order and by number, and then what stands before the line in its own document, as
  -- if it was the whole of it. If none of these exits, it exits with the scanner's error. What is
  -- behind the line is not looked at. The lines before it must be none that the scanner changes, and
  -- none within a document is a separator.
  pub run_main-text_of :
      (e : GoError) (d : List Text) (ds : List (List Text)) (long rest : Text) (w : W)
      → All IsContent d
      → All (All IsContent) ds
      → All (λ c. (c == newline) ≡ false) long
      → max_token ≤ length long
      → run_main lib c e (text_of (separated d ds) ++ (long ++ rest)) w
        ≡ process_all lib c
            (λ w. (w, some (check_err (str "while scanning '%s'") e)))
            0
            (text_of d ∷ map text_of ds)
            w
  unfolding run_main
  run_main-text_of e d ds long rest w h hs n l =
      ap (λ s. process_lines lib c (scan_error lib c e s.too_long) [] 0 s.lines w)
        (scan-text_of_long (separated d ds) long rest (separated-IsLine d ds h hs) n l)
      ∙ process_lines-separated lib c (scan_error lib c e true) ds d [] 0 w h hs
