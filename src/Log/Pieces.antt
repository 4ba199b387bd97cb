-- ===== src/Log/Pieces.antt =====
-- What an `HttpLogAdaptor` logs, however its writer cuts the text into writes.
use duh_go.Prelude.{
  arith, ℕ, Bool, true, false, List, [], ◌∷◌, ◌++◌, ◌+◌, ◌≡◌, refl, sym, ap, ◌∙◌, length, Text, str,
  ltb, ◌==◌, if◌then◌else◌, if_intro, ◌||◌, ◌<◌, ◌⊎◌, Bool-cases, inl, inr,
}
use duh_go.Errors.Maps.{if_true, if_false}
use mathlib.Core.Path.{subst}
use mathlib.Core.List.{append_assoc, append-nil}
use duh_go.Errors.{GoError}
use duh_go.Frames.{Bytes}
use duh_go.Lines.{Scanned, scan, newline, max_token, drop_cr}
use duh_go.Log.{
  Entry, info, error, HttpLogAdaptor, new_http_log_adaptor, read_byte, feed, write, close, stopped,
  rested, max_idle, last_line, read_nothing, piped,
}

-- What is logged for the lines of a text, and for a scan that stops at one that is too long.
unfoldable pub infos : List Text → List Entry → List Entry
infos [] end = end
infos (t ∷ ts) end = info t ∷ infos ts end

abbrev pub entries : Scanned → List Entry
entries s = infos s.lines (if s.too_long then error (str "while reading from Writer") ∷ [] else [])

-- The adaptor after a sequence of writes.
unfoldable pub write_all : List Bytes → HttpLogAdaptor → HttpLogAdaptor
write_all [] a = a
write_all (p ∷ ps) a = write_all ps (write p a).0

unfoldable pub concatenated : List Bytes → Bytes
concatenated [] = []
concatenated (p ∷ ps) = p ++ concatenated ps

-- The goroutine after the bytes of a text, if it is there for them.
unfoldable reads_all : Bytes → HttpLogAdaptor → HttpLogAdaptor
reads_all [] a = a
reads_all (c ∷ p) a = if a.gone then a else reads_all p (read_byte c a)

-- An adaptor that is open, and one whose goroutine has ended.
abbrev open_with : Text → List Entry → HttpLogAdaptor
open_with line log = record { line = line; idle = 0; log = log; gone = false; closed = false }

abbrev ended_with : Text → List Entry → HttpLogAdaptor
ended_with line log = record { line = line; idle = 0; log = log; gone = true; closed = false }

if_both :
    {A B : Type 0} (P : A → B → Type 0) (b : Bool) {x y : A} {u v : B}
    → (b ≡ true → P x u)
    → (b ≡ false → P y v)
    → P (if b then x else y) (if b then u else v)
if_both P true h k = h refl
if_both P false h k = k refl

if_same : (b : Bool) {P : Type 0} → (b ≡ true → P) → (b ≡ false → P) → P
if_same true h k = h refl
if_same false h k = k refl

reads_all_gone : (p : Bytes) (a : HttpLogAdaptor) → a.gone ≡ true → reads_all p a ≡ a
unfolding reads_all
reads_all_gone [] a h = refl
reads_all_gone (c ∷ p) a h = if_true _ a.gone h

reads_all-append :
    (p q : Bytes) (a : HttpLogAdaptor) → reads_all (p ++ q) a ≡ reads_all q (reads_all p a)
unfolding reads_all
reads_all-append [] q a = refl
reads_all-append (c ∷ p) q a =
    if_same a.gone
      (λ h. if_true _ a.gone h ∙ sym (ap (reads_all q) (if_true _ a.gone h) ∙ reads_all_gone q a h))
      (λ h.
        if_false _ a.gone h
        ∙ (reads_all-append p q (read_byte c a) ∙ sym (ap (reads_all q) (if_false _ a.gone h))))

reads_all_open : (p : Bytes) (a : HttpLogAdaptor) → (reads_all p a).closed ≡ a.closed
unfolding reads_all read_byte
reads_all_open [] a = refl
reads_all_open (c ∷ p) a =
    if_intro (λ (x : HttpLogAdaptor). x.closed ≡ a.closed) a.gone (λ _. refl)
      (λ _.
        reads_all_open p (read_byte c a)
        ∙ if_intro (λ (x : HttpLogAdaptor). x.closed ≡ a.closed) (c == newline) (λ _. refl)
            (λ _.
              if_intro (λ (x : HttpLogAdaptor). x.closed ≡ a.closed)
                (ltb (length a.line + 1) max_token) (λ _. refl) (λ _. refl)))

feed-reads_all : (p : Bytes) (n : ℕ) (a : HttpLogAdaptor) → (feed n p a).0 ≡ reads_all p a
unfolding feed reads_all
feed-reads_all [] n a = refl
feed-reads_all (c ∷ p) n a =
    if_same a.gone
      (λ h.
        ap (λ (r : HttpLogAdaptor × (ℕ × GoError)). r.0) (if_true _ a.gone h)
        ∙ sym (if_true _ a.gone h))
      (λ h.
        ap (λ (r : HttpLogAdaptor × (ℕ × GoError)). r.0) (if_false _ a.gone h)
        ∙ (feed-reads_all p (n + 1) (read_byte c a) ∙ sym (if_false _ a.gone h)))

rested-reads_all :
    (k : ℕ) (p : Bytes) (a : HttpLogAdaptor)
    → rested (reads_all p (record a { idle = k })) ≡ rested (reads_all p a)
unfolding reads_all read_byte
rested-reads_all k [] a = refl
rested-reads_all k (c ∷ p) a = if_both (λ x y. rested x ≡ rested y) a.gone (λ _. refl) (λ _. refl)

read_byte_idle : (c : ℕ) (a : HttpLogAdaptor) → (read_byte c a).idle ≡ 0
unfolding read_byte
read_byte_idle c a =
    if_intro (λ (x : HttpLogAdaptor). x.idle ≡ 0) (c == newline) (λ _. refl)
      (λ _.
        if_intro (λ (x : HttpLogAdaptor). x.idle ≡ 0) (ltb (length a.line + 1) max_token)
          (λ _. refl) (λ _. refl))

reads_all_idle : (p : Bytes) (a : HttpLogAdaptor) → a.idle ≡ 0 → (reads_all p a).idle ≡ 0
unfolding reads_all
reads_all_idle [] a h = h
reads_all_idle (c ∷ p) a h =
    if_intro (λ (x : HttpLogAdaptor). x.idle ≡ 0) a.gone (λ _. h)
      (λ _. reads_all_idle p (read_byte c a) (read_byte_idle c a))

-- No more of the writes in a row are empty than the scanner puts up with, `idle` before them.
unfoldable pub IsSteady : ℕ → List Bytes → Type 0
IsSteady idle [] = Unit
IsSteady idle ([] ∷ ps) = (idle < max_idle) × IsSteady (idle + 1) ps
IsSteady idle ((c ∷ p) ∷ ps) = IsSteady 0 ps

-- The goroutine has ended, or it has no reason to end at an empty write.
abbrev Bears : List Bytes → HttpLogAdaptor → Type 0
Bears ps a = (a.gone ≡ true) ⊎ ((a.gone ≡ false) × IsSteady a.idle ps)

bears : (ps : List Bytes) (a : HttpLogAdaptor) → IsSteady a.idle ps → Bears ps a
bears ps a h = elim (Bool-cases a.gone) [ inl g ↦ inl g | inr g ↦ inr (g, h) ]

write_gone : (p : Bytes) (a : HttpLogAdaptor) → a.gone ≡ true → (write p a).0 ≡ a
unfolding write
write_gone p a g =
    ap (λ (r : HttpLogAdaptor × (ℕ × GoError)). r.0) (if_true _ (a.gone || a.closed) (ground arith))

write_live :
    (p : Bytes) (a : HttpLogAdaptor) → a.gone ≡ false → a.closed ≡ false → write p a ≡ piped p a
unfolding write
write_live p a g o = if_false _ (a.gone || a.closed) (ground arith)

-- What a write has done, and what stands of the condition behind it.
abbrev Did : Bytes → List Bytes → HttpLogAdaptor → HttpLogAdaptor → Type 0
Did p ps a b = (rested b ≡ rested (reads_all p a)) × Bears ps b × (b.closed ≡ false)

write-Did :
    (p : Bytes) (ps : List Bytes) (a : HttpLogAdaptor)
    → a.closed ≡ false
    → Bears (p ∷ ps) a
    → Did p ps a (write p a).0
unfolding IsSteady piped read_nothing reads_all
write-Did p ps a o (inl g) =
    subst (Did p ps a) (sym (write_gone p a g)) (ap rested (sym (reads_all_gone p a g)), inl g, o)
write-Did [] ps a o (inr (g, (few, h))) =
    subst (Did [] ps a)
      (sym (
        ap (λ (r : HttpLogAdaptor × (ℕ × GoError)). r.0) (write_live [] a g o)
        ∙ if_true _ (ltb a.idle max_idle) (ground arith)))
      (refl, inr (g, h), o)
write-Did (c ∷ p) ps a o (inr (g, h)) =
    let b = reads_all (c ∷ p) a in
    let idle : b.idle ≡ 0 =
      ap (λ (x : HttpLogAdaptor). x.idle) (if_false _ a.gone g)
      ∙ reads_all_idle p (read_byte c a) (read_byte_idle c a) in
    subst (Did (c ∷ p) ps a)
      (sym (
        ap (λ (r : HttpLogAdaptor × (ℕ × GoError)). r.0) (write_live (c ∷ p) a g o)
        ∙ feed-reads_all (c ∷ p) 0 a))
      (refl, bears ps b (subst (λ k. IsSteady k ps) (sym idle) h), reads_all_open (c ∷ p) a ∙ o)

write_all-reads_all :
    (ps : List Bytes) (a : HttpLogAdaptor)
    → a.closed ≡ false
    → Bears ps a
    → rested (write_all ps a) ≡ rested (reads_all (concatenated ps) a)
unfolding write_all concatenated reads_all
write_all-reads_all [] a o h = refl
write_all-reads_all (p ∷ ps) a o h =
    let (same, next, still) = write-Did p ps a o h in
    let b = (write p a).0 in
    write_all-reads_all ps b still next
    ∙ (sym (rested-reads_all 0 (concatenated ps) b)
        ∙ (ap (λ x. rested (reads_all (concatenated ps) x)) same
            ∙ (rested-reads_all 0 (concatenated ps) (reads_all p a)
                ∙ sym (ap rested (reads_all-append p (concatenated ps) a)))))

last_line_log : (t : Text) (a : HttpLogAdaptor) → (last_line t (rested a)).log ≡ (last_line t a).log
last_line_log [] a = refl
last_line_log (c ∷ t) a = refl

close-rested : (a : HttpLogAdaptor) → (close (rested a)).log ≡ (close a).log
unfolding close
close-rested a =
    if_both (λ (x : HttpLogAdaptor) (y : HttpLogAdaptor). x.log ≡ y.log) (a.gone || a.closed)
      (λ _. refl) (λ _. last_line_log a.line (record a { closed = true }))

-- The log of an open adaptor that reads a text and is closed.
close-reads_all :
    (t : Bytes) (line : Text) (log : List Entry)
    → (close (reads_all t (open_with line log))).log ≡ log ++ entries (scan line t)
unfolding reads_all read_byte close scan infos
close-reads_all [] [] log = sym (append-nil log)
close-reads_all [] (c ∷ line) log = refl
close-reads_all (c ∷ t) line log =
    if_both (λ (a : HttpLogAdaptor) s. (close (reads_all t a)).log ≡ log ++ entries s)
      (c == newline)
      (λ _.
        close-reads_all t [] (log ++ info (drop_cr line) ∷ [])
        ∙ append_assoc log (info (drop_cr line) ∷ []) (entries (scan [] t)))
      (λ _.
        if_both (λ (a : HttpLogAdaptor) s. (close (reads_all t a)).log ≡ log ++ entries s)
          (ltb (length line + 1) max_token) (λ _. close-reads_all t (line ++ c ∷ []) log)
          (λ _. ap (λ a. (close a).log) (reads_all_gone t (stopped (open_with line log)) refl)))

-- However a text is cut into writes to a new adaptor, if no more than a hundred of them in a row are
-- empty, then once it is closed the logger has got each line of the text in order, and the error if
-- one of them is too long to scan.
pub close-write_all :
    (ps : List Bytes)
    → IsSteady 0 ps
    → (close (write_all ps new_http_log_adaptor)).log ≡ entries (scan [] (concatenated ps))
close-write_all ps h =
    sym (close-rested (write_all ps new_http_log_adaptor))
    ∙ (ap (λ a. (close a).log)
          (write_all-reads_all ps new_http_log_adaptor refl (bears ps new_http_log_adaptor h))
        ∙ (close-rested (reads_all (concatenated ps) new_http_log_adaptor)
            ∙ close-reads_all (concatenated ps) [] []))
