-- ===== src/Pagination/Drain.antt =====
-- The caller's loop over the iterator of pagination.go, and what it collects.
use duh_go.Prelude.{ℕ, zero, suc, ◌<◌, ◌∙◌, sym, ◌≡◌, refl, ap, arith, true, false, List, [], ◌∷◌}
use duh_go.Prelude.{Option, none, some, Text, length, if◌then◌else◌, if_intro}
use mathlib.Core.Option
use mathlib.Core.Path.{subst}
use duh_go.Errors.{GoError, nil, is_nil, Go}
use duh_go.Retry.{Floats, World}
use duh_go.Pagination.{Fetched, Iterator, Turn, Attempt, settle, fetch_page, next}

-- What a server has for a walk of its cursors: the pages, and the error that ends them, or nil.
pub data Serves {T W : Type 0} (fetch : Text → W → W × Fetched T)
    : Text → W → List (List T) → GoError → Type 0 where
  last :
      {cursor : Text} {w w' : W} {f : Fetched T}
      → fetch cursor w ≡ (w', f)
      → is_nil f.error ≡ true
      → f.page.has_next_page ≡ false
      → Serves fetch cursor w (f.items ∷ []) nil
  more :
      {cursor : Text} {w w' : W} {f : Fetched T} {pages : List (List T)} {e : GoError}
      → fetch cursor w ≡ (w', f)
      → is_nil f.error ≡ true
      → f.page.has_next_page ≡ true
      → Serves fetch f.page.end_cursor w' pages e
      → Serves fetch cursor w (f.items ∷ pages) e
  fails :
      {cursor : Text} {w w' : W} {f : Fetched T}
      → fetch cursor w ≡ (w', f)
      → is_nil f.error ≡ false
      → Serves fetch cursor w [] f.error

module _ {T W F : Type 0} (floats : Floats F) (world : World F (Attempt T W)) ⦃go : Go⦄
    (fetch : Text → W → W × Fetched T) where
  -- `for it.Next(ctx, &page)`, which keeps the pages, and the iterator that it ends with.
  unfoldable pub keep :
      (Iterator → W → Option (List (List T) × Iterator))
      → Option (Turn T W)
      → Option (List (List T) × Iterator)
  keep again none = none
  keep again (some turn) = kept (again turn.iterator turn.world) turn.items
    where
      kept : Option (List (List T) × Iterator) → Option (List T) → Option (List (List T) × Iterator)
      kept rest none = some ([], turn.iterator)
      kept rest (some items) = Option.map (λ r. (items ∷ r.0, r.1)) rest

  unfoldable pub drain : ℕ → Iterator → W → Option (List (List T) × Iterator)
  drain zero it w = none
  drain (suc rounds) it w = keep (drain rounds) (next floats world fetch none 0 it w)

  next_done :
      (it : Iterator) (w : W)
      → it.done ≡ true
      → next floats world fetch none 0 it w
        ≡ some (record { iterator = it; world = w; items = none })
  unfolding next
  next_done it w d =
      if_intro (λ t. t ≡ some (record { iterator = it; world = w; items = none })) it.done
        (λ _. refl) (λ b. let no : ⊥ = cc in absurd no)

  next_live :
      (it : Iterator) (w w' : W) (f : Fetched T)
      → it.done ≡ false
      → fetch it.cursor w ≡ (w', f)
      → next floats world fetch none 0 it w ≡ some (settle it w' f f.error)
  unfolding next fetch_page
  next_live it w w' f d h =
      if_intro (λ t. t ≡ some (settle it w' f f.error)) it.done (λ b. let no : ⊥ = cc in absurd no)
        (λ _. ap (λ got. some (settle it got.0 got.1 got.1.error)) h)

  -- The iterator after a page.
  abbrev turned : Iterator → Fetched T → Iterator
  turned it f = record it {
    cursor = f.page.end_cursor;
    done = if f.page.has_next_page then it.done else true;
  }

  settle_page :
      (it : Iterator) (w : W) (f : Fetched T)
      → is_nil f.error ≡ true
      → settle it w f f.error ≡ record { iterator = turned it f; world = w; items = some f.items }
  unfolding settle
  settle_page it w f h =
      if_intro
        (λ (t : Turn T W). t ≡ record { iterator = turned it f; world = w; items = some f.items })
        (is_nil f.error) (λ _. refl) (λ b. let no : ⊥ = cc in absurd no)

  settle_error :
      (it : Iterator) (w : W) (f : Fetched T)
      → is_nil f.error ≡ false
      → settle it w f f.error
        ≡ record { iterator = record it { err = f.error; done = true }; world = w; items = none }
  unfolding settle
  settle_error it w f h =
      if_intro
        (λ (t : Turn T W).
          t
          ≡ record { iterator = record it { err = f.error; done = true }; world = w; items = none })
        (is_nil f.error) (λ b. let no : ⊥ = cc in absurd no) (λ _. refl)

  drain_done : (n : ℕ) (it : Iterator) (w : W) → it.done ≡ true → drain (suc n) it w ≡ some ([], it)
  unfolding drain keep
  drain_done n it w d = ap (keep (drain n)) (next_done it w d)

  drain_page :
      (n : ℕ) (it : Iterator) (w w' : W) (f : Fetched T)
      → it.done ≡ false
      → fetch it.cursor w ≡ (w', f)
      → is_nil f.error ≡ true
      → drain (suc n) it w ≡ Option.map (λ r. (f.items ∷ r.0, r.1)) (drain n (turned it f) w')
  unfolding drain keep
  drain_page n it w w' f d h e =
      ap (keep (drain n)) (next_live it w w' f d h ∙ ap some (settle_page it w' f e))

  drain_error :
      (n : ℕ) (it : Iterator) (w w' : W) (f : Fetched T)
      → it.done ≡ false
      → fetch it.cursor w ≡ (w', f)
      → is_nil f.error ≡ false
      → drain (suc n) it w ≡ some ([], record it { err = f.error; done = true })
  unfolding drain keep
  drain_error n it w w' f d h e =
      ap (keep (drain n)) (next_live it w w' f d h ∙ ap some (settle_error it w' f e))

  -- The loop has given these pages and has ended, with an iterator that is done and has this error.
  abbrev pub Drained : Option (List (List T) × Iterator) → List (List T) → GoError → Type 0
  Drained o pages e = (it : Iterator) × (o ≡ some (pages, it)) × (it.done ≡ true) × (it.err ≡ e)

  Drained-cons :
      (items : List T) (o : Option (List (List T) × Iterator)) (pages : List (List T)) (e : GoError)
      → Drained o pages e
      → Drained (Option.map (λ r. (items ∷ r.0, r.1)) o) (items ∷ pages) e
  Drained-cons items o pages e (it, h, d, k) = (it, ap (Option.map _) h, d, k)

  -- Without a retry policy, a walk of the pages from a fresh iterator gives every page of the server
  -- once and in order, then ends, and `Err` is the error of the fetch that failed, or nil when the
  -- server had no next page.
  pub drain-Serves :
      {cursor : Text} {w : W} {pages : List (List T)} {e : GoError}
      → Serves fetch cursor w pages e
      → (n : ℕ) (it : Iterator) → length pages < n
      → it.cursor ≡ cursor
      → it.done ≡ false
      → it.err ≡ nil
      → Drained (drain n it w) pages e
  drain-Serves (last {w = w} {w' = w'} {f = f} h p q) zero it le c d k = absurd (omega arith)
  drain-Serves (last {w = w} {w' = w'} {f = f} h p q) (suc zero) it le c d k = absurd (omega arith)
  drain-Serves (last {w = w} {w' = w'} {f = f} h p q) (suc (suc n)) it le c d k =
      let ended : (turned it f).done ≡ true = ap (λ b. if b then it.done else true) q in
      subst (λ o. Drained o (f.items ∷ []) nil)
        (sym (
          drain_page (suc n) it w w' f d (ap (λ x. fetch x w) c ∙ h) p
          ∙ ap (Option.map _) (drain_done n (turned it f) w' ended)))
        (turned it f, refl, ended, k)
  drain-Serves (more {w = w} {w' = w'} {f = f} {pages = pages} {e = e} h p q serves) zero it le c d
        k =
      absurd (omega arith)
  drain-Serves (more {w = w} {w' = w'} {f = f} {pages = pages} {e = e} h p q serves) (suc n) it le c
        d k =
      subst (λ o. Drained o (f.items ∷ pages) e)
        (sym (drain_page n it w w' f d (ap (λ x. fetch x w) c ∙ h) p))
        (Drained-cons f.items (drain n (turned it f) w') pages e (
          drain-Serves serves n (turned it f) (omega arith) refl
            (ap (λ b. if b then it.done else true) q ∙ d) k))
  drain-Serves (fails {w = w} {w' = w'} {f = f} h p) zero it le c d k = absurd (omega arith)
  drain-Serves (fails {w = w} {w' = w'} {f = f} h p) (suc n) it le c d k =
      subst (λ o. Drained o [] f.error)
        (sym (drain_error n it w w' f d (ap (λ x. fetch x w) c ∙ h) p))
        (record it { err = f.error; done = true }, refl, refl, refl)
