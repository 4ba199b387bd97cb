-- ===== src/Pagination/Retried.antt =====
-- A page that the iterator of pagination.go fetches under a retry policy.
use duh_go.Prelude.{
  ℕ, ◌≡◌, refl, sym, ap, ◌∙◌, true, false, Option, none, some, Text, ℤ, if◌then◌else◌, if_intro,
}
use mathlib.Core.Path.{subst}
use duh_go.Errors.{GoError, is_nil, Go}
use duh_go.Errors.Maps.{if_false}
use duh_go.Retry.{Floats, Policy, World, Outcome, returned, panicked, running, on}
use duh_go.Retry.Reason.{Reason, attempted, done, interrupted, on-Reason}
use duh_go.Pagination.{
  Fetched, Iterator, Turn, Attempt, nothing_yet, settle, settle_outcome, attempt_fetch, fetch_page,
  next,
}

module _ {T W F : Type 0} (floats : Floats F) (world : World F (Attempt T W)) ⦃go : Go⦄
    (fetch : Text → W → W × Fetched T) where
  -- The context has an error where it is done.
  pub record HasErrors : Type 0 where
    pub at_start : (a : Attempt T W) (e : GoError) → world.done a ≡ some e → is_nil e ≡ false
    pub in_pause :
        (d : ℤ) (before a : Attempt T W) (e : GoError)
        → world.wait d before ≡ (a, some e)
        → is_nil e ≡ false

  -- A turn gives the page of one fetch at the iterator's cursor, which has no error, and moves to the
  -- page's end; or it gives none, and the iterator stops where it is, with an error.
  pub data Turned (it : Iterator) (t : Turn T W) : Type 0 where
    paged :
        (before : W) (f : Fetched T)
        → fetch it.cursor before ≡ (t.world, f)
        → is_nil f.error ≡ true
        → t.items ≡ some f.items
        → t.iterator.cursor ≡ f.page.end_cursor
        → t.iterator.done ≡ (if f.page.has_next_page then it.done else true)
        → Turned it t
    stopped :
        t.items ≡ none
        → t.iterator.done ≡ true
        → is_nil t.iterator.err ≡ false
        → t.iterator.cursor ≡ it.cursor
        → Turned it t

  -- Where `retry.On` has returned nil, its last attempt is a fetch without an error.
  abbrev Got : Iterator → Attempt T W → Type 0
  Got it a =
      (before : W) × (fetch it.cursor before ≡ (a.world, a.last)) × (is_nil a.last.error ≡ true)

  fetched :
      (it : Iterator) (p : Policy F) (a : Attempt T W) (e : GoError)
      → HasErrors
      → Reason floats world p (attempt_fetch fetch it.cursor) a e
      → is_nil e ≡ true
      → Got it a
  unfolding attempt_fetch
  fetched it p a e has (attempted attempt before le op q) n = (
    before.world,
    ap (λ (r : Attempt T W × GoError). (r.0.world, r.0.last)) op,
    ap is_nil (
          sym (ap (λ (r : Attempt T W × GoError). r.0.last.error) op)
          ∙ ap (λ (r : Attempt T W × GoError). r.1) op)
        ∙ n,
  )
  fetched it p a e has (done h) n = let no : ⊥ = cc (has.at_start a e h, n) in absurd no
  fetched it p a e has (interrupted d before h) n =
      let no : ⊥ = cc (has.in_pause d before a e h, n) in absurd no

  settle-Turned :
      (it : Iterator) (p : Policy F) (a : Attempt T W) (e : GoError)
      → HasErrors
      → Reason floats world p (attempt_fetch fetch it.cursor) a e
      → Turned it (settle it a.world a.last e)
  unfolding settle
  settle-Turned it p a e has why =
      if_intro (Turned it) (is_nil e)
        (λ n.
          let (before, got, ok) = fetched it p a e has why n in
          paged before a.last got ok refl refl refl)
        (λ n. stopped refl refl n refl)

  -- What `Next` gives, if it gives a turn.
  abbrev pub TurnedIf : Iterator → Option (Turn T W) → Type 0
  TurnedIf it none = Unit
  TurnedIf it (some t) = Turned it t

  outcome-Turned :
      (it : Iterator) (p : Policy F) (o : Outcome (Attempt T W))
      → HasErrors
      → ((a : Attempt T W) (e : GoError)
          → o ≡ returned a e
          → Reason floats world p (attempt_fetch fetch it.cursor) a e)
      → TurnedIf it (settle_outcome it o)
  unfolding settle_outcome
  outcome-Turned it p (returned a e) has why = settle-Turned it p a e has (why a e refl)
  outcome-Turned it p panicked has why = tt
  outcome-Turned it p running has why = tt

  -- Under a retry policy, however often a fetch is tried again, a turn of an iterator that is not
  -- done gives the page of one fetch at its cursor that has no error, and moves to the end of that
  -- page; or it gives none, and the iterator is done, with an error and at the same cursor. The
  -- context must have an error where it is done.
  pub next-TurnedIf :
      (p : Policy F) (fuel : ℕ) (it : Iterator) (w : W)
      → HasErrors
      → it.done ≡ false
      → TurnedIf it (next floats world fetch (some p) fuel it w)
  unfolding next fetch_page
  next-TurnedIf p fuel it w has d = subst (TurnedIf it) (sym (if_false _ it.done d)) (
      outcome-Turned it p
        (on floats world p (attempt_fetch fetch it.cursor) fuel
          (record { world = w; last = nothing_yet }))
        has
        (λ a e h.
          on-Reason floats world p (attempt_fetch fetch it.cursor) fuel
            (record { world = w; last = nothing_yet }) a e h))
