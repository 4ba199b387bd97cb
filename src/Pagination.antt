-- ===== src/Pagination.antt =====
-- pagination.go: the iterator over the pages of an endpoint.
pub mod Drain
pub mod Retried
use duh_go.Prelude.{ℕ, Bool, true, false, List, [], ◌∷◌, ◌++◌, Option, none, some, Text}
use duh_go.Prelude.{if◌then◌else◌}
use duh_go.Errors.{GoError, nil, is_nil, Go}
use duh_go.Retry.{Floats, Policy, World, Outcome, panicked, running, returned, on}

pub record Page : Type 0 where
  pub end_cursor : Text
  pub has_next_page : Bool

-- What `fetch` returns.
pub record Fetched (T : Type 0) : Type 0 where
  pub items : List T
  pub page : Page
  pub error : GoError

-- The state of an `Iterator`.
pub record Iterator : Type 0 where
  pub cursor : Text
  pub err : GoError
  pub done : Bool

abbrev pub new_iterator : Iterator
new_iterator = record { cursor = []; err = nil; done = false }

-- `Err`
abbrev pub iteration_error : Iterator → GoError
iteration_error it = it.err

-- `iteratorConfig`
pub record IteratorConfig (F : Type 0) : Type 0 where
  pub retry_policy : Option (Policy F)

-- `WithRetryPolicy`
abbrev pub with_retry_policy : {F : Type 0} → Policy F → IteratorConfig F → IteratorConfig F
with_retry_policy p c = record c { retry_policy = some p }

-- `for _, opt := range opts { opt(&cfg) }`
unfoldable pub apply_options :
    {F : Type 0} → List (IteratorConfig F → IteratorConfig F) → IteratorConfig F → IteratorConfig F
apply_options [] c = c
apply_options (opt ∷ opts) c = apply_options opts (opt c)

-- The configuration that `NewIterator` gives the iterator by its options. `next` below takes the
-- policy in it.
unfoldable pub new_config :
    {F : Type 0} → List (IteratorConfig F → IteratorConfig F) → IteratorConfig F
new_config opts = apply_options opts (record { retry_policy = none })

-- What `Next` returns, with the iterator after it and the world that `fetch` leaves. The items are
-- those that it stores in `*page`, which it does when it returns true.
pub record Turn (T W : Type 0) : Type 0 where
  pub iterator : Iterator
  pub world : W
  pub items : Option (List T)

-- The variables `items`, `pg` of `Next`, which every attempt overwrites, beside the world.
pub record Attempt (T W : Type 0) : Type 0 where
  pub world : W
  pub last : Fetched T

abbrev pub nothing_yet : {T : Type 0} → Fetched T
nothing_yet = record {
  items = [];
  page = record { end_cursor = []; has_next_page = false };
  error = nil;
}

module _ {T W : Type 0} where
  -- `Next` with what the fetch, or its last attempt, gave, and the error of `retry.On`.
  unfoldable pub settle : Iterator → W → Fetched T → GoError → Turn T W
  settle it w f e =
      if is_nil e
      then record {
        iterator = record it {
          cursor = f.page.end_cursor;
          done = if f.page.has_next_page then it.done else true;
        };
        world = w;
        items = some f.items;
      }
      else record { iterator = record it { err = e; done = true }; world = w; items = none }

  unfoldable pub settle_outcome : Iterator → Outcome (Attempt T W) → Option (Turn T W)
  settle_outcome it (returned a e) = some (settle it a.world a.last e)
  settle_outcome it panicked = none
  settle_outcome it running = none

  -- The closure that `retry.On` is given.
  unfoldable pub attempt_fetch :
      (Text → W → W × Fetched T) → Text → ℕ → Attempt T W → Attempt T W × GoError
  attempt_fetch fetch cursor attempt a =
      let got = fetch cursor a.world in (record { world = got.0; last = got.1 }, got.1.error)

  module _ {F : Type 0} (floats : Floats F) (world : World F (Attempt T W)) ⦃go : Go⦄
      (fetch : Text → W → W × Fetched T) where
    -- The two ways to fetch.
    unfoldable pub fetch_page : Option (Policy F) → ℕ → Iterator → W → Option (Turn T W)
    fetch_page none fuel it w =
        let got = fetch it.cursor w in some (settle it got.0 got.1 got.1.error)
    fetch_page (some p) fuel it w = settle_outcome it (
        on floats world p (attempt_fetch fetch it.cursor) fuel
          (record { world = w; last = nothing_yet }))

    -- `Next`. There is no turn where `retry.On` panics or uses up its fuel.
    unfoldable pub next : Option (Policy F) → ℕ → Iterator → W → Option (Turn T W)
    next policy fuel it w =
        if it.done
        then some (record { iterator = it; world = w; items = none })
        else fetch_page policy fuel it w
