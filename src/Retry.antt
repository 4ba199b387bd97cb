-- ===== src/Retry.antt =====
-- retry/retry.go and policies.go: which errors are tried again, how long the pause is, and the loop.
pub mod Laws
pub mod Reason
pub mod Bounded
pub mod Persists
pub mod Policies
pub mod Paced
pub mod Streamed
use duh_go.Prelude.{ℕ, zero, suc, Bool, true, false, List, [], ◌∷◌, Option, none, some, Text, str}
use duh_go.Prelude.{ℤ, pos, negsuc, int_ltb, is_zero, if◌then◌else◌, ◌==◌, ◌&&◌, ◌||◌}
use mathlib.Core.Bool.{not}
use duh_go.Errors.{GoError, wrapped, client, is_nil, Go, Details, lookup}
use duh_go.Errors.{code_too_many_requests, code_retry_request, code_internal_error, code_not_found}
use duh_go.Errors.Chain.{Error, as_error}

-- What the package uses of Go's float64, `math.Pow`, `strconv.ParseFloat` and the conversions of a
-- `time.Duration`, over any type that stands for float64.
pub record Floats (F : Type 0) : Type 0 where
  pub of_duration : ℤ → F
  pub of_nat : ℕ → F
  pub to_duration : F → ℤ
  pub mul : F → F → F
  pub pow : F → F → F
  pub above_zero : F → Bool
  pub parse_float : Text → Option F

pub record BackOff (F : Type 0) : Type 0 where
  pub min : ℤ
  pub max : ℤ
  pub factor : F
  pub jitter : F

pub data Interval (F : Type 0) : Type 0 where
  back_off : BackOff F → Interval F
  sleep : ℤ → Interval F

-- A nil slice of codes is `none`.
pub record Policy (F : Type 0) : Type 0 where
  pub interval : Option (Interval F)
  pub on_codes : Option (List ℕ)
  pub on_infra_codes : Option (List ℕ)
  pub attempts : ℤ

-- The environment of `On`: `done` is the error of the context once it is done, `wait` the `select`
-- between the context and a timer, which gives that error or none when the timer was first, and
-- `draw` the next random number in [0, 1).
pub record World (F W : Type 0) : Type 0 where
  pub done : W → Option GoError
  pub wait : ℤ → W → W × Option GoError
  pub draw : W → F

-- What `On` comes to; `running` is a loop that has used up its fuel.
pub data Outcome (W : Type 0) : Type 0 where
  panicked running : Outcome W
  returned : W → GoError → Outcome W

abbrev pub one_second : ℤ
one_second = pos 1000000000

-- The last two tests of `Next`.
unfoldable pub clamp : ℤ → ℤ → ℤ → ℤ
clamp min max d = if int_ltb max d then max else if int_ltb d min then min else d

-- `slices.Contains`
unfoldable pub contains : List ℕ → ℕ → Bool
contains [] code = false
contains (c ∷ codes) code = c == code || contains codes code

-- `errors.As(err, &ic)` for an `infraChecker`, which `*ClientError` alone is, and its answer.
-- No error of the package but one of `fmt.Errorf` has an Unwrap, so the search stops at the others.
unfoldable pub is_infra : GoError → Bool
is_infra (wrapped text e) = is_infra e
is_infra (client c e) = c.is_infra_error
is_infra _ = false

abbrev pub listed : Option (List ℕ) → ℕ → Bool
listed none code = false
listed (some codes) code = contains codes code

abbrev pub is_unset : Option (List ℕ) → Bool
is_unset none = true
is_unset (some codes) = false

module _ {F : Type 0} ⦃go : Go⦄ where
  -- The codes of a policy against an error that carries one.
  unfoldable pub code_retry : GoError → Policy F → Option Error → Bool
  code_retry e p none = false
  code_retry e p (some found) =
      if is_infra e
      then listed p.on_infra_codes found.http_code
      else listed p.on_codes found.http_code

  -- `shouldRetry`
  unfoldable pub should_retry : GoError → Policy F → Bool
  should_retry e p =
      if is_unset p.on_codes && is_unset p.on_infra_codes then true else code_retry e p (as_error e)

module _ {F W : Type 0} (floats : Floats F) (world : World F W) ⦃go : Go⦄ where
  -- `BackOff.Next`, with the number that it draws.
  unfoldable pub back_off_next : BackOff F → F → ℕ → ℤ
  back_off_next b r attempts =
      let d =
        floats.to_duration
          (floats.mul (floats.of_duration b.min) (floats.pow b.factor (floats.of_nat attempts))) in
      clamp b.min b.max (
        if floats.above_zero b.jitter
        then floats.to_duration (floats.mul (floats.mul r b.jitter) (floats.of_duration d))
        else d)

  -- `Interval.Next`
  unfoldable pub next : Interval F → F → ℕ → ℤ
  next (back_off b) r attempts = back_off_next b r attempts
  next (sleep d) r attempts = d

  abbrev pub seconds : Option F → Option ℤ
  seconds none = none
  seconds (some s) =
      if floats.above_zero s
      then some (floats.to_duration (floats.mul s (floats.of_duration one_second)))
      else none

  -- One key of `rateLimitDuration`: the pause that its value asks for, if it is there and positive.
  unfoldable pub pause_of : Option Text → Option ℤ
  pause_of none = none
  pause_of (some v) = seconds (floats.parse_float v)

  abbrev pub first_pause : Option ℤ → Option ℤ → ℤ
  first_pause (some d) _ = d
  first_pause none (some d) = d
  first_pause none none = pos 0

  abbrev pub rate_limit_in : Details → ℤ
  rate_limit_in details =
      first_pause (pause_of (lookup (str "ratelimit-reset") details))
        (pause_of (lookup (str "http.retry-after") details))

  -- `rateLimitDuration`
  unfoldable pub rate_limit_duration : GoError → ℤ
  rate_limit_duration e = elim (as_error e) [
    | none ↦ pos 0
    | some found ↦ rate_limit_in found.details
  ]

  -- The pause before the next attempt.
  unfoldable pub pause : Interval F → W → GoError → ℕ → ℤ
  pause interval w e attempt =
      if is_zero (rate_limit_duration e)
      then next interval (world.draw w) attempt
      else rate_limit_duration e

  -- `p.Attempts != 0 && attempt >= p.Attempts`
  unfoldable pub exhausted : Policy F → ℕ → Bool
  exhausted p attempt = not (is_zero p.attempts) && not (int_ltb (pos attempt) p.attempts)

  module _ (p : Policy F) (operation : ℕ → W → W × GoError) where
    -- After the pause.
    unfoldable pub resume : (W → Outcome W) → W × Option GoError → Outcome W
    resume again (w, none) = again w
    resume again (w, some e) = returned w e

    -- After the attempt, with its error.
    unfoldable pub judge : Interval F → (W → Outcome W) → ℕ → W × GoError → Outcome W
    judge interval again attempt (w, e) =
        let rest = resume again (world.wait (pause interval w e attempt) w) in
        if is_nil e || exhausted p attempt
        then returned w e
        else if should_retry e p
        then rest
        else returned w e

    -- One round, with what the context says at its start.
    unfoldable pub attempt_or_stop :
        Interval F → (W → Outcome W) → ℕ → W → Option GoError → Outcome W
    attempt_or_stop interval again attempt w none =
        judge interval again attempt (operation attempt w)
    attempt_or_stop interval again attempt w (some e) = returned w e

    unfoldable pub loop : Interval F → ℕ → ℕ → W → Outcome W
    loop interval zero attempt w = running
    loop interval (suc fuel) attempt w =
        attempt_or_stop interval (loop interval fuel (suc attempt)) attempt w (world.done w)

    unfoldable pub start : Option (Interval F) → ℕ → W → Outcome W
    start none fuel w = panicked
    start (some interval) fuel w = loop interval fuel 1 w

    -- `On`
    unfoldable pub on : ℕ → W → Outcome W
    on fuel w = start p.interval fuel w

abbrev pub retryable_codes : List ℕ
retryable_codes = code_too_many_requests ∷ code_retry_request ∷ code_internal_error ∷ []

-- Not found, and the `net/http` codes of a bad gateway, an unavailable service, a gateway's timeout.
abbrev pub retryable_infra_codes : List ℕ
retryable_infra_codes = code_not_found ∷ 502 ∷ 503 ∷ 504 ∷ []

-- `DefaultBackOff`, with the two constants of it that are floats.
unfoldable pub default_back_off : {F : Type 0} → F → F → BackOff F
default_back_off jitter factor = record {
  min = pos 500000000;
  max = pos 5000000000;
  factor = factor;
  jitter = jitter;
}

-- `OnRetryable`
unfoldable pub on_retryable : {F : Type 0} → F → F → Policy F
on_retryable jitter factor = record {
  interval = some (back_off (default_back_off jitter factor));
  on_codes = some retryable_codes;
  on_infra_codes = some retryable_infra_codes;
  attempts = pos 0;
}

-- `Twice`
unfoldable pub twice : {F : Type 0} → F → F → Policy F
twice jitter factor = record {
  interval = some (back_off (default_back_off jitter factor));
  on_codes = none;
  on_infra_codes = none;
  attempts = pos 2;
}

-- `UntilSuccess`
unfoldable pub until_success : {F : Type 0} → F → F → Policy F
until_success jitter factor = record {
  interval = some (back_off (default_back_off jitter factor));
  on_codes = none;
  on_infra_codes = none;
  attempts = pos 0;
}
