-- ===== src/Runs/Retry.antt =====
-- Runs of the retry loop and of the iterator, and the theorems on them at concrete inputs.
use duh_go.Prelude.{some}
use duh_go.Prelude.{ℕ, suc, [], ◌∷◌, ◌≡◌, refl, arith, true, false, ◌↔◌}
use duh_go.Prelude.{Text, str}
use duh_go.Errors.{GoError, nil, service}
use duh_go.Errors.Chain.{as_error, service_methods}
use duh_go.Retry.{
  Interval, returned, on, start, loop, attempt_or_stop, judge, resume, exhausted, should_retry,
  on_retryable, is_infra,
}
use duh_go.Retry.Reason.{Reason, on-Reason}
use duh_go.Prelude.{◌≤◌, zero}
use duh_go.Retry.{until_success, default_back_off}
use duh_go.Retry.Persists.{Recovers, Retried, on-Recovers}
use duh_go.Retry.Bounded.{Bounded, on-Bounded}
use duh_go.Retry.Policies.{Transient, should_retry-on_retryable}
use duh_go.Pagination.{Fetched, new_iterator, next}
use duh_go.Pagination.Retried.{HasErrors, TurnedIf, next-TurnedIf}
use duh_go.Pagination.Drain.{more, fails, drain, Drained, drain-Serves}
use duh_go.Samples.{sample_go, whole_floats, calm, doubling, thrice, third_time, broken}

-- What a run of the loop computes with.
retries : Unit {0}
unfolding on start loop attempt_or_stop judge resume exhausted should_retry as_error
retries = tt

third_time_works : on whole_floats calm thrice third_time 3 0 ≡ returned 3 nil
unfolding retries
third_time_works = refl

on-Reason_example : Reason whole_floats calm thrice third_time 3 nil
on-Reason_example = on-Reason whole_floats calm thrice third_time 3 0 3 nil third_time_works

on-Bounded_example :
    Bounded whole_floats calm thrice third_time
      (λ w. w)
      3
      (on whole_floats calm thrice third_time 3 0)
on-Bounded_example =
    on-Bounded whole_floats calm thrice third_time (λ w. w) (λ k w. refl) (λ d w. refl) 2
      (Interval.back_off doubling) 0 refl refl

-- A 404 of a service.
abbrev not_found : GoError
not_found = service (record { details = []; code = str "404"; http_code = 404 }) nil

should_retry-on_retryable_example :
    (should_retry {F = ℕ} not_found (on_retryable 0 2) ≡ true)
    ↔ Transient
        (is_infra not_found)
        (service_methods (record { details = []; code = str "404"; http_code = 404 }) nil).http_code
unfolding as_error
should_retry-on_retryable_example =
    should_retry-on_retryable 0 2 not_found
      (service_methods (record { details = []; code = str "404"; http_code = 404 }) nil) refl

-- Two pages, then a failure.
abbrev served : Text → Fetched ℕ
served [] = record {
  items = 1 ∷ 2 ∷ [];
  page = record { end_cursor = str "a"; has_next_page = true };
  error = nil;
}
served (c ∷ []) = record {
  items = 3 ∷ [];
  page = record { end_cursor = str "bb"; has_next_page = true };
  error = nil;
}
served (c ∷ d ∷ cursor) = record {
  items = [];
  page = record { end_cursor = []; has_next_page = false };
  error = broken;
}

abbrev fetch : Text → ℕ → ℕ × Fetched ℕ
fetch cursor calls = (suc calls, served cursor)

drain-Serves_example :
    Drained whole_floats calm fetch
      (drain whole_floats calm fetch 3 new_iterator 0)
      ((1 ∷ 2 ∷ []) ∷ (3 ∷ []) ∷ [])
      broken
drain-Serves_example =
    drain-Serves whole_floats calm fetch
      (more refl refl refl (more refl refl refl (fails refl refl))) 3 new_iterator (omega arith)
      refl refl refl

calm-HasErrors : HasErrors whole_floats calm fetch
calm-HasErrors = record {
  at_start = λ a e h. let no : ⊥ = cc in absurd no;
  in_pause = λ d before a e h. let no : ⊥ = cc in absurd no;
}

next-TurnedIf_example :
    TurnedIf whole_floats calm fetch new_iterator
      (next whole_floats calm fetch (some thrice) 3 new_iterator 0)
next-TurnedIf_example =
    next-TurnedIf whole_floats calm fetch thrice 3 new_iterator 0 calm-HasErrors refl

-- Under `UntilSuccess` the operation's two errors are each answered with another attempt.
third_time-Recovers : Recovers whole_floats calm (until_success 0 2) third_time 2
unfolding until_success exhausted should_retry
third_time-Recovers = record {
  running = λ w. refl;
  uninterrupted = λ d w. refl;
  fails = λ attempt w low high. early attempt w low high;
  succeeds = λ w. refl;
}
  where
    early :
        (attempt w : ℕ)
        → 1 ≤ attempt
        → attempt ≤ 2
        → Retried whole_floats calm (until_success 0 2) third_time attempt (third_time attempt w).1
    early zero w low high = absurd (omega arith)
    early (suc zero) w low high = record { failed = refl; allowed = refl; retried = refl }
    early (suc (suc zero)) w low high = record { failed = refl; allowed = refl; retried = refl }
    early (suc (suc (suc n))) w low high = absurd (omega arith)

on-Recovers_example :
    (w' : ℕ) × (on whole_floats calm (until_success 0 2) third_time 3 0 ≡ returned w' nil)
unfolding until_success
on-Recovers_example =
    on-Recovers whole_floats calm (until_success 0 2) third_time 2
      (Interval.back_off (default_back_off 0 2)) 0 refl third_time-Recovers
