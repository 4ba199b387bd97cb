-- ===== src/Retry/Policies.antt =====
-- policies.go: what the policy `OnRetryable` tries again.
use duh_go.Prelude.{ℕ, Bool, true, false, some, ◌≡◌, sym, ◌⊎◌}
use duh_go.Prelude.{if◌then◌else◌, arith, ◌↔◌}
use duh_go.Errors.{GoError, Go}
use duh_go.Errors.Chain.{Error, as_error}
use mathlib.Core.Path.{subst}
use duh_go.Prelude.{ℤ, inl, inr, ◌||◌, refl}
use duh_go.Errors.{is_nil}
use duh_go.Retry.Reason.{attempted, done, interrupted, on-Reason}
use duh_go.Retry.{
  Floats, World, on, returned, until_success, exhausted, should_retry, code_retry, contains,
  is_infra, on_retryable, retryable_codes, retryable_infra_codes,
}

-- The codes that `OnRetryable` retries, by where the error is from.
abbrev pub Transient : Bool → ℕ → Type 0
Transient true code = (code ≡ 404) ⊎ ((code ≡ 502) ⊎ ((code ≡ 503) ⊎ (code ≡ 504)))
Transient false code = (code ≡ 429) ⊎ ((code ≡ 454) ⊎ (code ≡ 500))

contains_iff-infra : (code : ℕ) → (contains retryable_infra_codes code ≡ true) ↔ Transient true code
unfolding contains
contains_iff-infra code = ground arith

contains_iff-codes : (code : ℕ) → (contains retryable_codes code ≡ true) ↔ Transient false code
unfolding contains
contains_iff-codes code = ground arith

module _ {F : Type 0} (jitter factor : F) ⦃go : Go⦄ where
  -- `OnRetryable` retries an error that carries a code if and only if the code is that of a transient
  -- failure of the infrastructure, or of the service, whichever the error is from: a 404 of the
  -- infrastructure, but not of a service.
  pub should_retry-on_retryable :
      (e : GoError) (found : Error)
      → as_error e ≡ some found
      → (should_retry e (on_retryable jitter factor) ≡ true)
        ↔ Transient (is_infra e) found.http_code
  unfolding should_retry code_retry on_retryable
  should_retry-on_retryable e found h =
      subst
        (λ o.
          (code_retry e (on_retryable jitter factor) o ≡ true)
          ↔ Transient (is_infra e) found.http_code)
        (sym h) (by_origin (is_infra e))
    where
      by_origin :
          (infra : Bool)
          → ((if infra
                then contains retryable_infra_codes found.http_code
                else contains retryable_codes found.http_code)
              ≡ true)
            ↔ Transient infra found.http_code
      by_origin true = contains_iff-infra found.http_code
      by_origin false = contains_iff-codes found.http_code

module _ {F W : Type 0} (floats : Floats F) (world : World F W) ⦃go : Go⦄ (jitter factor : F)
    (operation : ℕ → W → W × GoError) where
  -- Whatever `UntilSuccess` gives up with is the context's: an operation's own error never ends it.
  pub on-until_success :
      (fuel : ℕ) (w w' : W) (e : GoError)
      → on floats world (until_success jitter factor) operation fuel w ≡ returned w' e
      → (is_nil e ≡ true)
        ⊎ ((world.done w' ≡ some e)
            ⊎ ((d : ℤ) × ((before : W) × (world.wait d before ≡ (w', some e)))))
  unfolding until_success exhausted should_retry
  on-until_success fuel w w' e h =
      elim (on-Reason floats world (until_success jitter factor) operation fuel w w' e h) [
        | attempted attempt before le same ends ↦ inl (last (is_nil e) ends)
        | done h ↦ inr (inl h)
        | interrupted d before h ↦ inr (inr (d, (before, h)))
      ]
    where
      last : (b : Bool) → ((b || false) || false) ≡ true → b ≡ true
      last true h = refl
      last false h = h
