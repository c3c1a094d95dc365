-- ===== src/Retry/Examples.antt =====
-- Runs of the retry loop: a provider that stays unavailable, with two attempts.
use llm_go_sdk.Base.{
  List, Option, [], if◌then◌else◌, none, refl, some, true, ℕ, ◌*◌, ◌+◌, ◌==◌, ◌∷◌, ◌≡◌, ◌≤◌, ◌⊎◌,
}
use llm_go_sdk.Base.Int.{pos}
use llm_go_sdk.Errors.{ApiError, Error, api_error, canceled, joined, sentinel, service_unavailable}
use llm_go_sdk.Breaker.{CircuitBreaker, apply_options, new_circuit_breaker}
use llm_go_sdk.Breaker.Callbacks.{}
use llm_go_sdk.Retry.{
  Attempt, RetryConfig, attempts_of, default_should_retry, execute, is_provider_unhealthy,
  retryable,
}
use llm_go_sdk.Retry.Attempts.{calls}
use llm_go_sdk.Retry.Classify.{}
use llm_go_sdk.Retry.Failures.{execute_counts_once, execute_exhausts}

abbrev unavailable : Error
unavailable = sentinel service_unavailable

abbrev config : RetryConfig
config = record {
  max_attempts = pos 2;
  initial_delay = 10;
  max_delay = 15;
  next_delay = λ d. 2 * d;
  should_retry = some default_should_retry;
}

abbrev world : ℕ → Attempt
world i = record {
  asked_at = 100 * i;
  outcome = some unavailable;
  returned_at = 100 * i + 1;
  calculate_delay = λ d. d + 1;
  ctx_done = none;
}

abbrev breaker : CircuitBreaker
breaker = new_circuit_breaker 0 []

execute_counts_once_example :
    ((execute config world breaker).breaker.failures ≤ breaker.failures + 1)
    × (((execute config world breaker).result ≡ none)
        ⊎ ((e : Error) × ((execute config world breaker).result ≡ some e)
            × ((is_provider_unhealthy e ≡ true)
                ⊎ ((execute config world breaker).breaker.failures ≤ breaker.failures))))
execute_counts_once_example = execute_counts_once config world breaker

execute_exhausts_example :
    (calls (execute config world breaker).actions ≡ attempts_of config.max_attempts)
    × ((execute config world breaker).result ≡ some unavailable)
unfolding new_circuit_breaker apply_options retryable default_should_retry
execute_exhausts_example =
    execute_exhausts config world breaker unavailable refl refl (λ i. (refl, refl))

abbrev limit : ℕ
limit = 15

abbrev busy : ApiError
busy = record { status_code = 429; type_name = ""; code = ""; retry_after = 20; provider = "" }

abbrev canceled_call : Error
canceled_call = joined (sentinel canceled) (api_error busy)

abbrev late_chunks : ℕ → List (Option Error)
late_chunks i = none ∷ some unavailable ∷ []

-- The second attempt opens the stream, which ends with an error.
abbrev stream_world : ℕ → Attempt
stream_world i = record (world i) { outcome = if i == 0 then some unavailable else none }

abbrev clean_chunks : ℕ → List (Option Error)
clean_chunks i = none ∷ none ∷ []
