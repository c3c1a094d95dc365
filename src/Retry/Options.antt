-- ===== src/Retry/Options.antt =====
-- The construction of `ResilientClient` in pkg/middleware/resilience/resilience.go, and the default
-- configuration in resilience_retry.go. A nil configuration or breaker is `none`. The growth of the
-- default delay, by a float64 factor of 2, is a parameter.
use llm_go_sdk.Base.{
  List, Option, [], arith, if◌then◌else◌, min, some, ℕ, ◌*◌, ◌+◌, ◌-◌, ◌==◌, ◌^◌, ◌∷◌, ◌≡◌, ◌≤◌,
}
use llm_go_sdk.Base.Int.{pos, ℤ}
use llm_go_sdk.Breaker.{CircuitBreaker, new_circuit_breaker, second}
use llm_go_sdk.Retry.{RetryConfig, attempts_of, default_should_retry}

abbrev max_attempts_limit : ℕ
max_attempts_limit = 2 ^ 63 - 1

data ResilienceOption : Type 0 where
  with_retry_config : Option RetryConfig → ResilienceOption
  with_circuit_breaker : Option CircuitBreaker → ResilienceOption
  with_max_retries : ℤ → ResilienceOption
  with_retry_delay : ℕ → ResilienceOption

record ResilientClient : Type 0 where
  retry : RetryConfig
  breaker : CircuitBreaker

unfoldable default_retry_config : (ℕ → ℕ) → RetryConfig
unfolding default_should_retry
default_retry_config double = record {
  max_attempts = pos 3;
  initial_delay = second;
  max_delay = 30 * second;
  next_delay = double;
  should_retry = some default_should_retry;
}

-- One more than the retries, cut at the largest int.
unfoldable attempts_for : ℕ → ℕ
attempts_for n = if n == max_attempts_limit then max_attempts_limit else n + 1

unfoldable apply_resilience_option : ResilientClient → ResilienceOption → ResilientClient
unfolding attempts_for
apply_resilience_option rc (with_retry_config (some cfg)) = record rc { retry = cfg }
apply_resilience_option rc (with_circuit_breaker (some cb)) = record rc { breaker = cb }
apply_resilience_option rc (with_max_retries (pos n)) = record rc {
  retry = record rc.retry { max_attempts = pos (attempts_for n) };
}
apply_resilience_option rc (with_retry_delay d) = record rc {
  retry = record rc.retry { initial_delay = d };
}
apply_resilience_option rc _ = rc

unfoldable apply_resilience_options : ResilientClient → List ResilienceOption → ResilientClient
unfolding apply_resilience_option
apply_resilience_options rc [] = rc
apply_resilience_options rc (o ∷ os) = apply_resilience_options (apply_resilience_option rc o) os

unfoldable new_resilient_client : (ℕ → ℕ) → ℕ → List ResilienceOption → ResilientClient
unfolding default_retry_config apply_resilience_options new_circuit_breaker
new_resilient_client double now opts =
    apply_resilience_options
      (record { retry = default_retry_config double; breaker = new_circuit_breaker now [] }) opts

-- With any number of retries that an int holds, the loop makes one attempt more, or as many as an int
-- holds; the number does not wrap around to a single attempt.
attempts_of-attempts_for :
    (n : ℕ)
    → n ≤ max_attempts_limit
    → attempts_of (pos (attempts_for n)) ≡ min (n + 1) max_attempts_limit
unfolding attempts_for
attempts_of-attempts_for n h = ground arith
