-- ===== src/Retry.antt =====
-- pkg/middleware/resilience/resilience_retry.go and resilience.go: the classification of transient
-- failures, and the retry loop of `ResilientClient` over the circuit breaker. Durations are
-- nanoseconds and not negative. The arithmetic on float64 (the jitter and the backoff factor) is a
-- parameter: a function from a duration to a duration.
pub mod Rule
pub mod Permits
pub mod Attempts
pub mod Classify
pub mod Failures
pub mod Stream
pub mod StreamPermits
pub mod StreamMatches
mod Options
mod Examples
use llm_go_sdk.Base.{
  Bool, List, Option, [], false, if◌then◌else◌, ltb, none, not, some, suc, true, zero, ℕ, ◌&&◌,
  ◌++◌, ◌+◌, ◌==◌, ◌||◌, ◌∷◌,
}
use llm_go_sdk.Base.Int.{negsuc, pos, ℤ}
use llm_go_sdk.Errors.{
  Error, as_api_error, as_net_error, canceled, circuit_open, connection_refused, connection_reset,
  deadline_exceeded, eof, has_dns_error, is, is_retryable, joined, rate_limited, request_timeout,
  sentinel, server_error, service_unavailable, unexpected_eof,
}
use llm_go_sdk.Breaker.{
  CircuitBreaker, Permit, acquire, record_failure_permit, record_success_permit, release_permit,
}

unfoldable pub is_transient_provider_error : Error → Bool
unfolding is as_api_error has_dns_error as_net_error
is_transient_provider_error e =
    if is e canceled || (is e deadline_exceeded || is e circuit_open)
    then false
    else elim (as_api_error e) [
      | some a ↦ is_retryable a
      | none ↦
          (if is e rate_limited
              || (is e server_error || (is e service_unavailable || is e request_timeout))
            then true
            else if is e eof
                || (is e unexpected_eof || (is e connection_refused || is e connection_reset))
            then true
            else if has_dns_error e
            then false
            else elim (as_net_error e) [ some timeout ↦ timeout | none ↦ false ])
    ]

unfoldable pub default_should_retry : Error → Bool
unfolding is_transient_provider_error
default_should_retry e = is_transient_provider_error e

unfoldable pub is_provider_unhealthy : Error → Bool
unfolding is_transient_provider_error
is_provider_unhealthy e = is_transient_provider_error e

-- `next_delay` is `time.Duration(float64(delay) * rc.retry.BackoffFactor)`.
pub record RetryConfig : Type 0 where
  pub max_attempts : ℤ
  pub initial_delay : ℕ
  pub max_delay : ℕ
  pub next_delay : ℕ → ℕ
  pub should_retry : Option (Error → Bool)

-- What the world does in one attempt: the clock when the breaker is asked, what the wrapped call
-- returns, the clock after it, the jitter that `calculateDelay` draws, and the context's error if it
-- is done before the wait ends.
pub record Attempt : Type 0 where
  pub asked_at : ℕ
  pub outcome : Option Error
  pub returned_at : ℕ
  pub calculate_delay : ℕ → ℕ
  pub ctx_done : Option Error

-- `called` is a call of the wrapped client, `waiting` a wait before a retry, as `onRetry` reports it.
pub data Action : Type 0 where
  called : Action
  waiting : ℕ → Error → ℕ → Action

pub record Execution : Type 0 where
  pub breaker : CircuitBreaker
  pub result : Option Error
  pub actions : List Action

abbrev pub attempts_of : ℤ → ℕ
attempts_of (pos n) = if ltb n 1 then 1 else n
attempts_of (negsuc n) = 1

unfoldable pub retry_delay_for_error : Error → ℕ → ℕ → ℕ
retry_delay_for_error e jittered max_delay =
    let retry_after : ℕ = elim (as_api_error e) [
      | none ↦ jittered
      | some a ↦ (if ltb jittered a.retry_after then a.retry_after else jittered)
    ] in
    if ltb 0 max_delay && ltb max_delay retry_after then max_delay else retry_after

unfoldable pub grown_delay : RetryConfig → ℕ → ℕ
grown_delay cfg delay =
    if ltb cfg.max_delay (cfg.next_delay delay) then cfg.max_delay else cfg.next_delay delay

-- The error of a refusal by the breaker: it carries the last failure, if there was one.
unfoldable pub refusal : Option Error → Error
refusal none = sentinel circuit_open
refusal (some e) = joined (sentinel circuit_open) e

-- A failure that ends the loop: it counts against the breaker if the provider is unhealthy.
unfoldable pub settle : ℕ → Permit → Error → CircuitBreaker → CircuitBreaker
settle now p e cb =
    if is_provider_unhealthy e then record_failure_permit now p cb else release_permit p cb

unfoldable pub retryable : RetryConfig → Error → Bool
retryable cfg e = elim cfg.should_retry [ none ↦ false | some f ↦ f e ]

-- The variables of the loop.
pub record LoopState : Type 0 where
  pub delay : ℕ
  pub last_err : Option Error
  pub breaker : CircuitBreaker
  pub actions : List Action

pub data Next : Type 0 where
  finished : Execution → Next
  again : LoopState → Next

-- The wait before the next attempt, which a done context cuts short.
unfoldable pub after_wait : RetryConfig → ℕ → Attempt → Error → LoopState → Next
after_wait cfg number w e st =
    let st' = record st {
      actions =
          st.actions
          ++ (waiting number e (retry_delay_for_error e (w.calculate_delay st.delay) cfg.max_delay)
              ∷ []);
    } in
    elim w.ctx_done [
      | some ctx_err ↦
          finished (record { breaker = st'.breaker; result = some ctx_err; actions = st'.actions })
      | none ↦ again (record st' { delay = grown_delay cfg st.delay; last_err = some e })
    ]

-- The wrapped call failed with `e` under the permit `p`.
unfoldable pub after_failure : RetryConfig → Bool → ℕ → Attempt → Permit → Error → LoopState → Next
unfolding retryable settle after_wait grown_delay
after_failure cfg last_attempt number w p e st =
    if retryable cfg e && not last_attempt
    then after_wait cfg number w e (record st { breaker = release_permit p st.breaker })
    else finished (record {
      breaker = settle w.returned_at p e st.breaker;
      result = some e;
      actions = st.actions;
    })

-- One round of the loop of `execute`; `number` is the attempt's, from 1.
unfoldable pub attempt : RetryConfig → Bool → ℕ → Attempt → LoopState → Next
unfolding refusal after_failure
attempt cfg last_attempt number w st =
    let (cb, grant) = acquire w.asked_at st.breaker in
    elim grant [
      | none ↦
          finished
            (record { breaker = cb; result = some (refusal st.last_err); actions = st.actions })
      | some p ↦ elim w.outcome [
        | none ↦ finished (record {
          breaker = record_success_permit w.returned_at p cb;
          result = none;
          actions = st.actions ++ (called ∷ []);
        })
        | some e ↦
            after_failure cfg last_attempt number w p e
              (record st { breaker = cb; actions = st.actions ++ (called ∷ []) })
      ]
    ]

-- `left` is the number of rounds that the loop may still make; `world i` is round `i`.
unfoldable pub attempt_loop : RetryConfig → (ℕ → Attempt) → ℕ → ℕ → LoopState → Execution
attempt_loop cfg world zero i st = record {
  breaker = st.breaker;
  result = st.last_err;
  actions = st.actions;
}
attempt_loop cfg world (suc left) i st = elim (attempt cfg (left == 0) (i + 1) (world i) st) [
  | finished x ↦ x
  | again st' ↦ attempt_loop cfg world left (i + 1) st'
]

unfoldable pub execute : RetryConfig → (ℕ → Attempt) → CircuitBreaker → Execution
unfolding attempt_loop
execute cfg world cb =
    attempt_loop cfg world (attempts_of cfg.max_attempts) 0
      (record { delay = cfg.initial_delay; last_err = none; breaker = cb; actions = [] })
