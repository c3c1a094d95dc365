-- ===== src/Retry/StreamMatches.antt =====
-- `Stream` and `execute` of `ResilientClient` in resilience.go, side by side.
use llm_go_sdk.Base.{Bool, Bool-cases, Option-cases, inl, inr, none, refl, ℕ, ◌≡◌}
use llm_go_sdk.Errors.{Error}
use llm_go_sdk.Breaker.{Permit, release_permit}
use llm_go_sdk.Retry.{
  Attempt, LoopState, Next, RetryConfig, after_failure, after_wait, again, finished, grown_delay,
  retryable, settle,
}
use llm_go_sdk.Retry.Stream.{
  StreamNext, finalize, stream_again, stream_failed, stream_failure, stream_opened, stream_wait,
}

-- A round of `Stream` whose stream ends at once, without an error.
closed_at : ℕ → StreamNext → Next
closed_at t (stream_failed x) = finished x
closed_at t (stream_again st) = again st
closed_at t (stream_opened p st) =
    finished
      (record { breaker = finalize t p none st.breaker; result = none; actions = st.actions })

abbrev from_next : Next → StreamNext
from_next (finished x) = stream_failed x
from_next (again st) = stream_again st

-- The wait of `Stream` is the wait of `execute`.
stream_wait-matches :
    (cfg : RetryConfig) (number : ℕ) (w : Attempt) (e : Error) (st : LoopState)
    → stream_wait cfg number w e st ≡ from_next (after_wait cfg number w e st)
unfolding stream_wait after_wait grown_delay
stream_wait-matches cfg number w e st = elim (Option-cases w.ctx_done) [
  | inl n ↦ rw (n, stream_wait, after_wait) refl
  | inr (x, n) ↦ rw (n, stream_wait, after_wait) refl
]

-- The error branch of `Stream`, with its own test and its own settlement of the permit, is the one of
-- `execute`.
pub stream_failure-matches :
    (cfg : RetryConfig) (last : Bool) (number : ℕ) (w : Attempt) (p : Permit) (e : Error)
    (st : LoopState)
    → stream_failure cfg last number w p e st ≡ from_next (after_failure cfg last number w p e st)
unfolding stream_failure after_failure retryable settle
stream_failure-matches cfg last number w p e st =
    let st' : LoopState = record st { breaker = release_permit p st.breaker } in
    let waits = stream_wait-matches cfg number w e st' in
    elim (Option-cases cfg.should_retry) [
      | inl n ↦ rw (n, stream_failure, after_failure, retryable) refl
      | inr (f, n) ↦ elim (Bool-cases (f e)) [
        | inl t ↦ elim (Bool-cases last) [
          | inl l ↦ rw (n, t, l, stream_failure, after_failure, retryable) refl
          | inr l ↦ rw (n, t, l, stream_failure, after_failure, retryable) waits
        ]
        | inr t ↦ rw (n, t, stream_failure, after_failure, retryable) refl
      ]
    ]
