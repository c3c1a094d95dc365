-- ===== src/Retry/Stream.antt =====
-- `Stream` of `ResilientClient` in resilience.go: the attempts to open a stream, and the permit that is
-- kept until the stream ends. The goroutine that forwards the chunks is what it hands to the processor:
-- the error of each chunk, the one of a terminal chunk that it makes up included.
use llm_go_sdk.Base.{
  Bool, List, Option, [], if◌then◌else◌, ltb, none, not, some, suc, true, zero, ℕ, ◌++◌, ◌+◌, ◌==◌,
  ◌||◌, ◌∷◌,
}
use llm_go_sdk.Errors.{Error, circuit_open, joined, sentinel}
use llm_go_sdk.Breaker.{
  CircuitBreaker, Permit, acquire, record_failure_permit, record_success_permit, release_permit,
}
use llm_go_sdk.Retry.{
  Attempt, Execution, LoopState, RetryConfig, attempts_of, called, is_provider_unhealthy,
  retry_delay_for_error, waiting,
}

pub data StreamNext : Type 0 where
  stream_failed : Execution → StreamNext
  stream_again : LoopState → StreamNext
  stream_opened : Permit → LoopState → StreamNext

-- The wait before the next attempt to open, once the permit is given back: a done context ends the
-- call with its own error, and otherwise the delay grows up to its maximum.
unfoldable pub stream_wait : RetryConfig → ℕ → Attempt → Error → LoopState → StreamNext
stream_wait cfg number w e st =
    let retry_delay = retry_delay_for_error e (w.calculate_delay st.delay) cfg.max_delay in
    let reported = st.actions ++ (waiting number e retry_delay ∷ []) in
    let next = cfg.next_delay st.delay in
    elim w.ctx_done [
      | some ctx_err ↦
          stream_failed (record { breaker = st.breaker; result = some ctx_err; actions = reported })
      | none ↦ stream_again (record {
        delay = if ltb cfg.max_delay next then cfg.max_delay else next;
        last_err = some e;
        breaker = st.breaker;
        actions = reported;
      })
    ]

-- The error `e` of an attempt to open under the permit `p`.
unfoldable pub stream_failure :
    RetryConfig → Bool → ℕ → Attempt → Permit → Error → LoopState → StreamNext
unfolding stream_wait
stream_failure cfg last_attempt number w p e st =
    let provider_unhealthy = is_provider_unhealthy e in
    let gives_up : Bool = elim cfg.should_retry [
      | none ↦ true
      | some f ↦ not (f e) || last_attempt
    ] in
    if gives_up
    then stream_failed (record {
      breaker =
          if provider_unhealthy
          then record_failure_permit w.returned_at p st.breaker
          else release_permit p st.breaker;
      result = some e;
      actions = st.actions;
    })
    else stream_wait cfg number w e (record st { breaker = release_permit p st.breaker })

-- One round of the loop, up to the opening of a stream; an outcome of `none` is a source that is open.
unfoldable pub open_attempt : RetryConfig → Bool → ℕ → Attempt → LoopState → StreamNext
unfolding stream_failure
open_attempt cfg last_attempt number w st =
    let (cb, grant) = acquire w.asked_at st.breaker in
    elim grant [
      | none ↦ stream_failed (record {
        breaker = cb;
        result = elim st.last_err [
          | none ↦ some (sentinel circuit_open)
          | some e ↦ some (joined (sentinel circuit_open) e)
        ];
        actions = st.actions;
      })
      | some p ↦ elim w.outcome [
        | none ↦ stream_opened p (record st { breaker = cb; actions = st.actions ++ (called ∷ []) })
        | some e ↦
            stream_failure cfg last_attempt number w p e
              (record st { breaker = cb; actions = st.actions ++ (called ∷ []) })
      ]
    ]

-- The error of the last chunk that has one, after `e`.
abbrev pub term_err : Option Error → List (Option Error) → Option Error
term_err e [] = e
term_err e (none ∷ cs) = term_err e cs
term_err e (some x ∷ cs) = term_err (some x) cs

-- The finalizer of the stream.
unfoldable pub finalize : ℕ → Permit → Option Error → CircuitBreaker → CircuitBreaker
finalize now p none cb = record_success_permit now p cb
finalize now p (some e) cb =
    if is_provider_unhealthy e then record_failure_permit now p cb else release_permit p cb

-- `chunks i` are the errors of the chunks of the stream that round `i` opens, and `ended_at i` is the
-- time of its end.
unfoldable pub stream_loop :
    RetryConfig
    → (ℕ → Attempt)
    → (ℕ → List (Option Error))
    → (ℕ → ℕ)
    → ℕ
    → ℕ
    → LoopState
    → Execution
unfolding open_attempt finalize
stream_loop cfg world chunks ended_at zero i st = record {
  breaker = st.breaker;
  result = st.last_err;
  actions = st.actions;
}
stream_loop cfg world chunks ended_at (suc left) i st =
    elim (open_attempt cfg (left == 0) (i + 1) (world i) st) [
      | stream_failed x ↦ x
      | stream_again st' ↦ stream_loop cfg world chunks ended_at left (i + 1) st'
      | stream_opened p st' ↦
          (let e = term_err none (chunks i) in
            record {
              breaker = finalize (ended_at i) p e st'.breaker;
              result = e;
              actions = st'.actions;
            })
    ]

-- The run of `Stream` up to the end of the stream; the result is the error of the call, or the one that
-- the stream ended with.
unfoldable pub stream :
    RetryConfig → (ℕ → Attempt) → (ℕ → List (Option Error)) → (ℕ → ℕ) → CircuitBreaker → Execution
unfolding stream_loop
stream cfg world chunks ended_at cb =
    stream_loop cfg world chunks ended_at (attempts_of cfg.max_attempts) 0
      (record { delay = cfg.initial_delay; last_err = none; breaker = cb; actions = [] })
