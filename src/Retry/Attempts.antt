-- ===== src/Retry/Attempts.antt =====
-- How often the retry loop calls, how long it waits, and what it counts and returns.
use mathlib.Core.List.{}
use llm_go_sdk.Base.{
  Bool, List, Option-cases, [], arith, inl, inr, none, some, suc, ℕ, ◌++◌, ◌+◌, ◌-◌, ◌<◌, ◌==◌, ◌∷◌,
  ◌≡◌, ◌≤◌, ◌⊎◌,
}
use llm_go_sdk.Base.Int.{}
use llm_go_sdk.Errors.{ApiError, Error, as_api_error}
use llm_go_sdk.Breaker.{CircuitBreaker}
use llm_go_sdk.Retry.{
  Action, Attempt, LoopState, RetryConfig, after_wait, attempt, attempts_of, called, execute,
  retry_delay_for_error, waiting,
}
use llm_go_sdk.Retry.Rule.{Holds, Holds-map, attempt_cases, failure_cases, loop_rule}

-- How many calls of the wrapped client the actions hold.
abbrev pub calls : List Action → ℕ
calls [] = 0
calls (called ∷ xs) = suc (calls xs)
calls (waiting _ _ _ ∷ xs) = calls xs

pub calls-append : (xs bs : List Action) → calls (xs ++ bs) ≡ calls xs + calls bs
calls-append [] bs = omega arith
calls-append (called ∷ xs) bs = omega (arith, calls-append xs bs)
calls-append (waiting n e d ∷ xs) bs = omega (arith, calls-append xs bs)

after_wait-calls :
    (cfg : RetryConfig) (number : ℕ) (w : Attempt) (e : Error) (st : LoopState) (k : ℕ)
    → calls st.actions ≤ k
    → Holds (λ s. calls s.actions ≤ k) (λ x. calls x.actions ≤ k) (after_wait cfg number w e st)
unfolding after_wait
after_wait-calls cfg number w e st k h = elim (Option-cases w.ctx_done) [
  | inl d ↦ rw d (omega (arith, calls-append st.actions))
  | inr (x, d) ↦ rw d (omega (arith, calls-append st.actions))
]

attempt-calls :
    (cfg : RetryConfig) (last : Bool) (number : ℕ) (w : Attempt) (st : LoopState) (k : ℕ)
    → suc (calls st.actions) ≤ k
    → Holds (λ s. calls s.actions ≤ k) (λ x. calls x.actions ≤ k) (attempt cfg last number w st)
attempt-calls cfg last number w st k h =
    attempt_cases (Holds (λ s. calls s.actions ≤ k) (λ x. calls x.actions ≤ k)) cfg last number w st
      (λ e. omega arith) (λ p e _. omega (arith, calls-append st.actions (called ∷ [])))
      (λ p x e o.
        failure_cases (Holds (λ s. calls s.actions ≤ k) (λ y. calls y.actions ≤ k)) cfg last number
          w p x _ (omega (arith, calls-append st.actions (called ∷ [])))
          (λ _ _.
            after_wait-calls cfg number w x _ k
              (omega (arith, calls-append st.actions (called ∷ [])))))

-- The wrapped client is called at most `MaxAttempts` times, where a number below 1 counts as 1.
pub execute-calls :
    (cfg : RetryConfig) (world : ℕ → Attempt) (cb : CircuitBreaker)
    → calls (execute cfg world cb).actions ≤ attempts_of cfg.max_attempts
unfolding execute
execute-calls cfg world cb =
    let n = attempts_of cfg.max_attempts in
    loop_rule cfg world (λ left s. calls s.actions + left ≤ n) (λ x. calls x.actions ≤ n)
      (λ st k. omega arith)
      (λ left i st k.
        Holds-map (λ s. calls s.actions ≤ n - left) (λ s. calls s.actions + left ≤ n)
          (λ x. calls x.actions ≤ n - left) (λ x. calls x.actions ≤ n)
          (attempt cfg (left == 0) (i + 1) (world i) st) (λ s c. omega arith) (λ x c. omega arith)
          (attempt-calls cfg (left == 0) (i + 1) (world i) st (n - left) (omega arith)))
      n 0 _ (omega arith)

-- Every wait is at most this long.
abbrev pub WaitsAtMost : ℕ → List Action → Type 0
WaitsAtMost limit [] = Unit {0}
WaitsAtMost limit (called ∷ xs) = WaitsAtMost limit xs
WaitsAtMost limit (waiting _ _ d ∷ xs) = (d ≤ limit) × WaitsAtMost limit xs

WaitsAtMost-append :
    (limit : ℕ) (xs ys : List Action)
    → WaitsAtMost limit xs
    → WaitsAtMost limit ys
    → WaitsAtMost limit (xs ++ ys)
WaitsAtMost-append limit [] ys h k = k
WaitsAtMost-append limit (called ∷ xs) ys h k = WaitsAtMost-append limit xs ys h k
WaitsAtMost-append limit (waiting _ _ d ∷ xs) ys h k = (h.0, WaitsAtMost-append limit xs ys h.1 k)

-- The delay of a retry: at least the jittered delay and what the server asked for, unless the
-- configured maximum cuts it; and never above a configured maximum.
pub retry_delay_for_error_bounds :
    (e : Error) (jittered limit : ℕ)
    → ((limit ≡ 0) ⊎ (retry_delay_for_error e jittered limit ≤ limit))
      × ((jittered ≤ retry_delay_for_error e jittered limit)
          ⊎ ((0 < limit) × (retry_delay_for_error e jittered limit ≡ limit)))
      × ((as_api_error e ≡ none)
          ⊎ ((a : ApiError) × (as_api_error e ≡ some a)
              × ((a.retry_after ≤ retry_delay_for_error e jittered limit)
                  ⊎ ((0 < limit) × (retry_delay_for_error e jittered limit ≡ limit)))))
unfolding retry_delay_for_error
retry_delay_for_error_bounds e jittered limit = elim (Option-cases (as_api_error e)) [
  | inl n ↦ (ground arith, ground arith, inl n)
  | inr (a, n) ↦ (ground arith, ground arith, inr (a, n, ground arith))
]

retry_delay_below :
    (e : Error) (jittered limit : ℕ) → 0 < limit → retry_delay_for_error e jittered limit ≤ limit
retry_delay_below e jittered limit p = elim (retry_delay_for_error_bounds e jittered limit).0 [
  | inl z ↦ omega arith
  | inr b ↦ b
]

after_wait-WaitsAtMost :
    (cfg : RetryConfig) (number : ℕ) (w : Attempt) (e : Error) (st : LoopState)
    → 0 < cfg.max_delay
    → WaitsAtMost cfg.max_delay st.actions
    → Holds
        (λ s. WaitsAtMost cfg.max_delay s.actions)
        (λ x. WaitsAtMost cfg.max_delay x.actions)
        (after_wait cfg number w e st)
unfolding after_wait
after_wait-WaitsAtMost cfg number w e st pos_max h =
    let d = retry_delay_for_error e (w.calculate_delay st.delay) cfg.max_delay in
    let all =
      WaitsAtMost-append cfg.max_delay st.actions (waiting number e d ∷ []) h
        (retry_delay_below e (w.calculate_delay st.delay) cfg.max_delay pos_max, tt) in
    elim (Option-cases w.ctx_done) [ inl n ↦ rw n all | inr (x, n) ↦ rw n all ]

attempt-WaitsAtMost :
    (cfg : RetryConfig) (last : Bool) (number : ℕ) (w : Attempt) (st : LoopState)
    → 0 < cfg.max_delay
    → WaitsAtMost cfg.max_delay st.actions
    → Holds
        (λ s. WaitsAtMost cfg.max_delay s.actions)
        (λ x. WaitsAtMost cfg.max_delay x.actions)
        (attempt cfg last number w st)
attempt-WaitsAtMost cfg last number w st pos_max h =
    let P =
      Holds (λ s. WaitsAtMost cfg.max_delay s.actions) (λ x. WaitsAtMost cfg.max_delay x.actions) in
    let more = WaitsAtMost-append cfg.max_delay st.actions (called ∷ []) h tt in
    attempt_cases P cfg last number w st (λ e. h) (λ p e _. more)
      (λ p x e o.
        failure_cases P cfg last number w p x _ (λ _. more)
          (λ _ _. after_wait-WaitsAtMost cfg number w x _ pos_max more))

-- With a maximum delay configured no wait between two attempts is longer, whatever the jitter, the
-- growth of the delay and the server's Retry-After say.
pub execute-WaitsAtMost :
    (cfg : RetryConfig) (world : ℕ → Attempt) (cb : CircuitBreaker)
    → 0 < cfg.max_delay
    → WaitsAtMost cfg.max_delay (execute cfg world cb).actions
unfolding execute
execute-WaitsAtMost cfg world cb h =
    loop_rule cfg world (λ _ s. WaitsAtMost cfg.max_delay s.actions)
      (λ x. WaitsAtMost cfg.max_delay x.actions) (λ st k. k)
      (λ left i st k. attempt-WaitsAtMost cfg (left == 0) (i + 1) (world i) st h k)
      (attempts_of cfg.max_attempts) 0 _ tt
