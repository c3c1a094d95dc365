-- ===== src/Retry/Failures.antt =====
-- What a run of the retry loop counts against the breaker, and what it returns when every attempt
-- fails.
use llm_go_sdk.Base.{
  Bool, Bool-cases, List, Option, Option-cases, [], arith, false, inl, inr, none, refl, some, suc,
  sym, true, ℕ, ◌++◌, ◌+◌, ◌==◌, ◌∙◌, ◌∷◌, ◌≡◌, ◌≢◌, ◌≤◌, ◌⊎◌,
}
use llm_go_sdk.Base.Int.{negsuc, pos, ℤ}
use llm_go_sdk.Errors.{Error}
use llm_go_sdk.Breaker.Callbacks.{circuit_closed}
use llm_go_sdk.Breaker.{
  CircuitBreaker, Permit, acquire, record_failure_permit, record_success_permit, release_permit,
}
use llm_go_sdk.Breaker.Threshold.{acquire_closed}
use llm_go_sdk.Retry.{
  Action, Attempt, Execution, LoopState, RetryConfig, after_wait, attempt, attempts_of, called,
  execute, is_provider_unhealthy, retryable, settle,
}
use llm_go_sdk.Retry.Rule.{Holds, attempt_cases, failure_cases, loop_rule}
use llm_go_sdk.Retry.Attempts.{calls, calls-append}

acquire_failures : (now : ℕ) (cb : CircuitBreaker) → (acquire now cb).0.failures ≡ cb.failures
unfolding acquire
acquire_failures now cb = ground arith

release_failures : (p : Permit) (cb : CircuitBreaker) → (release_permit p cb).failures ≡ cb.failures
unfolding release_permit
release_failures p cb = ground arith

success_failures :
    (now : ℕ) (p : Permit) (cb : CircuitBreaker)
    → (record_success_permit now p cb).failures ≤ cb.failures
unfolding record_success_permit
success_failures now p cb = ground arith

failure_failures :
    (now : ℕ) (p : Permit) (cb : CircuitBreaker)
    → (record_failure_permit now p cb).failures ≤ cb.failures + 1
unfolding record_failure_permit
failure_failures now p cb = ground arith

-- What a run that started with `n` failures counted may end with.
Counted : ℕ → Execution → Type 0
Counted n x =
    (x.breaker.failures ≤ n + 1)
    × ((e : Error) → x.result ≡ some e → is_provider_unhealthy e ≡ false → x.breaker.failures ≤ n)

settle-Counted :
    (now n : ℕ) (p : Permit) (e : Error) (cb : CircuitBreaker) (xs : List Action)
    → cb.failures ≡ n
    → Counted n (record { breaker = settle now p e cb; result = some e; actions = xs })
unfolding settle Counted
settle-Counted now n p e cb xs h = elim (Bool-cases (is_provider_unhealthy e)) [
  | inl u ↦ rw u (omega (arith, failure_failures now p cb), λ x eq v. cc (u, v, eq))
  | inr u ↦
      rw u (omega (arith, release_failures p cb), λ x eq v. omega (arith, release_failures p cb))
]

after_wait-Counted :
    (cfg : RetryConfig) (number n : ℕ) (w : Attempt) (e : Error) (st : LoopState)
    → st.breaker.failures ≡ n
    → Holds (λ s. s.breaker.failures ≡ n) (Counted n) (after_wait cfg number w e st)
unfolding after_wait Counted
after_wait-Counted cfg number n w e st h = elim (Option-cases w.ctx_done) [
  | inl d ↦ rw d h
  | inr (x, d) ↦ rw d (omega arith, λ y eq v. omega arith)
]

attempt-Counted :
    (cfg : RetryConfig) (last : Bool) (number n : ℕ) (w : Attempt) (st : LoopState)
    → st.breaker.failures ≡ n
    → Holds (λ s. s.breaker.failures ≡ n) (Counted n) (attempt cfg last number w st)
unfolding Counted
attempt-Counted cfg last number n w st h =
    let P = Holds (λ s. s.breaker.failures ≡ n) (Counted n) in
    let same : (acquire w.asked_at st.breaker).0.failures ≡ n =
      acquire_failures w.asked_at st.breaker ∙ h in
    attempt_cases P cfg last number w st (λ e. (omega arith, λ y eq v. omega arith))
      (λ p e _. (
        omega (arith, success_failures w.returned_at p (acquire w.asked_at st.breaker).0),
        λ y eq v. omega (arith, success_failures w.returned_at p (acquire w.asked_at st.breaker).0),
      ))
      (λ p x e o.
        failure_cases P cfg last number w p x _
          (λ _. settle-Counted w.returned_at n p x _ (st.actions ++ (called ∷ [])) same)
          (λ _ _.
            after_wait-Counted cfg number n w x _
              (release_failures p (acquire w.asked_at st.breaker).0 ∙ same)))

-- What follows for an error, read off a result.
result_cases :
    (r : Option Error) (P : Error → Type 0)
    → ((e : Error) → r ≡ some e → P e)
    → (r ≡ none) ⊎ ((e : Error) × (r ≡ some e) × P e)
result_cases none P h = inl refl
result_cases (some e) P h = inr (e, refl, h e refl)

execute-Counted :
    (cfg : RetryConfig) (world : ℕ → Attempt) (cb : CircuitBreaker)
    → Counted cb.failures (execute cfg world cb)
unfolding execute Counted
execute-Counted cfg world cb =
    loop_rule cfg world (λ _ s. s.breaker.failures ≡ cb.failures) (Counted cb.failures)
      (λ st k. (omega arith, λ e eq v. omega arith))
      (λ left i st k. attempt-Counted cfg (left == 0) (i + 1) cb.failures (world i) st k)
      (attempts_of cfg.max_attempts) 0 _ refl

-- However many attempts a run makes, it adds one failure at most to the breaker's count; and none, if
-- it ends with an error that says nothing about the provider's health, such as a refusal by the
-- breaker, a bad request or a cancellation.
pub execute_counts_once :
    (cfg : RetryConfig) (world : ℕ → Attempt) (cb : CircuitBreaker)
    → ((execute cfg world cb).breaker.failures ≤ cb.failures + 1)
      × (((execute cfg world cb).result ≡ none)
          ⊎ ((e : Error) × ((execute cfg world cb).result ≡ some e)
              × ((is_provider_unhealthy e ≡ true)
                  ⊎ ((execute cfg world cb).breaker.failures ≤ cb.failures))))
unfolding Counted
execute_counts_once cfg world cb =
    let c = execute-Counted cfg world cb in
    (
      c.0,
      result_cases (execute cfg world cb).result
          (λ e.
            (is_provider_unhealthy e ≡ true)
            ⊎ ((execute cfg world cb).breaker.failures ≤ cb.failures))
          (λ e r. elim (Bool-cases (is_provider_unhealthy e)) [
            | inl t ↦ inl t
            | inr f ↦ inr (c.1 e r f)
          ]),
    )

-- In the closed state a request is admitted and the breaker stays closed until it is settled.
acquire_closed_state :
    (now : ℕ) (cb : CircuitBreaker)
    → cb.state ≡ circuit_closed
    → (acquire now cb).0.state ≡ circuit_closed
unfolding acquire
acquire_closed_state now cb h = ground arith

release_state : (p : Permit) (cb : CircuitBreaker) → (release_permit p cb).state ≡ cb.state
unfolding release_permit
release_state p cb = ground arith

-- A world in which every call fails with `e`, and no context ends a wait.
abbrev pub AlwaysFails : Error → (ℕ → Attempt) → Type 0
AlwaysFails e world = (i : ℕ) → ((world i).outcome ≡ some e) × ((world i).ctx_done ≡ none)

Exhausting : ℕ → Error → ℕ → LoopState → Type 0
Exhausting n e left s =
    (s.breaker.state ≡ circuit_closed)
    × (calls s.actions + left ≡ n)
    × (left ≡ 0 → s.last_err ≡ some e)

Exhausted : ℕ → Error → Execution → Type 0
Exhausted n e x = (calls x.actions ≡ n) × (x.result ≡ some e)

after_wait-Exhausting :
    (cfg : RetryConfig) (number n left : ℕ) (w : Attempt) (e : Error) (st : LoopState)
    → w.ctx_done ≡ none
    → st.breaker.state ≡ circuit_closed
    → calls st.actions + left ≡ n
    → Holds (Exhausting n e left) (Exhausted n e) (after_wait cfg number w e st)
unfolding after_wait Exhausting
after_wait-Exhausting cfg number n left w e st d h k =
    rw d (h, omega (arith, calls-append st.actions), λ _. refl)

attempt-Exhausting :
    (cfg : RetryConfig) (number n left : ℕ) (w : Attempt) (e : Error) (st : LoopState)
    → retryable cfg e ≡ true
    → w.outcome ≡ some e
    → w.ctx_done ≡ none
    → Exhausting n e (suc left) st
    → Holds (Exhausting n e left) (Exhausted n e) (attempt cfg (left == 0) number w st)
unfolding Exhausting Exhausted
attempt-Exhausting cfg number n left w e st r out d h =
    let P = Holds (Exhausting n e left) (Exhausted n e) in
    attempt_cases P cfg (left == 0) number w st (λ g. absurd (no_grant g)) (λ p g o. cc)
      (λ p x g o.
        failure_cases P cfg (left == 0) number w p x _
          (λ why. (ground (arith, calls-append st.actions (called ∷ [])), sym o ∙ out))
          (λ _ _.
            let same : x ≡ e = cc in
            rw same (
              after_wait-Exhausting cfg number n left w e _ d
                (release_state p (acquire w.asked_at st.breaker).0
                  ∙ acquire_closed_state w.asked_at st.breaker h.0)
                (omega (arith, calls-append st.actions (called ∷ []))))))
  where
    no_grant : (acquire w.asked_at st.breaker).1 ≡ none → ⊥
    no_grant g = cc (g, acquire_closed w.asked_at st.breaker h.0)

attempts_pos : (m : ℤ) → attempts_of m ≢ 0
attempts_pos (pos n) e = ground arith
attempts_pos (negsuc n) e = omega arith

-- With a closed breaker, an error that is retried and no cancellation: a client that always fails is
-- called exactly `MaxAttempts` times (once, for a number below 1), and the run returns its error.
pub execute_exhausts :
    (cfg : RetryConfig) (world : ℕ → Attempt) (cb : CircuitBreaker) (e : Error)
    → cb.state ≡ circuit_closed
    → retryable cfg e ≡ true
    → AlwaysFails e world
    → (calls (execute cfg world cb).actions ≡ attempts_of cfg.max_attempts)
      × ((execute cfg world cb).result ≡ some e)
unfolding execute Exhausting Exhausted
execute_exhausts cfg world cb e h r w =
    let n = attempts_of cfg.max_attempts in
    loop_rule cfg world (Exhausting n e) (Exhausted n e) (λ st k. (omega arith, k.2 refl))
      (λ left i st k. attempt-Exhausting cfg (i + 1) n left (world i) e st r (w i).0 (w i).1 k) n 0
      _ (h, omega arith, λ z. absurd (attempts_pos cfg.max_attempts z))
