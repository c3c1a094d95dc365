-- ===== src/Retry/Permits.antt =====
-- The permits that a run of the retry loop takes and gives back.
use llm_go_sdk.Base.{
  Bool, Bool-cases, Option-cases, [], arith, false, inl, inr, none, refl, some, true, ℕ, ◌+◌, ◌==◌,
  ◌∷◌, ◌≡◌, ◌⊎◌,
}
use llm_go_sdk.Errors.{Error}
use llm_go_sdk.Breaker.Callbacks.{circuit_closed, circuit_half_open}
use llm_go_sdk.Breaker.{
  CircuitBreaker, Permit, acquire, add_bucket, record_failure_permit, record_success_permit,
  release_permit, retire_bucket,
}
use llm_go_sdk.Breaker.Invariant.{}
use llm_go_sdk.Retry.{
  Attempt, LoopState, RetryConfig, after_wait, attempt, attempts_of, execute, is_provider_unhealthy,
  settle,
}
use llm_go_sdk.Retry.Rule.{Holds, attempt_cases, failure_cases, loop_rule}

-- No request is in flight, and no probe is out.
abbrev pub IsIdle : CircuitBreaker → Type 0
IsIdle cb = (cb.inflight_closed ≡ []) × (cb.half_open_count ≡ 0)

-- The breaker has admitted one request, under the permit `p`, and no other.
pub HoldsOne : Permit → CircuitBreaker → Type 0
HoldsOne p cb =
    (p.generation ≡ cb.generation)
    × (((p.half_open ≡ false)
          × (cb.state ≡ circuit_closed)
          × (cb.inflight_closed ≡ (p.generation, 1) ∷ [])
          × (cb.half_open_count ≡ 0))
        ⊎ ((p.half_open ≡ true)
            × (cb.state ≡ circuit_half_open)
            × (cb.inflight_closed ≡ [])
            × (cb.half_open_count ≡ 1)))

add_bucket_nil : (g : ℕ) → add_bucket g [] ≡ (g, 1) ∷ []
unfolding add_bucket
add_bucket_nil g = refl

retire_bucket_one : (g : ℕ) → retire_bucket g ((g, 1) ∷ []) ≡ []
unfolding retire_bucket
retire_bucket_one g = ground arith

pub acquire_refused :
    (now : ℕ) (cb : CircuitBreaker)
    → IsIdle cb
    → (acquire now cb).1 ≡ none
    → IsIdle (acquire now cb).0
unfolding acquire
acquire_refused now cb h e = ground arith

pub acquire_granted :
    (now : ℕ) (cb : CircuitBreaker) (p : Permit)
    → IsIdle cb
    → (acquire now cb).1 ≡ some p
    → HoldsOne p (acquire now cb).0
unfolding acquire HoldsOne
acquire_granted now cb p h e = ground (arith, add_bucket_nil cb.generation)

pub success-IsIdle :
    (now : ℕ) (p : Permit) (cb : CircuitBreaker)
    → HoldsOne p cb
    → IsIdle (record_success_permit now p cb)
unfolding record_success_permit HoldsOne
success-IsIdle now p cb h = ground (arith, retire_bucket_one p.generation)

failure-IsIdle :
    (now : ℕ) (p : Permit) (cb : CircuitBreaker)
    → HoldsOne p cb
    → IsIdle (record_failure_permit now p cb)
unfolding record_failure_permit HoldsOne
failure-IsIdle now p cb h = ground (arith, retire_bucket_one p.generation)

pub release-IsIdle :
    (p : Permit) (cb : CircuitBreaker) → HoldsOne p cb → IsIdle (release_permit p cb)
unfolding release_permit HoldsOne
release-IsIdle p cb h = ground (arith, retire_bucket_one p.generation)

pub settle-IsIdle :
    (now : ℕ) (p : Permit) (e : Error) (cb : CircuitBreaker)
    → HoldsOne p cb
    → IsIdle (settle now p e cb)
unfolding settle
settle-IsIdle now p e cb h = elim (Bool-cases (is_provider_unhealthy e)) [
  | inl u ↦ rw u (failure-IsIdle now p cb h)
  | inr u ↦ rw u (release-IsIdle p cb h)
]

pub after_wait-IsIdle :
    (cfg : RetryConfig) (number : ℕ) (w : Attempt) (e : Error) (st : LoopState)
    → IsIdle st.breaker
    → Holds (λ s. IsIdle s.breaker) (λ x. IsIdle x.breaker) (after_wait cfg number w e st)
unfolding after_wait
after_wait-IsIdle cfg number w e st h = elim (Option-cases w.ctx_done) [
  | inl d ↦ rw d h
  | inr (x, d) ↦ rw d h
]

attempt-IsIdle :
    (cfg : RetryConfig) (last : Bool) (number : ℕ) (w : Attempt) (st : LoopState)
    → IsIdle st.breaker
    → Holds (λ s. IsIdle s.breaker) (λ x. IsIdle x.breaker) (attempt cfg last number w st)
attempt-IsIdle cfg last number w st h =
    attempt_cases (Holds (λ s. IsIdle s.breaker) (λ x. IsIdle x.breaker)) cfg last number w st
      (λ e. acquire_refused w.asked_at st.breaker h e)
      (λ p e _. success-IsIdle w.returned_at p _ (acquire_granted w.asked_at st.breaker p h e))
      (λ p x e o.
        let held = acquire_granted w.asked_at st.breaker p h e in
        failure_cases (Holds (λ s. IsIdle s.breaker) (λ x. IsIdle x.breaker)) cfg last number w p x
          _ (λ _. settle-IsIdle w.returned_at p x _ held)
          (λ _ _. after_wait-IsIdle cfg number w x _ (release-IsIdle p _ held)))

-- A breaker with nothing in flight has nothing in flight again after a run of the retry loop, however
-- many attempts it made and however it ended: every permit was given back.
pub execute-IsIdle :
    (cfg : RetryConfig) (world : ℕ → Attempt) (cb : CircuitBreaker)
    → IsIdle cb
    → IsIdle (execute cfg world cb).breaker
unfolding execute
execute-IsIdle cfg world cb h =
    loop_rule cfg world (λ _ s. IsIdle s.breaker) (λ x. IsIdle x.breaker) (λ st k. k)
      (λ left i st k. attempt-IsIdle cfg (left == 0) (i + 1) (world i) st k)
      (attempts_of cfg.max_attempts) 0 _ h
