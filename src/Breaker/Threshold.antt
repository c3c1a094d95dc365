-- ===== src/Breaker/Threshold.antt =====
-- When the breaker opens, what it refuses while open, and when it lets a probe through.
use llm_go_sdk.Base.{
  List, Option-cases, [], arith, false, inl, inr, length, none, refl, some, suc, true, ℕ, ◌++◌, ◌+◌,
  ◌<◌, ◌↔◌, ◌∷◌, ◌≡◌, ◌≢◌, ◌≤◌, ◌⊎◌,
}
use llm_go_sdk.Breaker.Callbacks.{circuit_closed, circuit_half_open, circuit_open}
use llm_go_sdk.Breaker.{
  CircuitBreaker, acquire, has_inflight_closed_locked, normalize_locked, record_failure_permit,
}

-- `n` requests in a row that are admitted and then fail, each at its own pair of times.
unfoldable pub fail_times : List (ℕ × ℕ) → CircuitBreaker → CircuitBreaker
fail_times [] cb = cb
fail_times ((t, u) ∷ ts) cb =
    let (cb', grant) = acquire t cb in
    elim grant [ none ↦ fail_times ts cb' | some p ↦ fail_times ts (record_failure_permit u p cb') ]

-- A closed breaker whose configuration is positive.
abbrev pub IsClosedWith : ℕ → ℕ → CircuitBreaker → Type 0
IsClosedWith limit n cb =
    (cb.state ≡ circuit_closed) × (cb.max_failures ≡ suc limit) × (cb.failures ≡ n)

failed_request : ℕ → ℕ → CircuitBreaker → CircuitBreaker
failed_request t u cb =
    record_failure_permit u (record { half_open = false; generation = cb.generation })
      (acquire t cb).0

pub acquire_closed :
    (t : ℕ) (cb : CircuitBreaker)
    → cb.state ≡ circuit_closed
    → (acquire t cb).1 ≡ some (record { half_open = false; generation = cb.generation })
unfolding acquire
acquire_closed t cb e = ground arith

failed_request_counts :
    (t u limit n : ℕ) (cb : CircuitBreaker)
    → IsClosedWith limit n cb
    → suc n < suc limit
    → IsClosedWith limit (suc n) (failed_request t u cb)
unfolding failed_request acquire record_failure_permit
failed_request_counts t u limit n cb h lt = ground arith

failed_request_opens :
    (t u limit : ℕ) (cb : CircuitBreaker)
    → IsClosedWith limit limit cb
    → ((failed_request t u cb).state ≡ circuit_open)
      × ((failed_request t u cb).last_failure_time ≡ u)
unfolding failed_request acquire record_failure_permit
failed_request_opens t u limit cb h = ground arith

fail_times_step :
    (t u : ℕ) (ts : List (ℕ × ℕ)) (cb : CircuitBreaker)
    → cb.state ≡ circuit_closed
    → fail_times ((t, u) ∷ ts) cb ≡ fail_times ts (failed_request t u cb)
unfolding fail_times failed_request
fail_times_step t u ts cb e = rw (acquire_closed t cb e, fail_times)

fail_times_counts :
    (limit n k : ℕ) (ts : List (ℕ × ℕ)) (cb : CircuitBreaker)
    → IsClosedWith limit n cb
    → n + length ts ≡ k
    → k ≤ limit
    → IsClosedWith limit k (fail_times ts cb)
unfolding fail_times
fail_times_counts limit n k [] cb h e le = (h.0, h.1, omega arith)
fail_times_counts limit n k ((t, u) ∷ ts) cb h e le = rw (fail_times_step t u ts cb h.0) (
    fail_times_counts limit (suc n) k ts (failed_request t u cb)
      (failed_request_counts t u limit n cb h (omega arith)) (omega arith) le)

fail_times-append :
    (ts us : List (ℕ × ℕ)) (cb : CircuitBreaker)
    → fail_times (ts ++ us) cb ≡ fail_times us (fail_times ts cb)
unfolding fail_times
fail_times-append [] us cb = refl
fail_times-append ((t, u) ∷ ts) us cb = elim (Option-cases (acquire t cb).1) [
  | inl e ↦ rw (e, fail_times) (fail_times-append ts us (acquire t cb).0)
  | inr (p, e) ↦
      rw (e, fail_times) (fail_times-append ts us (record_failure_permit u p (acquire t cb).0))
]

-- A closed breaker with no failure counted and a threshold of `suc limit`: after `limit` requests in
-- a row that are admitted and fail it is still closed, and one more opens it at the time of that
-- failure.
pub fail_times_threshold :
    (limit t u : ℕ) (ts : List (ℕ × ℕ)) (cb : CircuitBreaker)
    → IsClosedWith limit 0 cb
    → length ts ≡ limit
    → ((fail_times ts cb).state ≡ circuit_closed)
      × ((fail_times (ts ++ ((t, u) ∷ [])) cb).state ≡ circuit_open)
      × ((fail_times (ts ++ ((t, u) ∷ [])) cb).last_failure_time ≡ u)
fail_times_threshold limit t u ts cb h e =
    let before : IsClosedWith limit limit (fail_times ts cb) =
      fail_times_counts limit 0 limit ts cb h (omega arith) (omega arith) in
    let opened = failed_request_opens t u limit (fail_times ts cb) before in
    rw (fail_times-append ts ((t, u) ∷ []) cb, fail_times_step t u [] (fail_times ts cb) before.0)
      (unfold fail_times in (before.0, opened.0, opened.1))

-- An open breaker admits a request exactly when the reset timeout has passed since the last failure
-- and no request of the closed state is in flight.
pub acquire_open_iff :
    (now : ℕ) (cb : CircuitBreaker)
    → cb.state ≡ circuit_open
    → 0 < cb.reset_timeout
    → ((acquire now cb).1 ≢ none)
      ↔ ((cb.last_failure_time + cb.reset_timeout ≤ now) × (has_inflight_closed_locked cb ≡ false))
unfolding acquire has_inflight_closed_locked
acquire_open_iff now cb s t = ground arith

-- The outcome of a call in the open state, on each branch: a refusal leaves the breaker as it was,
-- and an admitted request is the one probe of a half-open window that starts now.
pub acquire_open :
    (now : ℕ) (cb : CircuitBreaker)
    → cb.state ≡ circuit_open
    → (((acquire now cb).1 ≡ none) × ((acquire now cb).0 ≡ normalize_locked cb))
      ⊎ (((acquire now cb).1 ≡ some (record { half_open = true; generation = cb.generation }))
          × ((acquire now cb).0.state ≡ circuit_half_open)
          × ((acquire now cb).0.half_open_count ≡ 1)
          × ((acquire now cb).0.successes ≡ 0)
          × ((acquire now cb).0.last_state_change ≡ now))
unfolding acquire
acquire_open now cb s = ground arith
