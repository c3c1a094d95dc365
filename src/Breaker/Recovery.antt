-- ===== src/Breaker/Recovery.antt =====
-- The way back: the half-open window closes the breaker after enough successful probes, and one
-- failure or a stalled window opens it again.
use llm_go_sdk.Base.{
  Bool-cases, List, [], arith, false, inl, inr, leb, length, none, not, some, suc, true, zero, ℕ,
  ◌&&◌, ◌+◌, ◌<◌, ◌==◌, ◌↔◌, ◌∷◌, ◌≡◌, ◌≢◌, ◌≤◌, ◌⊎◌,
}
use llm_go_sdk.Breaker.Callbacks.{circuit_closed, circuit_half_open, circuit_open}
use llm_go_sdk.Breaker.{
  CircuitBreaker, Permit, acquire, record_failure_permit, record_success_permit,
}

-- One probe: admitted at `t`, and successful at `u`.
probe : ℕ → ℕ → CircuitBreaker → CircuitBreaker
probe t u cb =
    record_success_permit u (record { half_open = true; generation = cb.generation })
      (acquire t cb).0

-- Probes one after the other.
unfoldable pub probe_times : List (ℕ × ℕ) → CircuitBreaker → CircuitBreaker
probe_times [] cb = cb
probe_times ((t, u) ∷ ts) cb =
    let (cb', grant) = acquire t cb in
    elim grant [
      | none ↦ probe_times ts cb'
      | some p ↦ probe_times ts (record_success_permit u p cb')
    ]

-- Each probe starts before the window, which the success before it pushed out, has passed.
abbrev pub IsTimely : ℕ → ℕ → List (ℕ × ℕ) → Type 0
IsTimely last window [] = Unit
IsTimely last window ((t, u) ∷ ts) = (t < last + window) × IsTimely u window ts

-- A half-open breaker with no probe out, `n` successes, and a threshold of `suc limit`.
abbrev pub IsHalfOpenWith : ℕ → ℕ → ℕ → ℕ → CircuitBreaker → Type 0
IsHalfOpenWith limit window last n cb =
    (cb.state ≡ circuit_half_open)
    × (cb.half_open_max ≡ suc limit)
    × (cb.half_open_timeout ≡ suc window)
    × (cb.last_state_change ≡ last)
    × (cb.half_open_count ≡ 0)
    × (cb.successes ≡ n)

probe_admitted :
    (t limit window last n : ℕ) (cb : CircuitBreaker)
    → IsHalfOpenWith limit window last n cb
    → t < last + suc window
    → (acquire t cb).1 ≡ some (record { half_open = true; generation = cb.generation })
unfolding acquire
probe_admitted t limit window last n cb h lt = ground arith

-- The same with its one probe out.
IsProbing : ℕ → ℕ → ℕ → ℕ → CircuitBreaker → Type 0
IsProbing limit window n gen cb =
    (cb.state ≡ circuit_half_open)
    × (cb.half_open_max ≡ suc limit)
    × (cb.half_open_timeout ≡ suc window)
    × (cb.half_open_count ≡ 1)
    × (cb.successes ≡ n)
    × (cb.generation ≡ gen)

acquire-IsProbing :
    (t limit window last n : ℕ) (cb : CircuitBreaker)
    → IsHalfOpenWith limit window last n cb
    → t < last + suc window
    → IsProbing limit window n cb.generation (acquire t cb).0
unfolding acquire IsProbing
acquire-IsProbing t limit window last n cb h lt = ground arith

success_counts :
    (u limit window n gen : ℕ) (cb : CircuitBreaker)
    → IsProbing limit window n gen cb
    → n < limit
    → IsHalfOpenWith limit window u
        (suc n)
        (record_success_permit u (record { half_open = true; generation = gen }) cb)
unfolding record_success_permit IsProbing
success_counts u limit window n gen cb h le = ground arith

success_closes :
    (u limit window gen : ℕ) (cb : CircuitBreaker)
    → IsProbing limit window limit gen cb
    → (let p : Permit = record { half_open = true; generation = gen } in
        ((record_success_permit u p cb).state ≡ circuit_closed)
        × ((record_success_permit u p cb).failures ≡ 0))
unfolding record_success_permit IsProbing
success_closes u limit window gen cb h = ground arith

probe_counts :
    (t u limit window last n : ℕ) (cb : CircuitBreaker)
    → IsHalfOpenWith limit window last n cb
    → t < last + suc window
    → n < limit
    → IsHalfOpenWith limit window u (suc n) (probe t u cb)
unfolding probe
probe_counts t u limit window last n cb h lt le =
    success_counts u limit window n cb.generation (acquire t cb).0
      (acquire-IsProbing t limit window last n cb h lt) le

probe_closes :
    (t u limit window last : ℕ) (cb : CircuitBreaker)
    → IsHalfOpenWith limit window last limit cb
    → t < last + suc window
    → ((probe t u cb).state ≡ circuit_closed) × ((probe t u cb).failures ≡ 0)
unfolding probe
probe_closes t u limit window last cb h lt =
    success_closes u limit window cb.generation (acquire t cb).0
      (acquire-IsProbing t limit window last limit cb h lt)

probe_times_step :
    (t u limit window last n : ℕ) (ts : List (ℕ × ℕ)) (cb : CircuitBreaker)
    → IsHalfOpenWith limit window last n cb
    → t < last + suc window
    → probe_times ((t, u) ∷ ts) cb ≡ probe_times ts (probe t u cb)
unfolding probe_times probe
probe_times_step t u limit window last n ts cb h lt =
    rw (probe_admitted t limit window last n cb h lt, probe_times)

-- A half-open breaker with no probe out that needs `k` more successes: `k` probes, each in time and
-- successful, close it, with its failure count at 0.
pub probe_times_closes :
    (k limit window last n : ℕ) (ts : List (ℕ × ℕ)) (cb : CircuitBreaker)
    → IsHalfOpenWith limit window last n cb
    → n + suc k ≡ suc limit
    → length ts ≡ suc k
    → IsTimely last (suc window) ts
    → ((probe_times ts cb).state ≡ circuit_closed) × ((probe_times ts cb).failures ≡ 0)
unfolding probe_times
probe_times_closes k limit window last n [] cb h e l timely = absurd (omega arith)
probe_times_closes zero limit window last n ((t, u) ∷ []) cb h e l timely =
    let full : n ≡ limit = omega arith in
    rw (probe_times_step t u limit window last n [] cb h timely.0)
      (probe_closes t u limit window last cb (rw full at h) timely.0)
probe_times_closes zero limit window last n (_ ∷ _ ∷ ts) cb h e l timely = absurd (omega arith)
probe_times_closes (suc k) limit window last n ((t, u) ∷ ts) cb h e l timely =
    rw (probe_times_step t u limit window last n ts cb h timely.0) (
      probe_times_closes k limit window u (suc n) ts (probe t u cb)
        (probe_counts t u limit window last n cb h timely.0 (omega arith)) (omega arith)
        (omega arith) timely.1)

-- A failed probe opens a half-open breaker again, at once and whatever it had counted; so does a
-- failure of a request that was admitted before the window.
pub half_open_failure_reopens :
    (now : ℕ) (p : Permit) (cb : CircuitBreaker)
    → cb.state ≡ circuit_half_open
    → 0 < cb.half_open_count
    → p.half_open && not (p.generation == cb.generation) ≡ false
    → ((record_failure_permit now p cb).state ≡ circuit_open)
      × ((record_failure_permit now p cb).last_failure_time ≡ now)
      × ((record_failure_permit now p cb).successes ≡ 0)
      × ((record_failure_permit now p cb).half_open_count ≡ 0)
unfolding record_failure_permit
half_open_failure_reopens now p cb s c fresh = ground arith

-- With positive settings: a window that has seen no success for its whole timeout is opened again by the next request, which
-- is refused; before that a request is admitted exactly while fewer than `half_open_max` probes are
-- out.
pub acquire_half_open :
    (now : ℕ) (cb : CircuitBreaker)
    → cb.state ≡ circuit_half_open
    → 0 < cb.half_open_timeout
    → 0 < cb.half_open_max
    → ((cb.last_state_change + cb.half_open_timeout ≤ now)
        × ((acquire now cb).1 ≡ none)
        × ((acquire now cb).0.state ≡ circuit_open)
        × ((acquire now cb).0.last_failure_time ≡ now))
      ⊎ ((now < cb.last_state_change + cb.half_open_timeout)
          × ((acquire now cb).0.state ≡ circuit_half_open)
          × (((acquire now cb).1 ≢ none) ↔ (cb.half_open_count < cb.half_open_max)))
unfolding acquire
acquire_half_open now cb s t m =
    elim (Bool-cases (leb (cb.last_state_change + cb.half_open_timeout) now)) [
      | inl late ↦ inl (ground arith)
      | inr early ↦ inr (ground arith)
    ]
