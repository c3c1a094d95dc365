-- ===== src/Breaker/Invariant.antt =====
-- What holds of the breaker between two calls, whatever the calls and their order.
use llm_go_sdk.Base.{
  List, Option-cases, [], arith, false, inl, inr, refl, ℕ, ◌%◌, ◌+◌, ◌-◌, ◌<◌, ◌^◌, ◌∷◌, ◌≡◌, ◌≤◌,
}
use llm_go_sdk.Breaker.Callbacks.{circuit_closed, circuit_half_open, circuit_open}
use llm_go_sdk.Breaker.{
  CircuitBreaker, CircuitBreakerOption, Permit, acquire, acquire_locked, add_bucket, allow,
  any_positive, apply_option, apply_options, new_circuit_breaker, public_permit, record_failure,
  record_failure_locked, record_failure_permit, record_success, record_success_locked,
  record_success_permit, release_permit, reset, retire_bucket, zero_breaker,
}

-- The only bucket is the current generation's, and it is not empty.
unfoldable pub Marks : ℕ → List (ℕ × ℕ) → Type 0
Marks gen [] = Unit
Marks gen ((g, n) ∷ []) = (g ≡ gen) × (0 < n)
Marks gen (_ ∷ _ ∷ _) = ⊥

pub retire_bucket-Marks :
    (gen g : ℕ) (m : List (ℕ × ℕ)) → Marks gen m → Marks gen (retire_bucket g m)
unfolding retire_bucket Marks
retire_bucket-Marks gen g [] h = tt
retire_bucket-Marks gen g ((k, n) ∷ []) h = ground arith
retire_bucket-Marks gen g (_ ∷ _ ∷ _) h = absurd h

pub add_bucket-Marks : (gen : ℕ) (m : List (ℕ × ℕ)) → Marks gen m → Marks gen (add_bucket gen m)
unfolding add_bucket Marks
add_bucket-Marks gen [] h = ground arith
add_bucket-Marks gen ((k, n) ∷ []) h = ground arith
add_bucket-Marks gen (_ ∷ _ ∷ _) h = absurd h

pub any_positive-Marks :
    (gen : ℕ) (m : List (ℕ × ℕ)) → Marks gen m → any_positive m ≡ false → m ≡ []
unfolding any_positive Marks
any_positive-Marks gen [] h e = refl
any_positive-Marks gen ((k, n) ∷ []) h e = ground arith
any_positive-Marks gen (_ ∷ _ ∷ _) h e = absurd h

Marks-nil : (gen : ℕ) → Marks gen []
unfolding Marks
Marks-nil gen = tt

retire_bucket_nil : (g : ℕ) → retire_bucket g [] ≡ []
unfolding retire_bucket
retire_bucket_nil g = refl

-- A zero value has `max_failures` 0 and no failure yet.
pub record Inv (cb : CircuitBreaker) : Type 0 where
  pub closed_failures : cb.state ≡ circuit_closed → cb.failures ≤ cb.max_failures - 1
  pub closed_counters : cb.state ≡ circuit_closed → (cb.successes ≡ 0) × (cb.half_open_count ≡ 0)
  pub open_counters : cb.state ≡ circuit_open → (cb.successes ≡ 0) × (cb.half_open_count ≡ 0)
  pub half_open_successes : cb.state ≡ circuit_half_open → cb.successes < cb.half_open_max
  pub half_open_probes : cb.state ≡ circuit_half_open → cb.half_open_count ≤ cb.half_open_max
  pub half_open_settled : cb.state ≡ circuit_half_open → cb.inflight_closed ≡ []
  pub marks : Marks cb.generation cb.inflight_closed

acquire_locked-Inv : (now : ℕ) (cb : CircuitBreaker) → Inv cb → Inv (acquire_locked now cb).0
unfolding acquire_locked
acquire_locked-Inv now cb v = ground (
  arith,
  add_bucket-Marks cb.generation cb.inflight_closed v.marks,
  any_positive-Marks cb.generation cb.inflight_closed v.marks,
)

record_success_locked-Inv :
    (now : ℕ) (p : Permit) (cb : CircuitBreaker) → Inv cb → Inv (record_success_locked now p cb)
unfolding record_success_locked
record_success_locked-Inv now p cb v = ground (
  arith,
  retire_bucket-Marks cb.generation p.generation cb.inflight_closed v.marks,
  retire_bucket_nil p.generation,
)

record_failure_locked-Inv :
    (now : ℕ) (p : Permit) (cb : CircuitBreaker) → Inv cb → Inv (record_failure_locked now p cb)
unfolding record_failure_locked
record_failure_locked-Inv now p cb v = ground (
  arith,
  retire_bucket-Marks cb.generation p.generation cb.inflight_closed v.marks,
  retire_bucket_nil p.generation,
)

release_permit-Inv : (p : Permit) (cb : CircuitBreaker) → Inv cb → Inv (release_permit p cb)
unfolding release_permit
release_permit-Inv p cb v = ground (
  arith,
  retire_bucket-Marks cb.generation p.generation cb.inflight_closed v.marks,
  retire_bucket_nil p.generation,
)

reset-Inv : (now : ℕ) (cb : CircuitBreaker) → Inv (reset now cb)
unfolding reset
reset-Inv now cb = ground (arith, Marks-nil ((cb.generation + 1) % 2 ^ 64))

zero_breaker-Inv : Inv zero_breaker
unfolding zero_breaker
zero_breaker-Inv = ground (arith, Marks-nil 0)

-- The breaker is closed, has counted nothing, and no request is in flight.
abbrev pub IsFresh : CircuitBreaker → Type 0
IsFresh cb =
    (cb.state ≡ circuit_closed)
    × (cb.failures ≡ 0)
    × (cb.successes ≡ 0)
    × (cb.half_open_count ≡ 0)
    × (cb.inflight_closed ≡ [])

pub IsFresh-Inv : (cb : CircuitBreaker) → IsFresh cb → Inv cb
IsFresh-Inv cb h = ground (arith, Marks-nil cb.generation)

apply_option-IsFresh :
    (cb : CircuitBreaker) (o : CircuitBreakerOption) → IsFresh cb → IsFresh (apply_option cb o)
unfolding apply_option
apply_option-IsFresh cb o h = ground arith

pub apply_options-IsFresh :
    (cb : CircuitBreaker) (os : List CircuitBreakerOption)
    → IsFresh cb
    → IsFresh (apply_options cb os)
unfolding apply_options
apply_options-IsFresh cb [] h = h
apply_options-IsFresh cb (o ∷ os) h =
    apply_options-IsFresh (apply_option cb o) os (apply_option-IsFresh cb o h)

pub new_circuit_breaker-Inv :
    (now : ℕ) (os : List CircuitBreakerOption) → Inv (new_circuit_breaker now os)
unfolding new_circuit_breaker zero_breaker
new_circuit_breaker-Inv now os =
    IsFresh-Inv _ (apply_options-IsFresh _ os (refl, refl, refl, refl, refl))

-- A call on the breaker: the public methods, and those that the middleware calls with its permit.
pub data BreakerCall : Type 0 where
  allows acquires reports_success reports_failure resets : BreakerCall
  permit_success permit_failure permit_release : Permit → BreakerCall

unfoldable pub step : CircuitBreaker → ℕ × BreakerCall → CircuitBreaker
step cb (now, allows) = (allow now cb).0
step cb (now, acquires) = (acquire now cb).0
step cb (now, reports_success) = record_success now cb
step cb (now, reports_failure) = record_failure now cb
step cb (now, resets) = reset now cb
step cb (now, permit_success p) = record_success_permit now p cb
step cb (now, permit_failure p) = record_failure_permit now p cb
step cb (now, permit_release p) = release_permit p cb

unfoldable pub run : CircuitBreaker → List (ℕ × BreakerCall) → CircuitBreaker
run cb [] = cb
run cb (c ∷ cs) = run (step cb c) cs

permits-Inv :
    (ps : List Permit) (cb : CircuitBreaker) → Inv cb → Inv (record cb { public_permits = ps })
permits-Inv ps cb v = ground arith

allow-Inv : (now : ℕ) (cb : CircuitBreaker) → Inv cb → Inv (allow now cb).0
unfolding allow
allow-Inv now cb v = elim (Option-cases (acquire_locked now cb).1) [
  | inl e ↦ rw (e, allow) (acquire_locked-Inv now cb v)
  | inr (p, e) ↦
      rw (e, allow) (permits-Inv _ (acquire_locked now cb).0 (acquire_locked-Inv now cb v))
]

public_permit-Inv : (cb : CircuitBreaker) → Inv cb → Inv (public_permit cb).0
unfolding public_permit
public_permit-Inv cb v = ground arith

-- Every call, at any time and with any permit, keeps the invariant.
pub step-Inv : (cb : CircuitBreaker) (c : ℕ × BreakerCall) → Inv cb → Inv (step cb c)
unfolding step acquire record_success record_failure record_success_permit record_failure_permit
step-Inv cb (now, allows) v = allow-Inv now cb v
step-Inv cb (now, acquires) v = acquire_locked-Inv now cb v
step-Inv cb (now, reports_success) v =
    record_success_locked-Inv now (public_permit cb).1 (public_permit cb).0 (public_permit-Inv cb v)
step-Inv cb (now, reports_failure) v =
    record_failure_locked-Inv now (public_permit cb).1 (public_permit cb).0 (public_permit-Inv cb v)
step-Inv cb (now, resets) v = reset-Inv now cb
step-Inv cb (now, permit_success p) v = record_success_locked-Inv now p cb v
step-Inv cb (now, permit_failure p) v = record_failure_locked-Inv now p cb v
step-Inv cb (now, permit_release p) v = release_permit-Inv p cb v

run-Inv : (cb : CircuitBreaker) (cs : List (ℕ × BreakerCall)) → Inv cb → Inv (run cb cs)
unfolding run
run-Inv cb [] v = v
run-Inv cb (c ∷ cs) v = run-Inv (step cb c) cs (step-Inv cb c v)

-- A breaker built with any options, after any calls in any order, with permits used once, twice or
-- never: while closed it counts fewer failures than its threshold; while half-open it has fewer
-- successes than close it, at most `half_open_max` probes out, and no request of the closed state in
-- flight; and the requests in flight are all of the current generation.
pub run-new_circuit_breaker-Inv :
    (now : ℕ) (os : List CircuitBreakerOption) (cs : List (ℕ × BreakerCall))
    → Inv (run (new_circuit_breaker now os) cs)
run-new_circuit_breaker-Inv now os cs = run-Inv _ cs (new_circuit_breaker-Inv now os)

-- The same of a zero value, which no constructor has seen.
pub run-zero_breaker-Inv : (cs : List (ℕ × BreakerCall)) → Inv (run zero_breaker cs)
run-zero_breaker-Inv cs = run-Inv _ cs zero_breaker-Inv
