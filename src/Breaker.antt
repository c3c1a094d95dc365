-- ===== src/Breaker.antt =====
-- pkg/middleware/resilience/resilience_circuit_breaker.go: the circuit breaker. A method returns the
-- new record; every method holds `cb.mu` throughout, so a method is one atomic step. `now` is the
-- clock at the call, in nanoseconds from Go's zero time. The configuration fields hold no negative
-- number: an option stores positive values only, and a zero value holds 0.
pub mod Callbacks
use llm_go_sdk.Base.{
  Bool, List, Option, [], false, if◌then◌else◌, leb, ltb, none, not, some, true, ℕ, ◌%◌, ◌&&◌, ◌*◌,
  ◌++◌, ◌+◌, ◌-◌, ◌==◌, ◌^◌, ◌∷◌,
}
use llm_go_sdk.Base.Int.{pos, ℤ}
pub mod Invariant
pub mod Threshold
pub mod Queue
pub mod Transitions
pub mod Recovery
pub mod Generations
mod Examples
use Callbacks.{
  Callback, CallbackQueue, CircuitState, circuit_closed, circuit_half_open, circuit_open,
  empty_queue, enqueue, same_state,
}

pub record Permit : Type 0 where
  pub half_open : Bool
  pub generation : ℕ

pub record CircuitBreaker : Type 0 where
  pub max_failures : ℕ
  pub reset_timeout : ℕ
  pub half_open_timeout : ℕ
  pub half_open_set : Bool
  pub half_open_max : ℕ
  pub on_state_change : Option Callback
  pub on_callback_panic : Bool
  pub state : CircuitState
  pub failures : ℕ
  pub successes : ℕ
  pub half_open_count : ℕ
  pub inflight_closed : List (ℕ × ℕ)
  pub public_permits : List Permit
  pub generation : ℕ  -- uint64
  pub last_failure_time : ℕ
  pub last_state_change : ℕ
  pub callbacks : CallbackQueue

abbrev pub second : ℕ
second = 1000000000

abbrev pub default_circuit_max_failures : ℕ
default_circuit_max_failures = 5

abbrev pub default_circuit_reset_timeout : ℕ
default_circuit_reset_timeout = 30 * second

abbrev pub default_circuit_half_open_timeout : ℕ
default_circuit_half_open_timeout = 30 * second

abbrev pub default_circuit_half_open_max : ℕ
default_circuit_half_open_max = 3

-- The zero value of the type, which is ready to use.
unfoldable pub zero_breaker : CircuitBreaker
unfolding empty_queue
zero_breaker = record {
  max_failures = 0;
  reset_timeout = 0;
  half_open_timeout = 0;
  half_open_set = false;
  half_open_max = 0;
  on_state_change = none;
  on_callback_panic = false;
  state = circuit_closed;
  failures = 0;
  successes = 0;
  half_open_count = 0;
  inflight_closed = [];
  public_permits = [];
  generation = 0;
  last_failure_time = 0;
  last_state_change = 0;
  callbacks = empty_queue;
}

-- The options, with their arguments.
pub data CircuitBreakerOption : Type 0 where
  with_max_failures with_reset_timeout with_half_open_timeout with_half_open_max :
      ℤ → CircuitBreakerOption
  with_on_state_change : Option Callback → CircuitBreakerOption
  with_on_callback_panic : Bool → CircuitBreakerOption

unfoldable pub apply_option : CircuitBreaker → CircuitBreakerOption → CircuitBreaker
apply_option cb (with_max_failures (pos n)) = if ltb 0 n then record cb { max_failures = n } else cb
apply_option cb (with_reset_timeout (pos d)) =
    if ltb 0 d
    then record cb {
      reset_timeout = d;
      half_open_timeout = if cb.half_open_set then cb.half_open_timeout else d;
    }
    else cb
apply_option cb (with_half_open_timeout (pos d)) =
    if ltb 0 d then record cb { half_open_timeout = d; half_open_set = true } else cb
apply_option cb (with_half_open_max (pos n)) =
    if ltb 0 n then record cb { half_open_max = n } else cb
apply_option cb (with_on_state_change f) = record cb { on_state_change = f }
apply_option cb (with_on_callback_panic set) = record cb { on_callback_panic = set }
apply_option cb _ = cb

unfoldable pub apply_options : CircuitBreaker → List CircuitBreakerOption → CircuitBreaker
apply_options cb [] = cb
apply_options cb (o ∷ os) = apply_options (apply_option cb o) os

unfoldable pub new_circuit_breaker : ℕ → List CircuitBreakerOption → CircuitBreaker
unfolding zero_breaker
new_circuit_breaker now opts =
    apply_options
      (record zero_breaker {
        max_failures = default_circuit_max_failures;
        reset_timeout = default_circuit_reset_timeout;
        half_open_timeout = default_circuit_half_open_timeout;
        half_open_max = default_circuit_half_open_max;
        last_state_change = now;
      })
      opts

abbrev or_default : ℕ → ℕ → ℕ
or_default n d = if n == 0 then d else n

unfoldable pub normalize_locked : CircuitBreaker → CircuitBreaker
normalize_locked cb = record cb {
  max_failures = or_default cb.max_failures default_circuit_max_failures;
  reset_timeout = or_default cb.reset_timeout default_circuit_reset_timeout;
  half_open_timeout = or_default cb.half_open_timeout default_circuit_half_open_timeout;
  half_open_max = or_default cb.half_open_max default_circuit_half_open_max;
}

-- The map from a generation to its requests in flight: a missing key reads 0.
unfoldable pub bucket : ℕ → List (ℕ × ℕ) → ℕ
bucket gen [] = 0
bucket gen ((g, n) ∷ m) = if g == gen then n else bucket gen m

unfoldable pub set_bucket : ℕ → ℕ → List (ℕ × ℕ) → List (ℕ × ℕ)
set_bucket gen v [] = (gen, v) ∷ []
set_bucket gen v ((g, n) ∷ m) = if g == gen then (gen, v) ∷ m else (g, n) ∷ set_bucket gen v m

unfoldable pub delete_bucket : ℕ → List (ℕ × ℕ) → List (ℕ × ℕ)
delete_bucket gen [] = []
delete_bucket gen ((g, n) ∷ m) =
    let rest = delete_bucket gen m in if g == gen then rest else (g, n) ∷ rest

unfoldable pub any_positive : List (ℕ × ℕ) → Bool
any_positive [] = false
any_positive ((g, n) ∷ m) = if ltb 0 n then true else any_positive m

unfoldable pub has_inflight_closed_locked : CircuitBreaker → Bool
has_inflight_closed_locked cb = any_positive cb.inflight_closed

unfoldable pub retire_bucket : ℕ → List (ℕ × ℕ) → List (ℕ × ℕ)
unfolding bucket set_bucket delete_bucket
retire_bucket gen m =
    let n = bucket gen m in
    if ltb 0 n then (if n == 1 then delete_bucket gen m else set_bucket gen (n - 1) m) else m

unfoldable pub retire_inflight_closed_locked : ℕ → CircuitBreaker → CircuitBreaker
retire_inflight_closed_locked gen cb = record cb {
  inflight_closed = retire_bucket gen cb.inflight_closed;
}

unfoldable pub add_bucket : ℕ → List (ℕ × ℕ) → List (ℕ × ℕ)
unfolding bucket set_bucket
add_bucket gen m = set_bucket gen (bucket gen m + 1) m

-- The counters that a change to the given state resets.
reset_counters : CircuitState → CircuitBreaker → CircuitBreaker
reset_counters circuit_closed cb = record cb { failures = 0; successes = 0; half_open_count = 0 }
reset_counters circuit_open cb = record cb { successes = 0; half_open_count = 0 }
reset_counters circuit_half_open cb = record cb { successes = 0; half_open_count = 0 }

notify : CircuitState → CircuitState → CircuitBreaker → CircuitBreaker
unfolding enqueue
notify old new cb = elim cb.on_state_change [
  | none ↦ cb
  | some f ↦ record cb {
    callbacks = enqueue cb.callbacks (record {
      callback = some f;
      panic_callback = cb.on_callback_panic;
      old_state = old;
      new_state = new;
    });
  }
]

unfoldable pub transition_to : ℕ → CircuitState → CircuitBreaker → CircuitBreaker
unfolding reset_counters notify
transition_to now new cb =
    if same_state cb.state new
    then cb
    else notify cb.state new
        (reset_counters new (record cb { state = new; last_state_change = now }))

-- `time.Since(t) >= d`.
abbrev elapsed : ℕ → ℕ → ℕ → Bool
elapsed now t d = leb (t + d) now

-- The `switch` of `acquireLocked`. `none` is a refusal.
acquire_in : CircuitState → ℕ → CircuitBreaker → CircuitBreaker × Option Permit
unfolding has_inflight_closed_locked transition_to
acquire_in circuit_closed now cb = (
  record cb { inflight_closed = add_bucket cb.generation cb.inflight_closed },
  some (record { half_open = false; generation = cb.generation }),
)
acquire_in circuit_open now cb =
    if elapsed now cb.last_failure_time cb.reset_timeout
    then if has_inflight_closed_locked cb then (cb, none) else (
      record (transition_to now circuit_half_open cb) { half_open_count = 1 },
      some (record { half_open = true; generation = cb.generation }),
    )
    else (cb, none)
acquire_in circuit_half_open now cb =
    if elapsed now cb.last_state_change cb.half_open_timeout
    then (transition_to now circuit_open (record cb { last_failure_time = now }), none)
    else if ltb cb.half_open_count cb.half_open_max
    then (
      record cb { half_open_count = cb.half_open_count + 1 },
      some (record { half_open = true; generation = cb.generation }),
    )
    else (cb, none)

unfoldable pub acquire_locked : ℕ → CircuitBreaker → CircuitBreaker × Option Permit
unfolding normalize_locked acquire_in
acquire_locked now cb = acquire_in cb.state now (normalize_locked cb)

unfoldable pub acquire : ℕ → CircuitBreaker → CircuitBreaker × Option Permit
unfolding acquire_locked
acquire now cb = acquire_locked now cb

-- `Allow` keeps the grant for the next public report.
unfoldable pub allow : ℕ → CircuitBreaker → CircuitBreaker × Bool
unfolding acquire_locked
allow now cb =
    let (cb', grant) = acquire_locked now cb in
    elim grant [
      | none ↦ (cb', false)
      | some p ↦ (record cb' { public_permits = cb'.public_permits ++ (p ∷ []) }, true)
    ]

-- A successful probe: it pushes the deadline out, and enough of them close the circuit.
probe_success : ℕ → CircuitBreaker → CircuitBreaker
unfolding transition_to
probe_success now cb =
    let cb' = record cb {
      half_open_count = cb.half_open_count - 1;
      successes = cb.successes + 1;
      last_state_change = now;
    } in
    if leb cb'.half_open_max cb'.successes then transition_to now circuit_closed cb' else cb'

-- The `switch` of `recordSuccessLocked`.
success_in : CircuitState → ℕ → Permit → CircuitBreaker → CircuitBreaker
unfolding retire_inflight_closed_locked probe_success
success_in circuit_closed now p cb =
    retire_inflight_closed_locked p.generation (record cb { failures = 0 })
success_in circuit_half_open now p cb =
    if p.half_open
    then if cb.half_open_count == 0 then cb else probe_success now cb
    else retire_inflight_closed_locked p.generation cb
success_in circuit_open now p cb = retire_inflight_closed_locked p.generation cb

unfoldable pub record_success_locked : ℕ → Permit → CircuitBreaker → CircuitBreaker
unfolding success_in
record_success_locked now p cb =
    if p.generation == cb.generation then success_in cb.state now p cb else cb

unfoldable pub stale_permit_locked : Permit → CircuitBreaker → Bool
stale_permit_locked p cb = p.half_open && not (p.generation == cb.generation)

-- The `switch` of `recordFailureLocked`.
failure_in : CircuitState → ℕ → Permit → CircuitBreaker → CircuitBreaker
unfolding retire_inflight_closed_locked transition_to
failure_in circuit_closed now p cb =
    let cb' =
      retire_inflight_closed_locked p.generation (record cb { failures = cb.failures + 1 }) in
    if leb cb'.max_failures cb'.failures then transition_to now circuit_open cb' else cb'
failure_in circuit_half_open now p cb =
    if p.half_open
    then if cb.half_open_count == 0
      then cb
      else transition_to now circuit_open (record cb { half_open_count = cb.half_open_count - 1 })
    else transition_to now circuit_open (retire_inflight_closed_locked p.generation cb)
failure_in circuit_open now p cb = retire_inflight_closed_locked p.generation cb

unfoldable pub record_failure_locked : ℕ → Permit → CircuitBreaker → CircuitBreaker
unfolding stale_permit_locked normalize_locked failure_in
record_failure_locked now p cb =
    if stale_permit_locked p cb
    then cb
    else failure_in cb.state now p (record (normalize_locked cb) { last_failure_time = now })

-- `recordSuccess` and `recordFailure` lock and call the above.
unfoldable pub record_success_permit : ℕ → Permit → CircuitBreaker → CircuitBreaker
unfolding record_success_locked
record_success_permit now p cb = record_success_locked now p cb

unfoldable pub record_failure_permit : ℕ → Permit → CircuitBreaker → CircuitBreaker
unfolding record_failure_locked
record_failure_permit now p cb = record_failure_locked now p cb

unfoldable pub take_public_permit_locked : CircuitBreaker → CircuitBreaker × Option Permit
take_public_permit_locked cb = elim cb.public_permits [
  | [] ↦ (cb, none)
  | p ∷ rest ↦ (record cb { public_permits = rest }, some p)
]

-- The permit of a public report: the oldest grant, or one made up for an outside observation.
public_permit : CircuitBreaker → CircuitBreaker × Permit
unfolding take_public_permit_locked has_inflight_closed_locked
public_permit cb =
    let (cb', taken) = take_public_permit_locked cb in
    elim taken [
      | some p ↦ (cb', p)
      | none ↦ (
        cb',
        record { half_open = not (has_inflight_closed_locked cb'); generation = cb'.generation },
      )
    ]

unfoldable pub record_success : ℕ → CircuitBreaker → CircuitBreaker
unfolding public_permit record_success_locked
record_success now cb = let (cb', p) = public_permit cb in record_success_locked now p cb'

unfoldable pub record_failure : ℕ → CircuitBreaker → CircuitBreaker
unfolding public_permit record_failure_locked
record_failure now cb = let (cb', p) = public_permit cb in record_failure_locked now p cb'

abbrev is_half_open : CircuitState → Bool
is_half_open s = same_state s circuit_half_open

unfoldable pub release_permit : Permit → CircuitBreaker → CircuitBreaker
unfolding retire_inflight_closed_locked
release_permit p cb =
    if p.half_open
    then if is_half_open cb.state && (p.generation == cb.generation) && ltb 0 cb.half_open_count
      then record cb { half_open_count = cb.half_open_count - 1 }
      else cb
    else retire_inflight_closed_locked p.generation cb

unfoldable pub reset : ℕ → CircuitBreaker → CircuitBreaker
unfolding transition_to
reset now cb = record (transition_to now circuit_closed cb) {
  failures = 0;
  successes = 0;
  half_open_count = 0;
  generation = (cb.generation + 1) % 2 ^ 64;
  inflight_closed = [];
}
