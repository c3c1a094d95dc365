-- ===== src/Breaker/Callbacks.antt =====
-- pkg/middleware/resilience/resilience_circuit_breaker.go: the states of the breaker, and the queue
-- that delivers state-change callbacks off the breaker's lock, in the order of the transitions.
use Prim.Native.String.{String}
use llm_go_sdk.Base.{
  Bool, List, Option, [], false, if◌then◌else◌, none, some, true, ℕ, ◌++◌, ◌+◌, ◌-◌, ◌∷◌,
}

-- The type is an `int` with these three constants; only they are ever stored.
pub data CircuitState : Type 0 where
  circuit_closed circuit_open circuit_half_open : CircuitState

abbrev pub same_state : CircuitState → CircuitState → Bool
same_state circuit_closed circuit_closed = true
same_state circuit_open circuit_open = true
same_state circuit_half_open circuit_half_open = true
same_state _ _ = false

-- `String`; the default of its switch is never reached.
unfoldable circuit_state_string : CircuitState → String
circuit_state_string circuit_closed = "closed"
circuit_state_string circuit_open = "open"
circuit_state_string circuit_half_open = "half-open"

-- A user callback, which returns or panics with a value.
abbrev pub Callback : Type 0
Callback = CircuitState → CircuitState → Option ℕ

-- `panic_callback` says whether a panic hook is set.
pub record StateTransition : Type 0 where
  pub callback : Option Callback
  pub panic_callback : Bool
  pub old_state : CircuitState
  pub new_state : CircuitState

-- What user code sees of a delivery: the callback, and the hook with the recovered value.
pub data Delivery : Type 0 where
  state_change : CircuitState → CircuitState → Delivery
  callback_panic : ℕ → CircuitState → CircuitState → Delivery

-- The deferred function of `invoke`: a recovered panic goes to the hook, if one is set.
recovered : StateTransition → Option ℕ → List Delivery
recovered t none = []
recovered t (some r) =
    if t.panic_callback then callback_panic r t.old_state t.new_state ∷ [] else []

unfoldable pub invoke : StateTransition → List Delivery
unfolding recovered
invoke t = elim t.callback [
  | none ↦ []
  | some f ↦ state_change t.old_state t.new_state ∷ recovered t (f t.old_state t.new_state)
]

-- `drainers` counts the goroutines that `go q.drain()` started and that have not returned.
pub record CallbackQueue : Type 0 where
  pub pending : List StateTransition
  pub running : Bool
  pub drainers : ℕ

unfoldable pub empty_queue : CallbackQueue
empty_queue = record { pending = []; running = false; drainers = 0 }

unfoldable pub enqueue : CallbackQueue → StateTransition → CallbackQueue
enqueue q t =
    if q.running
    then record q { pending = q.pending ++ (t ∷ []) }
    else record q { pending = q.pending ++ (t ∷ []); running = true; drainers = q.drainers + 1 }

-- One round of the loop of `drain`: the critical section, and the transition that it then invokes.
-- With nothing pending the goroutine returns.
unfoldable pub drain_round : CallbackQueue → CallbackQueue × Option StateTransition
drain_round q = elim q.pending [
  | [] ↦ (record q { pending = []; running = false; drainers = q.drainers - 1 }, none)
  | t ∷ rest ↦ (record q { pending = rest }, some t)
]
