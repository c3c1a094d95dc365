-- ===== src/Breaker/Transitions.antt =====
-- The transitions that the breaker queues follow one another, and account for its state.
use llm_go_sdk.Base.{
  Bool, Bool-cases, List, Option, Option-cases, [], arith, false, if◌then◌else◌, inl, inr, leb, ltb,
  none, refl, some, sym, true, ℕ, ◌&&◌, ◌++◌, ◌+◌, ◌-◌, ◌==◌, ◌∙◌, ◌∷◌, ◌≡◌, ◌≢◌,
}
use llm_go_sdk.Breaker.{
  CircuitBreaker, Permit, acquire, acquire_in, acquire_locked, allow, elapsed, failure_in,
  has_inflight_closed_locked, is_half_open, normalize_locked, public_permit, record_failure,
  record_failure_locked, record_failure_permit, record_success, record_success_locked,
  record_success_permit, release_permit, reset, retire_inflight_closed_locked, stale_permit_locked,
  success_in, transition_to,
}
use llm_go_sdk.Breaker.Callbacks.{
  Callback, CircuitState, StateTransition, circuit_closed, circuit_half_open, circuit_open,
  same_state,
}
use llm_go_sdk.Breaker.Queue.{enqueue_pending}
use llm_go_sdk.Breaker.Invariant.{
  BreakerCall, acquires, allows, permit_failure, permit_release, permit_success, reports_failure,
  reports_success, resets, run, step,
}

-- The transitions lead from one state to another, each starting where the one before it ended.
abbrev pub Linked : CircuitState → List StateTransition → CircuitState → Type 0
Linked from [] to = from ≡ to
Linked from (t ∷ ts) to =
    (t.old_state ≡ from) × (t.old_state ≢ t.new_state) × Linked t.new_state ts to

Linked-snoc :
    (from to : CircuitState) (ts : List StateTransition) (t : StateTransition)
    → Linked from ts to
    → t.old_state ≡ to
    → t.old_state ≢ t.new_state
    → Linked from (ts ++ (t ∷ [])) t.new_state
Linked-snoc from to [] t h e ne = (e ∙ sym h, ne, refl)
Linked-snoc from to (x ∷ ts) t h e ne = (h.0, h.1, Linked-snoc x.new_state to ts t h.2 e ne)

same_state_ne : (s t : CircuitState) → same_state s t ≡ false → s ≢ t
same_state_ne s t h e = ground arith

-- How a call touches the state, the pending transitions and the callback: not at all, or by one
-- transition that it queues.
data Touch (s : CircuitState) (p : List StateTransition) (f : Option Callback) (s' : CircuitState)
    (p' : List StateTransition) (f' : Option Callback) : Type 0 where
  kept : s' ≡ s → p' ≡ p → f' ≡ f → Touch s p f s' p' f'
  moved :
      (t : StateTransition)
      → t.old_state ≡ s
      → t.new_state ≡ s'
      → t.old_state ≢ t.new_state
      → p' ≡ p ++ (t ∷ [])
      → f' ≡ f
      → Touch s p f s' p' f'

record Touches (c d : CircuitBreaker) : Type 0 where
  touch :
      Touch c.state c.callbacks.pending c.on_state_change d.state d.callbacks.pending
        d.on_state_change

untouched : (c : CircuitBreaker) → Touches c c
untouched c = record { touch = kept refl refl refl }

module _ (c : CircuitBreaker) where
  if_Touches :
      (b : Bool) (x y : CircuitBreaker) → Touches c x → Touches c y → Touches c (if b then x else y)
  if_Touches true x y h k = h
  if_Touches false x y h k = k

  if_Touches_fst :
      (b : Bool) (x y : CircuitBreaker × Option Permit)
      → Touches c x.0
      → Touches c y.0
      → Touches c (if b then x else y).0
  if_Touches_fst true x y h k = h
  if_Touches_fst false x y h k = k

transition_to-Touches :
    (now : ℕ) (new : CircuitState) (cb : CircuitBreaker)
    → cb.on_state_change ≢ none
    → Touches cb (transition_to now new cb)
unfolding transition_to
transition_to-Touches now new cb h = elim (Bool-cases (same_state cb.state new)) [
  | inl e ↦ rw e (untouched cb)
  | inr e ↦ elim (Option-cases cb.on_state_change) [
    | inl n ↦ absurd (h n)
    | inr (f, g) ↦ record {
      touch =
          moved
            (record {
              callback = some f;
              panic_callback = cb.on_callback_panic;
              old_state = cb.state;
              new_state = new;
            })
            refl (ground arith) (same_state_ne cb.state new e)
            (ground (arith, enqueue_pending cb.callbacks)) (ground arith);
    }
  ]
]

acquire_in-Touches :
    (s : CircuitState) (now : ℕ) (cb : CircuitBreaker)
    → cb.on_state_change ≢ none
    → Touches cb (acquire_in s now cb).0
unfolding acquire_in
acquire_in-Touches circuit_closed now cb h = record { touch = kept refl refl refl }
acquire_in-Touches circuit_open now cb h =
    if_Touches_fst cb (elapsed now cb.last_failure_time cb.reset_timeout)
      (if has_inflight_closed_locked cb then (cb, none) else (
        record (transition_to now circuit_half_open cb) { half_open_count = 1 },
        some (record { half_open = true; generation = cb.generation }),
      ))
      (cb, none)
      (if_Touches_fst cb (has_inflight_closed_locked cb) (cb, none) _ (untouched cb)
        (record { touch = (transition_to-Touches now circuit_half_open cb h).touch }))
      (untouched cb)
acquire_in-Touches circuit_half_open now cb h =
    if_Touches_fst cb (elapsed now cb.last_state_change cb.half_open_timeout) _ _
      (record {
        touch =
            (transition_to-Touches now circuit_open (record cb { last_failure_time = now })
              h).touch;
      })
      (if_Touches_fst cb (ltb cb.half_open_count cb.half_open_max) _ _
        (record { touch = kept refl refl refl }) (untouched cb))

success_in-Touches :
    (s : CircuitState) (now : ℕ) (p : Permit) (cb : CircuitBreaker)
    → cb.on_state_change ≢ none
    → Touches cb (success_in s now p cb)
unfolding success_in
success_in-Touches circuit_closed now p cb h = record { touch = kept refl refl refl }
success_in-Touches circuit_half_open now p cb h =
    if_Touches cb p.half_open _ _
      (if_Touches cb (cb.half_open_count == 0) _ _ (untouched cb) (
        if_Touches cb (leb cb.half_open_max (cb.successes + 1)) _ _
          (record {
            touch =
                (transition_to-Touches now circuit_closed
                  (record cb {
                    half_open_count = cb.half_open_count - 1;
                    successes = cb.successes + 1;
                    last_state_change = now;
                  })
                  h).touch;
          })
          (record { touch = kept refl refl refl })))
      (record { touch = kept refl refl refl })
success_in-Touches circuit_open now p cb h = record { touch = kept refl refl refl }

failure_in-Touches :
    (s : CircuitState) (now : ℕ) (p : Permit) (cb : CircuitBreaker)
    → cb.on_state_change ≢ none
    → Touches cb (failure_in s now p cb)
unfolding failure_in
failure_in-Touches circuit_closed now p cb h =
    if_Touches cb (leb cb.max_failures (cb.failures + 1)) _ _
      (record {
        touch =
            (transition_to-Touches now circuit_open
              (retire_inflight_closed_locked p.generation
                (record cb { failures = cb.failures + 1 }))
              h).touch;
      })
      (record { touch = kept refl refl refl })
failure_in-Touches circuit_half_open now p cb h =
    if_Touches cb p.half_open _ _
      (if_Touches cb (cb.half_open_count == 0) _ _ (untouched cb) (record {
        touch =
            (transition_to-Touches now circuit_open
              (record cb { half_open_count = cb.half_open_count - 1 }) h).touch;
      }))
      (record {
        touch =
            (transition_to-Touches now circuit_open (retire_inflight_closed_locked p.generation cb)
              h).touch;
      })
failure_in-Touches circuit_open now p cb h = record { touch = kept refl refl refl }

success_Touches :
    (now : ℕ) (p : Permit) (cb : CircuitBreaker)
    → cb.on_state_change ≢ none
    → Touches cb (record_success_locked now p cb)
unfolding record_success_locked
success_Touches now p cb h =
    if_Touches cb (p.generation == cb.generation) _ _ (success_in-Touches cb.state now p cb h)
      (untouched cb)

failure_Touches :
    (now : ℕ) (p : Permit) (cb : CircuitBreaker)
    → cb.on_state_change ≢ none
    → Touches cb (record_failure_locked now p cb)
unfolding record_failure_locked
failure_Touches now p cb h = if_Touches cb (stale_permit_locked p cb) _ _ (untouched cb) (record {
  touch =
      (failure_in-Touches cb.state now p (record (normalize_locked cb) { last_failure_time = now })
        h).touch;
})

release_Touches : (p : Permit) (cb : CircuitBreaker) → Touches cb (release_permit p cb)
unfolding release_permit
release_Touches p cb =
    if_Touches cb p.half_open _ _
      (if_Touches cb
        (is_half_open cb.state && (p.generation == cb.generation) && ltb 0 cb.half_open_count) _ _
        (record { touch = kept refl refl refl }) (untouched cb))
      (record { touch = kept refl refl refl })

allow-Touches :
    (now : ℕ) (cb : CircuitBreaker) → cb.on_state_change ≢ none → Touches cb (allow now cb).0
unfolding allow acquire_locked
allow-Touches now cb h = elim (Option-cases (acquire_locked now cb).1) [
  | inl e ↦
      rw (e, allow)
        (record { touch = (acquire_in-Touches cb.state now (normalize_locked cb) h).touch })
  | inr (p, e) ↦
      rw (e, allow)
        (record { touch = (acquire_in-Touches cb.state now (normalize_locked cb) h).touch })
]

public_permit_same :
    (cb : CircuitBreaker)
    → ((public_permit cb).0.state ≡ cb.state)
      × ((public_permit cb).0.callbacks ≡ cb.callbacks)
      × ((public_permit cb).0.on_state_change ≡ cb.on_state_change)
unfolding public_permit
public_permit_same cb = ground arith

retouch :
    (c c' d : CircuitBreaker)
    → c'.state ≡ c.state
    → c'.callbacks ≡ c.callbacks
    → c'.on_state_change ≡ c.on_state_change
    → Touches c' d
    → Touches c d
retouch c c' d s k f t = record { touch = rw (← s, ← k, ← f) t.touch }

step-Touches :
    (cb : CircuitBreaker) (c : ℕ × BreakerCall) → cb.on_state_change ≢ none → Touches cb (step cb c)
unfolding step acquire acquire_locked record_success record_failure record_success_permit
    record_failure_permit reset
step-Touches cb (now, allows) h = allow-Touches now cb h
step-Touches cb (now, acquires) h = record {
  touch = (acquire_in-Touches cb.state now (normalize_locked cb) h).touch;
}
step-Touches cb (now, reports_success) h =
    let (s, k, f) = public_permit_same cb in
    retouch cb (public_permit cb).0 _ s k f
      (success_Touches now (public_permit cb).1 (public_permit cb).0 (λ e. h (sym f ∙ e)))
step-Touches cb (now, reports_failure) h =
    let (s, k, f) = public_permit_same cb in
    retouch cb (public_permit cb).0 _ s k f
      (failure_Touches now (public_permit cb).1 (public_permit cb).0 (λ e. h (sym f ∙ e)))
step-Touches cb (now, resets) h = record {
  touch = (transition_to-Touches now circuit_closed cb h).touch;
}
step-Touches cb (now, permit_success p) h = success_Touches now p cb h
step-Touches cb (now, permit_failure p) h = failure_Touches now p cb h
step-Touches cb (now, permit_release p) h = release_Touches p cb

-- The pending transitions lead from `from` to the breaker's state, and a callback is set.
record IsAccounted (from : CircuitState) (cb : CircuitBreaker) : Type 0 where
  has_callback : cb.on_state_change ≢ none
  linked : Linked from cb.callbacks.pending cb.state

Touches-IsAccounted :
    (from : CircuitState) (c d : CircuitBreaker)
    → Touches c d
    → IsAccounted from c
    → IsAccounted from d
Touches-IsAccounted from c d t v = elim t.touch [
  | kept s p f ↦ record {
    has_callback = λ e. v.has_callback (sym f ∙ e);
    linked = rw (s, p) v.linked;
  }
  | moved x o n ne p f ↦ record {
    has_callback = λ e. v.has_callback (sym f ∙ e);
    linked = rw (p, ← n) (Linked-snoc from c.state c.callbacks.pending x v.linked o ne);
  }
]

run-IsAccounted :
    (from : CircuitState) (cb : CircuitBreaker) (cs : List (ℕ × BreakerCall))
    → IsAccounted from cb
    → IsAccounted from (run cb cs)
unfolding run
run-IsAccounted from cb [] v = v
run-IsAccounted from cb (c ∷ cs) v =
    run-IsAccounted from (step cb c) cs
      (Touches-IsAccounted from cb (step cb c) (step-Touches cb c v.has_callback) v)

-- A breaker with a callback and nothing queued: after any calls in any order the queued transitions
-- start in its first state, each starts where the one before it ended and goes to another state, and
-- the last ends in the state that the breaker is in. So no change of state goes unreported.
pub run-Linked :
    (cb : CircuitBreaker) (cs : List (ℕ × BreakerCall))
    → cb.on_state_change ≢ none
    → cb.callbacks.pending ≡ []
    → Linked cb.state (run cb cs).callbacks.pending (run cb cs).state
run-Linked cb cs f e =
    (run-IsAccounted cb.state cb cs (record { has_callback = f; linked = rw e })).linked
