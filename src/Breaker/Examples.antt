-- ===== src/Breaker/Examples.antt =====
-- Lives of a breaker that opens at its second failure and closes after two probes.
use mathlib.Core.Option
use llm_go_sdk.Base.{
  Bool, List, [], arith, false, none, refl, some, sym, take, true, ℕ, ◌++◌, ◌∷◌, ◌≡◌, ◌⊎◌,
}
use llm_go_sdk.Base.Int.{pos}
use llm_go_sdk.Breaker.Callbacks.{StateTransition, circuit_closed, circuit_half_open, circuit_open}
use llm_go_sdk.Breaker.{
  CircuitBreaker, CircuitBreakerOption, Permit, acquire, add_bucket, allow, any_positive,
  apply_option, apply_options, new_circuit_breaker, record_failure_permit, record_success_permit,
  release_permit, retire_bucket, with_half_open_max, with_max_failures, with_on_state_change,
  with_reset_timeout,
}
use llm_go_sdk.Breaker.Invariant.{
  BreakerCall, Inv, acquires, allows, permit_failure, permit_success, run,
  run-new_circuit_breaker-Inv, step,
}
use llm_go_sdk.Breaker.Threshold.{fail_times, fail_times_threshold}
use llm_go_sdk.Breaker.Queue.{
  Delivering, IsServed, QueueEvent, callbacks_in_order, drained, enqueued, idle_queue, invoke_all,
  queue_run, queued,
}
use llm_go_sdk.Breaker.Transitions.{Linked, run-Linked}
use llm_go_sdk.Breaker.Recovery.{probe_times, probe_times_closes}
use llm_go_sdk.Breaker.Generations.{stale_permit_harmless}

abbrev options : List CircuitBreakerOption
options =
    with_max_failures (pos 2)
    ∷ with_reset_timeout (pos 10)
    ∷ with_half_open_max (pos 2)
    ∷ with_on_state_change (some (λ _ _. none))
    ∷ []

abbrev permit : Bool → Permit
permit half_open = record { half_open = half_open; generation = 0 }

-- Two failures open it, a probe is admitted and succeeds, and so does the second.
abbrev life : List (ℕ × BreakerCall)
life =
    (1, acquires)
    ∷ (2, permit_failure (permit false))
    ∷ (3, acquires)
    ∷ (4, permit_failure (permit false))
    ∷ (5, allows)
    ∷ (20, acquires)
    ∷ (21, permit_success (permit true))
    ∷ (22, acquires)
    ∷ (23, permit_success (permit true))
    ∷ []

abbrev take_calls : ℕ → List (ℕ × BreakerCall)
take_calls n = take n life

life_states :
    ((run (new_circuit_breaker 0 options) (take_calls 4)).state ≡ circuit_open)
    × ((run (new_circuit_breaker 0 options) (take_calls 6)).state ≡ circuit_half_open)
    × ((run (new_circuit_breaker 0 options) life).state ≡ circuit_closed)
unfolding run step new_circuit_breaker apply_options apply_option acquire allow
    record_failure_permit record_success_permit any_positive retire_bucket add_bucket
life_states = (refl, refl, refl)

run-new_circuit_breaker-Inv_example : Inv (run (new_circuit_breaker 0 options) life)
run-new_circuit_breaker-Inv_example = run-new_circuit_breaker-Inv 0 options life

abbrev fresh : CircuitBreaker
fresh = new_circuit_breaker 0 options

abbrev opened : CircuitBreaker
opened = run fresh (take_calls 4)

abbrev half_opened : CircuitBreaker
half_opened = run fresh (take_calls 6)

abbrev emptied : CircuitBreaker
emptied = run fresh (take_calls 7)

fail_times_threshold_example :
    ((fail_times ((1, 2) ∷ []) fresh).state ≡ circuit_closed)
    × ((fail_times ((1, 2) ∷ (3, 4) ∷ []) fresh).state ≡ circuit_open)
    × ((fail_times ((1, 2) ∷ (3, 4) ∷ []) fresh).last_failure_time ≡ 4)
unfolding run step new_circuit_breaker apply_options apply_option acquire allow
    record_failure_permit record_success_permit any_positive retire_bucket add_bucket
fail_times_threshold_example =
    fail_times_threshold 1 3 4 ((1, 2) ∷ []) fresh (refl, refl, refl) refl

probe_times_closes_example :
    ((probe_times ((22, 23) ∷ []) emptied).state ≡ circuit_closed)
    × ((probe_times ((22, 23) ∷ []) emptied).failures ≡ 0)
unfolding run step new_circuit_breaker apply_options apply_option acquire allow
    record_failure_permit record_success_permit any_positive retire_bucket add_bucket
probe_times_closes_example =
    probe_times_closes 0 1 9 21 1 ((22, 23) ∷ []) emptied (refl, refl, refl, refl, refl, refl)
      (omega arith) refl (omega arith, tt)

abbrev stale : Permit
stale = record { half_open = true; generation = 7 }

stale_permit_harmless_example :
    (record_success_permit 31 stale half_opened ≡ half_opened)
    × (release_permit stale half_opened ≡ half_opened)
    × ((stale.half_open ≡ false) ⊎ (record_failure_permit 31 stale half_opened ≡ half_opened))
    × ((record_failure_permit 31 stale half_opened).inflight_closed ≡ half_opened.inflight_closed)
unfolding run step new_circuit_breaker apply_options apply_option acquire allow
    record_failure_permit record_success_permit any_positive retire_bucket add_bucket
stale_permit_harmless_example =
    stale_permit_harmless 31 stale half_opened
      (run-new_circuit_breaker-Inv 0 options (take_calls 6)) (omega arith)

abbrev opening : StateTransition
opening = record {
  callback = some (λ _ _. some 7);
  panic_callback = true;
  old_state = circuit_closed;
  new_state = circuit_open;
}

abbrev schedule : List QueueEvent
schedule = queued opening ∷ queued opening ∷ drained ∷ queued opening ∷ drained ∷ []

callbacks_in_order_example :
    ((queue_run idle_queue schedule).seen
        ++ invoke_all (queue_run idle_queue schedule).queue.pending
      ≡ invoke_all (enqueued schedule))
    × IsServed (queue_run idle_queue schedule)
callbacks_in_order_example = callbacks_in_order schedule

abbrev busy : Delivering
busy = record {
  queue = record { pending = opening ∷ opening ∷ []; running = true; drainers = 1 };
  seen = [];
}

run-Linked_example : Linked fresh.state (run fresh life).callbacks.pending (run fresh life).state
unfolding run step new_circuit_breaker apply_options apply_option acquire allow
    record_failure_permit record_success_permit any_positive retire_bucket add_bucket
run-Linked_example = run-Linked fresh life (λ e. Option.none-ne-some _ (sym e)) refl
