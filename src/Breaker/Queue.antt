-- ===== src/Breaker/Queue.antt =====
-- The callbacks are delivered once each, in the order of the transitions, by one goroutine at most.
use mathlib.Core.List.{append-nil, append_assoc}
use llm_go_sdk.Base.{
  List, Option, [], arith, false, if◌then◌else◌, length, none, refl, replicate, some, suc, sym,
  zero, ◌++◌, ◌∙◌, ◌∷◌, ◌≡◌,
}
use llm_go_sdk.Breaker.{}
use llm_go_sdk.Breaker.Callbacks.{
  CallbackQueue, Delivery, StateTransition, drain_round, empty_queue, enqueue, invoke,
}

-- What the scheduler may let happen next: a transition is queued under the breaker's lock, or a
-- drain goroutine, where there is one, makes one round of its loop and invokes what it took.
pub data QueueEvent : Type 0 where
  queued : StateTransition → QueueEvent
  drained : QueueEvent

-- The queue, and all that user code has seen so far.
pub record Delivering : Type 0 where
  pub queue : CallbackQueue
  pub seen : List Delivery

abbrev invoke_taken : Option StateTransition → List Delivery
invoke_taken none = []
invoke_taken (some t) = invoke t

unfoldable pub queue_step : Delivering → QueueEvent → Delivering
queue_step d (queued t) = record d { queue = enqueue d.queue t }
queue_step d drained = elim d.queue.drainers [
  | zero ↦ d
  | suc n ↦
      (let (q, taken) = drain_round d.queue in
        record { queue = q; seen = d.seen ++ invoke_taken taken })
]

unfoldable pub queue_run : Delivering → List QueueEvent → Delivering
queue_run d [] = d
queue_run d (e ∷ es) = queue_run (queue_step d e) es

unfoldable pub idle_queue : Delivering
unfolding empty_queue
idle_queue = record { queue = empty_queue; seen = [] }

-- What user code sees when the transitions are invoked one after the other.
abbrev pub invoke_all : List StateTransition → List Delivery
invoke_all [] = []
invoke_all (t ∷ ts) = invoke t ++ invoke_all ts

abbrev pub enqueued : List QueueEvent → List StateTransition
enqueued [] = []
enqueued (queued t ∷ es) = t ∷ enqueued es
enqueued (drained ∷ es) = enqueued es

-- One goroutine drains while `running` is set, and none otherwise; nothing pends with no goroutine.
pub record IsServed (d : Delivering) : Type 0 where
  pub one_drainer : d.queue.drainers ≡ (if d.queue.running then 1 else 0)
  pub none_stranded : d.queue.running ≡ false → d.queue.pending ≡ []

queue_step-IsServed : (d : Delivering) (e : QueueEvent) → IsServed d → IsServed (queue_step d e)
unfolding queue_step enqueue drain_round
queue_step-IsServed d (queued t) v = ground arith
queue_step-IsServed d drained v = ground arith

invoke_all-append :
    (ts us : List StateTransition) → invoke_all (ts ++ us) ≡ invoke_all ts ++ invoke_all us
invoke_all-append [] us = refl
invoke_all-append (t ∷ ts) us =
    rw (invoke_all-append ts us) (sym (append_assoc (invoke t) (invoke_all ts) (invoke_all us)))

step_pending :
    (ts : List StateTransition) (d : Delivering)
    → d.queue.pending ≡ ts
    → (queue_step d drained).seen ++ invoke_all (queue_step d drained).queue.pending
      ≡ d.seen ++ invoke_all ts
unfolding queue_step drain_round
step_pending [] d e = ground (arith, append-nil d.seen)
step_pending (t ∷ ts) d e = ground (arith, append_assoc d.seen (invoke t) (invoke_all ts))

pub enqueue_pending :
    (q : CallbackQueue) (t : StateTransition) → (enqueue q t).pending ≡ q.pending ++ (t ∷ [])
unfolding enqueue
enqueue_pending q t = ground arith

queue_step_order :
    (d : Delivering) (e : QueueEvent)
    → (queue_step d e).seen ++ invoke_all (queue_step d e).queue.pending
      ≡ (d.seen ++ invoke_all d.queue.pending) ++ invoke_all (enqueued (e ∷ []))
unfolding queue_step
queue_step_order d (queued t) =
    rw (enqueue_pending d.queue t, invoke_all-append d.queue.pending (t ∷ []))
      (sym (append_assoc d.seen (invoke_all d.queue.pending) (invoke_all (t ∷ []))))
queue_step_order d drained = step_pending d.queue.pending d refl ∙ sym (append-nil _)

enqueued_cons :
    (e : QueueEvent) (es : List QueueEvent)
    → invoke_all (enqueued (e ∷ es)) ≡ invoke_all (enqueued (e ∷ [])) ++ invoke_all (enqueued es)
enqueued_cons (queued t) es = invoke_all-append (t ∷ []) (enqueued es)
enqueued_cons drained es = refl

queue_run_order :
    (d : Delivering) (es : List QueueEvent)
    → (queue_run d es).seen ++ invoke_all (queue_run d es).queue.pending
      ≡ (d.seen ++ invoke_all d.queue.pending) ++ invoke_all (enqueued es)
unfolding queue_run
queue_run_order d [] = sym (append-nil _)
queue_run_order d (e ∷ es) =
    rw (queue_run_order (queue_step d e) es, queue_step_order d e, enqueued_cons e es)
      (append_assoc (d.seen ++ invoke_all d.queue.pending) (invoke_all (enqueued (e ∷ [])))
        (invoke_all (enqueued es)))

queue_run-IsServed :
    (d : Delivering) (es : List QueueEvent) → IsServed d → IsServed (queue_run d es)
unfolding queue_run
queue_run-IsServed d [] v = v
queue_run-IsServed d (e ∷ es) v = queue_run-IsServed (queue_step d e) es (queue_step-IsServed d e v)

-- However transitions and drain rounds interleave, from an idle queue: what user code has seen, with
-- what is still pending, is the callbacks of all queued transitions in their order; at most one
-- goroutine drains; and with no goroutine nothing is pending.
pub callbacks_in_order :
    (es : List QueueEvent)
    → ((queue_run idle_queue es).seen ++ invoke_all (queue_run idle_queue es).queue.pending
        ≡ invoke_all (enqueued es))
      × IsServed (queue_run idle_queue es)
unfolding idle_queue
callbacks_in_order es =
    (queue_run_order idle_queue es, queue_run-IsServed idle_queue es (ground arith))

drain_one :
    (t : StateTransition) (ts : List StateTransition) (d : Delivering)
    → d.queue.pending ≡ t ∷ ts
    → d.queue.drainers ≡ 1
    → ((queue_step d drained).queue.pending ≡ ts)
      × ((queue_step d drained).queue.drainers ≡ 1)
      × ((queue_step d drained).seen ≡ d.seen ++ invoke t)
unfolding queue_step drain_round
drain_one t ts d e one = ground arith

drain_last :
    (d : Delivering)
    → d.queue.pending ≡ []
    → d.queue.drainers ≡ 1
    → queue_step d drained
      ≡ record { queue = record { pending = []; running = false; drainers = 0 }; seen = d.seen }
unfolding queue_step drain_round
drain_last d e one = ground (arith, append-nil d.seen)

-- Once no more transitions are queued, a drain goroutine with `n` of them pending has delivered all,
-- in order, after `n + 1` rounds, and has returned.
pub drain_all :
    (ts : List StateTransition) (d : Delivering)
    → d.queue.pending ≡ ts
    → d.queue.drainers ≡ 1
    → queue_run d (replicate (suc (length ts)) drained) ≡ record {
      queue = record { pending = []; running = false; drainers = 0 };
      seen = d.seen ++ invoke_all ts;
    }
unfolding queue_run
drain_all [] d e one = rw (drain_last d e one, append-nil d.seen)
drain_all (t ∷ ts) d e one =
    let (rest, still, saw) = drain_one t ts d e one in
    drain_all ts (queue_step d drained) rest still
    ∙ rw (saw, append_assoc d.seen (invoke t) (invoke_all ts))
