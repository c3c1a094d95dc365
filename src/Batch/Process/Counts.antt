-- ===== src/Batch/Process/Counts.antt =====
-- The counters and the totals of `ProcessBatch` in batch.go.
use Prim.Native.String.{String}
use llm_go_sdk.Base.{
  Bool, Bool-cases, List, [], arith, false, inl, inr, length, none, not, refl, some, ℕ, ◌&&◌, ◌++◌,
  ◌+◌, ◌∷◌, ◌≡◌, ◌≤◌,
}
use llm_go_sdk.Base.Table.{has_key, keys}
use llm_go_sdk.Errors.{}
use llm_go_sdk.Tool.{Response}
use llm_go_sdk.Tool.Registry.Registered.{}
use llm_go_sdk.Batch.{BatchError, BatchRequest, BatchResult, Usage}
use llm_go_sdk.Batch.Builder.{ids}
use llm_go_sdk.Batch.Process.{
  BatchState, Completion, add_usage, failed, failed_result, is_failure, panicked, process_one,
  record_end, record_failure, record_success, responded,
}
use llm_go_sdk.Batch.Process.Totals.{insert-new, sum_of}
use llm_go_sdk.Batch.Process.Places.{Places}

module _ {C A : Type 0} (plus : A → A → A) (nothing : A) where
  -- The end of a call adds its result and counts it; its report is still to come.
  pub record Ends (f : Usage A → ℕ) (id : String) (s t : BatchState C A) : Type 0 where
    pub result : BatchResult A
    pub named : result.id ≡ id
    pub added : t.results ≡ s.results ++ ((id, result) ∷ [])
    pub one_more : t.success_count + t.failure_count ≡ s.success_count + s.failure_count + 1
    pub told : t.completed ≡ s.completed
    pub behind : t.canceling + t.reporting ≡ s.canceling + s.reporting + 1
    pub summed : f t.total_usage ≡ f s.total_usage + sum_of f ((id, result) ∷ [])
    pub waiting : t.pending ≡ s.pending
    pub running : t.in_flight ≡ s.in_flight
    pub going : t.canceled ≡ s.canceled

  module _ (f : Usage A → ℕ) (f-add : (t u : Usage A) → f (add_usage t u) ≡ f t + f u) where
    -- What recording the end of a call does.
    record Records (id : String) (s t : BatchState C A) : Type 0 where
      pub result : BatchResult A
      pub named : result.id ≡ id
      pub added : t.results ≡ s.results ++ ((id, result) ∷ [])
      pub one_more : t.success_count + t.failure_count ≡ s.success_count + s.failure_count + 1
      pub summed : f t.total_usage ≡ f s.total_usage + sum_of f ((id, result) ∷ [])
      pub told : t.completed ≡ s.completed
      pub same_canceling : t.canceling ≡ s.canceling
      pub same_reporting : t.reporting ≡ s.reporting
      pub waiting : t.pending ≡ s.pending
      pub running : t.in_flight ≡ s.in_flight
      pub going : t.canceled ≡ s.canceled

    record_failure-Records :
        (id : String) (duration : ℕ) (e : BatchError) (s : BatchState C A)
        → has_key id s.results ≡ false
        → Records id s (record_failure plus nothing id duration e s)
    unfolding record_failure
    record_failure-Records id duration e s n = record {
      result = failed_result id duration e;
      named = refl;
      added = insert-new id _ s.results n;
      one_more = omega arith;
      summed = omega arith;
      told = refl;
      same_canceling = refl;
      same_reporting = refl;
      waiting = refl;
      running = refl;
      going = refl;
    }

    record_success-Records :
        (id : String) (duration : ℕ) (resp : Response (Usage A)) (s : BatchState C A)
        → has_key id s.results ≡ false
        → Records id s (record_success plus nothing id duration resp s)
    unfolding record_success
    record_success-Records id duration resp s n = record {
      result = record { id = id; response = some resp; error = none; duration = duration };
      named = refl;
      added = insert-new id _ s.results n;
      one_more = omega arith;
      summed = let a = f-add s.total_usage resp.usage in omega arith;
      told = refl;
      same_canceling = refl;
      same_reporting = refl;
      waiting = refl;
      running = refl;
      going = refl;
    }

    record_end-Records :
        (id : String) (duration : ℕ) (c : Completion A) (s : BatchState C A)
        → has_key id s.results ≡ false
        → Records id s (record_end plus nothing id duration c s)
    unfolding record_end
    record_end-Records id duration (responded (some resp)) s n =
        record_success-Records id duration resp s n
    record_end-Records id duration (responded none) s n = record_failure-Records id duration _ s n
    record_end-Records id duration (failed e) s n = record_failure-Records id duration _ s n
    record_end-Records id duration (panicked p) s n = record_failure-Records id duration _ s n

    pub process_one-Ends :
        (continue : Bool) (id : String) (duration : ℕ) (c : Completion A) (s : BatchState C A)
        → has_key id s.results ≡ false
        → Ends f id s (process_one plus nothing continue id duration c s)
    unfolding process_one
    process_one-Ends continue id duration c s n =
        let r = record_end-Records id duration c s n in
        let x = r.same_canceling in
        let y = r.same_reporting in
        elim (Bool-cases (is_failure c && not continue)) [
          | inl t ↦
              rw (t, process_one)
                (record {
                  result = r.result;
                  named = r.named;
                  added = r.added;
                  one_more = r.one_more;
                  told = r.told;
                  behind = omega arith;
                  summed = r.summed;
                  waiting = r.waiting;
                  running = r.running;
                  going = r.going;
                })
          | inr t ↦
              rw (t, process_one)
                (record {
                  result = r.result;
                  named = r.named;
                  added = r.added;
                  one_more = r.one_more;
                  told = r.told;
                  behind = omega arith;
                  summed = r.summed;
                  waiting = r.waiting;
                  running = r.running;
                  going = r.going;
                })
        ]

  pub record IsTallied (f : Usage A → ℕ) (workers : ℕ) (requests : List (BatchRequest C))
      (s : BatchState C A) : Type 0 where
    pub places : Places (keys s.results) (ids s.in_flight) (ids s.pending)
    pub counted : s.success_count + s.failure_count ≡ length s.results
    pub reported : s.completed + (s.canceling + s.reporting) ≡ length s.results
    pub summed : f s.total_usage ≡ sum_of f s.results
    pub busy : length s.in_flight + (s.canceling + s.reporting) ≤ workers
    pub kept : length s.results + length s.in_flight + length s.pending ≤ length requests
    pub complete :
        s.canceled ≡ false
        → length s.results + length s.in_flight + length s.pending ≡ length requests
