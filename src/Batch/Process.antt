-- ===== src/Batch/Process.antt =====
-- The workers of `ProcessBatch` in batch.go, in every order. `plus` and `nothing` are the sum of two
-- costs and the cost 0 (float64).
use Prim.Native.String.{String}
use llm_go_sdk.Base.{
  Bool, List, Option, [], false, if◌then◌else◌, length, ltb, none, not, some, true, ℕ, ◌&&◌, ◌++◌,
  ◌+◌, ◌<◌, ◌∷◌, ◌≡◌,
}
use llm_go_sdk.Base.Table.{insert}
use llm_go_sdk.Errors.{Error}
use llm_go_sdk.Tool.{Response}
use llm_go_sdk.Batch.{
  BatchError, BatchRequest, BatchResult, Usage, incomplete_response, request_failed,
  request_panicked,
}
pub mod Totals
pub mod Places
pub mod Counts
pub mod Tally
pub mod Summary

-- How the call of the model for a request ends; a nil response is `none`.
pub data Completion (A : Type 0) : Type 0 where
  responded : Option (Response (Usage A)) → Completion A
  failed : Error → Completion A
  panicked : String → Completion A

abbrev pub is_failure : {A : Type 0} → Completion A → Bool
is_failure (responded (some resp)) = false
is_failure _ = true

-- `pending` are the requests that no worker has taken, `in_flight` those whose call runs. A worker whose
-- call is recorded is `canceling` until it has called `cancelBatch`, if it does, and `reporting` until it
-- has reported the progress. `completed` is what a progress callback is told; without a callback the
-- source leaves it at 0.
pub record BatchState (C A : Type 0) : Type 0 where
  pub pending : List (BatchRequest C)
  pub in_flight : List (BatchRequest C)
  pub canceling : ℕ
  pub reporting : ℕ
  pub results : List (String × BatchResult A)
  pub success_count : ℕ
  pub failure_count : ℕ
  pub completed : ℕ
  pub total_usage : Usage A
  pub total_cost : A
  pub all_costs_reported : Bool
  pub canceled : Bool

abbrev pub no_usage : {A : Type 0} → Usage A
no_usage = record {
  prompt_tokens = 0;
  completion_tokens = 0;
  total_tokens = 0;
  cache_read_tokens = 0;
  cache_creation_tokens = 0;
  reasoning_tokens = 0;
  cost = none;
}

-- The cost stays with the total.
abbrev pub add_usage : {A : Type 0} → Usage A → Usage A → Usage A
add_usage t u = record {
  prompt_tokens = t.prompt_tokens + u.prompt_tokens;
  completion_tokens = t.completion_tokens + u.completion_tokens;
  total_tokens = t.total_tokens + u.total_tokens;
  cache_read_tokens = t.cache_read_tokens + u.cache_read_tokens;
  cache_creation_tokens = t.cache_creation_tokens + u.cache_creation_tokens;
  reasoning_tokens = t.reasoning_tokens + u.reasoning_tokens;
  cost = t.cost;
}

abbrev pub failed_result : {A : Type 0} → String → ℕ → BatchError → BatchResult A
failed_result id duration e = record {
  id = id;
  response = none;
  error = some e;
  duration = duration;
}

module _ {C A : Type 0} (plus : A → A → A) (nothing : A) where
  abbrev pub start_batch : List (BatchRequest C) → BatchState C A
  start_batch requests = record {
    pending = requests;
    in_flight = [];
    canceling = 0;
    reporting = 0;
    results = [];
    success_count = 0;
    failure_count = 0;
    completed = 0;
    total_usage = no_usage;
    total_cost = nothing;
    all_costs_reported = true;
    canceled = false;
  }

  unfoldable pub record_failure : String → ℕ → BatchError → BatchState C A → BatchState C A
  record_failure id duration e s = record s {
    results = insert id (failed_result id duration e) s.results;
    failure_count = s.failure_count + 1;
  }

  unfoldable pub record_success : String → ℕ → Response (Usage A) → BatchState C A → BatchState C A
  record_success id duration resp s = record s {
    results =
        insert id (record { id = id; response = some resp; error = none; duration = duration })
          s.results;
    success_count = s.success_count + 1;
    total_usage = add_usage s.total_usage resp.usage;
    total_cost = elim resp.usage.cost [ none ↦ s.total_cost | some c ↦ plus s.total_cost c ];
    all_costs_reported = elim resp.usage.cost [ none ↦ false | some c ↦ s.all_costs_reported ];
  }

  -- What `processOne` records when the call of a request ends.
  unfoldable pub record_end : String → ℕ → Completion A → BatchState C A → BatchState C A
  unfolding record_failure record_success
  record_end id duration (responded (some resp)) s = record_success id duration resp s
  record_end id duration (responded none) s = record_failure id duration incomplete_response s
  record_end id duration (failed e) s = record_failure id duration (request_failed e) s
  record_end id duration (panicked p) s = record_failure id duration (request_panicked p) s

  -- `processOne` from the end of the call to the record of it, one critical section; a failure then
  -- goes on to cancel the batch unless it continues on errors, and everything else to its report.
  unfoldable pub process_one : Bool → String → ℕ → Completion A → BatchState C A → BatchState C A
  unfolding record_end
  process_one continue id duration c s =
      let s' = record_end id duration c s in
      if is_failure c && not continue
      then record s' { canceling = s'.canceling + 1 }
      else record s' { reporting = s'.reporting + 1 }

  -- `cancelBatch` by a worker, after which `c` others still have to call it.
  unfoldable pub cancel_batch : ℕ → BatchState C A → BatchState C A
  cancel_batch c s = record s { canceling = c; reporting = s.reporting + 1; canceled = true }

  -- `reportProgress` by a worker, after which `k` others still have to report: the other critical
  -- section.
  unfoldable pub report_progress : ℕ → BatchState C A → BatchState C A
  report_progress k s = record s { reporting = k; completed = s.completed + 1 }

  module _ (continue : Bool) (workers : ℕ) where
    -- A worker takes a request, or leaves it when the batch is canceled; a call ends and is recorded; a
    -- worker cancels the batch or reports the progress; or the caller's context ends. A worker takes its
    -- next request only after its report.
    pub data BatchStep (s : BatchState C A) : BatchState C A → Type 0 where
      take_job :
          (r : BatchRequest C) (rest : List (BatchRequest C))
          → s.pending ≡ r ∷ rest
          → s.canceled ≡ false
          → length s.in_flight + (s.canceling + s.reporting) < workers
          → BatchStep s (record s { pending = rest; in_flight = s.in_flight ++ (r ∷ []) })
      skip_job :
          (r : BatchRequest C) (rest : List (BatchRequest C))
          → s.pending ≡ r ∷ rest
          → s.canceled ≡ true
          → BatchStep s (record s { pending = rest })
      end_call :
          (before after : List (BatchRequest C)) (r : BatchRequest C) (duration : ℕ)
          (c : Completion A)
          → s.in_flight ≡ before ++ (r ∷ after)
          → BatchStep s
              (process_one continue r.id duration c (record s { in_flight = before ++ after }))
      cancel : (c : ℕ) → s.canceling ≡ c + 1 → BatchStep s (cancel_batch c s)
      report : (k : ℕ) → s.reporting ≡ k + 1 → BatchStep s (report_progress k s)
      end_context : BatchStep s (record s { canceled = true })

    pub data BatchReach (requests : List (BatchRequest C)) : BatchState C A → Type 0 where
      batch_start : BatchReach requests (start_batch requests)
      batch_step :
          {s t : BatchState C A} → BatchReach requests s → BatchStep s t → BatchReach requests t

  -- The usage of the response: it has a cost when every success reported one.
  unfoldable pub batch_usage : BatchState C A → Usage A
  batch_usage s =
      if s.all_costs_reported && ltb 0 s.success_count
      then record s.total_usage { cost = some s.total_cost }
      else s.total_usage
