-- ===== src/Batch/Process/Summary.antt =====
-- What the response of `ProcessBatch` in batch.go says.
use Prim.Native.String.{String}
use llm_go_sdk.Base.{Bool, List, [], ap, arith, false, length, none, refl, ℕ, ◌+◌, ◌≡◌}
use llm_go_sdk.Batch.{BatchRequest, BatchResult, Usage, validate_batch_request_ids}
use llm_go_sdk.Batch.Builder.{validate_batch_request_ids-IsUnique}
use llm_go_sdk.Batch.Process.{BatchReach, BatchState, add_usage, no_usage}
use llm_go_sdk.Batch.Process.Totals.{sum_of}
use llm_go_sdk.Batch.Process.Counts.{IsTallied}
use llm_go_sdk.Batch.Process.Tally.{BatchReach-Tallied}

-- Every figure of the usage but the cost is the sum of that figure over the responses.
abbrev pub IsSum : {A : Type 0} → Usage A → List (String × BatchResult A) → Type 0
IsSum u rs =
    (u.prompt_tokens ≡ sum_of (λ v. v.prompt_tokens) rs)
    × (u.completion_tokens ≡ sum_of (λ v. v.completion_tokens) rs)
    × (u.total_tokens ≡ sum_of (λ v. v.total_tokens) rs)
    × (u.cache_read_tokens ≡ sum_of (λ v. v.cache_read_tokens) rs)
    × (u.cache_creation_tokens ≡ sum_of (λ v. v.cache_creation_tokens) rs)
    × (u.reasoning_tokens ≡ sum_of (λ v. v.reasoning_tokens) rs)

module _ {C A : Type 0} (plus : A → A → A) (nothing : A) (continue : Bool) (workers : ℕ)
    (requests : List (BatchRequest C)) where
  tallied :
      (s : BatchState C A)
      → validate_batch_request_ids requests ≡ none
      → BatchReach plus nothing continue workers requests s
      → (f : Usage A → ℕ) → f no_usage ≡ 0
      → ((t u : Usage A) → f (add_usage t u) ≡ f t + f u)
      → IsTallied plus nothing f workers requests s
  tallied s v b f n a =
      BatchReach-Tallied plus nothing continue workers requests f n a
        ((validate_batch_request_ids-IsUnique requests).0 v) b

  -- A batch that was not canceled has as many results as requests once no request waits and no call
  -- runs.
  pub BatchReach-all :
      (s : BatchState C A)
      → validate_batch_request_ids requests ≡ none
      → BatchReach plus nothing continue workers requests s
      → s.canceled ≡ false
      → s.pending ≡ []
      → s.in_flight ≡ []
      → length s.results ≡ length requests
  BatchReach-all s v b c p r =
      let i = tallied s v b (λ x. x.prompt_tokens) refl (λ t u. refl) in
      let d = i.complete c in let x = ap length p in let y = ap length r in omega arith
