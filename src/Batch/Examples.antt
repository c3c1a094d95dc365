-- ===== src/Batch/Examples.antt =====
-- A batch of one request that is answered, and a builder that is given the same id twice.
use Prim.Native.String.{String}
use text.Mathlib.Text.{◌==◌ as str_eq}
use llm_go_sdk.Base.{All, List, [], false, none, some, true, ℕ, ◌+◌, ◌∷◌, ◌≡◌}
use llm_go_sdk.Tool.{Response}
use llm_go_sdk.Base.Int.{}
use llm_go_sdk.Errors.{}
use llm_go_sdk.Message.{Message, role_user}
use llm_go_sdk.Tool.Loop.{}
use llm_go_sdk.Batch.{BatchRequest, Usage, is_empty, new_batch_builder, validate_batch_request_ids}
use llm_go_sdk.Batch.Builder.{add_all, add_all-valid}
use llm_go_sdk.Batch.Process.{BatchState, add_usage, no_usage}
use llm_go_sdk.Batch.Process.Totals.{}

abbrev hello : Message
hello = record {
  role = role_user;
  content = "hello";
  parts = [];
  tool_calls = [];
  tool_call_id = "";
  name = "";
  cache_control = none;
  reasoning = none;
}

abbrev request : String → BatchRequest ℕ
request id = record { id = id; messages = hello ∷ []; options = [] }

abbrev added : List (BatchRequest ℕ)
added = request "a" ∷ request "b" ∷ request "a" ∷ request "" ∷ []

add_all-valid_example :
    (validate_batch_request_ids (add_all added new_batch_builder).requests ≡ none)
    × All
        (λ r. (str_eq r.id "" ≡ false) × (is_empty r.messages ≡ false))
        (add_all added new_batch_builder).requests
add_all-valid_example = add_all-valid added

abbrev one_request : List (BatchRequest ℕ)
one_request = request "a" ∷ []

abbrev plus : ℕ → ℕ → ℕ
plus m n = m + n

abbrev response : Response (Usage ℕ)
response = record {
  id = "";
  content = "hi";
  reasoning = none;
  finish_reason = "stop";
  usage = record {
    prompt_tokens = 3;
    completion_tokens = 2;
    total_tokens = 5;
    cache_read_tokens = 0;
    cache_creation_tokens = 0;
    reasoning_tokens = 0;
    cost = some 1;
  };
  tool_calls = [];
  service_tier = "";
  provider = "";
  model = "";
  model_version = "";
  adjustments = [];
}

abbrev finished : BatchState ℕ ℕ
finished = record {
  pending = [];
  in_flight = [];
  canceling = 0;
  reporting = 0;
  results = ("a", record { id = "a"; response = some response; error = none; duration = 7 }) ∷ [];
  success_count = 1;
  failure_count = 0;
  completed = 1;
  total_usage = add_usage no_usage response.usage;
  total_cost = 1;
  all_costs_reported = true;
  canceled = false;
}
