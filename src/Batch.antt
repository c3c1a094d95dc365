-- ===== src/Batch.antt =====
-- batch.go: requests and their options, the builder, and the concurrent batcher. `C` is the type of a
-- call option, `A` that of a cost (float64), and durations are nanoseconds.
use Prim.Native.String.{String}
use text.Mathlib.Text.{◌==◌ as str_eq}
use llm_go_sdk.Base.{
  Bool, List, Option, [], false, if◌then◌else◌, length, ltb, none, some, suc, true, zero, ℕ, ◌++◌,
  ◌||◌, ◌∷◌,
}
use llm_go_sdk.Base.Int.{negsuc, pos, ℤ}
use llm_go_sdk.Base.Table.{has_key, insert}
use llm_go_sdk.Errors.{Error}
use llm_go_sdk.Message.{Message}
use llm_go_sdk.Tool.{Response}
pub mod Builder
pub mod Process
mod Examples

pub record BatchRequest (C : Type 0) : Type 0 where
  pub id : String
  pub messages : List Message
  pub options : List C

pub record Usage (A : Type 0) : Type 0 where
  pub prompt_tokens : ℕ
  pub completion_tokens : ℕ
  pub total_tokens : ℕ
  pub cache_read_tokens : ℕ
  pub cache_creation_tokens : ℕ
  pub reasoning_tokens : ℕ
  pub cost : Option A

pub data BatchError : Type 0 where
  batch_empty batch_too_large incomplete_response : BatchError
  empty_id empty_messages : BatchError
  duplicate_id : String → BatchError
  request_failed : Error → BatchError
  request_panicked : String → BatchError

pub record BatchResult (A : Type 0) : Type 0 where
  pub id : String
  pub response : Option (Response (Usage A))
  pub error : Option BatchError
  pub duration : ℕ

pub record BatchOptions : Type 0 where
  pub max_concurrency : ℤ
  pub request_timeout : ℤ
  pub continue_on_error : Bool
  pub has_callback : Bool
  pub max_batch_size : ℤ

abbrev pub default_batch_concurrency : ℕ
default_batch_concurrency = 5

-- `no_option` is a nil option.
pub data BatchOption : Type 0 where
  no_option : BatchOption
  with_max_concurrency with_max_batch_size with_request_timeout : ℤ → BatchOption
  with_continue_on_error with_progress_callback : Bool → BatchOption

abbrev pub is_positive : ℤ → Bool
is_positive (pos zero) = false
is_positive (pos (suc n)) = true
is_positive (negsuc n) = false

unfoldable pub apply_batch_option : BatchOption → BatchOptions → BatchOptions
apply_batch_option no_option o = o
apply_batch_option (with_max_concurrency n) o =
    if is_positive n then record o { max_concurrency = n } else o
apply_batch_option (with_max_batch_size n) o =
    if is_positive n then record o { max_batch_size = n } else o
apply_batch_option (with_request_timeout d) o = record o { request_timeout = d }
apply_batch_option (with_continue_on_error b) o = record o { continue_on_error = b }
apply_batch_option (with_progress_callback b) o = record o { has_callback = b }

abbrev set_batch_options : List BatchOption → BatchOptions → BatchOptions
set_batch_options [] o = o
set_batch_options (x ∷ xs) o = set_batch_options xs (apply_batch_option x o)

-- The timeout is 60 seconds.
unfoldable pub apply_batch_options : List BatchOption → BatchOptions
unfolding apply_batch_option
apply_batch_options opts = set_batch_options opts (record {
  max_concurrency = pos default_batch_concurrency;
  request_timeout = pos 60000000000;
  continue_on_error = true;
  has_callback = false;
  max_batch_size = pos 0;
})

-- `seen` are the ids before.
unfoldable pub first_duplicate :
    {C : Type 0} → List (String × Bool) → List (BatchRequest C) → Option String
first_duplicate seen [] = none
first_duplicate seen (r ∷ rs) =
    if has_key r.id seen then some r.id else first_duplicate (insert r.id true seen) rs

unfoldable pub validate_batch_request_ids : {C : Type 0} → List (BatchRequest C) → Option BatchError
unfolding first_duplicate
validate_batch_request_ids rs = elim (first_duplicate [] rs) [
  | none ↦ none
  | some id ↦ some (duplicate_id id)
]

abbrev exceeds : ℕ → ℤ → Bool
exceeds n (pos zero) = false
exceeds n (pos (suc m)) = ltb (suc m) n
exceeds n (negsuc m) = false

-- What `ProcessBatch` refuses before it starts a worker.
unfoldable pub refused_batch :
    {C : Type 0} → BatchOptions → List (BatchRequest C) → Option BatchError
unfolding validate_batch_request_ids
refused_batch opts [] = some batch_empty
refused_batch opts (r ∷ rs) = elim (validate_batch_request_ids (r ∷ rs)) [
  | some e ↦ some e
  | none ↦ (if exceeds (length (r ∷ rs)) opts.max_batch_size then some batch_too_large else none)
]

-- The workers that `ProcessBatch` starts.
abbrev pub worker_count : BatchOptions → ℕ
worker_count opts = elim opts.max_concurrency [
  | pos (suc n) ↦ suc n
  | _ ↦ default_batch_concurrency
]

pub record BatchBuilder (C : Type 0) : Type 0 where
  pub requests : List (BatchRequest C)
  pub options : List BatchOption

abbrev pub new_batch_builder : {C : Type 0} → BatchBuilder C
new_batch_builder = record { requests = []; options = [] }

abbrev pub has_id : {C : Type 0} → String → List (BatchRequest C) → Bool
has_id id [] = false
has_id id (r ∷ rs) = str_eq r.id id || has_id id rs

abbrev pub is_empty : List Message → Bool
is_empty [] = true
is_empty (m ∷ ms) = false

-- `Add`: the error, if any, and the builder.
unfoldable pub add_request :
    {C : Type 0} → BatchRequest C → BatchBuilder C → Option BatchError × BatchBuilder C
add_request r b =
    if str_eq r.id ""
    then (some empty_id, b)
    else if is_empty r.messages
    then (some empty_messages, b)
    else if has_id r.id b.requests
    then (some (duplicate_id r.id), b)
    else (none, record b { requests = b.requests ++ (r ∷ []) })

abbrev pub with_options : {C : Type 0} → List BatchOption → BatchBuilder C → BatchBuilder C
with_options os b = record b { options = b.options ++ os }
