-- ===== src/Errors.antt =====
-- errors.go, and what the SDK uses of Go's errors, context, io, net and syscall packages: error values
-- as trees, the tests errors.Is and errors.As on them, and their classification. Message texts, which
-- nothing here branches on, are left out, as are the nil receivers and nil children that the code
-- guards against.
pub mod Classify
pub mod Wrapping
mod Examples
use Prim.Native.String.{String}
use text.Mathlib.Text.{◌==◌ as str_eq}
use llm_go_sdk.Base.{Bool, Option, false, if◌then◌else◌, ltb, none, some, true, ℕ, ◌&&◌, ◌==◌, ◌||◌}

-- The sentinel errors that the classifiers mention.
pub data Sentinel : Type 0 where
  canceled deadline_exceeded circuit_open eof unexpected_eof connection_refused connection_reset :
      Sentinel
  invalid_parameters rate_limited quota_exceeded authentication_failed permission_denied : Sentinel
  model_not_found context_length_exceeded content_filtered server_error service_unavailable :
      Sentinel
  stream_interrupted request_timeout connection_failed plan_required all_clients_failed : Sentinel
  no_clients_available rate_limit_timeout : Sentinel

-- A sentinel is a pointer: two are equal when they are the same variable.
abbrev pub sentinel_id : Sentinel → ℕ
sentinel_id canceled = 0
sentinel_id deadline_exceeded = 1
sentinel_id circuit_open = 2
sentinel_id eof = 3
sentinel_id unexpected_eof = 4
sentinel_id connection_refused = 5
sentinel_id connection_reset = 6
sentinel_id invalid_parameters = 7
sentinel_id rate_limited = 8
sentinel_id quota_exceeded = 9
sentinel_id authentication_failed = 10
sentinel_id permission_denied = 11
sentinel_id model_not_found = 12
sentinel_id context_length_exceeded = 13
sentinel_id content_filtered = 14
sentinel_id server_error = 15
sentinel_id service_unavailable = 16
sentinel_id stream_interrupted = 17
sentinel_id request_timeout = 18
sentinel_id connection_failed = 19
sentinel_id plan_required = 20
sentinel_id all_clients_failed = 21
sentinel_id no_clients_available = 22
sentinel_id rate_limit_timeout = 23

abbrev pub same_sentinel : Sentinel → Sentinel → Bool
same_sentinel a b = sentinel_id a == sentinel_id b

-- The fields of `APIError` that code branches on.
pub record ApiError : Type 0 where
  pub status_code : ℕ
  pub type_name : String
  pub code : String
  pub retry_after : ℕ
  pub provider : String

pub data Error : Type 0 where
  sentinel : Sentinel → Error
  -- An error that wraps nothing and that no classifier knows.
  unknown : ℕ → Error
  api_error : ApiError → Error
  provider_error : String → Error → Error
  stream_error : Error → Error
  -- A collection of this many validation errors.
  validation_errors : ℕ → Error
  -- `fmt.Errorf` with one %w, and with two.
  wrapped : Error → Error
  joined : Error → Error → Error
  -- A `net.DNSError` and any other `net.Error`, with what its `Timeout` returns.
  dns_error net_error : Bool → Error

-- `apiStatusClassifications`.
abbrev pub status_classification : ℕ → Option (Sentinel × Bool)
status_classification s =
    if s == 401
    then some (authentication_failed, false)
    else if s == 402
    then some (plan_required, false)
    else if s == 403
    then some (permission_denied, false)
    else if s == 404
    then some (model_not_found, false)
    else if s == 408
    then some (request_timeout, true)
    else if s == 429
    then some (rate_limited, true)
    else if s == 500
    then some (server_error, true)
    else if s == 502 || (s == 503 || (s == 504 || s == 529))
    then some (service_unavailable, true)
    else none

is_quota_code : String → Bool
is_quota_code c = str_eq c "quota_exceeded" || str_eq c "insufficient_quota"

classify_type : String → Option Sentinel
classify_type t =
    if str_eq t "authentication_error"
    then some authentication_failed
    else if str_eq t "permission_error"
    then some permission_denied
    else if str_eq t "rate_limit_error"
    then some rate_limited
    else if str_eq t "invalid_request_error"
    then some invalid_parameters
    else if str_eq t "server_error"
    then some server_error
    else none

classify_code : String → String → Option Sentinel
unfolding classify_type
classify_code c t =
    if str_eq c "context_length_exceeded"
    then some context_length_exceeded
    else if str_eq c "model_not_found"
    then some model_not_found
    else if str_eq c "content_filter" || str_eq c "content_policy_violation"
    then some content_filtered
    else if str_eq c "rate_limit_exceeded"
    then some rate_limited
    else classify_type t

unfoldable pub underlying_error : ApiError → Option Sentinel
unfolding is_quota_code classify_code
underlying_error e =
    if is_quota_code e.code
    then some quota_exceeded
    else elim (status_classification e.status_code) [
      | some (s, _) ↦ some s
      | none ↦ classify_code e.code e.type_name
    ]

abbrev pub is_sentinel : Option Sentinel → Sentinel → Bool
is_sentinel none t = false
is_sentinel (some s) t = same_sentinel s t

-- The four sentinels that `IsRetryable` falls back on.
abbrev pub is_transient_sentinel : Option Sentinel → Bool
is_transient_sentinel u =
    is_sentinel u rate_limited
    || (is_sentinel u server_error
        || (is_sentinel u service_unavailable || is_sentinel u request_timeout))

unfoldable pub is_retryable : ApiError → Bool
unfolding is_quota_code underlying_error
is_retryable e =
    if is_quota_code e.code then false else elim (status_classification e.status_code) [
      | some (_, retryable) ↦ retryable
      | none ↦ is_transient_sentinel (underlying_error e)
    ]

-- errors.Is: the tree is walked depth first, and a node's own `Is` method is asked.
unfoldable pub is : Error → Sentinel → Bool
unfolding underlying_error
is (sentinel s) t = same_sentinel s t
is (unknown _) t = false
is (api_error e) t = is_sentinel (underlying_error e) t
is (provider_error _ e) t = is e t
is (stream_error e) t = if same_sentinel t stream_interrupted then true else is e t
is (validation_errors n) t = ltb 0 n && same_sentinel invalid_parameters t
is (wrapped e) t = is e t
is (joined e f) t = is e t || is f t
is (dns_error _) t = false
is (net_error _) t = false

abbrev or_else {ℓ} : {A : Type ℓ} → Option A → Option A → Option A
or_else none b = b
or_else (some a) b = some a

-- errors.As to `*APIError`: the first one, depth first.
unfoldable pub as_api_error : Error → Option ApiError
as_api_error (api_error e) = some e
as_api_error (provider_error _ e) = as_api_error e
as_api_error (stream_error e) = as_api_error e
as_api_error (wrapped e) = as_api_error e
as_api_error (joined e f) = or_else (as_api_error e) (as_api_error f)
as_api_error _ = none

-- errors.As to `*net.DNSError`: whether there is one.
unfoldable pub has_dns_error : Error → Bool
has_dns_error (dns_error _) = true
has_dns_error (provider_error _ e) = has_dns_error e
has_dns_error (stream_error e) = has_dns_error e
has_dns_error (wrapped e) = has_dns_error e
has_dns_error (joined e f) = has_dns_error e || has_dns_error f
has_dns_error _ = false

-- errors.As to `net.Error`, and what its `Timeout` returns. An expired context and the system's
-- errors are of this interface too; the latter two are no timeouts.
unfoldable pub as_net_error : Error → Option Bool
as_net_error (net_error timeout) = some timeout
as_net_error (dns_error timeout) = some timeout
as_net_error (sentinel deadline_exceeded) = some true
as_net_error (sentinel connection_refused) = some false
as_net_error (sentinel connection_reset) = some false
as_net_error (provider_error _ e) = as_net_error e
as_net_error (stream_error e) = as_net_error e
as_net_error (wrapped e) = as_net_error e
as_net_error (joined e f) = or_else (as_net_error e) (as_net_error f)
as_net_error _ = none

unfoldable pub is_temporary : Error → Bool
unfolding is as_api_error is_retryable
is_temporary e = if is e canceled || is e deadline_exceeded then false else elim (as_api_error e) [
  | some a ↦ is_retryable a
  | none ↦
      is e rate_limited
      || (is e server_error
          || (is e service_unavailable
              || (is e request_timeout || (is e connection_failed || is e stream_interrupted))))
]

unfoldable pub provider_in_tree : Error → String
provider_in_tree (provider_error p e) = if str_eq p "" then provider_in_tree e else p
provider_in_tree (api_error e) = e.provider
provider_in_tree (stream_error e) = provider_in_tree e
provider_in_tree (wrapped e) = provider_in_tree e
provider_in_tree (joined e f) =
    let left = provider_in_tree e in
    let right = provider_in_tree f in if str_eq left "" then right else left
provider_in_tree _ = ""

-- errors.As to `*ProviderError`: the provider of the first one.
unfoldable as_provider_error : Error → Option String
as_provider_error (provider_error p e) = some p
as_provider_error (stream_error e) = as_provider_error e
as_provider_error (wrapped e) = as_provider_error e
as_provider_error (joined e f) = or_else (as_provider_error e) (as_provider_error f)
as_provider_error _ = none

-- `ProviderFromError`.
unfoldable provider_from_error : Error → String
unfolding provider_in_tree as_provider_error as_api_error
provider_from_error e =
    let of_api : String = elim (as_api_error e) [ none ↦ "" | some a ↦ a.provider ] in
    if str_eq (provider_in_tree e) ""
    then elim (as_provider_error e) [ none ↦ of_api | some p ↦ (if str_eq p "" then of_api else p) ]
    else provider_in_tree e

-- A nil error stays nil; the operation is text.
unfoldable wrap_provider_error : String → Option Error → Option Error
wrap_provider_error p none = none
wrap_provider_error p (some e) = some (provider_error p e)

unfoldable pub first_context_error : Error → Option Sentinel
unfolding is
first_context_error e =
    if is e canceled
    then some canceled
    else if is e deadline_exceeded
    then some deadline_exceeded
    else none

fill_provider : String → ApiError → ApiError
fill_provider p a = if str_eq a.provider "" then record a { provider = p } else a

-- The `APIError` is filled in where it stands, and returned without what wraps it.
unfoldable pub wrap_http_error : String → Error → Error
unfolding as_api_error first_context_error fill_provider
wrap_http_error p e = elim (as_api_error e) [
  | none ↦ provider_error p e
  | some a ↦ elim (first_context_error e) [
    | none ↦ api_error (fill_provider p a)
    | some c ↦
        (if is (api_error (fill_provider p a)) c
          then api_error (fill_provider p a)
          else joined (sentinel c) (api_error (fill_provider p a)))
  ]
]

-- `rootCause`: down the first child of each node.
unfoldable pub root_cause : Error → Error
unfolding underlying_error
root_cause (api_error e) = elim (underlying_error e) [ none ↦ api_error e | some s ↦ sentinel s ]
root_cause (provider_error _ e) = root_cause e
root_cause (stream_error e) = root_cause e
root_cause (validation_errors n) =
    if ltb 0 n then sentinel invalid_parameters else validation_errors n
root_cause (wrapped e) = root_cause e
root_cause (joined e f) = root_cause e
root_cause e = e
