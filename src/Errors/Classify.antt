-- ===== src/Errors/Classify.antt =====
-- What the classifiers of errors.go agree on, and that wrapping an error on its way up to the caller
-- keeps its class.
use Prim.Native.String.{String}
use llm_go_sdk.Base.{
  Bool, Bool-cases, Option, Option-cases, arith, false, inl, inr, refl, some, ℕ, ◌||◌, ◌≡◌,
}
use llm_go_sdk.Errors.{
  ApiError, Sentinel, api_error, canceled, classify_code, classify_type, deadline_exceeded, is,
  is_quota_code, is_retryable, is_sentinel, rate_limited, request_timeout, server_error,
  service_unavailable, status_classification, underlying_error,
}

-- The flags of the status table agree with the sentinels of the status table, and the quota codes
-- with theirs: an API error is retryable exactly when it matches one of the four transient sentinels.
pub is_retryable_matches :
    (a : ApiError)
    → is_retryable a ≡ (
        is (api_error a) rate_limited
        || (is (api_error a) server_error
            || (is (api_error a) service_unavailable || is (api_error a) request_timeout)))
unfolding is_retryable is
is_retryable_matches a = ground arith

pub is_retryable_provider :
    (p : String) (a : ApiError) → is_retryable (record a { provider = p }) ≡ is_retryable a
unfolding is_retryable
is_retryable_provider p a = refl

-- No classification is an error of a context.
NoContext : Option Sentinel → Type 0
NoContext u = (is_sentinel u canceled ≡ false) × (is_sentinel u deadline_exceeded ≡ false)

status_classification-NoContext :
    (status : ℕ) (u : Sentinel) (b : Bool)
    → status_classification status ≡ some (u, b)
    → NoContext (some u)
unfolding NoContext
status_classification-NoContext status u b h = ground arith

classify_type-NoContext : (t : String) → NoContext (classify_type t)
unfolding NoContext classify_type
classify_type-NoContext t = ground arith

classify_code-NoContext : (c t : String) → NoContext (classify_code c t)
unfolding NoContext classify_code
classify_code-NoContext c t = ground (arith, classify_type-NoContext t)

underlying_error-NoContext : (a : ApiError) → NoContext (underlying_error a)
unfolding NoContext underlying_error
underlying_error-NoContext a = elim (Bool-cases (is_quota_code a.code)) [
  | inl t ↦ rw (t, underlying_error) (refl, refl)
  | inr f ↦ elim (Option-cases (status_classification a.status_code)) [
    | inl n ↦ rw (f, n, underlying_error) (classify_code-NoContext a.code a.type_name)
    | inr ((u, b), n) ↦
        rw (f, n, underlying_error) (status_classification-NoContext a.status_code u b n)
  ]
]

pub api_not_context :
    (a : ApiError)
    → (is (api_error a) canceled ≡ false) × (is (api_error a) deadline_exceeded ≡ false)
unfolding is NoContext
api_not_context a = underlying_error-NoContext a
