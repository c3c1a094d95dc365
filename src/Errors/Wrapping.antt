-- ===== src/Errors/Wrapping.antt =====
-- `WrapHTTPError` drops what wraps an `APIError`, and still keeps the class of the error.
use Prim.Native.String.{String}
use text.Mathlib.Text.{◌==◌ as str_eq}
use llm_go_sdk.Base.{
  Bool-cases, Option-cases, arith, false, inl, inr, none, refl, some, sym, true, ◌∙◌, ◌≡◌, ◌⊎◌,
}
use llm_go_sdk.Errors.{
  ApiError, Error, Sentinel, api_error, as_api_error, canceled, deadline_exceeded, fill_provider,
  first_context_error, is, is_retryable, is_temporary, joined, sentinel, wrap_http_error,
}
use llm_go_sdk.Errors.Classify.{api_not_context, is_retryable_provider}

-- An error that carries the caller's cancellation or deadline is never temporary, whatever API error
-- or transient sentinel stands beside it in the tree.
pub is_temporary_canceled :
    (e : Error) → (is e canceled ≡ true) ⊎ (is e deadline_exceeded ≡ true) → is_temporary e ≡ false
unfolding is_temporary
is_temporary_canceled e h = ground arith

fill_retryable : (p : String) (a : ApiError) → is_retryable (fill_provider p a) ≡ is_retryable a
unfolding fill_provider
fill_retryable p a = elim (Bool-cases (str_eq a.provider "")) [
  | inl e ↦ rw e (is_retryable_provider p a)
  | inr e ↦ rw e
]

is_temporary_api : (a : ApiError) → is_temporary (api_error a) ≡ is_retryable a
unfolding is_temporary as_api_error
is_temporary_api a = ground (arith, api_not_context a)

-- The class of an error whose tree holds an API error.
is_temporary_as_api :
    (e : Error) (a : ApiError)
    → as_api_error e ≡ some a
    → is e canceled ≡ false
    → is e deadline_exceeded ≡ false
    → is_temporary e ≡ is_retryable a
unfolding is_temporary
is_temporary_as_api e a h c d = rw (c, d, h, is_temporary)

first_context_error_lem :
    (e : Error)
    → ((first_context_error e ≡ none) × (is e canceled ≡ false) × (is e deadline_exceeded ≡ false))
      ⊎ ((c : Sentinel) × (first_context_error e ≡ some c)
          × ((c ≡ canceled) ⊎ (c ≡ deadline_exceeded))
          × (is e c ≡ true))
unfolding first_context_error
first_context_error_lem e = elim (Bool-cases (is e canceled)) [
  | inl h ↦ inr (canceled, rw h, inl refl, h)
  | inr h ↦ elim (Bool-cases (is e deadline_exceeded)) [
    | inl k ↦ inr (deadline_exceeded, rw (h, k), inr refl, k)
    | inr k ↦ inl (rw (h, k), h, k)
  ]
]

api_not :
    (a : ApiError) (c : Sentinel)
    → (c ≡ canceled) ⊎ (c ≡ deadline_exceeded)
    → is (api_error a) c ≡ false
api_not a c (inl e) = rw e (api_not_context a).0
api_not a c (inr e) = rw e (api_not_context a).1

joined_context :
    (c : Sentinel) (f : Error)
    → (c ≡ canceled) ⊎ (c ≡ deadline_exceeded)
    → is_temporary (joined (sentinel c) f) ≡ false
unfolding is
joined_context c f (inl e) = is_temporary_canceled (joined (sentinel c) f) (inl (rw e))
joined_context c f (inr e) = is_temporary_canceled (joined (sentinel c) f) (inr (rw e))

is_temporary_context :
    (e : Error) (c : Sentinel)
    → (c ≡ canceled) ⊎ (c ≡ deadline_exceeded)
    → is e c ≡ true
    → is_temporary e ≡ false
is_temporary_context e c (inl h) k = is_temporary_canceled e (inl (rw h at k))
is_temporary_context e c (inr h) k = is_temporary_canceled e (inr (rw h at k))

-- Wrapping an error for the caller does not change whether it is temporary, although it drops
-- whatever stood between the caller and the API error.
pub is_temporary-wrap_http_error :
    (p : String) (e : Error) → is_temporary (wrap_http_error p e) ≡ is_temporary e
unfolding wrap_http_error
is_temporary-wrap_http_error p e = elim (Option-cases (as_api_error e)) [
  | inl h ↦ rw (h, wrap_http_error) (unfold is_temporary in refl)
  | inr (a, h) ↦ elim (first_context_error_lem e) [
    | inl (n, c, d) ↦
        rw (h, n, wrap_http_error)
          (is_temporary_api (fill_provider p a)
            ∙ fill_retryable p a
            ∙ sym (is_temporary_as_api e a h c d))
    | inr (c, f, k, m) ↦
        rw (h, f, api_not (fill_provider p a) c k, wrap_http_error)
          (joined_context c (api_error (fill_provider p a)) k ∙ sym (is_temporary_context e c k m))
  ]
]
