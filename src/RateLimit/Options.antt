-- ===== src/RateLimit/Options.antt =====
-- The construction of the rate limiter of pkg/middleware/resilience/ratelimit.go, and the limiters that
-- callers share by key. The buckets are made by golang.org/x/time/rate from a rate per minute and a
-- burst, which is a parameter.
use Prim.Native.String.{String}
use text.Mathlib.Text.{◌==◌ as str_eq}
use llm_go_sdk.Base.{
  Bool, Bool-cases, List, Option, [], if◌then◌else◌, inl, inr, ltb, max, none, refl, some, true, ℕ,
  ◌∷◌, ◌≡◌,
}
use llm_go_sdk.Base.Int.{pos, ℤ}
use llm_go_sdk.RateLimit.{RateLimiter}

data RateLimitOption : Type 0 where
  with_requests_per_minute with_request_burst with_tokens_per_minute with_token_burst
        with_token_estimate with_wait_timeout :
      ℤ → RateLimitOption
  with_blocking : Bool → RateLimitOption

-- The settings, which no later call changes.
record RateLimitSettings : Type 0 where
  requests_per_min : ℕ
  request_burst : ℕ
  tokens_per_min : ℕ
  token_burst : ℕ
  token_estimate : ℕ
  blocking : Bool
  wait_timeout : ℕ

abbrev default_settings : RateLimitSettings
default_settings = record {
  requests_per_min = 60;
  request_burst = 1;
  tokens_per_min = 0;
  token_burst = 0;
  token_estimate = 1000;
  blocking = true;
  wait_timeout = 30000000000;
}

-- Each option stores a positive number only.
unfoldable apply_rate_limit_option : RateLimitSettings → RateLimitOption → RateLimitSettings
apply_rate_limit_option s (with_requests_per_minute (pos n)) =
    if ltb 0 n then record s { requests_per_min = n } else s
apply_rate_limit_option s (with_request_burst (pos n)) =
    if ltb 0 n then record s { request_burst = n } else s
apply_rate_limit_option s (with_tokens_per_minute (pos n)) =
    if ltb 0 n then record s { tokens_per_min = n } else s
apply_rate_limit_option s (with_token_burst (pos n)) =
    if ltb 0 n then record s { token_burst = n } else s
apply_rate_limit_option s (with_token_estimate (pos n)) =
    if ltb 0 n then record s { token_estimate = n } else s
apply_rate_limit_option s (with_wait_timeout (pos d)) =
    if ltb 0 d then record s { wait_timeout = d } else s
apply_rate_limit_option s (with_blocking b) = record s { blocking = b }
apply_rate_limit_option s _ = s

unfoldable apply_rate_limit_options : RateLimitSettings → List RateLimitOption → RateLimitSettings
unfolding apply_rate_limit_option
apply_rate_limit_options s [] = s
apply_rate_limit_options s (o ∷ os) = apply_rate_limit_options (apply_rate_limit_option s o) os

-- `new_limiter rate burst` is a fresh bucket of `rate` a minute.
module _ {L : Type 0} (new_limiter : ℕ → ℕ → L) where
  unfoldable limiter_of : RateLimitSettings → RateLimiter L
  limiter_of s = record {
    request_limiters = λ g. new_limiter s.requests_per_min s.request_burst;
    token_limiters = λ g.
        new_limiter s.tokens_per_min
          (if ltb 0 s.token_burst then s.token_burst else max s.tokens_per_min s.token_estimate);
    tokens_per_min = s.tokens_per_min;
    token_burst = s.token_burst;
    token_estimate = s.token_estimate;
    token_credit = 0;
    token_debt = 0;
    generation = 0;
  }

  unfoldable new_rate_limiter : List RateLimitOption → RateLimiter L
  unfolding apply_rate_limit_options limiter_of
  new_rate_limiter opts = limiter_of (apply_rate_limit_options default_settings opts)

  -- The shared limiters, as an association list from keys.
  unfoldable find_limiter : String → List (String × RateLimiter L) → Option (RateLimiter L)
  find_limiter key [] = none
  find_limiter key ((k, l) ∷ ls) = if str_eq k key then some l else find_limiter key ls

  -- The limiter of a key, made on the first call.
  unfoldable get_limiter :
      String
      → List RateLimitOption
      → List (String × RateLimiter L)
      → List (String × RateLimiter L) × RateLimiter L
  unfolding find_limiter new_rate_limiter
  get_limiter key opts ls = elim (find_limiter key ls) [
    | some l ↦ (ls, l)
    | none ↦ ((key, new_rate_limiter opts) ∷ ls, new_rate_limiter opts)
  ]

  unfoldable remove_limiter : String → List (String × RateLimiter L) → List (String × RateLimiter L)
  remove_limiter key [] = []
  remove_limiter key ((k, l) ∷ ls) =
      let rest = remove_limiter key ls in if str_eq k key then rest else (k, l) ∷ rest

  -- A limiter that was removed is made again, with the new options, by the next call for its key.
  find_limiter-remove_limiter :
      (key : String) (ls : List (String × RateLimiter L))
      → find_limiter key (remove_limiter key ls) ≡ none
  unfolding find_limiter remove_limiter
  find_limiter-remove_limiter key [] = refl
  find_limiter-remove_limiter key ((k, l) ∷ ls) = elim (Bool-cases (str_eq k key)) [
    | inl t ↦ rw (t, remove_limiter) (find_limiter-remove_limiter key ls)
    | inr f ↦ rw (f, remove_limiter) (rw f (find_limiter-remove_limiter key ls))
  ]
