-- ===== src/RateLimit/Examples.antt =====
-- A limiter over a bucket that counts what it has charged, grants ten tokens at a time, and makes
-- nobody wait.
use llm_go_sdk.Base.{
  Bool, List, [], arith, false, if◌then◌else◌, leb, refl, true, ℕ, ◌*◌, ◌+◌, ◌-◌, ◌∷◌, ◌≡◌, ◌≤◌,
}
use llm_go_sdk.Base.Int.{pos}
use llm_go_sdk.RateLimit.{
  LimiterApi, RateLimiter, add_token_debt, max_token_installments, restore_token_credit,
  settle_token_debt, token_bucket_burst,
}
use llm_go_sdk.RateLimit.Debt.{Charges, settle_token_debt-Balanced}
use llm_go_sdk.RateLimit.Generations.{LimiterCall, acquires, limiter_run, resets}
use llm_go_sdk.RateLimit.Stale.{late_report_harmless}
use llm_go_sdk.RateLimit.Usage.{record_tokens, record_tokens_charges}
use llm_go_sdk.RateLimit.Payment.{try_acquire_paid}
use llm_go_sdk.RateLimit.Accounts.{Refunds, try_acquire_refused}
use llm_go_sdk.RateLimit.Acquire.{settled, try_acquire}

abbrev api : LimiterApi ℕ
api = record {
  reserve_n = λ now n l.
      if leb n 10
      then (l + n, record { ok = true; delay = 0 })
      else (l, record { ok = false; delay = 0 });
  cancel_at = λ now n r l. if r.ok then l - n else l;
  tokens_at = λ now l. pos 3;
  burst = λ l. 10;
}

abbrev spent : ℕ → ℕ
spent l = l

api-Charges : Charges api spent
api-Charges now n l = ground arith

api_grants : (now n l : ℕ) → n ≤ api.burst l → (api.reserve_n now n l).1.ok ≡ true
api_grants now n l h = ground arith

api_fixed : (now n l : ℕ) → api.burst (api.reserve_n now n l).0 ≡ api.burst l
api_fixed now n l = refl

abbrev limiter : RateLimiter ℕ
limiter = record {
  request_limiters = λ g. 0;
  token_limiters = λ g. 5;
  tokens_per_min = 10;
  token_burst = 10;
  token_estimate = 4;
  token_credit = 2;
  token_debt = 25;
  generation = 0;
}

abbrev never_done : ℕ → Bool
never_done i = false

settled_limiter :
    ((settle_token_debt api 1 0 never_done limiter).0.token_debt ≡ 0)
    × ((settle_token_debt api 1 0 never_done limiter).0.token_credit ≡ 0)
unfolding settle_token_debt
settled_limiter = (refl, refl)

settle_token_debt-Balanced_example :
    (let rl' = (settle_token_debt api 1 0 never_done limiter).0 in
      (spent (rl'.token_limiters 0) + rl'.token_debt + limiter.token_credit
        ≡ spent (limiter.token_limiters 0) + limiter.token_debt + rl'.token_credit)
      × (rl'.token_debt ≤ limiter.token_debt)
      × (rl'.token_credit ≤ limiter.token_credit))
settle_token_debt-Balanced_example =
    settle_token_debt-Balanced api spent api-Charges 1 0 never_done limiter

record_tokens_charges_example :
    (let rl' = record_tokens api 1 (pos 700) 0 limiter in
      (spent (rl'.token_limiters 0) + rl'.token_debt
        ≡ spent (limiter.token_limiters 0) + limiter.token_debt + (700 - limiter.token_estimate))
      × (rl'.token_debt
          ≡ limiter.token_debt
            + (700 - limiter.token_estimate - max_token_installments * token_bucket_burst limiter))
      × (rl'.token_credit ≡ limiter.token_credit))
unfolding token_bucket_burst
record_tokens_charges_example =
    record_tokens_charges api spent api-Charges api_grants api_fixed 1 700 limiter (omega arith)
      (omega arith) refl (omega arith)

abbrev indebted : RateLimiter ℕ
indebted = record limiter { token_debt = 2 }

api-Refunds : Refunds api spent
api-Refunds now n l = ground arith

try_acquire_refused_example :
    (let before = (settled api 1 never_done indebted).0 in
      let after = (try_acquire api 1 2 never_done false 11 6 indebted).0 in
      (after.token_credit ≡ before.token_credit)
      × (after.token_debt ≡ before.token_debt)
      × (spent (after.request_limiters 0) ≡ spent (before.request_limiters 0))
      × (spent (after.token_limiters 0) ≡ spent (before.token_limiters 0)))
unfolding try_acquire settled
try_acquire_refused_example =
    try_acquire_refused api spent api-Refunds 1 2 never_done false 11 6 0 indebted (λ e. cc e)

try_acquire_paid_example :
    (let before = (settled api 1 never_done indebted).0 in
      let after = (try_acquire api 1 2 never_done false 1 16 indebted).0 in
      (spent (after.request_limiters before.generation)
        ≡ spent (before.request_limiters before.generation) + 1)
      × (spent (after.token_limiters before.generation) + after.token_debt + before.token_credit
          ≡ spent (before.token_limiters before.generation)
            + before.token_debt
            + after.token_credit
            + 16))
unfolding try_acquire settled
try_acquire_paid_example =
    try_acquire_paid api spent api-Charges 1 2 never_done false 1 16 indebted refl (omega arith)
      (omega arith)

-- An acquisition, a `Reset`, and another acquisition after it.
abbrev later_calls : List (LimiterCall ℕ)
later_calls =
    acquires 1 1 never_done false 1 16 ∷ resets 0 0 ∷ acquires 2 2 never_done false 1 6 ∷ []

late_report_harmless_example :
    (let present = limiter_run api limiter later_calls in
      let reported = record_tokens api 3 (pos 9) 0 present in
      (restore_token_credit 3 0 present ≡ present)
      × (add_token_debt 8 0 present ≡ present)
      × ((settle_token_debt api 3 0 never_done present).0 ≡ present)
      × (reported.token_credit ≡ present.token_credit)
      × (reported.token_debt ≡ present.token_debt)
      × (reported.token_limiters present.generation ≡ present.token_limiters present.generation))
late_report_harmless_example =
    late_report_harmless api limiter later_calls 3 8 3 never_done (pos 9) (omega arith)
      (omega arith) (omega arith)
