-- ===== src/RateLimit/Stale.antt =====
-- Requests that began before a `Reset` of the limiter of pkg/middleware/resilience/ratelimit.go, and
-- the guarded sum.
use llm_go_sdk.Base.{
  Bool, Bool-cases, List, arith, false, inl, inr, min, not, refl, suc, true, zero, ℕ, ◌+◌, ◌<◌,
  ◌==◌, ◌^◌, ◌||◌, ◌≡◌, ◌≤◌,
}
use llm_go_sdk.Base.Int.{pos, ℤ}
use llm_go_sdk.RateLimit.{
  LimiterApi, RateLimiter, add_token_debt, max_int, max_token_installments, restore_token_credit,
  saturating_add_int, settle_installment, settle_loop, settle_token_debt, token_bucket_burst,
}
use llm_go_sdk.RateLimit.Generations.{
  LimiterCall, limiter_run, limiter_run_generation, record_tokens_rule, resets_in,
}
use llm_go_sdk.RateLimit.Usage.{charge_extra, charge_usage, record_tokens, refund_usage}
use llm_go_sdk.RateLimit.Acquire.{}

-- The sum of two ints, a negative one counting as 0, cut at the largest int: it never wraps around.
pub saturating_add_int_bound :
    (a b : ℕ)
    → a ≤ max_int
    → b ≤ max_int
    → (saturating_add_int (pos a) (pos b) ≡ min (a + b) max_int)
      × (saturating_add_int (pos a) (pos b) ≤ max_int)
      × (a ≤ saturating_add_int (pos a) (pos b))
unfolding saturating_add_int
saturating_add_int_bound a b h k = ground arith

module _ {L : Type 0} (api : LimiterApi L) where
  -- The accounts of the present generation are the same.
  SameAccounts : RateLimiter L → RateLimiter L → Type 0
  SameAccounts rl rl' =
      (rl'.token_credit ≡ rl.token_credit)
      × (rl'.token_debt ≡ rl.token_debt)
      × (rl'.token_limiters rl.generation ≡ rl.token_limiters rl.generation)

  settle_loop_stale :
      (now gen : ℕ) (ctx_done : ℕ → Bool) (k : ℕ) (rl : RateLimiter L)
      → (rl.generation == gen) ≡ false
      → (settle_loop api now gen ctx_done 0 k
          (record { limiter = rl; delay = 0; going = true })).limiter
        ≡ rl
  unfolding settle_loop settle_installment
  settle_loop_stale now gen ctx_done zero rl h = refl
  settle_loop_stale now gen ctx_done (suc k) rl h =
      let stop : rl.token_debt == 0 || not (rl.generation == gen) ≡ true = ground arith in
      elim (Bool-cases (ctx_done 0)) [
        | inl t ↦ rw (t, settle_loop) refl
        | inr f ↦ rw (f, stop, settle_loop, settle_installment) refl
      ]

  settle_token_debt_stale :
      (now gen : ℕ) (ctx_done : ℕ → Bool) (rl : RateLimiter L)
      → (rl.generation == gen) ≡ false
      → (settle_token_debt api now gen ctx_done rl).0 ≡ rl
  unfolding settle_token_debt
  settle_token_debt_stale now gen ctx_done rl h =
      elim (Bool-cases (api.burst (rl.token_limiters gen) == 0)) [
        | inl t ↦ rw (t, settle_token_debt) refl
        | inr f ↦
            rw (f, settle_token_debt)
              (settle_loop_stale now gen ctx_done max_token_installments rl h)
      ]

  charge_usage_stale :
      (now extra gen : ℕ) (rl : RateLimiter L)
      → (gen == rl.generation) ≡ false
      → SameAccounts rl (charge_usage api now extra gen rl)
  unfolding charge_usage add_token_debt SameAccounts
  charge_usage_stale now extra gen rl h =
      let c =
        charge_extra api now (token_bucket_burst rl) max_token_installments extra
          (rl.token_limiters gen) in
      let ne : (rl.generation == gen) ≡ false = ground arith in
      elim (Bool-cases (token_bucket_burst rl == 0)) [
        | inl z ↦ rw (z, charge_usage) (refl, refl, refl)
        | inr p ↦ elim (Bool-cases (c.1 == 0)) [
          | inl d ↦ rw (p, d, charge_usage, add_token_debt) (refl, refl, rw ne refl)
          | inr d ↦ rw (p, d, h, charge_usage, add_token_debt) (refl, refl, rw ne refl)
        ]
      ]

  record_tokens_stale :
      (now gen : ℕ) (actual : ℤ) (rl : RateLimiter L)
      → (gen == rl.generation) ≡ false
      → SameAccounts rl (record_tokens api now actual gen rl)
  unfolding refund_usage SameAccounts
  record_tokens_stale now gen actual rl h =
      record_tokens_rule api (SameAccounts rl) now gen actual rl (refl, refl, refl)
        (λ extra. charge_usage_stale now extra gen rl h)
        (λ refund. rw (h, refund_usage) (refl, refl, refl))

  -- A request that took its snapshot of a limiter before a `Reset`, whatever calls and further resets
  -- (fewer than 2^64 in all) have come since, does not reach the accounts of the present: a credit
  -- that it restores and a debt that it adds leave the limiter as it is, so does settling a debt, and
  -- `recordTokens` with that snapshot leaves the credit, the debt and the bucket of the present as
  -- they are. `RecordTokens` takes a snapshot of its own when it is called, so this is no statement
  -- about a usage that is reported to it after the `Reset`.
  pub late_report_harmless :
      (rl : RateLimiter L) (cs : List (LimiterCall L)) (credit debt now : ℕ) (ctx_done : ℕ → Bool)
      (actual : ℤ)
      → rl.generation < 2 ^ 64
      → 0 < resets_in cs
      → resets_in cs < 2 ^ 64
      → (let present = limiter_run api rl cs in
          let reported = record_tokens api now actual rl.generation present in
          (restore_token_credit credit rl.generation present ≡ present)
          × (add_token_debt debt rl.generation present ≡ present)
          × ((settle_token_debt api now rl.generation ctx_done present).0 ≡ present)
          × (reported.token_credit ≡ present.token_credit)
          × (reported.token_debt ≡ present.token_debt)
          × (reported.token_limiters present.generation
              ≡ present.token_limiters present.generation))
  unfolding restore_token_credit add_token_debt SameAccounts
  late_report_harmless rl cs credit debt now ctx_done actual h some_reset few =
      let present = limiter_run api rl cs in
      let moved = limiter_run_generation api cs rl h in
      let ne : (rl.generation == present.generation) ≡ false = ground arith in
      let ne' : (present.generation == rl.generation) ≡ false = ground arith in
      let r = record_tokens_stale now rl.generation actual present ne in
      (
        rw (ne, restore_token_credit),
        elim (Bool-cases (debt == 0)) [
          | inl z ↦ rw (z, add_token_debt)
          | inr p ↦ rw (p, ne, add_token_debt)
        ],
        settle_token_debt_stale now rl.generation ctx_done present ne',
        r.0,
        r.1,
        r.2,
      )
