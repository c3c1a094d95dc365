-- ===== src/RateLimit/Acquire.antt =====
-- `tryAcquire` of pkg/middleware/resilience/ratelimit.go.
use llm_go_sdk.Base.{
  Bool, Option, arith, if◌then◌else◌, ltb, min, none, not, some, ℕ, ◌&&◌, ◌+◌, ◌-◌, ◌==◌, ◌||◌, ◌≡◌,
  ◌≤◌,
}
use llm_go_sdk.Base.Int.{}
use llm_go_sdk.RateLimit.{
  LimiterApi, RateLimitFailure, RateLimiter, Reservation, add_token_debt, consume_token_credit,
  context_ended, rate_limit_exceeded, restore_token_credit, settle_token_debt, store,
}

abbrev pub granted : Reservation → Bool
granted r = r.ok && r.delay == 0

-- What a request takes from the token accounts: the credit, the part of its tokens that is reserved
-- and the part that is left as a debt.
pub record Charge : Type 0 where
  pub credit : ℕ
  pub reserved : ℕ
  pub deferred : ℕ

module _ {L : Type 0} (api : LimiterApi L) where
  unfoldable pub reserve_requests : ℕ → ℕ → RateLimiter L → RateLimiter L × Reservation
  reserve_requests now n rl =
      let r = api.reserve_n now n (rl.request_limiters rl.generation) in
      (record rl { request_limiters = store rl.generation r.0 rl.request_limiters }, r.1)

  unfoldable pub cancel_requests : ℕ → ℕ → Reservation → RateLimiter L → RateLimiter L
  cancel_requests now n r rl = record rl {
    request_limiters =
        store rl.generation (api.cancel_at now n r (rl.request_limiters rl.generation))
          rl.request_limiters;
  }

  unfoldable pub reserve_tokens : ℕ → ℕ → RateLimiter L → RateLimiter L × Reservation
  reserve_tokens now n rl =
      let r = api.reserve_n now n (rl.token_limiters rl.generation) in
      (record rl { token_limiters = store rl.generation r.0 rl.token_limiters }, r.1)

  unfoldable pub cancel_tokens : ℕ → ℕ → Reservation → RateLimiter L → RateLimiter L
  cancel_tokens now n r rl = record rl {
    token_limiters =
        store rl.generation (api.cancel_at now n r (rl.token_limiters rl.generation))
          rl.token_limiters;
  }

  unfoldable pub charge_of : ℕ → RateLimiter L → Charge
  charge_of tokens rl =
      let credit = min tokens rl.token_credit in
      let b = api.burst (rl.token_limiters rl.generation) in
      let rest = tokens - credit in
      if ltb 0 b && ltb b rest
      then record { credit = credit; reserved = b; deferred = rest - b }
      else record { credit = credit; reserved = rest; deferred = 0 }

  -- The acquisition of requests alone.
  unfoldable pub acquire_requests : ℕ → ℕ → RateLimiter L → RateLimiter L × Option RateLimitFailure
  unfolding reserve_requests cancel_requests
  acquire_requests now requests rl =
      let r = reserve_requests now requests rl in
      if granted r.1
      then (r.0, none)
      else (cancel_requests now requests r.1 r.0, some rate_limit_exceeded)

  -- The acquisition of requests and tokens, whose credit is taken first.
  unfoldable pub acquire_both : ℕ → ℕ → ℕ → RateLimiter L → RateLimiter L × Option RateLimitFailure
  unfolding reserve_requests cancel_requests reserve_tokens cancel_tokens charge_of
      consume_token_credit restore_token_credit add_token_debt
  acquire_both now requests tokens rl =
      let gen = rl.generation in
      let c = charge_of tokens rl in
      let r = reserve_requests now requests (consume_token_credit tokens rl).0 in
      let t = reserve_tokens now c.reserved r.0 in
      if not (granted r.1)
      then (
        restore_token_credit c.credit gen (cancel_requests now requests r.1 r.0),
        some rate_limit_exceeded,
      )
      else if c.reserved == 0
      then (add_token_debt c.deferred gen r.0, none)
      else if not (granted t.1)
      then (
        cancel_requests now requests r.1
            (restore_token_credit c.credit gen (cancel_tokens now c.reserved t.1 t.0)),
        some rate_limit_exceeded,
      )
      else (add_token_debt c.deferred gen t.0, none)

  -- The limiter once the debt is settled, with the delay and the debt that remain; without a token
  -- limiter there is nothing to settle.
  unfoldable pub settled : ℕ → (ℕ → Bool) → RateLimiter L → RateLimiter L × (ℕ × ℕ)
  unfolding settle_token_debt
  settled now ctx_done rl =
      if ltb 0 rl.tokens_per_min
      then settle_token_debt api now rl.generation ctx_done rl
      else (rl, (0, 0))

  -- The refusals before anything is reserved. `ctx_ended` is whether the context has ended after the
  -- debt is settled.
  unfoldable pub early_refusal : Bool → ℕ → RateLimiter L × (ℕ × ℕ) → Option RateLimitFailure
  early_refusal ctx_ended requests (rl, (delay, remaining)) =
      let b = api.burst (rl.request_limiters rl.generation) in
      if ltb 0 rl.tokens_per_min && ctx_ended
      then some context_ended
      else if ltb 0 remaining || ltb 0 delay
      then some rate_limit_exceeded
      else if ltb 0 b && ltb b requests
      then some rate_limit_exceeded
      else none

  -- `tryAcquire`, whose clock is read when the debt is settled and again for the reservations.
  unfoldable pub try_acquire :
      ℕ → ℕ → (ℕ → Bool) → Bool → ℕ → ℕ → RateLimiter L → RateLimiter L × Option RateLimitFailure
  unfolding settled early_refusal acquire_requests acquire_both
  try_acquire settled_at now ctx_done ctx_ended requests tokens rl =
      let s = settled settled_at ctx_done rl in
      elim (early_refusal ctx_ended requests s) [
        | some f ↦ (s.0, some f)
        | none ↦
            (if ltb 0 s.0.tokens_per_min && ltb 0 tokens
              then acquire_both now requests tokens s.0
              else acquire_requests now requests s.0)
      ]

  -- What a granted request pays, however it is split: credit, reservation and debt add up to its
  -- tokens, and the credit is not overdrawn.
  pub charge_of_splits :
      (tokens : ℕ) (rl : RateLimiter L)
      → ((charge_of tokens rl).credit
            + (charge_of tokens rl).reserved
            + (charge_of tokens rl).deferred
          ≡ tokens)
        × ((charge_of tokens rl).credit ≤ rl.token_credit)
  unfolding charge_of
  charge_of_splits tokens rl = ground arith
