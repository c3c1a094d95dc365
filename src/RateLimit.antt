-- ===== src/RateLimit.antt =====
-- pkg/middleware/resilience/ratelimit.go: the token accounts of the rate limiter (its credit, its debt
-- and its generation) and the non-blocking acquisition. `rate.Limiter` of golang.org/x/time/rate is a
-- parameter: a record of operations over a state of any type. A limiter is a shared object, and a call
-- that began before a `Reset` still holds the old one, so the objects stand in a store under the
-- generation that made them. One goroutine runs at a time. The accounts are ints that never go below
-- 0, so they are natural numbers; the sum that is guarded against overflow has its guard.
use llm_go_sdk.Base.{
  Bool, false, if◌then◌else◌, ltb, max, min, not, suc, true, zero, ℕ, ◌%◌, ◌+◌, ◌-◌, ◌==◌, ◌^◌,
  ◌||◌,
}
use llm_go_sdk.Base.Int.{negsuc, pos, ℤ}
pub mod Debt
pub mod Generations
pub mod Stale
pub mod Usage
mod Options
pub mod Acquire
pub mod Accounts
pub mod Payment
mod Examples

abbrev pub max_int : ℕ
max_int = 2 ^ 63 - 1

abbrev pub max_token_installments : ℕ
max_token_installments = 64

-- A reservation: whether it was granted, and how long its owner has to wait.
pub record Reservation : Type 0 where
  pub ok : Bool
  pub delay : ℕ

-- `ReserveN` and `Tokens` at a time, `CancelAt` of a reservation of `n`, and `Burst`.
pub record LimiterApi (L : Type 0) : Type 0 where
  pub reserve_n : ℕ → ℕ → L → L × Reservation
  pub cancel_at : ℕ → ℕ → Reservation → L → L
  pub tokens_at : ℕ → L → ℤ
  pub burst : L → ℕ

pub record RateLimiter (L : Type 0) : Type 0 where
  pub request_limiters : ℕ → L
  pub token_limiters : ℕ → L
  pub tokens_per_min : ℕ
  pub token_burst : ℕ
  pub token_estimate : ℕ
  pub token_credit : ℕ
  pub token_debt : ℕ
  pub generation : ℕ  -- uint64

pub data RateLimitFailure : Type 0 where
  rate_limit_exceeded : RateLimitFailure
  context_ended : RateLimitFailure

unfoldable pub saturating_add_int : ℤ → ℤ → ℕ
saturating_add_int (negsuc a) (negsuc b) = 0
saturating_add_int (negsuc a) (pos b) = b
saturating_add_int (pos a) (negsuc b) = a
saturating_add_int (pos a) (pos b) = if ltb (max_int - b) a then max_int else a + b

-- A write to the object that a generation made.
abbrev pub store : {L : Type 0} → ℕ → L → (ℕ → L) → ℕ → L
store g l ls h = if h == g then l else ls h

module _ {L : Type 0} where
  unfoldable pub token_bucket_burst : RateLimiter L → ℕ
  token_bucket_burst rl =
      if ltb 0 rl.token_burst then rl.token_burst else max rl.tokens_per_min rl.token_estimate

  -- The new objects, at the start and after a `Reset`, are arguments.
  unfoldable pub reset : L → L → RateLimiter L → RateLimiter L
  reset request token rl =
      let gen = (rl.generation + 1) % 2 ^ 64 in
      record rl {
        request_limiters = store gen request rl.request_limiters;
        token_limiters = store gen token rl.token_limiters;
        token_credit = 0;
        token_debt = 0;
        generation = gen;
      }

  unfoldable pub consume_token_credit : ℕ → RateLimiter L → RateLimiter L × ℕ
  consume_token_credit tokens rl =
      let credit = min tokens rl.token_credit in
      (record rl { token_credit = rl.token_credit - credit }, credit)

  unfoldable pub restore_token_credit : ℕ → ℕ → RateLimiter L → RateLimiter L
  restore_token_credit credit gen rl =
      if gen == rl.generation then record rl { token_credit = rl.token_credit + credit } else rl

  unfoldable pub add_token_debt : ℕ → ℕ → RateLimiter L → RateLimiter L
  unfolding saturating_add_int
  add_token_debt n gen rl =
      if n == 0
      then rl
      else if gen == rl.generation
      then record rl { token_debt = saturating_add_int (pos rl.token_debt) (pos n) }
      else rl

-- The variables of the loop of `settleTokenDebt`; `going` is false after a break.
pub record Settling (L : Type 0) : Type 0 where
  pub limiter : RateLimiter L
  pub delay : ℕ
  pub going : Bool

module _ {L : Type 0} (api : LimiterApi L) where
  -- One installment, under the lock; `gen` names the limiter that the caller holds.
  unfoldable pub settle_installment : ℕ → ℕ → Settling L → Settling L
  settle_installment now gen s =
      let rl = s.limiter in
      let debt = rl.token_debt in
      let credit = min debt rl.token_credit in
      let n = min (debt - credit) (api.burst (rl.token_limiters gen)) in
      let reserved = api.reserve_n now n (rl.token_limiters gen) in
      if debt == 0 || not (rl.generation == gen)
      then record s { going = false }
      else if credit == debt
      then record {
        limiter = record rl { token_credit = rl.token_credit - credit; token_debt = 0 };
        delay = s.delay;
        going = false;
      }
      else if reserved.1.ok
      then record {
        limiter = record rl {
          token_limiters = store gen reserved.0 rl.token_limiters;
          token_credit = rl.token_credit - credit;
          token_debt = debt - (credit + n);
        };
        delay = max s.delay reserved.1.delay;
        going = true;
      }
      else record {
        limiter = record rl { token_limiters = store gen reserved.0 rl.token_limiters };
        delay = s.delay;
        going = false;
      }

  -- The loop; `ctx_done i` is whether the context has ended before the i-th installment.
  unfoldable pub settle_loop : ℕ → ℕ → (ℕ → Bool) → ℕ → ℕ → Settling L → Settling L
  unfolding settle_installment
  settle_loop now gen ctx_done i zero s = s
  settle_loop now gen ctx_done i (suc k) s =
      let next = settle_installment now gen s in
      let rest = settle_loop now gen ctx_done (i + 1) k next in
      if ctx_done i then s else if next.going then rest else next

  -- The limiter after it, the delay and what remains.
  unfoldable pub settle_token_debt : ℕ → ℕ → (ℕ → Bool) → RateLimiter L → RateLimiter L × (ℕ × ℕ)
  unfolding settle_loop
  settle_token_debt now gen ctx_done rl =
      let s =
        settle_loop now gen ctx_done 0 max_token_installments
          (record { limiter = rl; delay = 0; going = true }) in
      if api.burst (rl.token_limiters gen) == 0
      then (rl, (0, 0))
      else (s.limiter, (s.delay, s.limiter.token_debt))
