-- ===== src/RateLimit/Usage.antt =====
-- `recordTokens` of pkg/middleware/resilience/ratelimit.go: the usage that a provider reports, against
-- the estimate that was reserved.
use llm_go_sdk.Base.{
  Bool-cases, ap, arith, false, if◌then◌else◌, inl, inr, ltb, min, refl, suc, true, zero, ℕ, ◌*◌,
  ◌+◌, ◌-◌, ◌<◌, ◌==◌, ◌∙◌, ◌≡◌, ◌≤◌, ◌⊎◌,
}
use llm_go_sdk.Base.Int.{negsuc, pos, ℤ}
use llm_go_sdk.RateLimit.{
  LimiterApi, RateLimiter, add_token_debt, max_int, max_token_installments, saturating_add_int,
  store, token_bucket_burst,
}
use llm_go_sdk.RateLimit.Debt.{Charges, store_same}

-- What fits into the bucket beside its tokens and the credit; the tokens can be negative.
abbrev pub room_for : ℕ → ℤ → ℕ → ℕ
room_for burst (pos tokens) credit = burst - tokens - credit
room_for burst (negsuc owed) credit = burst + suc owed - credit

module _ {L : Type 0} (api : LimiterApi L) where
  -- The loop over the installments: the bucket, and what is left over.
  unfoldable pub charge_extra : ℕ → ℕ → ℕ → ℕ → L → L × ℕ
  charge_extra now burst zero extra l = (l, extra)
  charge_extra now burst (suc k) extra l =
      let n = min extra burst in
      let rest = charge_extra now burst k (extra - n) (api.reserve_n now n l).0 in
      if extra == 0 then (l, extra) else rest

  -- A usage above the estimate.
  unfoldable pub charge_usage : ℕ → ℕ → ℕ → RateLimiter L → RateLimiter L
  unfolding charge_extra add_token_debt token_bucket_burst
  charge_usage now extra gen rl =
      let c =
        charge_extra now (token_bucket_burst rl) max_token_installments extra
          (rl.token_limiters gen) in
      if token_bucket_burst rl == 0
      then rl
      else add_token_debt c.1 gen (record rl { token_limiters = store gen c.0 rl.token_limiters })

  -- A usage below it: the refund cancels debt first, and the rest becomes credit while it fits.
  unfoldable pub refund_usage : ℕ → ℕ → ℕ → RateLimiter L → RateLimiter L
  unfolding token_bucket_burst
  refund_usage now refund gen rl =
      let cancel = min refund rl.token_debt in
      let room =
        room_for (token_bucket_burst rl) (api.tokens_at now (rl.token_limiters gen))
          rl.token_credit in
      if gen == rl.generation
      then record rl {
        token_debt = rl.token_debt - cancel;
        token_credit = rl.token_credit + min (refund - cancel) room;
      }
      else rl

  unfoldable pub record_tokens : ℕ → ℤ → ℕ → RateLimiter L → RateLimiter L
  unfolding charge_usage refund_usage
  record_tokens now (negsuc actual) gen rl = rl
  record_tokens now (pos actual) gen rl =
      if rl.tokens_per_min == 0
      then rl
      else if ltb rl.token_estimate actual
      then charge_usage now (actual - rl.token_estimate) gen rl
      else if ltb actual rl.token_estimate
      then refund_usage now (rl.token_estimate - actual) gen rl
      else rl

  refund_usage_bounds :
      (now refund t : ℕ) (rl : RateLimiter L)
      → api.tokens_at now (rl.token_limiters rl.generation) ≡ pos t
      → (let rl' = refund_usage now refund rl.generation rl in
          (rl'.token_credit + rl.token_debt ≤ rl.token_credit + rl'.token_debt + refund)
          × ((rl'.token_debt ≡ 0) ⊎ (rl'.token_credit ≡ rl.token_credit))
          × ((rl'.token_credit ≡ rl.token_credit) ⊎ (t + rl'.token_credit ≤ token_bucket_burst rl)))
  unfolding refund_usage
  refund_usage_bounds now refund t rl h =
      let here : rl.generation == rl.generation ≡ true = ground arith in
      let same : room_for (token_bucket_burst rl) (pos t) rl.token_credit
          ≡ token_bucket_burst rl - t - rl.token_credit =
        refl in
      rw (here, h, refund_usage) (omega arith, ground arith, ground arith)

  -- A usage below the estimate, on a limiter that limits tokens: at most the difference is given
  -- back; the credit gets something only once no debt is left, and only as far as bucket and credit
  -- together stay within the burst.
  pub record_tokens_refunds :
      (now actual t : ℕ) (rl : RateLimiter L)
      → 0 < rl.tokens_per_min
      → actual < rl.token_estimate
      → api.tokens_at now (rl.token_limiters rl.generation) ≡ pos t
      → (let rl' = record_tokens now (pos actual) rl.generation rl in
          (rl'.token_credit + rl.token_debt
            ≤ rl.token_credit + rl'.token_debt + (rl.token_estimate - actual))
          × ((rl'.token_debt ≡ 0) ⊎ (rl'.token_credit ≡ rl.token_credit))
          × ((rl'.token_credit ≡ rl.token_credit) ⊎ (t + rl'.token_credit ≤ token_bucket_burst rl)))
  unfolding record_tokens
  record_tokens_refunds now actual t rl lim less h =
      let a : rl.tokens_per_min == 0 ≡ false = ground arith in
      let b : ltb rl.token_estimate actual ≡ false = ground arith in
      let c : ltb actual rl.token_estimate ≡ true = ground arith in
      rw (a, b, c, record_tokens) (refund_usage_bounds now (rl.token_estimate - actual) t rl h)

module _ {L : Type 0} where
  add_token_debt_fits :
      (n : ℕ) (rl : RateLimiter L)
      → rl.token_debt + n ≤ max_int
      → ((add_token_debt n rl.generation rl).token_debt ≡ rl.token_debt + n)
        × ((add_token_debt n rl.generation rl).token_limiters ≡ rl.token_limiters)
        × ((add_token_debt n rl.generation rl).token_credit ≡ rl.token_credit)
  unfolding add_token_debt saturating_add_int
  add_token_debt_fits n rl h = ground arith

  token_bucket_burst_positive :
      (rl : RateLimiter L) → 0 < rl.tokens_per_min → 0 < token_bucket_burst rl
  unfolding token_bucket_burst
  token_bucket_burst_positive rl h = ground arith

module _ {L : Type 0} (api : LimiterApi L) (spent : L → ℕ) (charges : Charges api spent)
    (grants : (now n : ℕ) (l : L) → n ≤ api.burst l → (api.reserve_n now n l).1.ok ≡ true)
    (fixed : (now n : ℕ) (l : L) → api.burst (api.reserve_n now n l).0 ≡ api.burst l) where
  charge_extra_accounts :
      (now burst k extra : ℕ) (l : L)
      → burst ≤ api.burst l
      → (spent (charge_extra api now burst k extra l).0 + (charge_extra api now burst k extra l).1
          ≡ spent l + extra)
        × ((charge_extra api now burst k extra l).1 ≡ extra - k * burst)
  unfolding charge_extra
  charge_extra_accounts now burst zero extra l fits = (refl, omega arith)
  charge_extra_accounts now burst (suc k) extra l fits =
      let n = min extra burst in
      let paid : spent (api.reserve_n now n l).0 ≡ spent l + n =
        (let c = charges now n l in rw (grants now n l (omega arith)) at c) in
      let rest =
        charge_extra_accounts now burst k (extra - n) (api.reserve_n now n l).0
          (omega (arith, fixed now n l)) in
      elim (Bool-cases (extra == 0)) [
        | inl z ↦ rw (z, charge_extra) (refl, ground arith)
        | inr p ↦ rw (p, charge_extra) (omega (arith, rest.0, paid), omega (arith, rest.1))
      ]

  charge_usage_accounts :
      (now extra : ℕ) (rl : RateLimiter L)
      → 0 < token_bucket_burst rl
      → token_bucket_burst rl ≡ api.burst (rl.token_limiters rl.generation)
      → rl.token_debt + extra ≤ max_int
      → (let rl' = charge_usage api now extra rl.generation rl in
          (spent (rl'.token_limiters rl.generation) + rl'.token_debt
            ≡ spent (rl.token_limiters rl.generation) + rl.token_debt + extra)
          × (rl'.token_debt
              ≡ rl.token_debt + (extra - max_token_installments * token_bucket_burst rl))
          × (rl'.token_credit ≡ rl.token_credit))
  unfolding charge_usage
  charge_usage_accounts now extra rl some_burst same fits =
      let gen = rl.generation in
      let c =
        charge_extra api now (token_bucket_burst rl) max_token_installments extra
          (rl.token_limiters gen) in
      let acc =
        charge_extra_accounts now (token_bucket_burst rl) max_token_installments extra
          (rl.token_limiters gen) (omega (arith, same)) in
      let go : token_bucket_burst rl == 0 ≡ false = ground arith in
      let mid : RateLimiter L = record rl { token_limiters = store gen c.0 rl.token_limiters } in
      let debt = add_token_debt_fits c.1 mid (omega (arith, acc.1)) in
      let kept : spent (store gen c.0 rl.token_limiters gen) ≡ spent c.0 =
        ap spent (store_same gen c.0 rl.token_limiters) in
      let moved : spent ((add_token_debt c.1 gen mid).token_limiters gen) ≡ spent c.0 =
        ap (λ ls. spent (ls gen)) debt.1 ∙ kept in
      rw (go, charge_usage)
        (omega (arith, acc.0, debt.0, moved), omega (arith, acc.1, debt.0), debt.2)

  -- A usage above the estimate, on a limiter that limits tokens and whose bucket has the configured
  -- burst: the whole excess is charged, in at most 64 installments, and what they do not cover is
  -- the new debt. The bucket grants what is within its burst, and the sums fit into an int.
  pub record_tokens_charges :
      (now actual : ℕ) (rl : RateLimiter L)
      → 0 < rl.tokens_per_min
      → rl.token_estimate < actual
      → token_bucket_burst rl ≡ api.burst (rl.token_limiters rl.generation)
      → rl.token_debt + actual ≤ max_int
      → (let rl' = record_tokens api now (pos actual) rl.generation rl in
          (spent (rl'.token_limiters rl.generation) + rl'.token_debt
            ≡ spent (rl.token_limiters rl.generation)
              + rl.token_debt
              + (actual - rl.token_estimate))
          × (rl'.token_debt
              ≡ rl.token_debt
                + (actual - rl.token_estimate - max_token_installments * token_bucket_burst rl))
          × (rl'.token_credit ≡ rl.token_credit))
  unfolding record_tokens
  record_tokens_charges now actual rl lim more same fits =
      let a : rl.tokens_per_min == 0 ≡ false = ground arith in
      let b : ltb rl.token_estimate actual ≡ true = ground arith in
      rw (a, b, record_tokens)
        (charge_usage_accounts now (actual - rl.token_estimate) rl
          (token_bucket_burst_positive rl lim) same (omega arith))
