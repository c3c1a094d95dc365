-- ===== src/RateLimit/Payment.antt =====
-- What an acquisition that `tryAcquire` of pkg/middleware/resilience/ratelimit.go grants is paid with.
use mathlib.Core.Option
use llm_go_sdk.Base.{
  Bool, Bool-cases, Option-cases, ap, arith, false, inl, inr, ltb, none, sym, true, ℕ, ◌&&◌, ◌+◌,
  ◌<◌, ◌==◌, ◌∙◌, ◌≡◌, ◌≤◌,
}
use llm_go_sdk.Base.Int.{}
use llm_go_sdk.RateLimit.{
  LimiterApi, RateLimiter, add_token_debt, consume_token_credit, max_int, store,
}
use llm_go_sdk.RateLimit.Debt.{Charges, store_same}
use llm_go_sdk.RateLimit.Accounts.{acquire_requests_accounts}
use llm_go_sdk.RateLimit.Acquire.{
  acquire_both, acquire_requests, charge_of, charge_of_splits, early_refusal, granted,
  reserve_requests, reserve_tokens, settled, try_acquire,
}

no_tokens : (limit tokens : ℕ) → ltb 0 limit && ltb 0 tokens ≡ false → 0 < limit → tokens ≡ 0
no_tokens limit tokens h p = ground arith

module _ {L : Type 0} (api : LimiterApi L) where
  acquire_both_paid :
      (now requests tokens : ℕ) (rl : RateLimiter L)
      → (acquire_both api now requests tokens rl).1 ≡ none
      → rl.token_debt + tokens ≤ max_int
      → ((acquire_both api now requests tokens rl).0.token_credit + (charge_of api tokens rl).credit
          ≡ rl.token_credit)
        × ((acquire_both api now requests tokens rl).0.token_debt
            ≡ rl.token_debt + (charge_of api tokens rl).deferred)
  unfolding acquire_both
  acquire_both_paid now requests tokens rl h fits = ground arith

module _ {L : Type 0} (api : LimiterApi L) (spent : L → ℕ) (charges : Charges api spent) where
  -- A granted reservation is on the bucket that made it.
  store_charged :
      (now n gen : ℕ) (ls : ℕ → L)
      → granted (api.reserve_n now n (ls gen)).1 ≡ true
      → spent (store gen (api.reserve_n now n (ls gen)).0 ls gen) ≡ spent (ls gen) + n
  store_charged now n gen ls h =
      let r = api.reserve_n now n (ls gen) in
      let ok : r.1.ok ≡ true = ground arith in
      let c = charges now n (ls gen) in ap spent (store_same gen r.0 ls) ∙ (rw ok at c)

  -- What a granted acquisition has put on the two buckets of its generation.
  Spends : (requests tokens : ℕ) → RateLimiter L → RateLimiter L → Type 0
  Spends requests tokens rl rl' =
      (spent (rl'.request_limiters rl.generation)
        ≡ spent (rl.request_limiters rl.generation) + requests)
      × (spent (rl'.token_limiters rl.generation)
          ≡ spent (rl.token_limiters rl.generation) + tokens)

  acquire_requests-Spends :
      (now requests : ℕ) (rl : RateLimiter L)
      → (acquire_requests api now requests rl).1 ≡ none
      → Spends requests 0 rl (acquire_requests api now requests rl).0
  unfolding acquire_requests Spends
  acquire_requests-Spends now requests rl h =
      let r = api.reserve_n now requests (rl.request_limiters rl.generation) in
      elim (Bool-cases (granted r.1)) [
        | inl y ↦
            rw (y, acquire_requests)
              (store_charged now requests rl.generation rl.request_limiters y, omega arith)
        | inr f ↦ absurd (Option.none-ne-some _ (sym (rw (f, acquire_requests) at h)))
      ]

  add_token_debt_limiters :
      (n gen : ℕ) (rl : RateLimiter L)
      → ((add_token_debt n gen rl).request_limiters ≡ rl.request_limiters)
        × ((add_token_debt n gen rl).token_limiters ≡ rl.token_limiters)
  unfolding add_token_debt
  add_token_debt_limiters n gen rl = ground arith

  acquire_both-Spends :
      (now requests tokens : ℕ) (rl : RateLimiter L)
      → (acquire_both api now requests tokens rl).1 ≡ none
      → Spends requests
          (charge_of api tokens rl).reserved
          rl
          (acquire_both api now requests tokens rl).0
  unfolding acquire_both Spends
  acquire_both-Spends now requests tokens rl h =
      let gen = rl.generation in
      let c = charge_of api tokens rl in
      elim (Bool-cases (granted (api.reserve_n now requests (rl.request_limiters gen)).1)) [
        | inr f ↦ absurd (Option.none-ne-some _ (sym (rw (f, acquire_both) at h)))
        | inl y ↦
            (let asked = store_charged now requests gen rl.request_limiters y in
              elim (Bool-cases (c.reserved == 0)) [
                | inl z ↦
                    (let zero_reserved : c.reserved ≡ 0 = ground arith in
                      let r =
                        (reserve_requests api now requests (consume_token_credit tokens rl).0).0 in
                      let same = add_token_debt_limiters c.deferred gen r in
                      rw (y, z, acquire_both)
                        (
                          ap (λ ls. spent (ls gen)) same.0 ∙ asked,
                          ap (λ ls. spent (ls gen)) same.1 ∙ omega (arith, zero_reserved),
                        ))
                | inr p ↦
                    elim (Bool-cases
                      (granted (api.reserve_n now c.reserved (rl.token_limiters gen)).1)) [
                        | inl t ↦
                            (let r =
                                (reserve_requests api now requests
                                  (consume_token_credit tokens rl).0).0 in
                              let both = (reserve_tokens api now c.reserved r).0 in
                              let same = add_token_debt_limiters c.deferred gen both in
                              let charged = store_charged now c.reserved gen rl.token_limiters t in
                              rw (y, p, t, acquire_both)
                                (
                                  ap (λ ls. spent (ls gen)) same.0 ∙ asked,
                                  ap (λ ls. spent (ls gen)) same.1 ∙ charged,
                                ))
                        | inr f ↦
                            absurd (Option.none-ne-some _ (sym (rw (y, p, f, acquire_both) at h)))
                      ]
              ])
      ]

  -- A granted acquisition, on a limiter that limits tokens: the bucket of its generation is charged
  -- with the requests, and the tokens are paid in full, out of the credit, by what the token bucket
  -- has charged, and as a debt for later requests, if debt and tokens fit into an int.
  pub try_acquire_paid :
      (settled_at now : ℕ) (ctx_done : ℕ → Bool) (ctx_ended : Bool) (requests tokens : ℕ)
      (rl : RateLimiter L)
      → (try_acquire api settled_at now ctx_done ctx_ended requests tokens rl).1 ≡ none
      → 0 < (settled api settled_at ctx_done rl).0.tokens_per_min
      → (settled api settled_at ctx_done rl).0.token_debt + tokens ≤ max_int
      → (let before = (settled api settled_at ctx_done rl).0 in
          let after = (try_acquire api settled_at now ctx_done ctx_ended requests tokens rl).0 in
          (spent (after.request_limiters before.generation)
            ≡ spent (before.request_limiters before.generation) + requests)
          × (spent (after.token_limiters before.generation) + after.token_debt + before.token_credit
              ≡ spent (before.token_limiters before.generation)
                + before.token_debt
                + after.token_credit
                + tokens))
  unfolding try_acquire Spends
  try_acquire_paid settled_at now ctx_done ctx_ended requests tokens rl h lim fits =
      let s = settled api settled_at ctx_done rl in
      let c = charge_of_splits api tokens s.0 in
      elim (Option-cases (early_refusal api ctx_ended requests s)) [
        | inr (f, n) ↦ absurd (Option.none-ne-some _ (sym (rw (n, try_acquire) at h)))
        | inl n ↦ elim (Bool-cases (ltb 0 s.0.tokens_per_min && ltb 0 tokens)) [
          | inl t ↦
              (let k = rw (n, t, try_acquire) at h in
                let p = acquire_both_paid api now requests tokens s.0 k fits in
                let b = acquire_both-Spends now requests tokens s.0 k in
                rw (n, t, try_acquire) (b.0, omega (arith, p, c, b.1)))
          | inr f ↦
              (let k = rw (n, f, try_acquire) at h in
                let z : tokens ≡ 0 = no_tokens s.0.tokens_per_min tokens f lim in
                let a = acquire_requests_accounts api now requests s.0 in
                let b = acquire_requests-Spends now requests s.0 k in
                rw (n, f, try_acquire) (b.0, omega (arith, a.0, a.1, b.1, z)))
        ]
      ]
