-- ===== src/RateLimit/Accounts.antt =====
-- A refusal of `tryAcquire` of pkg/middleware/resilience/ratelimit.go.
use llm_go_sdk.Base.{
  Bool, Bool-cases, Option-cases, arith, inl, inr, ltb, none, refl, true, ℕ, ◌&&◌, ◌==◌, ◌≡◌, ◌≢◌,
}
use llm_go_sdk.Base.Int.{}
use llm_go_sdk.RateLimit.{LimiterApi, RateLimiter, restore_token_credit, store}
use llm_go_sdk.RateLimit.Debt.{store_same}
use llm_go_sdk.RateLimit.Acquire.{
  acquire_both, acquire_requests, charge_of, early_refusal, granted, settled, try_acquire,
}

-- `CancelAt` of a reservation at the time at which it was made reverses it: a granted one is given
-- back in full, and a refused one took nothing.
abbrev pub Refunds : {L : Type 0} → LimiterApi L → (L → ℕ) → Type 0
Refunds {L} api spent =
    (now n : ℕ) (l : L)
    → spent (api.cancel_at now n (api.reserve_n now n l).1 (api.reserve_n now n l).0) ≡ spent l

module _ {L : Type 0} (api : LimiterApi L) where
  acquire_both_refused :
      (now requests tokens : ℕ) (rl : RateLimiter L)
      → (acquire_both api now requests tokens rl).1 ≢ none
      → ((acquire_both api now requests tokens rl).0.token_credit ≡ rl.token_credit)
        × ((acquire_both api now requests tokens rl).0.token_debt ≡ rl.token_debt)
  unfolding acquire_both
  acquire_both_refused now requests tokens rl h = ground arith

  pub acquire_requests_accounts :
      (now requests : ℕ) (rl : RateLimiter L)
      → ((acquire_requests api now requests rl).0.token_credit ≡ rl.token_credit)
        × ((acquire_requests api now requests rl).0.token_debt ≡ rl.token_debt)
        × ((acquire_requests api now requests rl).0.token_limiters ≡ rl.token_limiters)
  unfolding acquire_requests
  acquire_requests_accounts now requests rl = ground arith

module _ {L : Type 0} (api : LimiterApi L) (spent : L → ℕ) (refunds : Refunds api spent) where
  store_refunded :
      (now n gen g : ℕ) (ls : ℕ → L)
      → (let r = api.reserve_n now n (ls gen) in
          spent (store gen (api.cancel_at now n r.1 r.0) (store gen r.0 ls) g) ≡ spent (ls g))
  store_refunded now n gen g ls =
      let r = api.reserve_n now n (ls gen) in
      let back = refunds now n (ls gen) in
      elim (Bool-cases (g == gen)) [
        | inl y ↦ (let e : g ≡ gen = ground arith in rw y (rw e back))
        | inr f ↦ rw f refl
      ]

  store_refunded_twice :
      (now n gen g : ℕ) (ls : ℕ → L)
      → (let r = api.reserve_n now n (ls gen) in
          spent (store gen (api.cancel_at now n r.1 (store gen r.0 ls gen)) (store gen r.0 ls) g)
          ≡ spent (ls g))
  store_refunded_twice now n gen g ls =
      let r = api.reserve_n now n (ls gen) in
      rw (store_same gen r.0 ls) (store_refunded now n gen g ls)

  -- The buckets of any generation.
  Unspent : ℕ → RateLimiter L → RateLimiter L → Type 0
  Unspent g rl rl' =
      (spent (rl'.request_limiters g) ≡ spent (rl.request_limiters g))
      × (spent (rl'.token_limiters g) ≡ spent (rl.token_limiters g))

  acquire_requests-Unspent :
      (now requests g : ℕ) (rl : RateLimiter L)
      → (acquire_requests api now requests rl).1 ≢ none
      → Unspent g rl (acquire_requests api now requests rl).0
  unfolding acquire_requests Unspent
  acquire_requests-Unspent now requests g rl h =
      let r = api.reserve_n now requests (rl.request_limiters rl.generation) in
      elim (Bool-cases (granted r.1)) [
        | inl y ↦ absurd (h (rw (y, acquire_requests) refl))
        | inr f ↦
            rw (f, store_same rl.generation r.0 rl.request_limiters, acquire_requests)
              (store_refunded now requests rl.generation g rl.request_limiters, refl)
      ]

  acquire_both-Unspent :
      (now requests tokens g : ℕ) (rl : RateLimiter L)
      → (acquire_both api now requests tokens rl).1 ≢ none
      → Unspent g rl (acquire_both api now requests tokens rl).0
  unfolding acquire_both restore_token_credit Unspent
  acquire_both-Unspent now requests tokens g rl h =
      let gen = rl.generation in
      let c = charge_of api tokens rl in
      let here : gen == gen ≡ true = ground arith in
      let asked = store_refunded now requests gen g rl.request_limiters in
      let charged = store_refunded now c.reserved gen g rl.token_limiters in
      elim (Bool-cases (granted (api.reserve_n now requests (rl.request_limiters gen)).1)) [
        | inr f ↦ rw (f, here, acquire_both) (asked, refl)
        | inl y ↦ elim (Bool-cases (c.reserved == 0)) [
          | inl z ↦ absurd (h (rw (y, z, acquire_both) refl))
          | inr p ↦
              elim (Bool-cases (granted (api.reserve_n now c.reserved (rl.token_limiters gen)).1)) [
                | inl t ↦ absurd (h (rw (y, p, t, acquire_both) refl))
                | inr f ↦
                    rw (y, p, f, here, acquire_both)
                      (store_refunded_twice now requests gen g rl.request_limiters, charged)
              ]
        ]
      ]

  -- A refusal, by the context, the debt, the burst or a bucket, gives back what was taken in advance:
  -- the credit, the debt and the buckets of every generation are as settling left them. A
  -- reservation that is cancelled at the time at which it was made is reversed.
  pub try_acquire_refused :
      (settled_at now : ℕ) (ctx_done : ℕ → Bool) (ctx_ended : Bool) (requests tokens g : ℕ)
      (rl : RateLimiter L)
      → (try_acquire api settled_at now ctx_done ctx_ended requests tokens rl).1 ≢ none
      → (let before = (settled api settled_at ctx_done rl).0 in
          let after = (try_acquire api settled_at now ctx_done ctx_ended requests tokens rl).0 in
          (after.token_credit ≡ before.token_credit)
          × (after.token_debt ≡ before.token_debt)
          × (spent (after.request_limiters g) ≡ spent (before.request_limiters g))
          × (spent (after.token_limiters g) ≡ spent (before.token_limiters g)))
  unfolding try_acquire Unspent
  try_acquire_refused settled_at now ctx_done ctx_ended requests tokens g rl h =
      let s = settled api settled_at ctx_done rl in
      elim (Option-cases (early_refusal api ctx_ended requests s)) [
        | inr (f, n) ↦ rw (n, try_acquire) (refl, refl, refl, refl)
        | inl n ↦ elim (Bool-cases (ltb 0 s.0.tokens_per_min && ltb 0 tokens)) [
          | inl t ↦
              (let k = rw (n, t, try_acquire) at h in
                let a = acquire_both_refused api now requests tokens s.0 k in
                let b = acquire_both-Unspent now requests tokens g s.0 k in
                rw (n, t, try_acquire) (a.0, a.1, b.0, b.1))
          | inr f ↦
              (let k = rw (n, f, try_acquire) at h in
                let a = acquire_requests_accounts api now requests s.0 in
                let b = acquire_requests-Unspent now requests g s.0 k in
                rw (n, f, try_acquire) (a.0, a.1, b.0, b.1))
        ]
      ]
