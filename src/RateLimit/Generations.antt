-- ===== src/RateLimit/Generations.antt =====
-- The generations of the limiter of pkg/middleware/resilience/ratelimit.go through its calls.
use llm_go_sdk.Base.{
  Bool, Bool-cases, List, Option-cases, [], arith, inl, inr, ltb, refl, suc, true, zero, ℕ, ◌%◌,
  ◌&&◌, ◌+◌, ◌-◌, ◌<◌, ◌==◌, ◌^◌, ◌∙◌, ◌∷◌, ◌≡◌,
}
use llm_go_sdk.Base.Int.{negsuc, pos, ℤ}
use llm_go_sdk.RateLimit.{
  LimiterApi, RateLimiter, Settling, add_token_debt, consume_token_credit, max_token_installments,
  reset, restore_token_credit, settle_installment, settle_loop, settle_token_debt, store,
  token_bucket_burst,
}
use llm_go_sdk.RateLimit.Usage.{charge_extra, charge_usage, record_tokens, refund_usage}
use llm_go_sdk.RateLimit.Acquire.{
  acquire_both, acquire_requests, early_refusal, settled, try_acquire,
}

-- The calls of a limiter. Those of a request carry the generation that its snapshot of the limiters
-- had.
pub data LimiterCall (L : Type 0) : Type 0 where
  resets : L → L → LimiterCall L
  consumes : ℕ → LimiterCall L
  restores : ℕ → ℕ → LimiterCall L
  adds_debt : ℕ → ℕ → LimiterCall L
  settles : ℕ → ℕ → (ℕ → Bool) → LimiterCall L
  records_tokens : ℕ → ℤ → ℕ → LimiterCall L
  acquires : ℕ → ℕ → (ℕ → Bool) → Bool → ℕ → ℕ → LimiterCall L

abbrev pub resets_in : {L : Type 0} → List (LimiterCall L) → ℕ
resets_in [] = 0
resets_in (resets request token ∷ cs) = resets_in cs + 1
resets_in (_ ∷ cs) = resets_in cs

module _ {L : Type 0} (api : LimiterApi L) where
  unfoldable pub limiter_step : RateLimiter L → LimiterCall L → RateLimiter L
  unfolding reset consume_token_credit restore_token_credit add_token_debt settle_token_debt
      record_tokens try_acquire
  limiter_step rl (resets request token) = reset request token rl
  limiter_step rl (consumes tokens) = (consume_token_credit tokens rl).0
  limiter_step rl (restores credit gen) = restore_token_credit credit gen rl
  limiter_step rl (adds_debt n gen) = add_token_debt n gen rl
  limiter_step rl (settles now gen ctx_done) = (settle_token_debt api now gen ctx_done rl).0
  limiter_step rl (records_tokens now actual gen) = record_tokens api now actual gen rl
  limiter_step rl (acquires settled_at now ctx_done ctx_ended requests tokens) =
      (try_acquire api settled_at now ctx_done ctx_ended requests tokens rl).0

  unfoldable pub limiter_run : RateLimiter L → List (LimiterCall L) → RateLimiter L
  unfolding limiter_step
  limiter_run rl [] = rl
  limiter_run rl (c ∷ cs) = limiter_run (limiter_step rl c) cs

  settle_installment_generation :
      (now gen : ℕ) (s : Settling L)
      → (settle_installment api now gen s).limiter.generation ≡ s.limiter.generation
  unfolding settle_installment
  settle_installment_generation now gen s = ground arith

  settle_loop_generation :
      (now gen : ℕ) (ctx_done : ℕ → Bool) (i k : ℕ) (s : Settling L)
      → (settle_loop api now gen ctx_done i k s).limiter.generation ≡ s.limiter.generation
  unfolding settle_loop
  settle_loop_generation now gen ctx_done i zero s = refl
  settle_loop_generation now gen ctx_done i (suc k) s =
      let next = settle_installment api now gen s in
      let one = settle_installment_generation now gen s in
      elim (Bool-cases (ctx_done i)) [
        | inl t ↦ rw (t, settle_loop) refl
        | inr f ↦ elim (Bool-cases next.going) [
          | inl g ↦
              rw (f, g, settle_loop) (settle_loop_generation now gen ctx_done (i + 1) k next ∙ one)
          | inr stop ↦ rw (f, stop, settle_loop) one
        ]
      ]

  settle_token_debt_generation :
      (now gen : ℕ) (ctx_done : ℕ → Bool) (rl : RateLimiter L)
      → (settle_token_debt api now gen ctx_done rl).0.generation ≡ rl.generation
  unfolding settle_token_debt
  settle_token_debt_generation now gen ctx_done rl =
      elim (Bool-cases (api.burst (rl.token_limiters gen) == 0)) [
        | inl t ↦ rw (t, settle_token_debt) refl
        | inr f ↦
            rw (f, settle_token_debt)
              (settle_loop_generation now gen ctx_done 0 max_token_installments
                (record { limiter = rl; delay = 0; going = true }))
      ]

  add_token_debt_generation :
      (n gen : ℕ) (rl : RateLimiter L) → (add_token_debt n gen rl).generation ≡ rl.generation
  unfolding add_token_debt
  add_token_debt_generation n gen rl = ground arith

  -- The branches of `recordTokens`.
  pub record_tokens_rule :
      (P : RateLimiter L → Type 0) (now gen : ℕ) (actual : ℤ) (rl : RateLimiter L)
      → P rl
      → ((extra : ℕ) → P (charge_usage api now extra gen rl))
      → ((refund : ℕ) → P (refund_usage api now refund gen rl))
      → P (record_tokens api now actual gen rl)
  unfolding record_tokens
  record_tokens_rule P now gen (negsuc actual) rl same charged refunded = same
  record_tokens_rule P now gen (pos actual) rl same charged refunded =
      elim (Bool-cases (rl.tokens_per_min == 0)) [
        | inl z ↦ rw (z, record_tokens) same
        | inr p ↦ elim (Bool-cases (ltb rl.token_estimate actual)) [
          | inl m ↦ rw (p, m, record_tokens) (charged (actual - rl.token_estimate))
          | inr n ↦ elim (Bool-cases (ltb actual rl.token_estimate)) [
            | inl l ↦ rw (p, n, l, record_tokens) (refunded (rl.token_estimate - actual))
            | inr e ↦ rw (p, n, e, record_tokens) same
          ]
        ]
      ]

  charge_usage_generation :
      (now extra gen : ℕ) (rl : RateLimiter L)
      → (charge_usage api now extra gen rl).generation ≡ rl.generation
  unfolding charge_usage
  charge_usage_generation now extra gen rl =
      let c =
        charge_extra api now (token_bucket_burst rl) max_token_installments extra
          (rl.token_limiters gen) in
      let mid : RateLimiter L = record rl { token_limiters = store gen c.0 rl.token_limiters } in
      elim (Bool-cases (token_bucket_burst rl == 0)) [
        | inl z ↦ rw (z, charge_usage) refl
        | inr p ↦ rw (p, charge_usage) (add_token_debt_generation c.1 gen mid)
      ]

  refund_usage_generation :
      (now refund gen : ℕ) (rl : RateLimiter L)
      → (refund_usage api now refund gen rl).generation ≡ rl.generation
  unfolding refund_usage
  refund_usage_generation now refund gen rl = elim (Bool-cases (gen == rl.generation)) [
    | inl t ↦ rw (t, refund_usage) refl
    | inr f ↦ rw (f, refund_usage) refl
  ]

  record_tokens_generation :
      (now gen : ℕ) (actual : ℤ) (rl : RateLimiter L)
      → (record_tokens api now actual gen rl).generation ≡ rl.generation
  record_tokens_generation now gen actual rl =
      record_tokens_rule (λ x. x.generation ≡ rl.generation) now gen actual rl refl
        (λ extra. charge_usage_generation now extra gen rl)
        (λ refund. refund_usage_generation now refund gen rl)

  acquire_both_generation :
      (now requests tokens : ℕ) (rl : RateLimiter L)
      → (acquire_both api now requests tokens rl).0.generation ≡ rl.generation
  unfolding acquire_both
  acquire_both_generation now requests tokens rl = ground arith

  acquire_requests_generation :
      (now requests : ℕ) (rl : RateLimiter L)
      → (acquire_requests api now requests rl).0.generation ≡ rl.generation
  unfolding acquire_requests
  acquire_requests_generation now requests rl = ground arith

  settled_generation :
      (now : ℕ) (ctx_done : ℕ → Bool) (rl : RateLimiter L)
      → (settled api now ctx_done rl).0.generation ≡ rl.generation
  unfolding settled
  settled_generation now ctx_done rl = elim (Bool-cases (ltb 0 rl.tokens_per_min)) [
    | inl t ↦ rw (t, settled) (settle_token_debt_generation now rl.generation ctx_done rl)
    | inr f ↦ rw (f, settled) refl
  ]

  try_acquire_generation :
      (settled_at now : ℕ) (ctx_done : ℕ → Bool) (ctx_ended : Bool) (requests tokens : ℕ)
      (rl : RateLimiter L)
      → (try_acquire api settled_at now ctx_done ctx_ended requests tokens rl).0.generation
        ≡ rl.generation
  unfolding try_acquire
  try_acquire_generation settled_at now ctx_done ctx_ended requests tokens rl =
      let s = settled api settled_at ctx_done rl in
      let same = settled_generation settled_at ctx_done rl in
      elim (Option-cases (early_refusal api ctx_ended requests s)) [
        | inr (f, n) ↦ rw (n, try_acquire) same
        | inl n ↦ elim (Bool-cases (ltb 0 s.0.tokens_per_min && ltb 0 tokens)) [
          | inl t ↦ rw (n, t, try_acquire) (acquire_both_generation now requests tokens s.0 ∙ same)
          | inr f ↦ rw (n, f, try_acquire) (acquire_requests_generation now requests s.0 ∙ same)
        ]
      ]

  restore_token_credit_generation :
      (credit gen : ℕ) (rl : RateLimiter L)
      → (restore_token_credit credit gen rl).generation ≡ rl.generation
  unfolding restore_token_credit
  restore_token_credit_generation credit gen rl = ground arith

  -- Only a `Reset` moves to another generation.
  limiter_step_generation :
      (c : LimiterCall L) (rl : RateLimiter L)
      → rl.generation < 2 ^ 64
      → (limiter_step rl c).generation ≡ (rl.generation + resets_in (c ∷ [])) % 2 ^ 64
  unfolding limiter_step reset consume_token_credit
  limiter_step_generation (resets request token) rl h = refl
  limiter_step_generation (consumes tokens) rl h = omega arith
  limiter_step_generation (restores credit gen) rl h =
      let e = restore_token_credit_generation credit gen rl in omega arith
  limiter_step_generation (adds_debt n gen) rl h =
      let e = add_token_debt_generation n gen rl in omega arith
  limiter_step_generation (settles now gen ctx_done) rl h =
      let e = settle_token_debt_generation now gen ctx_done rl in omega arith
  limiter_step_generation (records_tokens now actual gen) rl h =
      let e = record_tokens_generation now gen actual rl in omega arith
  limiter_step_generation (acquires settled_at now done ended requests tokens) rl h =
      let e = try_acquire_generation settled_at now done ended requests tokens rl in omega arith

  resets_in_cons :
      (c : LimiterCall L) (cs : List (LimiterCall L))
      → resets_in (c ∷ cs) ≡ resets_in (c ∷ []) + resets_in cs
  resets_in_cons (resets request token) cs = omega arith
  resets_in_cons (consumes tokens) cs = omega arith
  resets_in_cons (restores credit gen) cs = omega arith
  resets_in_cons (adds_debt n gen) cs = omega arith
  resets_in_cons (settles now gen ctx_done) cs = omega arith
  resets_in_cons (records_tokens now actual gen) cs = omega arith
  resets_in_cons (acquires settled_at now done ended requests tokens) cs = omega arith

  pub limiter_run_generation :
      (cs : List (LimiterCall L)) (rl : RateLimiter L)
      → rl.generation < 2 ^ 64
      → (limiter_run rl cs).generation ≡ (rl.generation + resets_in cs) % 2 ^ 64
  unfolding limiter_run
  limiter_run_generation [] rl h = omega arith
  limiter_run_generation (c ∷ cs) rl h =
      let e = limiter_step_generation c rl h in
      let n = resets_in_cons c cs in
      let rest = limiter_run_generation cs (limiter_step rl c) (omega arith) in omega arith
