-- ===== src/RateLimit/Debt.antt =====
-- Settling the token debt: every token that leaves the debt is charged to a bucket or to the credit.
use llm_go_sdk.Base.{
  Bool, Bool-cases, ap, arith, if◌then◌else◌, inl, inr, min, not, refl, suc, true, zero, ℕ, ◌+◌,
  ◌-◌, ◌==◌, ◌||◌, ◌≡◌, ◌≤◌,
}
use llm_go_sdk.RateLimit.{
  LimiterApi, RateLimiter, Settling, max_token_installments, settle_installment, settle_loop,
  settle_token_debt, store,
}

-- What a limiter has charged in all: a granted reservation of `n` adds `n`, a refused one nothing.
abbrev pub Charges : {L : Type 0} → LimiterApi L → (L → ℕ) → Type 0
Charges {L} api spent =
    (now n : ℕ) (l : L)
    → spent (api.reserve_n now n l).0
      ≡ (if (api.reserve_n now n l).1.ok then spent l + n else spent l)

pub store_same : {L : Type 0} (g : ℕ) (l : L) (ls : ℕ → L) → store g l ls g ≡ l
store_same g l ls = let e : g == g ≡ true = ground arith in rw e

module _ {L : Type 0} (api : LimiterApi L) (spent : L → ℕ) (charges : Charges api spent) where
  -- The debt, with what the bucket has charged, against the credit.
  Balanced : ℕ → RateLimiter L → RateLimiter L → Type 0
  Balanced gen rl rl' =
      (spent (rl'.token_limiters gen) + rl'.token_debt + rl.token_credit
        ≡ spent (rl.token_limiters gen) + rl.token_debt + rl'.token_credit)
      × (rl'.token_debt ≤ rl.token_debt)
      × (rl'.token_credit ≤ rl.token_credit)

  settle_installment-Balanced :
      (now gen : ℕ) (s : Settling L)
      → Balanced gen s.limiter (settle_installment api now gen s).limiter
  unfolding settle_installment Balanced
  settle_installment-Balanced now gen s =
      let rl = s.limiter in
      let credit = min rl.token_debt rl.token_credit in
      let n = min (rl.token_debt - credit) (api.burst (rl.token_limiters gen)) in
      let c = charges now n (rl.token_limiters gen) in
      elim (Bool-cases (rl.token_debt == 0 || not (rl.generation == gen))) [
        | inl stop ↦ rw (stop, settle_installment) (refl, omega arith, omega arith)
        | inr go ↦ elim (Bool-cases (credit == rl.token_debt)) [
          | inl all ↦ rw (go, all, settle_installment) (ground arith)
          | inr part ↦
              (let after = (api.reserve_n now n (rl.token_limiters gen)).0 in
                let kept : spent (store gen after rl.token_limiters gen) ≡ spent after =
                  ap spent (store_same gen after rl.token_limiters) in
                elim (Bool-cases (api.reserve_n now n (rl.token_limiters gen)).1.ok) [
                  | inl ok ↦
                      (let paid : spent after ≡ spent (rl.token_limiters gen) + n = rw ok at c in
                        rw (go, part, ok, settle_installment)
                          (omega (arith, kept, paid), omega arith, omega arith))
                  | inr bad ↦
                      (let unpaid : spent after ≡ spent (rl.token_limiters gen) = rw bad at c in
                        rw (go, part, bad, settle_installment)
                          (omega (arith, kept, unpaid), omega arith, omega arith))
                ])
        ]
      ]

  Balanced-trans :
      (gen : ℕ) (a b c : RateLimiter L) → Balanced gen a b → Balanced gen b c → Balanced gen a c
  unfolding Balanced
  Balanced-trans gen a b c h k =
      (omega (arith, h.0, k.0), omega (arith, h.1, k.1), omega (arith, h.2, k.2))

  settle_loop-Balanced :
      (now gen : ℕ) (ctx_done : ℕ → Bool) (i k : ℕ) (s : Settling L)
      → Balanced gen s.limiter (settle_loop api now gen ctx_done i k s).limiter
  unfolding settle_loop Balanced
  settle_loop-Balanced now gen ctx_done i zero s = (refl, omega arith, omega arith)
  settle_loop-Balanced now gen ctx_done i (suc k) s =
      let next = settle_installment api now gen s in
      let one = settle_installment-Balanced now gen s in
      elim (Bool-cases (ctx_done i)) [
        | inl t ↦ rw (t, settle_loop) (refl, omega arith, omega arith)
        | inr f ↦ elim (Bool-cases next.going) [
          | inl g ↦
              rw (f, g, settle_loop)
                (Balanced-trans gen s.limiter next.limiter
                  (settle_loop api now gen ctx_done (i + 1) k next).limiter one
                  (settle_loop-Balanced now gen ctx_done (i + 1) k next))
          | inr stop ↦ rw (f, stop, settle_loop) one
        ]
      ]

  -- Settling, however far it gets, loses and invents no token: the debt that is gone was charged to
  -- the bucket or taken from the credit, and neither account grows.
  pub settle_token_debt-Balanced :
      (now gen : ℕ) (ctx_done : ℕ → Bool) (rl : RateLimiter L)
      → (let rl' = (settle_token_debt api now gen ctx_done rl).0 in
          (spent (rl'.token_limiters gen) + rl'.token_debt + rl.token_credit
            ≡ spent (rl.token_limiters gen) + rl.token_debt + rl'.token_credit)
          × (rl'.token_debt ≤ rl.token_debt)
          × (rl'.token_credit ≤ rl.token_credit))
  unfolding settle_token_debt Balanced
  settle_token_debt-Balanced now gen ctx_done rl =
      elim (Bool-cases (api.burst (rl.token_limiters gen) == 0)) [
        | inl t ↦ rw (t, settle_token_debt) (refl, omega arith, omega arith)
        | inr f ↦
            rw (f, settle_token_debt)
              (settle_loop-Balanced now gen ctx_done 0 max_token_installments
                (record { limiter = rl; delay = 0; going = true }))
      ]
