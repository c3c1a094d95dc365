-- ===== src/Breaker/Generations.antt =====
-- `Reset` starts a new generation, and a permit of an old one can do the new one no harm.
use llm_go_sdk.Base.{
  Bool-cases, List, [], arith, false, inl, inr, refl, ℕ, ◌<◌, ◌^◌, ◌∷◌, ◌≡◌, ◌≢◌, ◌⊎◌,
}
use llm_go_sdk.Breaker.{
  CircuitBreaker, Permit, record_failure_permit, record_success_permit, release_permit, reset,
  retire_bucket, retire_inflight_closed_locked,
}
use llm_go_sdk.Breaker.Invariant.{Inv, IsFresh, Marks}

-- `Reset` leaves a closed breaker with every count at 0 and no request in flight, in a generation
-- that differs from the one before (modulo 2^64).
pub reset-IsFresh :
    (now : ℕ) (cb : CircuitBreaker)
    → cb.generation < 2 ^ 64
    → IsFresh (reset now cb) × ((reset now cb).generation ≢ cb.generation)
unfolding reset
reset-IsFresh now cb h = (ground arith, ground arith)

retire_bucket_other : (gen g : ℕ) (m : List (ℕ × ℕ)) → Marks gen m → g ≢ gen → retire_bucket g m ≡ m
unfolding retire_bucket Marks
retire_bucket_other gen g [] h ne = refl
retire_bucket_other gen g ((k, n) ∷ []) h ne = ground arith
retire_bucket_other gen g (_ ∷ _ ∷ _) h ne = absurd h

retire_other :
    (g : ℕ) (cb : CircuitBreaker)
    → Inv cb
    → g ≢ cb.generation
    → retire_inflight_closed_locked g cb ≡ cb
unfolding retire_inflight_closed_locked
retire_other g cb v ne = rw (retire_bucket_other cb.generation g cb.inflight_closed v.marks ne)

-- A permit of another generation: its success and its release leave the breaker as it is, and so
-- does the failure of a probe; the failure of a request of the closed state retires no mark of the
-- current generation.
pub stale_permit_harmless :
    (now : ℕ) (p : Permit) (cb : CircuitBreaker)
    → Inv cb
    → p.generation ≢ cb.generation
    → (record_success_permit now p cb ≡ cb)
      × (release_permit p cb ≡ cb)
      × ((p.half_open ≡ false) ⊎ (record_failure_permit now p cb ≡ cb))
      × ((record_failure_permit now p cb).inflight_closed ≡ cb.inflight_closed)
unfolding record_success_permit release_permit record_failure_permit
stale_permit_harmless now p cb v ne = (
  ground arith,
  ground (arith, retire_other p.generation cb v ne),
  elim (Bool-cases p.half_open) [ inl t ↦ inr (ground arith) | inr f ↦ inl f ],
  ground (arith, retire_bucket_other cb.generation p.generation cb.inflight_closed v.marks ne),
)
