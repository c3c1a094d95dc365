-- ===== src/Fallback/Loop.antt =====
-- pkg/middleware/resilience/fallback.go: the loop that tries the candidates of a snapshot in order.
use llm_go_sdk.Base.{
  List, Option, [], false, if◌then◌else◌, inl, inr, none, some, true, ℕ, ◌++◌, ◌+◌, ◌∷◌, ◌⊎◌,
}
use llm_go_sdk.Errors.{Error, all_clients_failed, joined, no_clients_available, sentinel}
use llm_go_sdk.Retry.{is_provider_unhealthy}
use llm_go_sdk.Fallback.{
  FallbackCandidate, FallbackChain, mark_healthy_id, mark_unhealthy_id, snapshot,
}

-- What the world does while one client is tried: what the client returns, the clock after it, and
-- what other goroutines have done to the chain by then.
pub record Trial (Client T : Type 0) : Type 0 where
  pub outcome : Client → T ⊎ Error
  pub returned_at : ℕ
  pub meanwhile : FallbackChain Client → FallbackChain Client

-- The callbacks, with the positions in the operation's snapshot.
pub data Report : Type 0 where
  on_success : ℕ → Report
  on_fallback : ℕ → ℕ → Error → Report

pub record Answer (Client T : Type 0) : Type 0 where
  pub chain : FallbackChain Client
  pub result : T ⊎ Error
  pub reports : List Report

unfoldable pub all_clients_failed_error : Option Error → Error
all_clients_failed_error none = sentinel all_clients_failed
all_clients_failed_error (some e) = joined (sentinel all_clients_failed) e

module _ {Client : Type 0} where
  -- `fireFallback`: no report where there is no next candidate.
  unfoldable pub fire_fallback :
      FallbackCandidate Client → List (FallbackCandidate Client) → Error → List Report
  fire_fallback c [] e = []
  fire_fallback c (next ∷ _) e = on_fallback c.position next.position e ∷ []

  abbrev pub mark_failure : ℕ → ℕ → Error → FallbackChain Client → FallbackChain Client
  mark_failure now id e fc = if is_provider_unhealthy e then mark_unhealthy_id now id fc else fc

module _ {Client T : Type 0} where
  -- The loop over the candidates; `world i` is the trial of the i-th.
  unfoldable pub fallback_loop :
      (ℕ → Trial Client T)
      → ℕ
      → List (FallbackCandidate Client)
      → Option Error
      → FallbackChain Client
      → List Report
      → Answer Client T
  unfolding mark_healthy_id mark_unhealthy_id is_provider_unhealthy all_clients_failed_error
      fire_fallback
  fallback_loop world i [] last fc log = record {
    chain = fc;
    result = inr (all_clients_failed_error last);
    reports = log;
  }
  fallback_loop world i (c ∷ cs) last fc log = elim ((world i).outcome c.client) [
    | inl v ↦ record {
      chain = mark_healthy_id c.id ((world i).meanwhile fc);
      result = inl v;
      reports = log ++ (on_success c.position ∷ []);
    }
    | inr e ↦
        (let fc' = mark_failure (world i).returned_at c.id e ((world i).meanwhile fc) in
          elim (fc'.selector e) [
            | false ↦ record { chain = fc'; result = inr e; reports = log }
            | true ↦ fallback_loop world (i + 1) cs (some e) fc' (log ++ fire_fallback c cs e)
          ])
  ]

  -- `executeWithFallback`, and `Call`, which runs the same loop over the same snapshot.
  unfoldable pub execute_with_fallback :
      ℕ → (ℕ → Trial Client T) → FallbackChain Client → Answer Client T
  unfolding snapshot fallback_loop
  execute_with_fallback now world fc = elim (snapshot now fc) [
    | [] ↦ record { chain = fc; result = inr (sentinel no_clients_available); reports = [] }
    | c ∷ cs ↦ fallback_loop world 0 (c ∷ cs) none fc []
  ]
