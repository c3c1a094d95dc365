-- ===== src/Fallback/Examples.antt =====
-- A chain of three clients, the first of which is overloaded.
use llm_go_sdk.Base.{
  List, [], arith, false, if◌then◌else◌, inl, inr, none, refl, ℕ, ◌+◌, ◌==◌, ◌∷◌, ◌≡◌,
}
use llm_go_sdk.Base.Int.{pos}
use llm_go_sdk.Errors.{sentinel, service_unavailable}
use llm_go_sdk.Fallback.{FallbackChain, new_fallback_chain, remove_client}
use llm_go_sdk.Fallback.Loop.{Trial, execute_with_fallback}
use llm_go_sdk.Fallback.Health.{health_of}
use llm_go_sdk.Fallback.Ids.{}
use llm_go_sdk.Fallback.Numbering.{
  ChainCall, adds, chain_run, marks_unhealthy, removed_id_stays_away, removes, resets, sets_healthy,
}
use llm_go_sdk.Fallback.Snapshot.{}

abbrev chain : FallbackChain ℕ
chain = new_fallback_chain (10 ∷ 11 ∷ 12 ∷ [])

abbrev world : ℕ → Trial ℕ ℕ
world i = record {
  outcome = λ c. if c == 10 then inr (sentinel service_unavailable) else inl c;
  returned_at = 100 + i;
  meanwhile = λ fc. fc;
}

second_answers : (execute_with_fallback 50 world chain).result ≡ inl 11
unfolding execute_with_fallback new_fallback_chain
second_answers = refl

abbrev churn : List (ℕ × ChainCall ℕ)
churn =
    (1, adds 13)
    ∷ (2, removes (pos 0))
    ∷ (3, marks_unhealthy 0)
    ∷ (4, sets_healthy (pos 1) false)
    ∷ (5, adds 14)
    ∷ (6, resets)
    ∷ []

abbrev shortened : FallbackChain ℕ
shortened = (remove_client (pos 0) chain).0

removed_id_stays_away_example : health_of 0 (chain_run shortened churn).entries ≡ none
unfolding remove_client new_fallback_chain
removed_id_stays_away_example =
    removed_id_stays_away shortened 0 churn (omega arith) (omega arith, (omega arith, tt))
