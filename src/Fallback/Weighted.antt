-- ===== src/Fallback/Weighted.antt =====
-- The weighted chain of pkg/middleware/resilience/fallback.go: clients sorted by descending weight, in
-- a stable way, and weights kept beside the entries.
use llm_go_sdk.Base.{
  Bool, List, [], arith, false, if◌then◌else◌, inl, inr, length, length-append, ltb, not, refl,
  true, ℕ, ◌&&◌, ◌++◌, ◌+◌, ◌==◌, ◌∙◌, ◌∷◌, ◌≡◌, ◌⊎◌,
}
use llm_go_sdk.Base.Int.{negsuc, pos, ℤ}
use llm_go_sdk.Fallback.{FallbackChain, add_client, new_fallback_chain, remove_at, remove_client}

data WeightError : Type 0 where
  no_clients : WeightError
  length_mismatch : WeightError
  negative_weight : ℕ → ℤ → WeightError

record WeightedFallbackChain (Client : Type 0) : Type 0 where
  chain : FallbackChain Client
  weights : List ℕ

module _ {Client : Type 0} where
  -- The clients with their weights, or the first negative weight and its position; a missing list of
  -- weights gives each client 1.
  unfoldable weigh : ℕ → List Client → List ℤ → WeightError ⊎ List (Client × ℕ)
  weigh i [] ws = inr []
  weigh i (c ∷ cs) [] = elim (weigh (i + 1) cs []) [
    | inl e ↦ inl e
    | inr rest ↦ inr ((c, 1) ∷ rest)
  ]
  weigh i (c ∷ cs) (negsuc w ∷ ws) = inl (negative_weight i (negsuc w))
  weigh i (c ∷ cs) (pos w ∷ ws) = elim (weigh (i + 1) cs ws) [
    | inl e ↦ inl e
    | inr rest ↦ inr ((c, w) ∷ rest)
  ]

  -- `sort.SliceStable` by descending weight, as the insertion of each client before the first lighter
  -- or equal one that came after it.
  unfoldable insert_weighted : Client × ℕ → List (Client × ℕ) → List (Client × ℕ)
  insert_weighted x [] = x ∷ []
  insert_weighted x (y ∷ ys) =
      let rest = insert_weighted x ys in if ltb x.1 y.1 then y ∷ rest else x ∷ y ∷ ys

  unfoldable sort_weighted : List (Client × ℕ) → List (Client × ℕ)
  unfolding insert_weighted
  sort_weighted [] = []
  sort_weighted (x ∷ xs) = insert_weighted x (sort_weighted xs)

  clients_of : List (Client × ℕ) → List Client
  clients_of [] = []
  clients_of (x ∷ xs) = x.0 ∷ clients_of xs

  weights_of : List (Client × ℕ) → List ℕ
  weights_of [] = []
  weights_of (x ∷ xs) = x.1 ∷ weights_of xs

  -- The constructor before the options.
  unfoldable new_weighted_fallback_chain :
      List Client → List ℤ → WeightError ⊎ WeightedFallbackChain Client
  unfolding weigh sort_weighted clients_of weights_of new_fallback_chain
  new_weighted_fallback_chain [] ws = inl no_clients
  new_weighted_fallback_chain (c ∷ cs) ws =
      if ltb 0 (length ws) && not (length ws == length (c ∷ cs))
      then inl length_mismatch
      else elim (weigh 0 (c ∷ cs) ws) [
        | inl e ↦ inl e
        | inr cw ↦ inr (record {
          chain = new_fallback_chain (clients_of (sort_weighted cw));
          weights = weights_of (sort_weighted cw);
        })
      ]

  unfoldable weighted_add_client :
      Client → WeightedFallbackChain Client → WeightedFallbackChain Client
  unfolding add_client
  weighted_add_client c wfc = record {
    chain = add_client c wfc.chain;
    weights = wfc.weights ++ (1 ∷ []);
  }

  unfoldable weighted_remove_client :
      ℤ → WeightedFallbackChain Client → WeightedFallbackChain Client × Bool
  unfolding remove_client
  weighted_remove_client (negsuc i) wfc = (wfc, false)
  weighted_remove_client (pos i) wfc =
      let removed = remove_client (pos i) wfc.chain in
      if removed.1
      then (record { chain = removed.0; weights = remove_at i wfc.weights }, true)
      else (wfc, false)

  -- As many weights as entries.
  IsAligned : WeightedFallbackChain Client → Type 0
  IsAligned wfc = length wfc.weights ≡ length wfc.chain.entries

  weighted_add_client-IsAligned :
      (c : Client) (wfc : WeightedFallbackChain Client)
      → IsAligned wfc
      → IsAligned (weighted_add_client c wfc)
  unfolding weighted_add_client add_client IsAligned
  weighted_add_client-IsAligned c wfc h =
      length-append wfc.weights (1 ∷ [])
      ∙ omega (arith, h, length-append wfc.chain.entries (_ ∷ []))

-- Two clients of equal weight keep their order behind a heavier one.
abbrev weighted : List (ℕ × ℕ)
weighted = (10, 1) ∷ (11, 1) ∷ (12, 5) ∷ []

weighted_order : sort_weighted weighted ≡ (12, 5) ∷ (10, 1) ∷ (11, 1) ∷ []
unfolding sort_weighted
weighted_order = refl
