-- ===== src/Fallback/Answers.antt =====
-- What a call of the chain answers: pkg/middleware/resilience/fallback.go.
use llm_go_sdk.Base.{
  Bool, List, Option, [], false, inl, inr, length, some, true, ℕ, ◌++◌, ◌+◌, ◌∷◌, ◌≡◌, ◌⊎◌,
}
use llm_go_sdk.Errors.{Error}
use llm_go_sdk.Fallback.{FallbackCandidate, FallbackChain}
use llm_go_sdk.Fallback.Loop.{Trial, all_clients_failed_error}

module _ {T : Type 0} where
  -- The trial settles the call: a success, or an error that the selector refuses.
  abbrev pub Settles : (Error → Bool) → T ⊎ Error → Type 0
  Settles sel (inl v) = Unit {0}
  Settles sel (inr e) = sel e ≡ false

-- Other goroutines do not change the selector: no method of the chain does.
abbrev pub KeepsSelector : {Client T : Type 0} → (Error → Bool) → (ℕ → Trial Client T) → Type 0
KeepsSelector {Client} sel world =
    (i : ℕ) (fc : FallbackChain Client)
    → fc.selector ≡ sel
    → ((world i).meanwhile fc).selector ≡ sel

module _ {Client T : Type 0} where
  -- Every candidate from the i-th trial on failed, with an error that asks for the next one.
  abbrev pub PassedOver :
      (Error → Bool) → (ℕ → Trial Client T) → ℕ → List (FallbackCandidate Client) → Type 0
  PassedOver sel world i [] = Unit {0}
  PassedOver sel world i (c ∷ cs) =
      ((e : Error) × ((world i).outcome c.client ≡ inr e) × (sel e ≡ true))
      × PassedOver sel world (i + 1) cs

  -- The error of the last trial.
  abbrev pub last_error :
      (ℕ → Trial Client T) → ℕ → List (FallbackCandidate Client) → Option Error → Option Error
  last_error world i [] last = last
  last_error world i (c ∷ cs) last = elim ((world i).outcome c.client) [
    | inl v ↦ last
    | inr e ↦ last_error world (i + 1) cs (some e)
  ]

  -- What the loop answers over the candidates from the i-th trial on.
  abbrev pub IsAnswer :
      (Error → Bool)
      → (ℕ → Trial Client T)
      → ℕ
      → List (FallbackCandidate Client)
      → Option Error
      → T ⊎ Error
      → Type 0
  IsAnswer sel world i cs last r =
      ((before : List (FallbackCandidate Client)) × (c : FallbackCandidate Client) × (after : List
          (FallbackCandidate Client))
        × (cs ≡ before ++ (c ∷ after))
        × PassedOver sel world i before
        × ((world (i + length before)).outcome c.client ≡ r)
        × Settles sel r)
      ⊎ (PassedOver sel world i cs
          × (r ≡ inr (all_clients_failed_error (last_error world i cs last))))
