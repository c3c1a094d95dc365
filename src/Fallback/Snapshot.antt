-- ===== src/Fallback/Snapshot.antt =====
-- Which clients a call of the chain tries: pkg/middleware/resilience/fallback.go.
use mathlib.Core.List
use llm_go_sdk.Base.{
  All, Bool-cases, List, [], ap, arith, false, get_elem?, inl, inr, length, length-append,
  list_cases, refl, some, subst, suc, sym, true, ℕ, ◌++◌, ◌+◌, ◌<◌, ◌∙◌, ◌∷◌, ◌≡◌, ◌⊎◌,
}
use llm_go_sdk.Base.Int.{pos}
use llm_go_sdk.Fallback.{
  FallbackCandidate, FallbackChain, FallbackEntry, candidates_from, eligible_from,
  is_client_healthy, is_healthy_at, snapshot,
}

module _ {A : Type 0} where
  cons-nil : (x : A) (xs : List A) → ¬ (x ∷ xs ≡ [])
  cons-nil x xs e = List.nil≢cons (sym e)

module _ {Client : Type 0} where
  -- An entry of the chain, as a candidate names it.
  abbrev Healthy : ℕ → FallbackEntry Client → Type 0
  Healthy now e = is_healthy_at e.unhealthy_until now ≡ true

  abbrev pub Unhealthy : ℕ → FallbackEntry Client → Type 0
  Unhealthy now e = is_healthy_at e.unhealthy_until now ≡ false

  get_elem?-append :
      (pre : List (FallbackEntry Client)) (e : FallbackEntry Client)
      (es : List (FallbackEntry Client))
      → get_elem? (pre ++ (e ∷ es)) (length pre) ≡ some e
  get_elem?-append [] e es = refl
  get_elem?-append (p ∷ pre) e es = get_elem?-append pre e es

  abbrev pub IsTriable : ℕ → FallbackChain Client → FallbackCandidate Client → Type 0
  IsTriable now fc c = is_client_healthy now (pos c.position) fc ≡ true

  eligible_from-IsTriable :
      (now : ℕ) (fc : FallbackChain Client) (pre es : List (FallbackEntry Client))
      → pre ++ es ≡ fc.entries
      → All (IsTriable now fc) (eligible_from now (length pre) es)
  unfolding eligible_from is_client_healthy
  eligible_from-IsTriable now fc pre [] h = tt
  eligible_from-IsTriable now fc pre (e ∷ es) h =
      let at : get_elem? fc.entries (length pre) ≡ some e =
        rw (sym h) (get_elem?-append pre e es) in
      let len : length (pre ++ (e ∷ [])) ≡ length pre + 1 =
        omega (arith, length-append pre (e ∷ [])) in
      let rest : All (IsTriable now fc) (eligible_from now (length pre + 1) es) =
        subst (λ n. All (IsTriable now fc) (eligible_from now n es)) len
          (eligible_from-IsTriable now fc (pre ++ (e ∷ [])) es
            (List.append_assoc pre (e ∷ []) es ∙ h)) in
      elim (Bool-cases (is_healthy_at e.unhealthy_until now)) [
        | inl t ↦ rw t (rw (at, is_client_healthy) t, rest)
        | inr f ↦ rw f rest
      ]

  eligible_from_nil :
      (now i : ℕ) (es : List (FallbackEntry Client))
      → eligible_from now i es ≡ []
      → All (Unhealthy now) es
  unfolding eligible_from
  eligible_from_nil now i [] h = tt
  eligible_from_nil now i (e ∷ es) h = elim (Bool-cases (is_healthy_at e.unhealthy_until now)) [
    | inl t ↦ absurd (cons-nil _ _ (rw t at h))
    | inr f ↦ (f, eligible_from_nil now (i + 1) es (rw f at h))
  ]

  length-candidates_from :
      (i : ℕ) (es : List (FallbackEntry Client)) → length (candidates_from i es) ≡ length es
  unfolding candidates_from
  length-candidates_from i [] = refl
  length-candidates_from i (e ∷ es) = ap suc (length-candidates_from (i + 1) es)

  -- A call tries healthy clients only, unless every client is in its cooldown: then it tries all of
  -- them. So a chain with a client in it always tries one.
  pub snapshot_lem :
      (now : ℕ) (fc : FallbackChain Client)
      → (All (IsTriable now fc) (snapshot now fc) × (0 < length (snapshot now fc)))
        ⊎ (All (Unhealthy now) fc.entries × (length (snapshot now fc) ≡ length fc.entries))
  unfolding snapshot
  snapshot_lem now fc = elim (list_cases (eligible_from now 0 fc.entries)) [
    | inl n ↦ inr (
      eligible_from_nil now 0 fc.entries n,
      rw (n, snapshot) (length-candidates_from 0 fc.entries),
    )
    | inr (c, cs, n) ↦
        (let h : All (IsTriable now fc) (eligible_from now 0 fc.entries) =
            eligible_from-IsTriable now fc [] fc.entries refl in
          inl (rw (n, snapshot) (rw n at h), rw (n, snapshot) (omega arith)))
  ]
