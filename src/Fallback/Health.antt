-- ===== src/Fallback/Health.antt =====
-- Health belongs to a client's id, whatever happens to the positions meanwhile.
use mathlib.Core.Option
use llm_go_sdk.Base.{
  Bool-cases, List, Option, Option-cases, [], arith, false, if◌then◌else◌, inl, inr, none, some,
  true, ℕ, ◌+◌, ◌==◌, ◌∷◌, ◌≡◌,
}
use llm_go_sdk.Fallback.{
  FallbackChain, FallbackEntry, Option, index_of_id, mark_healthy_id, mark_id, mark_unhealthy_id,
  set_health,
}

module _ {Client : Type 0} where
  -- The health of the client with an id, if it is in the chain.
  abbrev pub health_of : ℕ → List (FallbackEntry Client) → Option (Option ℕ)
  health_of id [] = none
  health_of id (e ∷ es) = if e.id == id then some e.unhealthy_until else health_of id es

  mark : ℕ → Option ℕ → List (FallbackEntry Client) → List (FallbackEntry Client)
  mark id h es = elim (index_of_id id es) [ none ↦ es | some i ↦ set_health i h es ]

  mark_hit :
      (id : ℕ) (h : Option ℕ) (e : FallbackEntry Client) (es : List (FallbackEntry Client))
      → e.id == id ≡ true
      → mark id h (e ∷ es) ≡ record e { unhealthy_until = h } ∷ es
  unfolding mark index_of_id set_health
  mark_hit id h e es t = rw (t, mark, index_of_id)

  mark_miss :
      (id : ℕ) (h : Option ℕ) (e : FallbackEntry Client) (es : List (FallbackEntry Client))
      → e.id == id ≡ false
      → mark id h (e ∷ es) ≡ e ∷ mark id h es
  unfolding mark index_of_id set_health
  mark_miss id h e es f = elim (Option-cases (index_of_id id es)) [
    | inl n ↦ rw (f, n, index_of_id, mark)
    | inr (i, n) ↦ rw (f, n, index_of_id, mark)
  ]

  -- A mark reaches the client with the id, and no other.
  health_of-mark :
      (id other : ℕ) (h : Option ℕ) (es : List (FallbackEntry Client))
      → health_of other (mark id h es)
        ≡ (if other == id then Option.map (λ _. h) (health_of id es) else health_of other es)
  health_of-mark id other h [] = unfold mark index_of_id in ground arith
  health_of-mark id other h (e ∷ es) = elim (Bool-cases (e.id == id)) [
    | inl t ↦ rw (mark_hit id h e es t) (ground arith)
    | inr f ↦ rw (mark_miss id h e es f) (ground (arith, health_of-mark id other h es))
  ]

  mark_id_entries :
      (id : ℕ) (h : Option ℕ) (fc : FallbackChain Client)
      → (mark_id id h fc).entries ≡ mark id h fc.entries
  unfolding mark_id mark
  mark_id_entries id h fc = elim (Option-cases (index_of_id id fc.entries)) [
    | inl n ↦ rw (n, mark_id, mark)
    | inr (i, n) ↦ rw (n, mark_id, mark)
  ]

  -- A failure puts the client with the id into its cooldown, and a success ends it; neither touches
  -- any other client, and for a client that has left the chain nothing happens.
  pub mark_unhealthy_id-health_of :
      (now id other : ℕ) (fc : FallbackChain Client)
      → (health_of other (mark_unhealthy_id now id fc).entries ≡ (
          if other == id
          then Option.map (λ _. some (now + fc.recovery_after)) (health_of id fc.entries)
          else health_of other fc.entries))
        × (health_of other (mark_healthy_id id fc).entries ≡ (
            if other == id
            then Option.map (λ _. none) (health_of id fc.entries)
            else health_of other fc.entries))
  unfolding mark_unhealthy_id mark_healthy_id
  mark_unhealthy_id-health_of now id other fc = (
    rw (mark_id_entries id (some (now + fc.recovery_after)) fc)
        (health_of-mark id other (some (now + fc.recovery_after)) fc.entries),
    rw (mark_id_entries id none fc) (health_of-mark id other none fc.entries),
  )
