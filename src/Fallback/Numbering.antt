-- ===== src/Fallback/Numbering.antt =====
-- The ids of the clients: no two are equal, and none is used again.
use llm_go_sdk.Base.{
  Bool, Bool-cases, List, Option, Option-cases, [], ap, arith, drop, false, inl, inr, leb, length,
  ltb, map, none, refl, suc, take, zero, ℕ, ◌++◌, ◌+◌, ◌<◌, ◌==◌, ◌∷◌, ◌≡◌, ◌⊎◌,
}
use llm_go_sdk.Base.Int.{negsuc, pos, ℤ}
use llm_go_sdk.Fallback.Ids.{
  Absent, Absent-remove_at, Absent-snoc, IsNumbered, IsNumbered-remove_at, IsNumbered-snoc,
}
use llm_go_sdk.Fallback.Health.{health_of}
use llm_go_sdk.Fallback.{
  FallbackChain, FallbackEntry, Option, add_client, clear_health, index_of_id, mark_healthy_id,
  mark_id, mark_unhealthy_id, new_fallback_chain, number_clients, remove_at, remove_client,
  reset_health, set_client_healthy, set_health,
}

-- What other goroutines may do to a chain: the exported methods, and the marks of calls in flight.
pub data ChainCall (Client : Type 0) : Type 0 where
  adds : Client → ChainCall Client
  removes : ℤ → ChainCall Client
  sets_healthy : ℤ → Bool → ChainCall Client
  resets : ChainCall Client
  marks_healthy marks_unhealthy : ℕ → ChainCall Client

module _ {Client : Type 0} where
  unfoldable pub chain_step : FallbackChain Client → ℕ × ChainCall Client → FallbackChain Client
  chain_step fc (now, adds c) = add_client c fc
  chain_step fc (now, removes i) = (remove_client i fc).0
  chain_step fc (now, sets_healthy i h) = set_client_healthy now i h fc
  chain_step fc (now, resets) = reset_health fc
  chain_step fc (now, marks_healthy id) = mark_healthy_id id fc
  chain_step fc (now, marks_unhealthy id) = mark_unhealthy_id now id fc

  unfoldable pub chain_run :
      FallbackChain Client → List (ℕ × ChainCall Client) → FallbackChain Client
  chain_run fc [] = fc
  chain_run fc (c ∷ cs) = chain_run (chain_step fc c) cs

  -- The ids alone; a change of health keeps them.
  abbrev pub ids : List (FallbackEntry Client) → List ℕ
  ids [] = []
  ids (e ∷ es) = e.id ∷ ids es

module _ {Client : Type 0} where
  ids-set_health :
      (i : ℕ) (h : Option ℕ) (es : List (FallbackEntry Client)) → ids (set_health i h es) ≡ ids es
  unfolding set_health
  ids-set_health i h [] = refl
  ids-set_health zero h (e ∷ es) = refl
  ids-set_health (suc i) h (e ∷ es) = ap (◌∷◌ e.id) (ids-set_health i h es)

  ids-clear : (es : List (FallbackEntry Client)) → ids (map clear_health es) ≡ ids es
  ids-clear [] = refl
  ids-clear (e ∷ es) = ap (◌∷◌ e.id) (ids-clear es)

  ids-mark_id :
      (id : ℕ) (h : Option ℕ) (fc : FallbackChain Client)
      → ids (mark_id id h fc).entries ≡ ids fc.entries
  unfolding mark_id
  ids-mark_id id h fc = elim (Option-cases (index_of_id id fc.entries)) [
    | inl n ↦ rw (n, mark_id)
    | inr (i, n) ↦ rw (n, mark_id) (ids-set_health i h fc.entries)
  ]

  ids-append : (es fs : List (FallbackEntry Client)) → ids (es ++ fs) ≡ ids es ++ ids fs
  ids-append [] fs = refl
  ids-append (e ∷ es) fs = ap (◌∷◌ e.id) (ids-append es fs)

  ids-take : (n : ℕ) (es : List (FallbackEntry Client)) → ids (take n es) ≡ take n (ids es)
  ids-take zero es = refl
  ids-take (suc n) [] = refl
  ids-take (suc n) (e ∷ es) = ap (◌∷◌ e.id) (ids-take n es)

  ids-drop : (n : ℕ) (es : List (FallbackEntry Client)) → ids (drop n es) ≡ drop n (ids es)
  ids-drop zero es = refl
  ids-drop (suc n) [] = refl
  ids-drop (suc n) (e ∷ es) = ids-drop n es

  ids-remove_at :
      (k : ℕ) (es : List (FallbackEntry Client)) → ids (remove_at k es) ≡ remove_at k (ids es)
  ids-remove_at k es =
      rw (ids-append (take k es) (drop (k + 1) es), ids-take k es, ids-drop (k + 1) es)

  -- What a call can do to the ids.
  abbrev IdsStep : FallbackChain Client → FallbackChain Client → Type 0
  IdsStep fc fc' =
      ((ids fc'.entries ≡ ids fc.entries) × (fc'.next_id ≡ fc.next_id))
      ⊎ (((ids fc'.entries ≡ ids fc.entries ++ (fc.next_id ∷ [])) × (fc'.next_id ≡ fc.next_id + 1))
          ⊎ ((k : ℕ) × (ids fc'.entries ≡ remove_at k (ids fc.entries))
              × (fc'.next_id ≡ fc.next_id)))

  mark_id-next_id :
      (id : ℕ) (h : Option ℕ) (fc : FallbackChain Client) → (mark_id id h fc).next_id ≡ fc.next_id
  unfolding mark_id
  mark_id-next_id id h fc = elim (Option-cases (index_of_id id fc.entries)) [
    | inl n ↦ rw (n, mark_id)
    | inr (i, n) ↦ rw (n, mark_id)
  ]

  set_client_healthy_ids :
      (now : ℕ) (i : ℤ) (h : Bool) (fc : FallbackChain Client)
      → IdsStep fc (set_client_healthy now i h fc)
  unfolding set_client_healthy
  set_client_healthy_ids now (negsuc i) h fc = inl (refl, refl)
  set_client_healthy_ids now (pos i) h fc = elim (Bool-cases (ltb i (length fc.entries))) [
    | inl t ↦ rw t (inl (ids-set_health i _ fc.entries, refl))
    | inr f ↦ rw f (inl (refl, refl))
  ]

  remove_client_ids : (i : ℤ) (fc : FallbackChain Client) → IdsStep fc (remove_client i fc).0
  unfolding remove_client
  remove_client_ids (negsuc i) fc = inl (refl, refl)
  remove_client_ids (pos i) fc = elim (Bool-cases (leb (length fc.entries) i)) [
    | inl t ↦ rw t (inl (refl, refl))
    | inr f ↦ rw f (inr (inr (i, ids-remove_at i fc.entries, refl)))
  ]

  chain_step_ids :
      (fc : FallbackChain Client) (c : ℕ × ChainCall Client) → IdsStep fc (chain_step fc c)
  unfolding chain_step add_client reset_health mark_healthy_id mark_unhealthy_id
  chain_step_ids fc (now, adds c) = inr (inl (ids-append fc.entries _, refl))
  chain_step_ids fc (now, removes i) = remove_client_ids i fc
  chain_step_ids fc (now, sets_healthy i h) = set_client_healthy_ids now i h fc
  chain_step_ids fc (now, resets) = inl (ids-clear fc.entries, refl)
  chain_step_ids fc (now, marks_healthy id) = inl (ids-mark_id id _ fc, mark_id-next_id id _ fc)
  chain_step_ids fc (now, marks_unhealthy id) = inl (ids-mark_id id _ fc, mark_id-next_id id _ fc)

  abbrev Numbered : FallbackChain Client → Type 0
  Numbered fc = IsNumbered fc.next_id (ids fc.entries)

  abbrev Gone : ℕ → FallbackChain Client → Type 0
  Gone id fc = (id < fc.next_id) × Absent id (ids fc.entries)

  chain_step-Numbered :
      (fc : FallbackChain Client) (c : ℕ × ChainCall Client)
      → Numbered fc
      → Numbered (chain_step fc c)
  chain_step-Numbered fc c h = elim (chain_step_ids fc c) [
    | inl (e, n) ↦ rw (e, n) h
    | inr (inl (e, n)) ↦ rw (e, n) (IsNumbered-snoc fc.next_id (ids fc.entries) h)
    | inr (inr (k, e, n)) ↦ rw (e, n) (IsNumbered-remove_at fc.next_id k (ids fc.entries) h)
  ]

  chain_step-Gone :
      (id : ℕ) (fc : FallbackChain Client) (c : ℕ × ChainCall Client)
      → Gone id fc
      → Gone id (chain_step fc c)
  chain_step-Gone id fc c h = elim (chain_step_ids fc c) [
    | inl (e, n) ↦ rw (e, n) h
    | inr (inl (e, n)) ↦
        rw (e, n) (omega arith, Absent-snoc id fc.next_id (ids fc.entries) h.1 (omega arith))
    | inr (inr (k, e, n)) ↦ rw (e, n) (h.0, Absent-remove_at id k (ids fc.entries) h.1)
  ]

  chain_run-Numbered :
      (fc : FallbackChain Client) (calls : List (ℕ × ChainCall Client))
      → Numbered fc
      → Numbered (chain_run fc calls)
  unfolding chain_run
  chain_run-Numbered fc [] h = h
  chain_run-Numbered fc (c ∷ cs) h =
      chain_run-Numbered (chain_step fc c) cs (chain_step-Numbered fc c h)

  chain_run-Gone :
      (id : ℕ) (fc : FallbackChain Client) (calls : List (ℕ × ChainCall Client))
      → Gone id fc
      → Gone id (chain_run fc calls)
  unfolding chain_run
  chain_run-Gone id fc [] h = h
  chain_run-Gone id fc (c ∷ cs) h =
      chain_run-Gone id (chain_step fc c) cs (chain_step-Gone id fc c h)

  number_clients-Absent :
      (id n : ℕ) (cs : List Client) → id < n → Absent id (ids (number_clients n cs))
  unfolding number_clients
  number_clients-Absent id n [] h = tt
  number_clients-Absent id n (c ∷ cs) h =
      (omega arith, number_clients-Absent id (n + 1) cs (omega arith))

  number_clients-IsNumbered :
      (n m : ℕ) (cs : List Client) → n + length cs ≡ m → IsNumbered m (ids (number_clients n cs))
  unfolding number_clients
  number_clients-IsNumbered n m [] h = tt
  number_clients-IsNumbered n m (c ∷ cs) h = (
    omega arith,
    number_clients-Absent n (n + 1) cs (omega arith),
    number_clients-IsNumbered (n + 1) m cs (omega arith),
  )

  Absent-health_of :
      (id : ℕ) (es : List (FallbackEntry Client)) → Absent id (ids es) → health_of id es ≡ none
  Absent-health_of id [] h = refl
  Absent-health_of id (e ∷ es) h =
      let ne : e.id == id ≡ false = ground (arith, h.0) in rw ne (Absent-health_of id es h.1)

  -- From a new chain, whatever calls run, in any order: no two clients have the same id, and every
  -- id is below the next one to be given.
  pub chain_run-IsNumbered :
      (clients : List Client) (calls : List (ℕ × ChainCall Client))
      → (let fc = chain_run (new_fallback_chain clients) calls in
          IsNumbered fc.next_id (ids fc.entries))
  unfolding new_fallback_chain
  chain_run-IsNumbered clients calls =
      chain_run-Numbered (new_fallback_chain clients) calls
        (number_clients-IsNumbered 0 (length clients) clients (omega arith))

  -- A client that was removed does not come back under its id: whatever calls follow, clients added
  -- anew included, a chain with no client of an id below the next one never has one again, so a late
  -- report about it marks nobody.
  pub removed_id_stays_away :
      (fc : FallbackChain Client) (id : ℕ) (calls : List (ℕ × ChainCall Client))
      → id < fc.next_id
      → Absent id (ids fc.entries)
      → health_of id (chain_run fc calls).entries ≡ none
  removed_id_stays_away fc id calls lt away =
      Absent-health_of id (chain_run fc calls).entries (chain_run-Gone id fc calls (lt, away)).1
