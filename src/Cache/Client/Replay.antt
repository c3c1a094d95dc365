-- ===== src/Cache/Client/Replay.antt =====
-- Repeated requests and failures of `CachedClient` of caching_middleware.go.
use Prim.Native.String.{String}
use llm_go_sdk.Base.{
  Bool, List, Option, Option-cases, Sum-cases, ap, arith, false, inl, inr, none, not, refl, some,
  sym, true, true≢false, ℕ, ◌∙◌, ◌≡◌, ◌≢◌, ◌≤◌, ◌⊎◌,
}
use llm_go_sdk.Base.Int.{}
use llm_go_sdk.Errors.{Error}
use llm_go_sdk.Cache.{MemoryCacheEntry, expiry, is_past, set}
use llm_go_sdk.Cache.Lookup.{get-set, get-view, view}
use llm_go_sdk.Cache.Client.{ResponseCache, generate_content, memory_cache}

-- What the client relies on in a cache: a map that changes with the time, which `get` reads and does
-- not change from then on, and in which `set` stores a response for the times that are `is_fresh`.
pub record CacheLaws {S R : Type 0} (ops : ResponseCache S R) : Type 0 where
  pub holds : ℕ → S → String → Option R
  pub is_fresh : S → ℕ → ℕ → Bool
  pub get-holds : (now : ℕ) (key : String) (s : S) → (ops.get now key s).0 ≡ holds now s key
  pub get-keeps :
      (now later : ℕ) (key j : String) (s : S)
      → now ≤ later
      → holds later (ops.get now key s).1 j ≡ holds later s j
  pub set-holds :
      (stored_at later : ℕ) (key : String) (r : R) (s : S)
      → is_fresh s stored_at later ≡ true
      → holds later (ops.set stored_at key r s) key ≡ some r

pub denied : (b : Bool) → not b ≡ true → b ≡ false
denied true h = sym h
denied false h = refl

-- The in-memory cache keeps to it, whatever it evicts.
abbrev pub memory_cache_laws :
    {R : Type 0} (order : List (String × MemoryCacheEntry R) → List (String × MemoryCacheEntry R))
    → CacheLaws (memory_cache order)
memory_cache_laws order = record {
  holds = λ now m key. view now m key;
  is_fresh = λ m stored_at later. not (is_past later (expiry stored_at m.ttl));
  get-holds = λ now key m. (get-view now now key key m (omega arith)).0;
  get-keeps = λ now later key j m l. (get-view now later key j m l).1;
  set-holds = λ stored_at later key r m f.
      (let h = denied (is_past later (expiry stored_at m.ttl)) f in
        sym (get-view later later key key (set order stored_at key r m) (omega arith)).0
        ∙ get-set order stored_at later key r m
        ∙ rw h refl);
}

module _ {S R Q : Type 0} (ops : ResponseCache S R) (laws : CacheLaws ops)
    (key_fn : Q → String) where
  generate_content-miss :
      (asked_at stored_at : ℕ) (q : Q) (answer : Error ⊎ Option R) (s : S)
      → (generate_content ops key_fn asked_at stored_at q answer s).called ≡ true
      → generate_content ops key_fn asked_at stored_at q answer s ≡ record {
        result = answer;
        called = true;
        cache = elim answer [
          | inr (some r) ↦ ops.set stored_at (key_fn q) r (ops.get asked_at (key_fn q) s).1
          | _ ↦ (ops.get asked_at (key_fn q) s).1
        ];
      }
  unfolding generate_content
  generate_content-miss asked_at stored_at q answer s h =
      elim (Option-cases (ops.get asked_at (key_fn q) s).0) [
        | inl n ↦ rw (generate_content, n) refl
        | inr (r, n) ↦ absurd (true≢false (sym (rw (generate_content, n) at h)))
      ]

  generate_content-hit :
      (asked_at stored_at : ℕ) (q : Q) (answer : Error ⊎ Option R) (s : S) (r : R)
      → (ops.get asked_at (key_fn q) s).0 ≡ some r
      → ((generate_content ops key_fn asked_at stored_at q answer s).result ≡ inr (some r))
        × ((generate_content ops key_fn asked_at stored_at q answer s).called ≡ false)
  unfolding generate_content
  generate_content-hit asked_at stored_at q answer s r h =
      (rw (generate_content, h) refl, rw (generate_content, h) refl)

  -- After a call of the wrapped client that returned a response, a request with the same key gets
  -- that response, without a call, while the cache holds it fresh.
  pub generate_content-replays :
      (asked_at stored_at later later' : ℕ) (q q' : Q) (answer answer' : Error ⊎ Option R) (s : S)
      (r : R)
      → (generate_content ops key_fn asked_at stored_at q answer s).called ≡ true
      → (generate_content ops key_fn asked_at stored_at q answer s).result ≡ inr (some r)
      → key_fn q ≡ key_fn q'
      → laws.is_fresh (ops.get asked_at (key_fn q) s).1 stored_at later ≡ true
      → ((generate_content ops key_fn later later' q' answer'
            (generate_content ops key_fn asked_at stored_at q answer s).cache).result
          ≡ inr (some r))
        × ((generate_content ops key_fn later later' q' answer'
              (generate_content ops key_fn asked_at stored_at q answer s).cache).called
            ≡ false)
  generate_content-replays asked_at stored_at later later' q q' answer answer' s r c a k f =
      let first = generate_content ops key_fn asked_at stored_at q answer s in
      let miss = generate_content-miss asked_at stored_at q answer s c in
      let got : answer ≡ inr (some r) = sym (ap (λ x. x.result) miss) ∙ a in
      let stored : first.cache ≡ ops.set stored_at (key_fn q) r (ops.get asked_at (key_fn q) s).1 =
        ap (λ x. x.cache) miss ∙ (rw got refl) in
      let held = laws.set-holds stored_at later (key_fn q) r (ops.get asked_at (key_fn q) s).1 f in
      generate_content-hit later later' q' answer' first.cache r (
        laws.get-holds later (key_fn q') first.cache
        ∙ ap (λ x. laws.holds later x (key_fn q')) stored
        ∙ ap
            (λ x.
              laws.holds later (ops.set stored_at (key_fn q) r (ops.get asked_at (key_fn q) s).1) x)
            (sym k)
        ∙ held)

  -- A failed call, and one that returns no response, leave the cache as it was at every later time.
  pub generate_content-failure :
      (asked_at stored_at later : ℕ) (q : Q) (answer : Error ⊎ Option R) (s : S) (j : String)
      → asked_at ≤ later
      → ((r : R)
          → (generate_content ops key_fn asked_at stored_at q answer s).result ≢ inr (some r))
      → laws.holds later (generate_content ops key_fn asked_at stored_at q answer s).cache j
        ≡ laws.holds later s j
  unfolding generate_content
  generate_content-failure asked_at stored_at later q answer s j l n =
      let kept = laws.get-keeps asked_at later (key_fn q) j s l in
      elim (Option-cases (ops.get asked_at (key_fn q) s).0) [
        | inr (r, g) ↦ rw (generate_content, g) kept
        | inl g ↦ elim (Sum-cases answer) [
          | inl (e, a) ↦ rw (generate_content, g, a) kept
          | inr (none, a) ↦ rw (generate_content, g, a) kept
          | inr (some r, a) ↦ absurd (n r (rw (generate_content, g) a))
        ]
      ]
