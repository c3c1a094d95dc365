-- ===== src/Cache/Client.antt =====
-- `CachedClient` of caching_middleware.go over any cache. A request is some `Q`, which the key
-- function reduces to a key; a response is some `R`, and a nil response is `none`.
use Prim.Native.String.{String}
use text.Mathlib.Text.{◌==◌ as str_eq}
use llm_go_sdk.Base.{Bool, List, Option, [], false, inr, none, some, true, ℕ, ◌∷◌, ◌⊎◌}
use llm_go_sdk.Base.Int.{pos}
use llm_go_sdk.Errors.{Error}
use llm_go_sdk.Cache.{
  MemoryCacheEntry, MemoryResponseCache, default_cache_max_entries, new_memory_response_cache,
}
use llm_go_sdk.Cache
pub mod Replay

-- The operations of a `ResponseCache` with the state `S`, at a time of the clock.
pub record ResponseCache (S R : Type 0) : Type 0 where
  pub get : ℕ → String → S → Option R × S
  pub set : ℕ → String → R → S → S

-- The in-memory cache as one of them.
abbrev pub memory_cache :
    {R : Type 0}
    → (List (String × MemoryCacheEntry R) → List (String × MemoryCacheEntry R))
    → ResponseCache (MemoryResponseCache R) R
memory_cache order = record { get = Cache.get; set = Cache.set order }

-- `CacheClientOption`: a cache that is nil and a nil key function are `none`.
pub data CacheClientOption (S Q : Type 0) : Type 0 where
  with_response_cache : Option S → CacheClientOption S Q
  with_cache_key_func : Option (Q → String) → CacheClientOption S Q

pub record ClientConfig (S Q : Type 0) : Type 0 where
  pub cache : Option S
  pub key_fn : Option (Q → String)

abbrev pub apply_cache_option :
    {S Q : Type 0} → CacheClientOption S Q → ClientConfig S Q → ClientConfig S Q
apply_cache_option (with_response_cache c) cfg = record cfg { cache = c }
apply_cache_option (with_cache_key_func none) cfg = cfg
apply_cache_option (with_cache_key_func (some f)) cfg = record cfg { key_fn = some f }

abbrev pub apply_cache_options :
    {S Q : Type 0} → List (CacheClientOption S Q) → ClientConfig S Q → ClientConfig S Q
apply_cache_options [] cfg = cfg
apply_cache_options (o ∷ os) cfg = apply_cache_options os (apply_cache_option o cfg)

-- 5 minutes.
abbrev pub default_cache_ttl : ℕ
default_cache_ttl = 300000000000

-- The cache and the key function of a new client; `default_key` is `defaultCacheKey`.
unfoldable pub new_cached_client :
    {R Q : Type 0}
    → (Q → String)
    → List (CacheClientOption (MemoryResponseCache R) Q)
    → MemoryResponseCache R × (Q → String)
new_cached_client default_key opts =
    let cfg = apply_cache_options opts (record { cache = none; key_fn = none }) in
    (
      elim cfg.cache [
        | none ↦ new_memory_response_cache (pos default_cache_ttl) (pos default_cache_max_entries)
        | some c ↦ c
      ],
      elim cfg.key_fn [ none ↦ default_key | some f ↦ f ],
    )

-- What `GenerateContent` of a cached client returns, whether it called the wrapped client, and the
-- cache after it.
pub record Generation (S R : Type 0) : Type 0 where
  pub result : Error ⊎ Option R
  pub called : Bool
  pub cache : S

-- `asked_at` and `stored_at` are the times of the cache's `Get` and `Set`, and `answer` is what the
-- wrapped client returns if it is called.
unfoldable pub generate_content :
    {S R Q : Type 0}
    → ResponseCache S R
    → (Q → String)
    → (asked_at stored_at : ℕ) → Q
    → Error ⊎ Option R
    → S
    → Generation S R
generate_content ops key_fn asked_at stored_at q answer s =
    let key = key_fn q in
    let found = ops.get asked_at key s in
    elim found.0 [
      | some r ↦ record { result = inr (some r); called = false; cache = found.1 }
      | none ↦ record {
        result = answer;
        called = true;
        cache = elim answer [ inr (some r) ↦ ops.set stored_at key r found.1 | _ ↦ found.1 ];
      }
    ]
