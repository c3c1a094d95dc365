-- ===== src/Cache/Examples.antt =====
-- A cache of two entries that lives ten units of time.
use Prim.Native.String.{String}
use mathlib.Core.List.{Memᴰ}
use mathlib.Core.List.Permᴰ
use text.Mathlib.Text.{◌==◌ as str_eq}
use text.Mathlib.TextEquality.{}
use llm_go_sdk.Base.{
  All, List, Option, [], arith, false, if◌then◌else◌, inr, length, none, refl, some, true, ℕ, ◌∷◌,
  ◌≡◌, ◌≤◌, ◌⊎◌,
}
use llm_go_sdk.Base.Int.{pos}
use llm_go_sdk.Base.Table.{erase, has_key, str_eq_refl}
use llm_go_sdk.Errors.{Error}
use llm_go_sdk.Cache.{
  MemoryCacheEntry, MemoryResponseCache, evict_loop, expiry, get, is_past,
  new_memory_response_cache, set,
}
use llm_go_sdk.Cache
use llm_go_sdk.Cache.Bounds.{VisitsEntries, set-bounded}
use llm_go_sdk.Cache.Lookup.{get-set, set-view, view}
use llm_go_sdk.Cache.Victim.{IsFirst, VisitsOnce, evict_loop-IsFirst}
use llm_go_sdk.Cache.Client.{Generation, ResponseCache, generate_content, memory_cache}
use llm_go_sdk.Cache.Client.Replay.{generate_content-replays, memory_cache_laws}

-- The entries in the order of the list.
abbrev listed : List (String × MemoryCacheEntry ℕ) → List (String × MemoryCacheEntry ℕ)
listed es = es

All-has_key :
    (pre es : List (String × MemoryCacheEntry ℕ))
    → ((k : String) → has_key k es ≡ true → has_key k pre ≡ true)
    → All (λ e. has_key e.0 pre ≡ true) es
All-has_key pre [] h = tt
All-has_key pre (e ∷ es) h =
    (h e.0 (rw (str_eq_refl e.0) refl), All-has_key pre es (λ k m. h k (rw m (ground arith))))

listed-VisitsEntries : VisitsEntries listed
listed-VisitsEntries es = (refl, All-has_key es es (λ k m. m))

abbrev full : MemoryResponseCache ℕ
full = record {
  ttl = pos 10;
  max_entries = pos 2;
  entries =
      ("a", record { resp = 1; expires = some 12 })
      ∷ ("b", record { resp = 2; expires = some 11 })
      ∷ [];
}

set-bounded_example : length (Cache.set listed 5 "c" 3 full).entries ≤ 2
set-bounded_example = set-bounded listed listed-VisitsEntries 5 "c" 3 full 1 refl (omega arith)

get-set_example :
    (Cache.get 9 "c" (Cache.set listed 5 "c" 3 full)).0
    ≡ (if is_past 9 (expiry 5 (pos 10)) then none else some 3)
get-set_example = get-set listed 5 9 "c" 3 full

set-view_example : view 9 (Cache.set listed 5 "a" 3 full) "b" ≡ (
    if str_eq "b" "a"
    then (if is_past 9 (expiry 5 (pos 10)) then none else some 3)
    else view 9 full "b")
set-view_example = set-view listed 5 9 "a" "b" 3 full refl

listed-VisitsOnce : VisitsOnce listed
listed-VisitsOnce es = Permᴰ.refl es

evict_loop-IsFirst_example :
    (v : String × MemoryCacheEntry ℕ) × Memᴰ v full.entries
    × IsFirst v.1 full.entries
    × (evict_loop listed 2 2 full.entries ≡ evict_loop listed 1 2 (erase v.0 full.entries))
evict_loop-IsFirst_example =
    evict_loop-IsFirst listed 1 2 full.entries listed-VisitsOnce (omega arith) (omega arith)

abbrev empty : MemoryResponseCache ℕ
empty = new_memory_response_cache (pos 10) (pos 2)

abbrev ops : ResponseCache (MemoryResponseCache ℕ) ℕ
ops = memory_cache listed

abbrev one_key : ℕ → String
one_key q = "key"

abbrev answer : Error ⊎ Option ℕ
answer = inr (some 7)

abbrev no_answer : Error ⊎ Option ℕ
no_answer = inr none

abbrev first : Generation (MemoryResponseCache ℕ) ℕ
first = generate_content ops one_key 1 2 0 answer empty

generate_content-replays_example :
    ((generate_content ops one_key 8 9 1 no_answer first.cache).result ≡ inr (some 7))
    × ((generate_content ops one_key 8 9 1 no_answer first.cache).called ≡ false)
unfolding generate_content Cache.get
generate_content-replays_example =
    generate_content-replays ops (memory_cache_laws listed) one_key 1 2 8 9 0 1 answer no_answer
      empty 7 refl refl refl refl
