-- ===== src/Cache.antt =====
-- caching_middleware.go: the in-memory cache of responses and the client that answers from it. Times
-- are nanoseconds of the clock `now`; a time that is zero is `none`. A response is a value here, so
-- its copies are the same value.
use Prim.Native.String.{String}
use text.Mathlib.Text.{◌==◌ as str_eq}
use llm_go_sdk.Base.{
  Bool, List, Option, [], false, if◌then◌else◌, leb, length, ltb, max, none, not, some, suc, true,
  zero, ℕ, ◌&&◌, ◌+◌, ◌∷◌,
}
use llm_go_sdk.Base.Int.{negsuc, pos, ℤ}
use llm_go_sdk.Base.Table.{erase, has_key, insert, lookup}
use llm_go_sdk.Errors.{}
pub mod Bounds
mod Examples
pub mod Victim
pub mod Lookup
pub mod Client

pub record MemoryCacheEntry (R : Type 0) : Type 0 where
  pub resp : R
  pub expires : Option ℕ

pub record MemoryResponseCache (R : Type 0) : Type 0 where
  pub ttl : ℤ
  pub max_entries : ℤ
  pub entries : List (String × MemoryCacheEntry R)

abbrev pub default_cache_max_entries : ℕ
default_cache_max_entries = 10000

abbrev pub new_memory_response_cache : {R : Type 0} → ℤ → ℤ → MemoryResponseCache R
new_memory_response_cache ttl max_entries = record {
  ttl = ttl;
  max_entries = max_entries;
  entries = [];
}

-- Not before the expiry, and after it.
abbrev pub is_past : ℕ → Option ℕ → Bool
is_past now none = false
is_past now (some t) = leb t now

abbrev pub is_after : ℕ → Option ℕ → Bool
is_after now none = false
is_after now (some t) = ltb t now

unfoldable pub get :
    {R : Type 0} → ℕ → String → MemoryResponseCache R → Option R × MemoryResponseCache R
get now key m = elim (lookup key m.entries) [
  | none ↦ (none, m)
  | some e ↦
      (if is_past now e.expires
        then (none, record m { entries = erase key m.entries })
        else (some e.resp, m))
]

abbrev pub drop_expired :
    {R : Type 0} → ℕ → List (String × MemoryCacheEntry R) → List (String × MemoryCacheEntry R)
drop_expired now [] = []
drop_expired now (e ∷ es) =
    if is_after now e.1.expires then drop_expired now es else e ∷ drop_expired now es

-- An entry is preferred to the victim so far when it expires, and before it.
abbrev pub is_preferred : Option ℕ → Option ℕ → Bool
is_preferred none best = false
is_preferred (some t) none = true
is_preferred (some t) (some b) = ltb t b

-- The victim among the entries that the scan still visits, after the one so far.
abbrev pub victim_from :
    {R : Type 0}
    → String × MemoryCacheEntry R
    → List (String × MemoryCacheEntry R)
    → String × MemoryCacheEntry R
victim_from best [] = best
victim_from best (e ∷ es) =
    victim_from (if is_preferred e.1.expires best.1.expires then e else best) es

abbrev pub victim :
    {R : Type 0} → List (String × MemoryCacheEntry R) → Option (String × MemoryCacheEntry R)
victim [] = none
victim (e ∷ es) = some (victim_from e es)

abbrev pub expiry : ℕ → ℤ → Option ℕ
expiry now (pos zero) = none
expiry now (pos (suc n)) = some (now + suc n)
expiry now (negsuc n) = none

-- The entry that is stored for a response.
abbrev pub new_entry : {R : Type 0} → ℕ → ℤ → R → MemoryCacheEntry R
new_entry now ttl resp = record { resp = resp; expires = expiry now ttl }

-- `order` is the order in which the runtime visits a map.
module _ {R : Type 0}
    (order : List (String × MemoryCacheEntry R) → List (String × MemoryCacheEntry R)) where
  -- The loop that evicts, while `max` entries are held; the fuel is the number of entries, since each
  -- round evicts one.
  unfoldable pub evict_loop :
      ℕ → ℕ → List (String × MemoryCacheEntry R) → List (String × MemoryCacheEntry R)
  evict_loop zero max es = es
  evict_loop (suc fuel) max es =
      if leb max (length es)
      then elim (victim (order es)) [ none ↦ es | some v ↦ evict_loop fuel max (erase v.0 es) ]
      else es

  unfoldable pub evict_locked : ℕ → ℕ → MemoryResponseCache R → MemoryResponseCache R
  unfolding evict_loop
  evict_locked now max m =
      let live = drop_expired now m.entries in
      record m { entries = evict_loop (length live) max live }

  -- The cache with room for the key.
  unfoldable pub make_room : ℕ → String → MemoryResponseCache R → MemoryResponseCache R
  unfolding evict_locked
  make_room now key m = elim m.max_entries [
    | pos (suc n) ↦
        (if not (has_key key m.entries) && leb (suc n) (length m.entries)
          then evict_locked now (suc n) m
          else m)
    | _ ↦ m
  ]

  unfoldable pub set : ℕ → String → R → MemoryResponseCache R → MemoryResponseCache R
  unfolding make_room
  set now key resp m =
      let room = make_room now key m in
      record room { entries = insert key (new_entry now m.ttl resp) room.entries }
