-- ===== src/Cache/Bounds.antt =====
-- The size of a bounded cache of caching_middleware.go.
use Prim.Native.String.{String}
use llm_go_sdk.Base.{
  All, Bool-cases, List, [], ap, arith, inl, inr, leb, length, list_cases, max, refl, some, subst,
  suc, true, zero, ℕ, ◌<◌, ◌∙◌, ◌∷◌, ◌≡◌, ◌≤◌, ◌⊎◌,
}
use llm_go_sdk.Base.Int.{pos}
use llm_go_sdk.Base.Table.{erase, has_key, insert, length-erase_found, length-insert}
use llm_go_sdk.Cache.{
  MemoryCacheEntry, MemoryResponseCache, drop_expired, evict_locked, evict_loop, is_preferred,
  make_room, new_entry, set, victim, victim_from,
}

-- A runtime visits some entry of a map that has one, and only its entries.
abbrev pub VisitsEntries :
    {R : Type 0}
    → (List (String × MemoryCacheEntry R) → List (String × MemoryCacheEntry R))
    → Type 0
VisitsEntries {R} order =
    (es : List (String × MemoryCacheEntry R))
    → (length (order es) ≡ length es) × All (λ e. has_key e.0 es ≡ true) (order es)

pub victim_from-All :
    {R : Type 0} (P : String × MemoryCacheEntry R → Type 0) (best : String × MemoryCacheEntry R)
    (es : List (String × MemoryCacheEntry R))
    → P best
    → All P es
    → P (victim_from best es)
victim_from-All P best [] p h = p
victim_from-All P best (e ∷ es) p h = elim (Bool-cases (is_preferred e.1.expires best.1.expires)) [
  | inl y ↦ rw y (victim_from-All P e es h.0 h.1)
  | inr n ↦ rw n (victim_from-All P best es p h.1)
]

-- Some entry is the victim.
pub victim-found :
    {R : Type 0} (order : List (String × MemoryCacheEntry R) → List (String × MemoryCacheEntry R))
    (es : List (String × MemoryCacheEntry R))
    → VisitsEntries order
    → 0 < length es
    → (v : String × MemoryCacheEntry R) × (victim (order es) ≡ some v) × (has_key v.0 es ≡ true)
victim-found order es o h = elim (list_cases (order es)) [
  | inl n ↦ (let a = (o es).0 in let b = ap length n in absurd (omega arith))
  | inr (x, xs, n) ↦
      (let k = subst (All (λ e. has_key e.0 es ≡ true)) n (o es).1 in
        (victim_from x xs, rw n refl, victim_from-All (λ e. has_key e.0 es ≡ true) x xs k.0 k.1))
]

module _ {R : Type 0}
    (order : List (String × MemoryCacheEntry R) → List (String × MemoryCacheEntry R))
    (o : VisitsEntries order) where
  -- The fuel is enough: fewer entries than the bound are left.
  evict_loop-bounded :
      (fuel max : ℕ) (es : List (String × MemoryCacheEntry R))
      → length es ≤ fuel
      → 0 < max
      → length (evict_loop order fuel max es) < max
  unfolding evict_loop
  evict_loop-bounded zero max es f p = omega arith
  evict_loop-bounded (suc fuel) max es f p = elim (Bool-cases (leb max (length es))) [
    | inr n ↦ rw n (ground arith)
    | inl y ↦
        (let (v, e, k) = victim-found order es o (ground arith) in
          let d = length-erase_found v.0 es k in
          rw (y, e) (evict_loop-bounded fuel max (erase v.0 es) (omega arith) p))
  ]

  make_room-bounded :
      (now : ℕ) (key : String) (m : MemoryResponseCache R) (n : ℕ)
      → m.max_entries ≡ pos (suc n)
      → length m.entries ≤ suc n
      → (length (make_room order now key m).entries < suc n)
        ⊎ ((has_key key m.entries ≡ true) × ((make_room order now key m).entries ≡ m.entries))
  unfolding make_room evict_locked
  make_room-bounded now key m n q h = elim (Bool-cases (has_key key m.entries)) [
    | inl y ↦ inr (y, rw (make_room, q, y) refl)
    | inr f ↦ elim (Bool-cases (leb (suc n) (length m.entries))) [
      | inr g ↦ inl (rw (make_room, q, f, g) (ground arith))
      | inl y ↦
          (let live = drop_expired now m.entries in
            inl (
              rw (make_room, q, f, y)
                (evict_loop-bounded (length live) (suc n) live (omega arith) (omega arith))))
    ]
  ]

  -- `Set` keeps the number of entries within a positive maximum.
  pub set-bounded :
      (now : ℕ) (key : String) (resp : R) (m : MemoryResponseCache R) (n : ℕ)
      → m.max_entries ≡ pos (suc n)
      → length m.entries ≤ suc n
      → length (set order now key resp m).entries ≤ suc n
  unfolding set
  set-bounded now key resp m n q h =
      let room = make_room order now key m in
      let e = new_entry now m.ttl resp in
      let l = length-insert key e room.entries in
      elim (make_room-bounded now key m n q h) [
        | inl s ↦ elim (Bool-cases (has_key key room.entries)) [
          | inl y ↦
              (let z : length (insert key e room.entries) ≡ length room.entries = l ∙ rw y refl in
                omega arith)
          | inr f ↦
              (let z : length (insert key e room.entries) ≡ suc (length room.entries) =
                  l ∙ rw f refl in
                omega arith)
        ]
        | inr (y, s) ↦
            (let z : length (insert key e room.entries) ≡ length room.entries =
                l ∙ rw (s, y) refl in
              let w = ap length s in omega arith)
      ]
