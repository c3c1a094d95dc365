-- ===== src/Cache/Lookup.antt =====
-- What the in-memory cache of caching_middleware.go returns.
use Prim.Native.String.{String}
use text.Mathlib.Text.{◌==◌ as str_eq}
use text.Mathlib.TextEquality.{eq_iff}
use llm_go_sdk.Base.{
  Bool, Bool-cases, List, Option, Option-cases, [], ap, arith, false, if◌then◌else◌, inl, inr, leb,
  length, none, not, refl, some, subst, suc, true, zero, ℕ, ◌&&◌, ◌∙◌, ◌∷◌, ◌≡◌, ◌≤◌, ◌⊎◌,
}
use llm_go_sdk.Base.Int.{negsuc, pos, ℤ}
use llm_go_sdk.Base.Table.{erase, has_key, lookup, lookup-insert, lookup-insert_other}
use llm_go_sdk.Cache.{
  MemoryCacheEntry, MemoryResponseCache, expiry, get, is_past, make_room, new_entry, set,
}

ℤ-cases : (z : ℤ) → ((n : ℕ) × (z ≡ pos (suc n))) ⊎ (z ≡ pos 0) ⊎ ((n : ℕ) × (z ≡ negsuc n))
ℤ-cases (pos (suc n)) = inl (n, refl)
ℤ-cases (pos zero) = inr (inl refl)
ℤ-cases (negsuc n) = inr (inr (n, refl))

lookup-erase : {A : Type 0} (k : String) (t : List (String × A)) → lookup k (erase k t) ≡ none
lookup-erase k [] = refl
lookup-erase k (e ∷ t) = elim (Bool-cases (str_eq k e.0)) [
  | inl y ↦ rw y (lookup-erase k t)
  | inr n ↦ rw n (rw n (lookup-erase k t))
]

lookup-erase_other :
    {A : Type 0} (j k : String) (t : List (String × A))
    → str_eq j k ≡ false
    → lookup j (erase k t) ≡ lookup j t
lookup-erase_other j k [] h = refl
lookup-erase_other j k (e ∷ t) h = elim (Bool-cases (str_eq k e.0)) [
  | inl y ↦
      let q : k ≡ e.0 = (eq_iff k e.0).0 y in
      let h' : str_eq j e.0 ≡ false = subst (λ x. str_eq j x ≡ false) q h in
      rw (y, h', lookup-erase_other j k t h) refl
  | inr n ↦ rw (n, lookup-erase_other j k t h) refl
]

-- The response that an entry serves at a time.
abbrev served : {R : Type 0} → ℕ → Option (MemoryCacheEntry R) → Option R
served now none = none
served now (some e) = if is_past now e.expires then none else some e.resp

-- The cache as a map that changes with the time.
abbrev pub view : {R : Type 0} → ℕ → MemoryResponseCache R → String → Option R
view now m key = served now (lookup key m.entries)

get-served :
    {R : Type 0} (now : ℕ) (key : String) (m : MemoryResponseCache R)
    → (get now key m).0 ≡ view now m key
unfolding get
get-served now key m = elim (Option-cases (lookup key m.entries)) [
  | inl n ↦ rw (get, n) refl
  | inr (e, n) ↦ elim (Bool-cases (is_past now e.expires)) [
    | inl y ↦ rw (get, n, y) refl
    | inr f ↦ rw (get, n, f) refl
  ]
]

-- A response that was stored is returned at the times before its expiry, and at no other time,
-- whatever was evicted for it.
pub get-set :
    {R : Type 0} (order : List (String × MemoryCacheEntry R) → List (String × MemoryCacheEntry R))
    (stored_at asked_at : ℕ) (key : String) (resp : R) (m : MemoryResponseCache R)
    → (get asked_at key (set order stored_at key resp m)).0
      ≡ (if is_past asked_at (expiry stored_at m.ttl) then none else some resp)
unfolding set
get-set order stored_at asked_at key resp m =
    let room = make_room order stored_at key m in
    get-served asked_at key (set order stored_at key resp m)
    ∙ ap (served asked_at) (lookup-insert key (new_entry stored_at m.ttl resp) room.entries)

is_past-later : (s t : ℕ) (x : Option ℕ) → s ≤ t → is_past s x ≡ true → is_past t x ≡ true
is_past-later s t none l h = h
is_past-later s t (some x) l h = ground arith

-- `Get` returns what the map holds at its time, and the map is the same at every later time.
pub get-view :
    {R : Type 0} (now later : ℕ) (key j : String) (m : MemoryResponseCache R)
    → now ≤ later
    → ((get now key m).0 ≡ view now m key) × (view later (get now key m).1 j ≡ view later m j)
unfolding get
get-view now later key j m l = (
  get-served now key m,
  elim (Option-cases (lookup key m.entries)) [
    | inl n ↦ rw (get, n) refl
    | inr (e, n) ↦ elim (Bool-cases (is_past now e.expires)) [
      | inr f ↦ rw (get, n, f) refl
      | inl y ↦ elim (Bool-cases (str_eq j key)) [
        | inr d ↦ rw (get, n, y) (ap (served later) (lookup-erase_other j key m.entries d))
        | inl s ↦
            let q : j ≡ key = (eq_iff j key).0 s in
            let z = is_past-later now later e.expires l y in
            rw (get, n, y, q) (rw (lookup-erase key m.entries, n, z) refl)
      ]
    ]
  ],
)

-- A new key needs room in a bounded cache that is full.
abbrev pub needs_room : {R : Type 0} → String → MemoryResponseCache R → Bool
needs_room key m = elim m.max_entries [
  | pos (suc n) ↦ not (has_key key m.entries) && leb (suc n) (length m.entries)
  | _ ↦ false
]

make_room-none :
    {R : Type 0} (order : List (String × MemoryCacheEntry R) → List (String × MemoryCacheEntry R))
    (now : ℕ) (key : String) (m : MemoryResponseCache R)
    → needs_room key m ≡ false
    → (make_room order now key m).entries ≡ m.entries
unfolding make_room
make_room-none order now key m h = elim (ℤ-cases m.max_entries) [
  | inl (n, q) ↦
      let f : not (has_key key m.entries) && leb (suc n) (length m.entries) ≡ false = rw q at h in
      rw (make_room, q, f) refl
  | inr (inl q) ↦ rw (make_room, q) refl
  | inr (inr (n, q)) ↦ rw (make_room, q) refl
]

-- `Set` changes the map at its key alone where nothing has to be evicted.
pub set-view :
    {R : Type 0} (order : List (String × MemoryCacheEntry R) → List (String × MemoryCacheEntry R))
    (now later : ℕ) (key j : String) (resp : R) (m : MemoryResponseCache R)
    → needs_room key m ≡ false
    → view later (set order now key resp m) j ≡ (
        if str_eq j key
        then (if is_past later (expiry now m.ttl) then none else some resp)
        else view later m j)
unfolding set
set-view order now later key j resp m h =
    let e = new_entry now m.ttl resp in
    let r = make_room-none order now key m h in
    rw (set, r)
      (elim (Bool-cases (str_eq j key)) [
        | inl y ↦
            let q : j ≡ key = (eq_iff j key).0 y in
            rw y (rw (q, lookup-insert key e m.entries) refl)
        | inr n ↦ rw n (ap (served later) (lookup-insert_other j key e m.entries n))
      ])
