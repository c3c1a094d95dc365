-- ===== src/Cache/Victim.antt =====
-- The entry that a full cache of caching_middleware.go evicts.
use Prim.Native.String.{String}
use mathlib.Core.List.{Memᴰ, Permᴰ}
use mathlib.Core.List.Permᴰ.{cons, nil, swap, trans}
use mathlib.Core.List.Permᴰ
use llm_go_sdk.Base.{
  All, Bool-cases, List, Option, [], ap, arith, false, inl, inr, length, le→leb, list_cases, none,
  refl, some, subst, suc, sym, true, true≢false, ℕ, ◌<◌, ◌∙◌, ◌∷◌, ◌≡◌, ◌≤◌,
}
use llm_go_sdk.Base.Table.{erase}
use llm_go_sdk.Cache.{MemoryCacheEntry, evict_loop, is_preferred, victim_from}
use llm_go_sdk.Cache.Bounds.{victim_from-All}

preferred_trans :
    (a b v : Option ℕ)
    → is_preferred a b ≡ true
    → is_preferred a v ≡ false
    → is_preferred b v ≡ false
preferred_trans none b v h k = absurd (true≢false (sym h))
preferred_trans (some a) none v h k = refl
preferred_trans (some a) (some b) none h k = k
preferred_trans (some a) (some b) (some v) h k = ground arith

preferred_not :
    (a b v : Option ℕ)
    → is_preferred a b ≡ false
    → is_preferred b v ≡ false
    → is_preferred a v ≡ false
preferred_not none b v h k = refl
preferred_not (some a) none v h k = absurd (true≢false h)
preferred_not (some a) (some b) none h k = k
preferred_not (some a) (some b) (some v) h k = ground arith

preferred_self : (a : Option ℕ) → is_preferred a a ≡ false
preferred_self none = refl
preferred_self (some a) = ground arith

-- The first expiry is not later than the second one; an entry without one never expires.
abbrev pub ExpiresNoLater : Option ℕ → Option ℕ → Type 0
ExpiresNoLater a none = Unit {0}
ExpiresNoLater none (some u) = ⊥
ExpiresNoLater (some t) (some u) = t ≤ u

not_preferred : (e v : Option ℕ) → is_preferred e v ≡ false → ExpiresNoLater v e
not_preferred none v h = tt
not_preferred (some e) none h = absurd (true≢false h)
not_preferred (some e) (some v) h = ground arith

-- No entry expires sooner than this one.
abbrev pub IsFirst : {R : Type 0} → MemoryCacheEntry R → List (String × MemoryCacheEntry R) → Type 0
IsFirst v es = All (λ e. ExpiresNoLater v.expires e.1.expires) es

IsFirstFrom :
    {R : Type 0}
    → (v best : String × MemoryCacheEntry R) → List (String × MemoryCacheEntry R)
    → Type 0
IsFirstFrom v best es = (is_preferred best.1.expires v.1.expires ≡ false) × IsFirst v.1 es

victim_from-IsFirst :
    {R : Type 0} (best : String × MemoryCacheEntry R) (es : List (String × MemoryCacheEntry R))
    → IsFirstFrom (victim_from best es) best es
unfolding IsFirstFrom
victim_from-IsFirst best [] = (preferred_self best.1.expires, tt)
victim_from-IsFirst best (e ∷ es) = elim (Bool-cases (is_preferred e.1.expires best.1.expires)) [
  | inl y ↦
      (let h = victim_from-IsFirst e es in
        let v = victim_from e es in
        let le = not_preferred e.1.expires v.1.expires h.0 in
        let same : victim_from best (e ∷ es) ≡ v = rw (victim_from, y) refl in
        subst (λ x. IsFirstFrom x best (e ∷ es)) (sym same)
          (preferred_trans e.1.expires best.1.expires v.1.expires y h.0, (le, h.1)))
  | inr n ↦
      (let h = victim_from-IsFirst best es in
        let v = victim_from best es in
        let same : victim_from best (e ∷ es) ≡ v = rw (victim_from, n) refl in
        subst (λ x. IsFirstFrom x best (e ∷ es)) (sym same)
          (
            h.0,
            (
              not_preferred e.1.expires v.1.expires
                  (preferred_not e.1.expires best.1.expires v.1.expires n h.0),
              h.1,
            ),
          ))
]

pub victim-IsFirst :
    {R : Type 0} (x : String × MemoryCacheEntry R) (xs : List (String × MemoryCacheEntry R))
    → IsFirst (victim_from x xs).1 (x ∷ xs)
unfolding IsFirstFrom
victim-IsFirst x xs =
    let h = victim_from-IsFirst x xs in
    (not_preferred x.1.expires (victim_from x xs).1.expires h.0, h.1)

-- A runtime visits every entry of a map once, in any order.
abbrev pub VisitsOnce :
    {R : Type 0}
    → (List (String × MemoryCacheEntry R) → List (String × MemoryCacheEntry R))
    → Type 0
VisitsOnce {R} order = (es : List (String × MemoryCacheEntry R)) → Permᴰ es (order es)

module _ {A : Type 0} where
  Perm-All : {xs ys : List A} (P : A → Type 0) → Permᴰ xs ys → All P xs → All P ys
  Perm-All P nil h = h
  Perm-All P (cons e d) h = (subst P e h.0, Perm-All P d h.1)
  Perm-All P (swap e f) h = (subst P f h.1.0, (subst P e h.0, h.1.1))
  Perm-All P (trans d e) h = Perm-All P e (Perm-All P d h)

  Perm-length : {xs ys : List A} → Permᴰ xs ys → length xs ≡ length ys
  Perm-length nil = refl
  Perm-length (cons e d) = ap suc (Perm-length d)
  Perm-length (swap e f) = refl
  Perm-length (trans d e) = Perm-length d ∙ Perm-length e

  All-Mem : (P : A → Type 0) (xs : List A) → ((a : A) → Memᴰ a xs → P a) → All P xs
  All-Mem P [] h = tt
  All-Mem P (a ∷ xs) h = (h a (Memᴰ.head refl), All-Mem P xs (λ b m. h b (Memᴰ.tail m)))

-- A full cache evicts one of its entries, and none of its entries expires sooner than the evicted
-- one: one that never expires goes only where all entries never expire. The runtime visits every
-- entry once, in any order.
pub evict_loop-IsFirst :
    {R : Type 0} (order : List (String × MemoryCacheEntry R) → List (String × MemoryCacheEntry R))
    (fuel bound : ℕ) (es : List (String × MemoryCacheEntry R))
    → VisitsOnce order
    → 0 < length es
    → bound ≤ length es
    → (v : String × MemoryCacheEntry R) × Memᴰ v es
      × IsFirst v.1 es
      × (evict_loop order (suc fuel) bound es ≡ evict_loop order fuel bound (erase v.0 es))
unfolding evict_loop
evict_loop-IsFirst order fuel bound es once p m =
    let full = le→leb bound (length es) m in
    let members = Perm-All (λ v. Memᴰ v es) (once es) (All-Mem (λ v. Memᴰ v es) es (λ v k. k)) in
    elim (list_cases (order es)) [
      | inl n ↦ (let a = Perm-length (once es) in let b = ap length n in absurd (omega arith))
      | inr (x, xs, n) ↦
          (let v = victim_from x xs in
            let k = subst (All (λ u. Memᴰ u es)) n members in
            let back = Permᴰ.symm (subst (Permᴰ es) n (once es)) in
            (
              v,
              victim_from-All (λ u. Memᴰ u es) x xs k.0 k.1,
              Perm-All (λ e. ExpiresNoLater v.1.expires e.1.expires) back (victim-IsFirst x xs),
              rw (full, n) refl,
            ))
    ]
