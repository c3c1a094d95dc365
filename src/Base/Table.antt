-- ===== src/Base/Table.antt =====
-- A map with string keys, as the list of its entries: each key once, a new one at the end.
use Prim.Native.String.{String}
use text.Mathlib.Text.{◌==◌ as str_eq}
use text.Mathlib.TextEquality.{eq_iff}
use mathlib.Core.Option
use llm_go_sdk.Base.{
  Bool, Bool-cases, List, Option, [], ap, arith, false, if◌then◌else◌, inl, inr, length, none, refl,
  some, subst, suc, sym, true, true≢false, ◌++◌, ◌<◌, ◌||◌, ◌∙◌, ◌∷◌, ◌≡◌, ◌≤◌,
}

-- The test of two texts, on equal and on different texts.
pub str_eq_refl : (s : String) → str_eq s s ≡ true
str_eq_refl s = (eq_iff s s).1 refl

pub str_eq_sym : (s t : String) → str_eq s t ≡ str_eq t s
str_eq_sym s t = elim (Bool-cases (str_eq s t)) [
  | inl y ↦ let e : s ≡ t = (eq_iff s t).0 y in rw e refl
  | inr n ↦ elim (Bool-cases (str_eq t s)) [
    | inl y ↦
        let e : s ≡ t = sym ((eq_iff t s).0 y) in absurd (true≢false (sym ((eq_iff s t).1 e) ∙ n))
    | inr m ↦ n ∙ sym m
  ]
]

module _ {ℓ} {A : Type ℓ} where
  abbrev pub lookup : String → List (String × A) → Option A
  lookup k [] = none
  lookup k (e ∷ t) = if str_eq k e.0 then some e.1 else lookup k t

  abbrev pub insert : String → A → List (String × A) → List (String × A)
  insert k v [] = (k, v) ∷ []
  insert k v (e ∷ t) = let rest = insert k v t in if str_eq k e.0 then (k, v) ∷ t else e ∷ rest

  abbrev pub erase : String → List (String × A) → List (String × A)
  erase k [] = []
  erase k (e ∷ t) = if str_eq k e.0 then erase k t else e ∷ erase k t

  abbrev pub keys : List (String × A) → List String
  keys [] = []
  keys (e ∷ t) = e.0 ∷ keys t

  abbrev pub has_key : String → List (String × A) → Bool
  has_key k [] = false
  has_key k (e ∷ t) = str_eq k e.0 || has_key k t

  pub has_key-lookup :
      (k : String) (t : List (String × A)) (v : A) → lookup k t ≡ some v → has_key k t ≡ true
  has_key-lookup k [] v h = absurd (Option.none-ne-some v h)
  has_key-lookup k (e ∷ t) v h = elim (Bool-cases (str_eq k e.0)) [
    | inl y ↦ rw y refl
    | inr n ↦ rw n (has_key-lookup k t v (rw n at h))
  ]

  pub has_key-none : (k : String) (t : List (String × A)) → lookup k t ≡ none → has_key k t ≡ false
  has_key-none k [] h = refl
  has_key-none k (e ∷ t) h = elim (Bool-cases (str_eq k e.0)) [
    | inl y ↦ absurd (Option.none-ne-some e.1 (sym (rw y at h)))
    | inr n ↦ rw n (has_key-none k t (rw n at h))
  ]

  pub lookup-insert :
      (k : String) (v : A) (t : List (String × A)) → lookup k (insert k v t) ≡ some v
  lookup-insert k v [] = rw (str_eq_refl k) refl
  lookup-insert k v (e ∷ t) = elim (Bool-cases (str_eq k e.0)) [
    | inl y ↦ rw (y, str_eq_refl k) refl
    | inr n ↦ rw n (rw n (lookup-insert k v t))
  ]

  pub lookup-insert_other :
      (j k : String) (v : A) (t : List (String × A))
      → str_eq j k ≡ false
      → lookup j (insert k v t) ≡ lookup j t
  lookup-insert_other j k v [] h = rw h refl
  lookup-insert_other j k v (e ∷ t) h = elim (Bool-cases (str_eq k e.0)) [
    | inl y ↦
        let q : k ≡ e.0 = (eq_iff k e.0).0 y in
        let h' : str_eq j e.0 ≡ false = subst (λ x. str_eq j x ≡ false) q h in rw (y, h, h') refl
    | inr n ↦ rw (n, lookup-insert_other j k v t h) refl
  ]

  pub keys-insert :
      (k : String) (v : A) (t : List (String × A))
      → keys (insert k v t) ≡ (if has_key k t then keys t else keys t ++ (k ∷ []))
  keys-insert k v [] = refl
  keys-insert k v (e ∷ t) = elim (Bool-cases (str_eq k e.0)) [
    | inl y ↦ let q : k ≡ e.0 = (eq_iff k e.0).0 y in rw y (ap (λ x. x ∷ keys t) q)
    | inr n ↦
        rw (n, keys-insert k v t)
          (elim (Bool-cases (has_key k t)) [ inl y ↦ rw y refl | inr m ↦ rw m refl ])
  ]

  pub length-erase : (k : String) (t : List (String × A)) → length (erase k t) ≤ length t
  length-erase k [] = omega arith
  length-erase k (e ∷ t) = elim (Bool-cases (str_eq k e.0)) [
    | inl y ↦ rw y (omega (arith, length-erase k t))
    | inr n ↦ rw n (omega (arith, length-erase k t))
  ]

  pub length-erase_found :
      (k : String) (t : List (String × A)) → has_key k t ≡ true → length (erase k t) < length t
  length-erase_found k [] h = absurd (true≢false (sym h))
  length-erase_found k (e ∷ t) h = elim (Bool-cases (str_eq k e.0)) [
    | inl y ↦ rw y (omega (arith, length-erase k t))
    | inr n ↦ rw n (omega (arith, length-erase_found k t (rw n at h)))
  ]

  pub length-insert :
      (k : String) (v : A) (t : List (String × A))
      → length (insert k v t) ≡ (if has_key k t then length t else suc (length t))
  length-insert k v [] = refl
  length-insert k v (e ∷ t) = elim (Bool-cases (str_eq k e.0)) [
    | inl y ↦ rw y refl
    | inr n ↦
        rw (n, length-insert k v t)
          (elim (Bool-cases (has_key k t)) [ inl y ↦ rw y refl | inr m ↦ rw m refl ])
  ]
