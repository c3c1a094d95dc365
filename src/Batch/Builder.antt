-- ===== src/Batch/Builder.antt =====
-- The ids of the requests of `BatchBuilder` in batch.go.
use Prim.Native.String.{String}
use text.Mathlib.Text.{◌==◌ as str_eq}
use text.Mathlib.TextEquality.{eq_iff}
use mathlib.Core.Option
use llm_go_sdk.Base.{
  All, Bool, Bool-cases, List, Option-cases, [], ap, arith, false, inl, inr, map, none, refl, subst,
  sym, true, ◌++◌, ◌||◌, ◌↔◌, ◌∙◌, ◌∷◌, ◌≡◌,
}
use llm_go_sdk.Base.Table.{has_key, insert, str_eq_sym}
use llm_go_sdk.Message.{}
use llm_go_sdk.Tool.Registry.Registered.{IsUnique, IsUnique-append, is_listed}
use llm_go_sdk.Tool.Calls.Results.{All-append}
use llm_go_sdk.Batch.{
  BatchBuilder, BatchRequest, add_request, duplicate_id, first_duplicate, has_id, is_empty,
  new_batch_builder, validate_batch_request_ids,
}

abbrev pub ids : {C : Type 0} → List (BatchRequest C) → List String
ids rs = map (λ r. r.id) rs

abbrev Fresh : List (String × Bool) → List String → Type 0
Fresh seen ks = All (λ k. has_key k seen ≡ false) ks

has_key-insert :
    (k j : String) (t : List (String × Bool))
    → has_key k (insert j true t) ≡ str_eq k j || has_key k t
has_key-insert k j [] = refl
has_key-insert k j (e ∷ t) = elim (Bool-cases (str_eq j e.0)) [
  | inl y ↦ (let q : j ≡ e.0 = (eq_iff j e.0).0 y in rw (y, q) (ground arith))
  | inr n ↦ rw (n, has_key-insert k j t) (ground arith)
]

Fresh-insert :
    (seen : List (String × Bool)) (k : String) (ks : List String)
    → is_listed k ks ≡ false
    → Fresh seen ks
    → Fresh (insert k true seen) ks
Fresh-insert seen k [] n f = tt
Fresh-insert seen k (j ∷ js) n f =
    let d : str_eq j k ≡ false = str_eq_sym j k ∙ ground arith in
    (has_key-insert j k seen ∙ rw (d, f.0) refl, Fresh-insert seen k js (ground arith) f.1)

first_duplicate-none :
    {C : Type 0} (seen : List (String × Bool)) (rs : List (BatchRequest C))
    → IsUnique (ids rs)
    → Fresh seen (ids rs)
    → first_duplicate seen rs ≡ none
unfolding first_duplicate
first_duplicate-none seen [] u f = refl
first_duplicate-none seen (r ∷ rs) u f =
    rw (f.0) (
      first_duplicate-none (insert r.id true seen) rs u.1 (Fresh-insert seen r.id (ids rs) u.0 f.1))

Fresh-nil : (ks : List String) → Fresh [] ks
Fresh-nil [] = tt
Fresh-nil (k ∷ ks) = (refl, Fresh-nil ks)

-- What the builder holds: different ids, none of them empty, and some message for each.
abbrev pub IsBuilt : {C : Type 0} → BatchBuilder C → Type 0
IsBuilt b =
    IsUnique (ids b.requests)
    × All (λ r. (str_eq r.id "" ≡ false) × (is_empty r.messages ≡ false)) b.requests

has_id-is_listed :
    {C : Type 0} (k : String) (rs : List (BatchRequest C)) → has_id k rs ≡ is_listed k (ids rs)
has_id-is_listed k [] = refl
has_id-is_listed k (r ∷ rs) = rw (str_eq_sym r.id k, has_id-is_listed k rs) refl

pub ids-append_one :
    {C : Type 0} (rs : List (BatchRequest C)) (r : BatchRequest C)
    → ids (rs ++ (r ∷ [])) ≡ ids rs ++ (r.id ∷ [])
ids-append_one [] r = refl
ids-append_one (x ∷ xs) r = ap (◌∷◌ x.id) (ids-append_one xs r)

add_request-IsBuilt :
    {C : Type 0} (r : BatchRequest C) (b : BatchBuilder C) → IsBuilt b → IsBuilt (add_request r b).1
unfolding add_request
add_request-IsBuilt r b i = elim (Bool-cases (str_eq r.id "")) [
  | inl y ↦ rw (add_request, y) i
  | inr n ↦ elim (Bool-cases (is_empty r.messages)) [
    | inl y ↦ rw (add_request, n, y) i
    | inr m ↦ elim (Bool-cases (has_id r.id b.requests)) [
      | inl y ↦ rw (add_request, n, m, y) i
      | inr d ↦
          (let e = ids-append_one b.requests r in
            rw (add_request, n, m, d)
              (
                subst IsUnique (sym e) (
                    IsUnique-append (ids b.requests) r.id i.0
                      (sym (has_id-is_listed r.id b.requests) ∙ d)),
                All-append _ b.requests r i.1 (n, m),
              ))
    ]
  ]
]

-- The builder after these calls of `Add`, whatever their errors.
abbrev pub add_all : {C : Type 0} → List (BatchRequest C) → BatchBuilder C → BatchBuilder C
add_all [] b = b
add_all (r ∷ rs) b = add_all rs (add_request r b).1

add_all-IsBuilt :
    {C : Type 0} (rs : List (BatchRequest C)) (b : BatchBuilder C)
    → IsBuilt b
    → IsBuilt (add_all rs b)
add_all-IsBuilt [] b i = i
add_all-IsBuilt (r ∷ rs) b i = add_all-IsBuilt rs (add_request r b).1 (add_request-IsBuilt r b i)

-- Whatever is added to a new builder, with or without an error, the ids of its requests pass the
-- validation of `ProcessBatch`, and no request has an empty id or no messages.
pub add_all-valid :
    {C : Type 0} (rs : List (BatchRequest C))
    → (validate_batch_request_ids (add_all rs new_batch_builder).requests ≡ none)
      × All
          (λ r. (str_eq r.id "" ≡ false) × (is_empty r.messages ≡ false))
          (add_all rs new_batch_builder).requests
unfolding validate_batch_request_ids
add_all-valid rs =
    let b = add_all rs new_batch_builder in
    let i = add_all-IsBuilt rs new_batch_builder (tt, tt) in
    let n = first_duplicate-none [] b.requests i.0 (Fresh-nil (ids b.requests)) in
    (rw (validate_batch_request_ids, n) refl, i.1)

Fresh-split :
    (seen : List (String × Bool)) (k : String) (ks : List String)
    → Fresh (insert k true seen) ks
    → (is_listed k ks ≡ false) × Fresh seen ks
Fresh-split seen k [] f = (refl, tt)
Fresh-split seen k (j ∷ js) f =
    let h : str_eq j k || has_key j seen ≡ false = sym (has_key-insert j k seen) ∙ f.0 in
    let r = Fresh-split seen k js f.1 in
    let d : str_eq k j ≡ false = str_eq_sym k j ∙ ground arith in
    let n = r.0 in (rw (d, n) refl, (ground arith, r.1))

first_duplicate-IsUnique :
    {C : Type 0} (seen : List (String × Bool)) (rs : List (BatchRequest C))
    → first_duplicate seen rs ≡ none
    → IsUnique (ids rs) × Fresh seen (ids rs)
unfolding first_duplicate
first_duplicate-IsUnique seen [] h = (tt, tt)
first_duplicate-IsUnique seen (r ∷ rs) h = elim (Bool-cases (has_key r.id seen)) [
  | inl y ↦ absurd (Option.none-ne-some r.id (sym (rw (first_duplicate, y) at h)))
  | inr n ↦
      (let i = first_duplicate-IsUnique (insert r.id true seen) rs (rw (first_duplicate, n) at h) in
        let f = Fresh-split seen r.id (ids rs) i.1 in ((f.0, i.0), (n, f.1)))
]

-- Requests pass the validation of `ProcessBatch` exactly when their ids are different.
pub validate_batch_request_ids-IsUnique :
    {C : Type 0} (rs : List (BatchRequest C))
    → (validate_batch_request_ids rs ≡ none) ↔ IsUnique (ids rs)
unfolding validate_batch_request_ids
validate_batch_request_ids-IsUnique rs = (
  λ h. elim (Option-cases (first_duplicate [] rs)) [
    | inl n ↦ (first_duplicate-IsUnique [] rs n).0
    | inr (id, n) ↦
        absurd
          (Option.none-ne-some (duplicate_id id) (sym (rw (validate_batch_request_ids, n) at h)))
  ],
  λ u.
      let n = first_duplicate-none [] rs u (Fresh-nil (ids rs)) in
      rw (validate_batch_request_ids, n) refl,
)
