-- ===== src/Batch/Process/Totals.antt =====
-- Sums over the results of `ProcessBatch` in batch.go, and lists of different ids.
use Prim.Native.String.{String}
use text.Mathlib.Text.{◌==◌ as str_eq}
use llm_go_sdk.Base.{
  List, Option-cases, [], ap, arith, false, inl, inr, none, refl, some, sym, ℕ, ◌++◌, ◌+◌, ◌||◌,
  ◌∙◌, ◌∷◌, ◌≡◌,
}
use llm_go_sdk.Base.Table.{has_key, insert, str_eq_sym}
use llm_go_sdk.Tool.{}
use llm_go_sdk.Tool.Registry.Registered.{IsUnique, is_listed}
use llm_go_sdk.Batch.{BatchResult, Usage}
use llm_go_sdk.Batch.Builder.{}
use llm_go_sdk.Batch.Process.{}

-- The sum of a figure over the results that hold a response, and their number.
abbrev pub sum_of : {A : Type 0} → (Usage A → ℕ) → List (String × BatchResult A) → ℕ
sum_of f [] = 0
sum_of f (r ∷ rs) = elim r.1.response [ none ↦ sum_of f rs | some x ↦ f x.usage + sum_of f rs ]

pub insert-new :
    {A : Type 0} (k : String) (v : A) (t : List (String × A))
    → has_key k t ≡ false
    → insert k v t ≡ t ++ ((k, v) ∷ [])
insert-new k v [] h = refl
insert-new k v (e ∷ t) h =
    let n : str_eq k e.0 ≡ false = ground arith in
    rw n (ap (◌∷◌ e) (insert-new k v t (ground arith)))

pub sum_of-append_one :
    {A : Type 0} (f : Usage A → ℕ) (rs : List (String × BatchResult A)) (r : String × BatchResult A)
    → sum_of f (rs ++ (r ∷ [])) ≡ sum_of f rs + sum_of f (r ∷ [])
sum_of-append_one f [] r = omega arith
sum_of-append_one f (x ∷ xs) r = elim (Option-cases x.1.response) [
  | inl n ↦ rw n (sum_of-append_one f xs r)
  | inr (y, n) ↦ rw n (let h = sum_of-append_one f xs r in omega arith)
]

-- A name is listed once, wherever it stands.
is_listed-insert :
    (k j : String) (xs ys : List String)
    → is_listed k (xs ++ (j ∷ ys)) ≡ str_eq k j || is_listed k (xs ++ ys)
is_listed-insert k j [] ys = refl
is_listed-insert k j (x ∷ xs) ys = rw (is_listed-insert k j xs ys) (ground arith)

pub IsUnique-remove :
    (xs : List String) (k : String) (ys : List String)
    → IsUnique (xs ++ (k ∷ ys))
    → (is_listed k (xs ++ ys) ≡ false) × IsUnique (xs ++ ys)
IsUnique-remove [] k ys u = u
IsUnique-remove (x ∷ xs) k ys u =
    let r = IsUnique-remove xs k ys u.1 in
    let a : str_eq x k || is_listed x (xs ++ ys) ≡ false = sym (is_listed-insert x k xs ys) ∙ u.0 in
    let d : str_eq k x ≡ false = str_eq_sym k x ∙ ground arith in
    let b = r.0 in (rw (d, b) refl, (ground arith, r.1))

pub IsUnique-insert :
    (xs : List String) (k : String) (ys : List String)
    → is_listed k (xs ++ ys) ≡ false
    → IsUnique (xs ++ ys)
    → IsUnique (xs ++ (k ∷ ys))
IsUnique-insert [] k ys n u = (n, u)
IsUnique-insert (x ∷ xs) k ys n u =
    let d : str_eq x k ≡ false = str_eq_sym x k ∙ ground arith in
    let a = u.0 in
    (is_listed-insert x k xs ys ∙ rw (d, a) refl, IsUnique-insert xs k ys (ground arith) u.1)
