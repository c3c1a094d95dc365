-- ===== src/Fallback/Ids.antt =====
-- Lists of ids: no two equal, all below a bound; what taking one out or adding one keeps.
use llm_go_sdk.Base.{List, [], arith, refl, subst, suc, sym, zero, ℕ, ◌++◌, ◌+◌, ◌<◌, ◌∷◌, ◌≡◌, ◌≢◌}
use llm_go_sdk.Fallback.{remove_at}

-- No two ids are equal, and all are below the next one.
abbrev pub Absent : ℕ → List ℕ → Type 0
Absent id [] = Unit {0}
Absent id (i ∷ is) = (i ≢ id) × Absent id is

abbrev pub IsNumbered : ℕ → List ℕ → Type 0
IsNumbered n [] = Unit {0}
IsNumbered n (i ∷ is) = (i < n) × Absent i is × IsNumbered n is

remove_at_zero : (i : ℕ) (is : List ℕ) → remove_at 0 (i ∷ is) ≡ is
remove_at_zero i is = refl

remove_at-suc : (k i : ℕ) (is : List ℕ) → remove_at (suc k) (i ∷ is) ≡ i ∷ remove_at k is
remove_at-suc k i is = let e : suc k + 1 ≡ suc (k + 1) = omega arith in rw e

remove_at_nil : (k : ℕ) → remove_at {A = ℕ} k [] ≡ []
remove_at_nil zero = refl
remove_at_nil (suc k) = let e : suc k + 1 ≡ suc (k + 1) = omega arith in rw e

pub Absent-remove_at : (id k : ℕ) (is : List ℕ) → Absent id is → Absent id (remove_at k is)
Absent-remove_at id zero [] h = tt
Absent-remove_at id zero (i ∷ is) h = h.1
Absent-remove_at id (suc k) [] h = subst (Absent id) (sym (remove_at_nil (suc k))) tt
Absent-remove_at id (suc k) (i ∷ is) h =
    subst (Absent id) (sym (remove_at-suc k i is)) (h.0, Absent-remove_at id k is h.1)

pub IsNumbered-remove_at : (n k : ℕ) (is : List ℕ) → IsNumbered n is → IsNumbered n (remove_at k is)
IsNumbered-remove_at n zero [] h = tt
IsNumbered-remove_at n zero (i ∷ is) h = h.2
IsNumbered-remove_at n (suc k) [] h = subst (IsNumbered n) (sym (remove_at_nil (suc k))) tt
IsNumbered-remove_at n (suc k) (i ∷ is) h =
    subst (IsNumbered n) (sym (remove_at-suc k i is))
      (h.0, Absent-remove_at i k is h.1, IsNumbered-remove_at n k is h.2)

pub Absent-snoc : (id j : ℕ) (is : List ℕ) → Absent id is → j ≢ id → Absent id (is ++ (j ∷ []))
Absent-snoc id j [] h ne = (ne, tt)
Absent-snoc id j (i ∷ is) h ne = (h.0, Absent-snoc id j is h.1 ne)

pub IsNumbered-snoc : (n : ℕ) (is : List ℕ) → IsNumbered n is → IsNumbered (n + 1) (is ++ (n ∷ []))
IsNumbered-snoc n [] h = (omega arith, tt, tt)
IsNumbered-snoc n (i ∷ is) h =
    (omega arith, Absent-snoc i n is h.1 (omega arith), IsNumbered-snoc n is h.2)
