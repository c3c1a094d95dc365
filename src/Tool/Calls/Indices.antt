-- ===== src/Tool/Calls/Indices.antt =====
-- Lists read and written at an index, and the indices that a list holds.
use mathlib.Core.Option
use llm_go_sdk.Base.{
  All, Bool, List, [], ap, arith, false, get_elem?, if◌then◌else◌, length, length-append, ltb, map,
  none, refl, replicate, some, suc, sym, zero, ℕ, ◌&&◌, ◌++◌, ◌<◌, ◌==◌, ◌||◌, ◌∙◌, ◌∷◌, ◌≡◌, ◌≤◌,
}
use llm_go_sdk.Errors.{}
use llm_go_sdk.Message.{Message}
use llm_go_sdk.Tool.{}
use llm_go_sdk.Tool.Calls.{set_at}

abbrev pub mem : ℕ → List ℕ → Bool
mem j [] = false
mem j (x ∷ xs) = j == x || mem j xs

pub mem-insert : (j i : ℕ) (xs ys : List ℕ) → mem j (xs ++ (i ∷ ys)) ≡ (j == i) || mem j (xs ++ ys)
mem-insert j i [] ys = refl
mem-insert j i (x ∷ xs) ys = rw (mem-insert j i xs ys) (ground arith)

pub mem-append_one : (j i : ℕ) (xs : List ℕ) → mem j (xs ++ (i ∷ [])) ≡ mem j xs || (j == i)
mem-append_one j i [] = ground arith
mem-append_one j i (x ∷ xs) = rw (mem-append_one j i xs) (ground arith)

abbrev pub indices : List (ℕ × Message) → List ℕ
indices [] = []
indices (r ∷ rs) = r.0 ∷ indices rs

pub indices-append_one :
    (rs : List (ℕ × Message)) (r : ℕ × Message)
    → indices (rs ++ (r ∷ [])) ≡ indices rs ++ (r.0 ∷ [])
indices-append_one [] r = refl
indices-append_one (x ∷ xs) r = ap (◌∷◌ x.0) (indices-append_one xs r)

pub length-set_at : {A : Type 0} (i : ℕ) (v : A) (xs : List A) → length (set_at i v xs) ≡ length xs
length-set_at i v [] = refl
length-set_at zero v (x ∷ xs) = refl
length-set_at (suc i) v (x ∷ xs) = ap suc (length-set_at i v xs)

pub get_elem-set_at :
    {A : Type 0} (i j : ℕ) (v : A) (xs : List A)
    → get_elem? (set_at i v xs) j ≡ (if j == i && ltb i (length xs) then some v else get_elem? xs j)
get_elem-set_at i j v [] = ground arith
get_elem-set_at zero zero v (x ∷ xs) = ground arith
get_elem-set_at zero (suc j) v (x ∷ xs) = ground arith
get_elem-set_at (suc i) zero v (x ∷ xs) = ground arith
get_elem-set_at (suc i) (suc j) v (x ∷ xs) = get_elem-set_at i j v xs ∙ ground arith

pub get_elem_some :
    {A : Type 0} (xs : List A) (i : ℕ) (x : A) → get_elem? xs i ≡ some x → i < length xs
get_elem_some [] i x h = absurd (Option.none-ne-some x h)
get_elem_some (y ∷ ys) zero x h = omega arith
get_elem_some (y ∷ ys) (suc i) x h = omega (arith, get_elem_some ys i x h)

pub get_elem_ext :
    {A : Type 0} (xs ys : List A) → ((j : ℕ) → get_elem? xs j ≡ get_elem? ys j) → xs ≡ ys
get_elem_ext [] [] h = refl
get_elem_ext [] (y ∷ ys) h = absurd (Option.none-ne-some y (h 0))
get_elem_ext (x ∷ xs) [] h = absurd (Option.none-ne-some x (sym (h 0)))
get_elem_ext (x ∷ xs) (y ∷ ys) h =
    ap (λ z. z ∷ xs) (Option.some_inj.0 (h 0)) ∙ ap (◌∷◌ y) (get_elem_ext xs ys (λ j. h (suc j)))

pub get_elem-none : {A : Type 0} (xs : List A) (j : ℕ) → length xs ≤ j → get_elem? xs j ≡ none
get_elem-none [] j h = refl
get_elem-none (x ∷ xs) zero h = absurd (omega arith)
get_elem-none (x ∷ xs) (suc j) h = get_elem-none xs j (omega arith)

pub length-insert_at :
    {A : Type 0} (xs : List A) (x : A) (ys : List A)
    → length (xs ++ (x ∷ ys)) ≡ suc (length (xs ++ ys))
length-insert_at xs x ys = omega (arith, length-append xs (x ∷ ys), length-append xs ys)

pub get_elem-map :
    {A B : Type 0} (f : A → B) (xs : List A) (i : ℕ) (x : A)
    → get_elem? xs i ≡ some x
    → get_elem? (map f xs) i ≡ some (f x)
get_elem-map f [] i x h = absurd (Option.none-ne-some x h)
get_elem-map f (y ∷ ys) zero x h = ap (Option.map f) h
get_elem-map f (y ∷ ys) (suc i) x h = get_elem-map f ys i x h

pub length-map : {A B : Type 0} (f : A → B) (xs : List A) → length (map f xs) ≡ length xs
length-map f [] = refl
length-map f (x ∷ xs) = ap suc (length-map f xs)

pub length-replicate : {A : Type 0} (n : ℕ) (x : A) → length (replicate n x) ≡ n
length-replicate zero x = refl
length-replicate (suc n) x = ap suc (length-replicate n x)

pub length-indices : (rs : List (ℕ × Message)) → length (indices rs) ≡ length rs
length-indices [] = refl
length-indices (r ∷ rs) = ap suc (length-indices rs)

pub All-remove :
    {A : Type 0} (P : A → Type 0) (xs : List A) (y : A) (zs : List A)
    → All P (xs ++ (y ∷ zs))
    → P y × All P (xs ++ zs)
All-remove P [] y zs h = h
All-remove P (x ∷ xs) y zs h = let r = All-remove P xs y zs h.1 in (r.0, (h.0, r.1))

pub get_elem_found :
    {A : Type 0} (xs : List A) (i : ℕ) → i < length xs → (x : A) × (get_elem? xs i ≡ some x)
get_elem_found [] i h = absurd (omega arith)
get_elem_found (x ∷ xs) zero h = (x, refl)
get_elem_found (x ∷ xs) (suc i) h = get_elem_found xs i (omega arith)
