-- ===== src/Batch/Process/Places.antt =====
-- Where a request of `ProcessBatch` in batch.go stands: it waits, it runs, or it has its result.
use Prim.Native.String.{String}
use mathlib.Core.List
use llm_go_sdk.Base.{List, [], ap, arith, false, refl, subst, sym, ◌++◌, ◌∙◌, ◌∷◌, ◌≡◌}
use llm_go_sdk.Base.Table.{keys}
use llm_go_sdk.Tool.Registry.Registered.{IsUnique, is_listed}
use llm_go_sdk.Batch.{BatchRequest}
use llm_go_sdk.Batch.Builder.{ids}
use llm_go_sdk.Batch.Process.{}
use llm_go_sdk.Batch.Process.Totals.{IsUnique-insert, IsUnique-remove}

pub keys-append_one :
    {A : Type 0} (t : List (String × A)) (e : String × A)
    → keys (t ++ (e ∷ [])) ≡ keys t ++ (e.0 ∷ [])
keys-append_one [] e = refl
keys-append_one (x ∷ xs) e = ap (◌∷◌ x.0) (keys-append_one xs e)

pub ids-append : {C : Type 0} (xs ys : List (BatchRequest C)) → ids (xs ++ ys) ≡ ids xs ++ ids ys
ids-append [] ys = refl
ids-append (x ∷ xs) ys = ap (◌∷◌ x.id) (ids-append xs ys)

pub listed_left :
    (k : String) (xs ys : List String) → is_listed k (xs ++ ys) ≡ false → is_listed k xs ≡ false
listed_left k [] ys h = refl
listed_left k (x ∷ xs) ys h = let r = listed_left k xs ys (ground arith) in rw r (ground arith)

-- The ids of the results, of the calls that run and of the requests that wait are different.
abbrev pub Places : List String → List String → List String → Type 0
Places done running waiting = IsUnique (done ++ (running ++ waiting))

pub Places-take :
    (done running : List String) (k : String) (waiting : List String)
    → Places done running (k ∷ waiting)
    → Places done (running ++ (k ∷ [])) waiting
Places-take done running k waiting u =
    subst (λ x. IsUnique (done ++ x)) (sym (List.append_assoc running (k ∷ []) waiting)) u

pub Places-skip :
    (done running : List String) (k : String) (waiting : List String)
    → Places done running (k ∷ waiting)
    → Places done running waiting
Places-skip done running k waiting u =
    subst IsUnique (List.append_assoc done running waiting)
      (IsUnique-remove (done ++ running) k waiting
        (subst IsUnique (sym (List.append_assoc done running (k ∷ waiting))) u)).1

pub Places-end :
    (done before after : List String) (k : String) (waiting : List String)
    → Places done (before ++ (k ∷ after)) waiting
    → (is_listed k done ≡ false) × Places (done ++ (k ∷ [])) (before ++ after) waiting
Places-end done before after k waiting u =
    let tail = after ++ waiting in
    let opened : IsUnique ((done ++ before) ++ (k ∷ tail)) =
      subst IsUnique
        (ap (λ x. done ++ x) (List.append_assoc before (k ∷ after) waiting)
          ∙ sym (List.append_assoc done before (k ∷ tail)))
        u in
    let r = IsUnique-remove (done ++ before) k tail opened in
    let e = List.append_assoc done before tail in
    let n : is_listed k (done ++ (before ++ tail)) ≡ false =
      subst (λ x. is_listed k x ≡ false) e r.0 in
    let u' : IsUnique (done ++ (before ++ tail)) = subst IsUnique e r.1 in
    (
      listed_left k done (before ++ tail) n,
      subst IsUnique
          (sym (List.append_assoc done (k ∷ []) (before ++ tail))
            ∙ ap (λ x. (done ++ (k ∷ [])) ++ x) (sym (List.append_assoc before after waiting)))
          (IsUnique-insert done k (before ++ tail) n u'),
    )
