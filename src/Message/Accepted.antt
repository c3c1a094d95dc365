-- ===== src/Message/Accepted.antt =====
-- The validation of message.go as a test that names no position.
use mathlib.Core.Option
use llm_go_sdk.Base.{
  Bool, Bool-cases, List, Option, [], ap, arith, false, if◌then◌else◌, inl, inr, none, not, refl,
  some, subst, suc, sym, true, ℕ, ◌&&◌, ◌++◌, ◌+◌, ◌↔◌, ◌∙◌, ◌∷◌, ◌≡◌,
}
use llm_go_sdk.Message.{Message, is_system, is_tool}
use llm_go_sdk.Message.Validate.{
  MessageError, collected, errors_from, first_non_system_message, is_at, is_valid_role,
  message_errors, validate_messages,
}
use llm_go_sdk.Message.Merge.{}
use llm_go_sdk.Message.Merge.Settled.{}

abbrev pub is_nil : {A : Type 0} → List A → Bool
is_nil [] = true
is_nil (x ∷ xs) = false

is_nil-append : {A : Type 0} (xs ys : List A) → is_nil (xs ++ ys) ≡ is_nil xs && is_nil ys
is_nil-append [] ys = refl
is_nil-append (x ∷ xs) ys = refl

-- Every role is known.
abbrev pub all_valid : List Message → Bool
all_valid [] = true
all_valid (m ∷ ms) = is_valid_role m.role && all_valid ms

-- The first message that is no system prompt is no tool result.
abbrev pub starts_well : List Message → Bool
starts_well [] = true
starts_well (m ∷ ms) = if is_system m then starts_well ms else not (is_tool m)

message_errors_at :
    (first : Option ℕ) (i : ℕ) (m : Message)
    → is_nil (message_errors first i m) ≡ is_valid_role m.role && not (is_tool m && is_at i first)
unfolding message_errors
message_errors_at first i m = ground arith

-- A position counted from the front of a list, seen from the front of a longer one.
abbrev shifted : ℕ → Option ℕ → Option ℕ
shifted i none = none
shifted i (some j) = some (i + j)

shifted_zero : (o : Option ℕ) → shifted 0 o ≡ o
shifted_zero none = refl
shifted_zero (some j) = ap some (omega arith)

errors_from_past :
    (first : Option ℕ) (i : ℕ) (ms : List Message)
    → ((k : ℕ) → is_at (i + k) first ≡ false)
    → is_nil (errors_from first i ms) ≡ all_valid ms
unfolding errors_from
errors_from_past first i [] h = refl
errors_from_past first i (m ∷ ms) h =
    let next : (k : ℕ) → is_at (i + 1 + k) first ≡ false =
      λ k. subst (λ j. is_at j first ≡ false) (omega arith) (h (suc k)) in
    let here : is_at i first ≡ false = subst (λ j. is_at j first ≡ false) (omega arith) (h 0) in
    let there = errors_from_past first (i + 1) ms next in
    rw
      (
        is_nil-append (message_errors first i m) (errors_from first (i + 1) ms),
        message_errors_at first i m,
        here,
        there,
      )
      (ground arith)

shifted-suc : (i : ℕ) (o : Option ℕ) → shifted i (Option.map suc o) ≡ shifted (i + 1) o
shifted-suc i none = refl
shifted-suc i (some j) = ap some (omega arith)

errors_from_step :
    (first : Option ℕ) (i : ℕ) (m : Message) (ms : List Message)
    → is_nil (errors_from first i (m ∷ ms))
      ≡ (is_valid_role m.role && not (is_tool m && is_at i first))
        && is_nil (errors_from first (i + 1) ms)
unfolding errors_from
errors_from_step first i m ms =
    is_nil-append (message_errors first i m) (errors_from first (i + 1) ms)
    ∙ ap (λ b. b && is_nil (errors_from first (i + 1) ms)) (message_errors_at first i m)

first_of_system :
    (i : ℕ) (m : Message) (ms : List Message)
    → is_system m ≡ true
    → shifted i (first_non_system_message (m ∷ ms)) ≡ shifted (i + 1) (first_non_system_message ms)
unfolding first_non_system_message
first_of_system i m ms s = rw s (shifted-suc i (first_non_system_message ms))

first_of_other :
    (i : ℕ) (m : Message) (ms : List Message)
    → is_system m ≡ false
    → shifted i (first_non_system_message (m ∷ ms)) ≡ some (i + 0)
unfolding first_non_system_message
first_of_other i m ms s = rw s refl

errors_from_nil : (first : Option ℕ) (i : ℕ) → is_nil (errors_from first i []) ≡ true
unfolding errors_from
errors_from_nil first i = refl

-- No error is found exactly when every role is known and the conversation starts well.
errors_from_start :
    (i : ℕ) (ms : List Message)
    → is_nil (errors_from (shifted i (first_non_system_message ms)) i ms)
      ≡ all_valid ms && starts_well ms
errors_from_start i [] = errors_from_nil (shifted i (first_non_system_message [])) i
errors_from_start i (m ∷ ms) = elim (Bool-cases (is_system m)) [
  | inl s ↦
      let first = shifted (i + 1) (first_non_system_message ms) in
      let t : is_tool m ≡ false = ground arith in
      ap (λ f. is_nil (errors_from f i (m ∷ ms))) (first_of_system i m ms s)
      ∙ errors_from_step first i m ms
      ∙ rw (t, s, errors_from_start (i + 1) ms) (ground arith)
  | inr s ↦
      let past = errors_from_past (some (i + 0)) (i + 1) ms (λ k. ground arith) in
      let here : is_at i (some (i + 0)) ≡ true = ground arith in
      ap (λ f. is_nil (errors_from f i (m ∷ ms))) (first_of_other i m ms s)
      ∙ errors_from_step (some (i + 0)) i m ms
      ∙ rw (here, s, past) (ground arith)
]

-- What `validate_messages` accepts.
abbrev pub accepted : List Message → Bool
accepted ms = not (is_nil ms) && (all_valid ms && starts_well ms)

collected_iff : (es : List MessageError) → (collected es ≡ none) ↔ (is_nil es ≡ true)
collected_iff [] = (λ _. refl, λ _. refl)
collected_iff (e ∷ es) = ground arith

pub validate_messages-accepted :
    (ms : List Message) → (validate_messages ms ≡ none) ↔ (accepted ms ≡ true)
unfolding validate_messages
validate_messages-accepted [] = ground arith
validate_messages-accepted (m ∷ ms) =
    let first = first_non_system_message (m ∷ ms) in
    let e : is_nil (errors_from first 0 (m ∷ ms)) ≡ all_valid (m ∷ ms) && starts_well (m ∷ ms) =
      subst (λ f. is_nil (errors_from f 0 (m ∷ ms)) ≡ all_valid (m ∷ ms) && starts_well (m ∷ ms))
        (shifted_zero first) (errors_from_start 0 (m ∷ ms)) in
    let c = collected_iff (errors_from first 0 (m ∷ ms)) in (λ h. sym e ∙ c.0 h, λ h. c.1 (e ∙ h))
