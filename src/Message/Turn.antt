-- ===== src/Message/Turn.antt =====
-- turn.go: where the current turn of a chat starts.
use llm_go_sdk.Base.{
  ==_iff, Bool, Bool-cases, List, Option-cases, arith, false, get_elem?, if◌then◌else◌, inl, inr,
  length, none, refl, some, subst, suc, sym, true, zero, ℕ, ◌<◌, ◌==◌, ◌≡◌, ◌≤◌, ◌⊎◌,
}
use llm_go_sdk.Message.{Message, Role, role_assistant, role_tool}

-- A message of the model or of a tool.
abbrev pub is_answer : Role → Bool
is_answer role_assistant = true
is_answer role_tool = true
is_answer _ = false

-- The loop from the index `i` back; it reads no index past the end.
unfoldable pub turn_start_from : List Message → ℕ → ℕ
turn_start_from ms zero = zero
turn_start_from ms (suc i) =
    let rest = turn_start_from ms i in
    elim (get_elem? ms i) [ none ↦ suc i | some m ↦ (if is_answer m.role then rest else suc i) ]

unfoldable pub current_turn_start : List Message → ℕ
unfolding turn_start_from
current_turn_start ms = turn_start_from ms (length ms)

-- The message at an index, if there is one, is an answer; and is none.
abbrev pub answers_at : List Message → ℕ → Bool
answers_at ms j = elim (get_elem? ms j) [ none ↦ false | some m ↦ is_answer m.role ]

-- From `n` to `i` there are only answers, and before `n` there is none.
pub record IsTurnStart (ms : List Message) (i n : ℕ) : Type 0 where
  pub within : n ≤ i
  pub answers : (j : ℕ) → n ≤ j → j < i → answers_at ms j ≡ true
  pub prompt_before : (k : ℕ) → n ≡ suc k → answers_at ms k ≡ false

turn_start_from-cases :
    (ms : List Message) (i : ℕ)
    → ((answers_at ms i ≡ true) × (turn_start_from ms (suc i) ≡ turn_start_from ms i))
      ⊎ ((answers_at ms i ≡ false) × (turn_start_from ms (suc i) ≡ suc i))
unfolding turn_start_from
turn_start_from-cases ms i = elim (Option-cases (get_elem? ms i)) [
  | inl n ↦ inr (rw (answers_at, n) refl, rw (n, turn_start_from) refl)
  | inr (m, n) ↦ elim (Bool-cases (is_answer m.role)) [
    | inl y ↦ inl (rw (answers_at, n) y, rw (n, y, turn_start_from) refl)
    | inr f ↦ inr (rw (answers_at, n) f, rw (n, f, turn_start_from) refl)
  ]
]

turn_start_from-IsTurnStart : (ms : List Message) (i : ℕ) → IsTurnStart ms i (turn_start_from ms i)
unfolding turn_start_from
turn_start_from-IsTurnStart ms zero = record {
  within = omega arith;
  answers = λ j h l. absurd (omega arith);
  prompt_before = λ k h. absurd (omega arith);
}
turn_start_from-IsTurnStart ms (suc i) = elim (turn_start_from-cases ms i) [
  | inl (y, e) ↦
      (let r = turn_start_from-IsTurnStart ms i in
        let w = r.within in
        subst (IsTurnStart ms (suc i)) (sym e) (record {
          within = omega arith;
          answers = λ j h l. elim (Bool-cases (j == i)) [
            | inl q ↦ let p : j ≡ i = (==_iff j i).0 q in rw p y
            | inr q ↦ r.answers j h (ground arith)
          ];
          prompt_before = r.prompt_before;
        }))
  | inr (f, e) ↦ subst (IsTurnStart ms (suc i)) (sym e) (record {
    within = omega arith;
    answers = λ j h l. absurd (omega arith);
    prompt_before = λ k h. let p : i ≡ k = omega arith in subst (λ x. answers_at ms x ≡ false) p f;
  })
]

-- From the start of the current turn on, there are only messages of the model and of tools, and the
-- message before it, if there is one, is neither.
pub current_turn_start-IsTurnStart :
    (ms : List Message) → IsTurnStart ms (length ms) (current_turn_start ms)
unfolding current_turn_start
current_turn_start-IsTurnStart ms = turn_start_from-IsTurnStart ms (length ms)
