-- ===== src/Retry/Rule.antt =====
-- The rule for the retry loop: an invariant of its rounds, and what its results owe to it.
use llm_go_sdk.Base.{
  Bool, Bool-cases, Option-cases, [], false, inl, inr, none, some, suc, true, zero, ℕ, ◌++◌, ◌+◌,
  ◌==◌, ◌∷◌, ◌≡◌, ◌⊎◌,
}
use llm_go_sdk.Errors.{Error}
use llm_go_sdk.Breaker.{Permit, acquire, record_success_permit, release_permit}
use llm_go_sdk.Retry.{
  Attempt, Execution, LoopState, Next, RetryConfig, after_failure, after_wait, again, attempt,
  attempt_loop, called, finished, refusal, retryable, settle,
}

-- `I` of the variables if the loop goes on, and `Q` of the result if it ends.
abbrev pub Holds : (LoopState → Type 0) → (Execution → Type 0) → Next → Type 0
Holds I Q (finished x) = Q x
Holds I Q (again st) = I st

-- The three ends of the call in a round.
pub attempt_cases {ℓ} :
    (P : Next → Type ℓ) (cfg : RetryConfig) (last : Bool) (number : ℕ) (w : Attempt)
    (st : LoopState)
    → ((acquire w.asked_at st.breaker).1 ≡ none
        → P (
            finished (record {
              breaker = (acquire w.asked_at st.breaker).0;
              result = some (refusal st.last_err);
              actions = st.actions;
            })))
    → ((p : Permit)
        → (acquire w.asked_at st.breaker).1 ≡ some p
        → w.outcome ≡ none
        → P (
            finished (record {
              breaker = record_success_permit w.returned_at p (acquire w.asked_at st.breaker).0;
              result = none;
              actions = st.actions ++ (called ∷ []);
            })))
    → ((p : Permit) (e : Error)
        → (acquire w.asked_at st.breaker).1 ≡ some p
        → w.outcome ≡ some e
        → P (
            after_failure cfg last number w p e (record st {
              breaker = (acquire w.asked_at st.breaker).0;
              actions = st.actions ++ (called ∷ []);
            })))
    → P (attempt cfg last number w st)
unfolding attempt
attempt_cases P cfg last number w st refused succeeded failed =
    elim (Option-cases (acquire w.asked_at st.breaker).1) [
      | inl e ↦ rw (e, attempt) (refused e)
      | inr (p, e) ↦ elim (Option-cases w.outcome) [
        | inl o ↦ rw (e, o, attempt) (succeeded p e o)
        | inr (x, o) ↦ rw (e, o, attempt) (failed p x e o)
      ]
    ]

-- The three ends of a failed call: it settles, the context ends the wait, or the loop goes on.
pub failure_cases {ℓ} :
    (P : Next → Type ℓ) (cfg : RetryConfig) (last : Bool) (number : ℕ) (w : Attempt) (p : Permit)
    (e : Error) (st : LoopState)
    → ((last ≡ true) ⊎ (retryable cfg e ≡ false)
        → P (
            finished (record {
              breaker = settle w.returned_at p e st.breaker;
              result = some e;
              actions = st.actions;
            })))
    → (last ≡ false
        → retryable cfg e ≡ true
        → P (after_wait cfg number w e (record st { breaker = release_permit p st.breaker })))
    → P (after_failure cfg last number w p e st)
unfolding after_failure
failure_cases P cfg last number w p e st settled waits = elim (Bool-cases (retryable cfg e)) [
  | inl r ↦ elim (Bool-cases last) [
    | inl l ↦ rw (r, l) (settled (inl l))
    | inr l ↦ rw (r, l) (waits l r)
  ]
  | inr r ↦ rw r (settled (inr r))
]

pub Holds-map :
    (I J : LoopState → Type 0) (Q R : Execution → Type 0) (n : Next)
    → ((st : LoopState) → I st → J st)
    → ((x : Execution) → Q x → R x)
    → Holds I Q n
    → Holds J R n
Holds-map I J Q R (finished x) f g h = g x h
Holds-map I J Q R (again st) f g h = f st h

next_rule :
    (I : LoopState → Type 0) (Q : Execution → Type 0) (n : Next) (rest : LoopState → Execution)
    → Holds I Q n
    → ((st : LoopState) → I st → Q (rest st))
    → Q (elim n [ finished x ↦ x | again st ↦ rest st ])
next_rule I Q (finished x) rest h k = h
next_rule I Q (again st) rest h k = k st h

module _ (cfg : RetryConfig) (world : ℕ → Attempt) (I : ℕ → LoopState → Type 0)
    (Q : Execution → Type 0) where
  pub loop_rule :
      ((st : LoopState)
        → I 0 st
        → Q (record { breaker = st.breaker; result = st.last_err; actions = st.actions }))
      → ((left i : ℕ) (st : LoopState)
          → I (suc left) st
          → Holds (I left) Q (attempt cfg (left == 0) (i + 1) (world i) st))
      → (left i : ℕ) (st : LoopState) → I left st
      → Q (attempt_loop cfg world left i st)
  unfolding attempt_loop
  loop_rule done round zero i st h = done st h
  loop_rule done round (suc left) i st h =
      next_rule (I left) Q (attempt cfg (left == 0) (i + 1) (world i) st)
        (attempt_loop cfg world left (i + 1)) (round left i st h)
        (loop_rule done round left (i + 1))
