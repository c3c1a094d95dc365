-- ===== src/Tool/Calls/Termination.antt =====
-- The end of `runToolCalls` of runtools.go.
use mathlib.Core.Sum
use mathlib.Core.Option
use llm_go_sdk.Base.{
  Bool-cases, List, Option-cases, ap, arith, false, inl, inr, map, refl, some, suc, sym, true,
  true≢false, zero, ℕ, ◌<◌, ◌∙◌, ◌≡◌, ◌≤◌, ◌⊎◌,
}
use llm_go_sdk.Errors.{Error}
use llm_go_sdk.Message.{Message, ToolCall}
use llm_go_sdk.Tool.{}
use llm_go_sdk.Tool.Calls.{
  CallsState, Reach, Work, cancel, finish, give_up, is_open, later, launch, receive, release, send,
  start, stop, work,
}
use llm_go_sdk.Tool.Calls.Outcome.{Reach-ordered}
use llm_go_sdk.Tool.Calls.Progress.{Reach-works, Work-decreases, steps_left}

module _ (answer : ToolCall → Message) (calls : List ToolCall) (concurrency : ℕ)
    (ended : Error) where
  open-steps_left :
      (s : CallsState) → is_open s ≡ true → 0 < steps_left answer calls concurrency ended s
  unfolding steps_left
  open-steps_left s o = rw o (omega arith)

  -- `t` is reached from `s` by steps of the calls and of `runToolCalls`, without an end of the context
  -- among them.
  pub data Works : CallsState → CallsState → Type 0 where
    no_more : {s : CallsState} → Works s s
    one_more :
        {s t u : CallsState} → Work answer calls concurrency ended s t → Works t u → Works s u

  Works-Reach :
      {s t : CallsState}
      → Works s t
      → Reach answer calls concurrency ended s
      → Reach answer calls concurrency ended t
  Works-Reach no_more r = r
  Works-Reach (one_more w ws) r = Works-Reach ws (later r (work w))

  Work-canceled :
      {s t : CallsState} → Work answer calls concurrency ended s t → t.canceled ≡ s.canceled
  Work-canceled (launch o c n k) = refl
  Work-canceled (send before after k tc e g) = refl
  Work-canceled (give_up before after k d e) = refl
  Work-canceled (release c e) = refl
  Work-canceled (receive k m rest o c n l e) = refl
  Work-canceled (finish o n r) = refl
  Work-canceled (stop o c l) = refl

  Works-canceled : {s t : CallsState} → Works s t → t.canceled ≡ s.canceled
  Works-canceled no_more = refl
  Works-canceled (one_more w ws) = Works-canceled ws ∙ Work-canceled w

  returns_within :
      (n : ℕ) (s : CallsState)
      → Reach answer calls concurrency ended s
      → 0 < concurrency
      → steps_left answer calls concurrency ended s ≤ n
      → (t : CallsState) × Works s t × (is_open t ≡ false)
  returns_within zero s r p h = elim (Bool-cases (is_open s)) [
    | inr o ↦ (s, no_more, o)
    | inl o ↦ (let a = open-steps_left s o in absurd (omega arith))
  ]
  returns_within (suc n) s r p h = elim (Bool-cases (is_open s)) [
    | inr o ↦ (s, no_more, o)
    | inl o ↦
        (let (t, w) = Reach-works answer calls concurrency ended s r o p in
          let b = Work-decreases answer calls concurrency ended w in
          let (u, ws, c) = returns_within n t (later r (work w)) p (omega arith) in
          (u, one_more w ws, c))
  ]

  -- The error that was returned is the one of the context, which has ended.
  Ended : CallsState → Type 0
  Ended s = (e : Error) → s.outcome ≡ some (inl e) → (e ≡ ended) × (s.canceled ≡ true)

  Work-Ended : {s t : CallsState} → Work answer calls concurrency ended s t → Ended s → Ended t
  unfolding Ended
  Work-Ended (launch o c n k) h = h
  Work-Ended (send before after k tc e g) h = h
  Work-Ended (give_up before after k d e) h = h
  Work-Ended (release c e) h = h
  Work-Ended (receive k m rest o c n l e) h = h
  Work-Ended (finish o n r) h = λ e q. absurd (Sum.inr-ne-inl (Option.some_inj.0 q))
  Work-Ended (stop o c l) h = λ e q. (sym (Sum.inl-injective ended e (Option.some_inj.0 q)), c)

  Reach-Ended : {s : CallsState} → Reach answer calls concurrency ended s → Ended s
  unfolding Ended
  Reach-Ended start = λ e q. absurd (Option.none-ne-some (inl e) q)
  Reach-Ended (later r (work w)) = Work-Ended w (Reach-Ended r)
  Reach-Ended (later r cancel) = λ e q. ((Reach-Ended r e q).0, refl)

  closed_cases :
      (t : CallsState)
      → Reach answer calls concurrency ended t
      → is_open t ≡ false
      → ((t.canceled ≡ true) × (t.outcome ≡ some (inl ended)))
        ⊎ (t.outcome ≡ some (inr (map answer calls)))
  unfolding Ended
  closed_cases t r o = elim (Option-cases t.outcome) [
    | inl n ↦ (let y : is_open t ≡ true = rw n refl in absurd (true≢false (sym y ∙ o)))
    | inr (inl e, n) ↦ (let h = Reach-Ended r e n in inl (h.1, n ∙ ap (λ x. some (inl x)) h.0))
    | inr (inr ms, n) ↦
        inr (n ∙ ap (λ x. some (inr x)) (Reach-ordered answer calls concurrency ended t ms r n))
  ]

  -- Every state that can be reached, whatever the order of the steps so far and whether or not the
  -- context has ended, is not stuck where the concurrency is positive: steps of the calls alone lead
  -- on from it to a return, with the error of the context only if the context had ended in that
  -- state, and otherwise with the answers to all the calls in the order of the calls.
  pub Reach-returns :
      (s : CallsState)
      → Reach answer calls concurrency ended s
      → 0 < concurrency
      → (t : CallsState) × Works s t
        × (((s.canceled ≡ true) × (t.outcome ≡ some (inl ended)))
            ⊎ (t.outcome ≡ some (inr (map answer calls))))
  Reach-returns s r p =
      let n = steps_left answer calls concurrency ended s in
      let (t, ws, o) = returns_within n s r p (omega arith) in
      (
        t,
        ws,
        elim (closed_cases t (Works-Reach ws r) o) [
          | inl (c, e) ↦ inl (sym (Works-canceled ws) ∙ c, e)
          | inr e ↦ inr e
        ],
      )
