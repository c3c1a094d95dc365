-- ===== src/Tool/Calls/Progress.antt =====
-- The steps that `runToolCalls` of runtools.go can still take.
use llm_go_sdk.Base.{
  ==_iff, All, Bool-cases, List, [], ap, arith, false, if◌then◌else◌, inl, inr, length,
  length-append, list_cases, ltb, ltb→lt, min, subst, true, ℕ, ◌*◌, ◌++◌, ◌+◌, ◌-◌, ◌<◌, ◌==◌, ◌∙◌,
  ◌∷◌, ◌≡◌, ◌≤◌,
}
use llm_go_sdk.Errors.{Error}
use llm_go_sdk.Message.{Message, ToolCall}
use llm_go_sdk.Tool.{}
use llm_go_sdk.Tool.Calls.{
  CallsState, Reach, Work, cancel, finish, give_up, is_open, later, launch, receive, release, send,
  start, stop, work,
}
use llm_go_sdk.Tool.Calls.Indices.{All-remove, get_elem_found, length-insert_at}
use llm_go_sdk.Tool.Calls.Results.{IsSound, is_live}
use llm_go_sdk.Tool.Calls.Outcome.{Reach-IsSound}

module _ (answer : ToolCall → Message) (calls : List ToolCall) (concurrency : ℕ)
    (ended : Error) where
  abbrev pub still_open : CallsState → ℕ
  still_open s = if is_open s then 1 else 0

  -- The steps that are left at most.
  unfoldable pub steps_left : CallsState → ℕ
  steps_left s =
      5 * (length calls - s.next)
      + 4 * length s.running
      + s.closing
      + length s.results
      + still_open s

  -- Every step but the end of the context leaves fewer steps, so that from the start there are at
  -- most five for each call, and one.
  pub Work-decreases :
      {s t : CallsState} → Work answer calls concurrency ended s t → steps_left t < steps_left s
  unfolding steps_left
  Work-decreases (launch o c n k) = omega arith
  Work-decreases {s} (send before after k tc e g) =
      let a = ap length e ∙ length-insert_at before k after in
      let b = length-append s.results ((k, answer tc) ∷ []) in omega arith
  Work-decreases (give_up before after k d e) =
      let a = ap length e ∙ length-insert_at before k after in omega arith
  Work-decreases (release c e) = omega arith
  Work-decreases (receive k m rest o c n l e) = let a = ap length e in omega arith
  Work-decreases (finish o n r) = ground arith
  Work-decreases (stop o c l) = ground arith

  -- The counters stay in their order, and only calls run.
  record IsBounded (s : CallsState) : Type 0 where
    started : s.next ≤ length calls
    stored : s.received ≤ s.next
    are_calls : All (λ i. i < length calls) s.running

  IsBounded-remove :
      (s : CallsState) (before after : List ℕ) (k : ℕ)
      → s.running ≡ before ++ (k ∷ after)
      → IsBounded s
      → (k < length calls) × All (λ i. i < length calls) (before ++ after)
  IsBounded-remove s before after k e b =
      All-remove (λ i. i < length calls) before k after
        (subst (All (λ i. i < length calls)) e b.are_calls)

  Work-IsBounded :
      {s t : CallsState}
      → Work answer calls concurrency ended s t
      → IsSound answer calls s
      → IsBounded s
      → IsBounded t
  Work-IsBounded {s} (launch o c n k) i b = record {
    started = omega arith;
    stored = let x = b.stored in omega arith;
    are_calls = (n, b.are_calls);
  }
  Work-IsBounded {s} (send before after k tc e g) i b = record {
    started = b.started;
    stored = b.stored;
    are_calls = (IsBounded-remove s before after k e b).1;
  }
  Work-IsBounded {s} (give_up before after k d e) i b = record {
    started = b.started;
    stored = b.stored;
    are_calls = (IsBounded-remove s before after k e b).1;
  }
  Work-IsBounded {s} (release c e) i b = record {
    started = b.started;
    stored = b.stored;
    are_calls = b.are_calls;
  }
  Work-IsBounded {s} (receive k m rest o c n l e) i b = record {
    started = b.started;
    stored = omega arith;
    are_calls = b.are_calls;
  }
  Work-IsBounded {s} (finish o n r) i b = record {
    started = b.started;
    stored = b.stored;
    are_calls = b.are_calls;
  }
  Work-IsBounded {s} (stop o c l) i b = record {
    started = b.started;
    stored = b.stored;
    are_calls = b.are_calls;
  }

  Reach-IsBounded : {s : CallsState} → Reach answer calls concurrency ended s → IsBounded s
  Reach-IsBounded start = record { started = omega arith; stored = omega arith; are_calls = tt }
  Reach-IsBounded (later r (work w)) =
      Work-IsBounded w (Reach-IsSound answer calls concurrency ended r) (Reach-IsBounded r)
  Reach-IsBounded (later r cancel) =
      let b = Reach-IsBounded r in
      record { started = b.started; stored = b.stored; are_calls = b.are_calls }

  CanWork : CallsState → Type 0
  CanWork s = (t : CallsState) × Work answer calls concurrency ended s t

  send_first :
      (s : CallsState) (k : ℕ) (rest : List ℕ) → s.running ≡ k ∷ rest → IsBounded s → CanWork s
  unfolding CanWork
  send_first s k rest e b =
      let (tc, g) = get_elem_found calls k (IsBounded-remove s [] rest k e b).0 in
      (_, send [] rest k tc e g)

  wait_for_slot : (s : CallsState) → IsBounded s → 0 < length s.running + s.closing → CanWork s
  unfolding CanWork
  wait_for_slot s b h = elim (list_cases s.running) [
    | inr (k, rest, e) ↦ send_first s k rest e b
    | inl n ↦
        (let a = ap length n in
          let e : s.closing ≡ (s.closing - 1) + 1 = omega arith in (_, release (s.closing - 1) e))
  ]

  start_next :
      (s : CallsState)
      → IsBounded s
      → is_open s ≡ true
      → s.canceled ≡ false
      → s.next < length calls
      → 0 < concurrency
      → CanWork s
  unfolding CanWork
  start_next s b o c n p =
      elim (Bool-cases (ltb (length s.running + s.closing) (min concurrency (length calls)))) [
        | inl l ↦ (_, launch o c n (ltb→lt _ _ l))
        | inr f ↦ wait_for_slot s b (ground arith)
      ]

  collect :
      (s : CallsState)
      → IsSound answer calls s
      → IsBounded s
      → is_open s ≡ true
      → s.canceled ≡ false
      → s.next ≡ length calls
      → CanWork s
  unfolding CanWork
  collect s i b o c n = elim (Bool-cases (s.received == length calls)) [
    | inl e ↦ (_, finish o n ((==_iff s.received (length calls)).0 e))
    | inr f ↦
        (let y = b.stored in
          let l : s.received < length calls = ground arith in
          elim (list_cases s.results) [
            | inr ((k, m), rest, e) ↦ (_, receive k m rest o c n l e)
            | inl e ↦
                (let live : is_live s ≡ true = ground arith in
                  let x = i.counted live in let z = ap length e in wait_for_slot s b (omega arith))
          ])
  ]

  -- Until the calls have returned there is a step that can be taken, whether the context has ended or
  -- not, where the concurrency is positive.
  pub Reach-works :
      (s : CallsState)
      → Reach answer calls concurrency ended s
      → is_open s ≡ true
      → 0 < concurrency
      → (t : CallsState) × Work answer calls concurrency ended s t
  unfolding CanWork
  Reach-works s r o p =
      let i = Reach-IsSound answer calls concurrency ended r in
      let b = Reach-IsBounded r in
      let u = b.started in
      let v = b.stored in
      elim (Bool-cases s.canceled) [
        | inl c ↦ elim (Bool-cases (s.received == length calls)) [
          | inl e ↦ let q = (==_iff s.received (length calls)).0 e in (_, finish o (omega arith) q)
          | inr f ↦ (_, stop o c (ground arith))
        ]
        | inr c ↦ elim (Bool-cases (s.next == length calls)) [
          | inl e ↦ collect s i b o c ((==_iff s.next (length calls)).0 e)
          | inr f ↦ start_next s b o c (ground arith) p
        ]
      ]
