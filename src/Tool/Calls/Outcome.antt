-- ===== src/Tool/Calls/Outcome.antt =====
-- What `runToolCalls` of runtools.go returns, and how many calls run at once.
use mathlib.Core.Sum
use llm_go_sdk.Base.{
  List, ap, arith, inl, inr, length, map, min, some, sym, ℕ, ◌++◌, ◌+◌, ◌∙◌, ◌≡◌, ◌≤◌,
}
use llm_go_sdk.Errors.{Error}
use llm_go_sdk.Message.{Message, ToolCall}
use llm_go_sdk.Tool.{}
use llm_go_sdk.Tool.Calls.{
  CallsState, Reach, Work, cancel, finish, give_up, later, launch, receive, release, send, start,
  stop, work,
}
use llm_go_sdk.Tool.Calls.Indices.{length-insert_at}
use llm_go_sdk.Tool.Calls.Results.{
  IsSound, IsSound-start, cancel-IsSound, closed-IsSound, dead-IsSound, full-expected,
  launch-IsSound, receive-IsSound, release-IsSound, send-IsSound,
}

module _ (answer : ToolCall → Message) (calls : List ToolCall) (concurrency : ℕ)
    (ended : Error) where
  Work-IsSound :
      {s t : CallsState}
      → Work answer calls concurrency ended s t
      → IsSound answer calls s
      → IsSound answer calls t
  Work-IsSound {s} (launch o c n k) i = launch-IsSound answer calls s i
  Work-IsSound {s} (send before after k tc e g) i =
      send-IsSound answer calls s before after k tc e g i
  Work-IsSound {s} (give_up before after k d e) i =
      dead-IsSound answer calls s (before ++ after) (s.closing + 1) d i
  Work-IsSound {s} (release c e) i = release-IsSound answer calls s c i
  Work-IsSound {s} (receive k m rest o c n l e) i =
      receive-IsSound answer calls s k m rest e i (ground arith) n
  Work-IsSound {s} (finish o n r) i =
      closed-IsSound answer calls s (inr s.messages)
        (λ ms h. sym (Sum.inr-injective s.messages ms h) ∙ full-expected answer calls s i r) i
  Work-IsSound {s} (stop o c l) i =
      closed-IsSound answer calls s (inl ended) (λ ms h. absurd (Sum.inl-ne-inr h)) i

  pub Reach-IsSound :
      {s : CallsState} → Reach answer calls concurrency ended s → IsSound answer calls s
  Reach-IsSound start = IsSound-start answer calls
  Reach-IsSound (later r (work w)) = Work-IsSound w (Reach-IsSound r)
  Reach-IsSound (later {s = s} r cancel) = cancel-IsSound answer calls s (Reach-IsSound r)

  -- Whatever the order in which the goroutines do their calls, messages that are returned are the
  -- answers to all the calls in the order of the calls.
  pub Reach-ordered :
      (s : CallsState) (ms : List Message)
      → Reach answer calls concurrency ended s
      → s.outcome ≡ some (inr ms)
      → ms ≡ map answer calls
  Reach-ordered s ms r h = (Reach-IsSound r).returned ms h

  Work-bounded :
      {s t : CallsState}
      → Work answer calls concurrency ended s t
      → length s.running + s.closing ≤ min concurrency (length calls)
      → length t.running + t.closing ≤ min concurrency (length calls)
  Work-bounded (launch o c n k) h = omega arith
  Work-bounded (send before after k tc e g) h =
      let a = ap length e ∙ length-insert_at before k after in omega arith
  Work-bounded (give_up before after k d e) h =
      let a = ap length e ∙ length-insert_at before k after in omega arith
  Work-bounded (release c e) h = omega arith
  Work-bounded (receive k m rest o c n l e) h = h
  Work-bounded (finish o n r) h = h
  Work-bounded (stop o c l) h = h

  -- No more goroutines hold a slot at once than the concurrency allows, and none beyond the calls.
  pub Reach-bounded :
      (s : CallsState)
      → Reach answer calls concurrency ended s
      → length s.running + s.closing ≤ min concurrency (length calls)
  Reach-bounded s start = omega arith
  Reach-bounded s (later {s = t} r (work w)) = Work-bounded w (Reach-bounded t r)
  Reach-bounded s (later {s = t} r cancel) = Reach-bounded t r
