-- ===== src/Tool/Calls.antt =====
-- `runToolCalls` of runtools.go: the goroutines of one turn's tool calls, in every order. A step is a
-- step of the loops of `runToolCalls`, or of a goroutine, or the end of the context.
use llm_go_sdk.Base.{
  Bool, List, Option, [], false, get_elem?, inl, inr, length, min, none, not, replicate, some, suc,
  true, zero, ℕ, ◌++◌, ◌+◌, ◌<◌, ◌||◌, ◌∷◌, ◌≡◌, ◌⊎◌,
}
use llm_go_sdk.Errors.{Error}
use llm_go_sdk.Message.{Message, ToolCall, role_missing}
use llm_go_sdk.Tool.{}
pub mod Indices
pub mod Results
pub mod Progress
pub mod Termination
pub mod Outcome

-- `next` calls are started. A goroutine holds a slot of `sem` while it is `running`, and after it has
-- sent its result, while it is `closing`; `results` is the channel. `outcome` is what was returned.
pub record CallsState : Type 0 where
  pub next : ℕ
  pub running : List ℕ
  pub closing : ℕ
  pub results : List (ℕ × Message)
  pub received : ℕ
  pub messages : List Message
  pub canceled : Bool
  pub outcome : Option (Error ⊎ List Message)

abbrev pub empty_message : Message
empty_message = record {
  role = role_missing;
  content = "";
  parts = [];
  tool_calls = [];
  tool_call_id = "";
  name = "";
  cache_control = none;
  reasoning = none;
}

abbrev pub set_at : {A : Type 0} → ℕ → A → List A → List A
set_at i v [] = []
set_at zero v (x ∷ xs) = v ∷ xs
set_at (suc i) v (x ∷ xs) = x ∷ set_at i v xs

abbrev pub start_calls : List ToolCall → CallsState
start_calls calls = record {
  next = 0;
  running = [];
  closing = 0;
  results = [];
  received = 0;
  messages = replicate (length calls) empty_message;
  canceled = false;
  outcome = none;
}

abbrev pub is_open : CallsState → Bool
is_open s = elim s.outcome [ none ↦ true | some _ ↦ false ]

-- `answer` is the message that a goroutine sends for a call, `ended` the error of the context.
module _ (answer : ToolCall → Message) (calls : List ToolCall) (concurrency : ℕ)
    (ended : Error) where
  abbrev pub capacity : ℕ
  capacity = min concurrency (length calls)

  pub data Work (s : CallsState) : CallsState → Type 0 where
    launch :
        is_open s ≡ true
        → s.canceled ≡ false
        → s.next < length calls
        → length s.running + s.closing < capacity
        → Work s (record s { next = s.next + 1; running = s.next ∷ s.running })
    send :
        (before after : List ℕ) (i : ℕ) (tc : ToolCall)
        → s.running ≡ before ++ (i ∷ after)
        → get_elem? calls i ≡ some tc
        → Work s (record s {
          running = before ++ after;
          closing = s.closing + 1;
          results = s.results ++ ((i, answer tc) ∷ []);
        })
    give_up :
        (before after : List ℕ) (i : ℕ)
        → (s.canceled || not (is_open s)) ≡ true
        → s.running ≡ before ++ (i ∷ after)
        → Work s (record s { running = before ++ after; closing = s.closing + 1 })
    release : (c : ℕ) → s.closing ≡ c + 1 → Work s (record s { closing = c })
    receive :
        (i : ℕ) (m : Message) (rest : List (ℕ × Message))
        → is_open s ≡ true
        → s.canceled ≡ false
        → s.next ≡ length calls
        → s.received < length calls
        → s.results ≡ (i, m) ∷ rest
        → Work s (record s {
          results = rest;
          received = s.received + 1;
          messages = set_at i m s.messages;
        })
    finish :
        is_open s ≡ true
        → s.next ≡ length calls
        → s.received ≡ length calls
        → Work s (record s { outcome = some (inr s.messages) })
    stop :
        is_open s ≡ true
        → s.canceled ≡ true
        → s.received < length calls
        → Work s (record s { outcome = some (inl ended) })

  pub data Step (s : CallsState) : CallsState → Type 0 where
    work : {t : CallsState} → Work s t → Step s t
    cancel : Step s (record s { canceled = true })

  pub data Reach : CallsState → Type 0 where
    start : Reach (start_calls calls)
    later : {s t : CallsState} → Reach s → Step s t → Reach t
