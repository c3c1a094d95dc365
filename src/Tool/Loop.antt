-- ===== src/Tool/Loop.antt =====
-- `RunTools` of runtools.go, with its tool calls of one turn done as `Tool.Calls` shows they are: all
-- of them, in order, or none when the context ends. A round of the loop is one of at most
-- `max_iterations`, so the recursion is on the rounds left.
use llm_go_sdk.Base.{
  Bool, List, Option, [], false, if◌then◌else◌, inl, inr, map, none, some, suc, zero, ℕ, ◌++◌, ◌+◌,
  ◌∷◌, ◌⊎◌,
}
use llm_go_sdk.Base.Int.{negsuc, pos, ℤ}
use llm_go_sdk.Errors.{Error}
use llm_go_sdk.Message.{Message, ToolCall, role_assistant}
use llm_go_sdk.Tool.{Host, Response, Tool}
use llm_go_sdk.Tool.Registry.{ToolRegistry, registered_tools, reply}
pub mod Transcript
pub mod Paired

abbrev pub default_run_tools_max_iterations : ℕ
default_run_tools_max_iterations = 10

abbrev pub default_run_tools_concurrency : ℕ
default_run_tools_concurrency = 8

-- `C` is the type of a call option. A callback is whether one is set.
pub data RunToolsOption (C : Type 0) : Type 0 where
  with_max_iterations with_tool_concurrency : ℤ → RunToolsOption C
  with_on_step : Bool → RunToolsOption C
  with_call_options : List C → RunToolsOption C

pub record RunToolsConfig (C : Type 0) : Type 0 where
  pub max_iterations : ℤ
  pub concurrency : ℤ
  pub on_step : Bool
  pub call_options : List C

abbrev pub default_run_tools_config : {C : Type 0} → RunToolsConfig C
default_run_tools_config = record {
  max_iterations = pos default_run_tools_max_iterations;
  concurrency = pos default_run_tools_concurrency;
  on_step = false;
  call_options = [];
}

unfoldable pub apply_run_tools_option :
    {C : Type 0} → RunToolsOption C → RunToolsConfig C → RunToolsConfig C
apply_run_tools_option (with_max_iterations n) cfg = record cfg { max_iterations = n }
apply_run_tools_option (with_tool_concurrency n) cfg = record cfg { concurrency = n }
apply_run_tools_option (with_on_step b) cfg = record cfg { on_step = b }
apply_run_tools_option (with_call_options cs) cfg = record cfg { call_options = cs }

abbrev pub set_options :
    {C : Type 0} → List (RunToolsOption C) → RunToolsConfig C → RunToolsConfig C
set_options [] cfg = cfg
set_options (o ∷ os) cfg = set_options os (apply_run_tools_option o cfg)

abbrev pub positive_or : ℕ → ℤ → ℤ
positive_or d (pos zero) = pos d
positive_or d (pos (suc n)) = pos (suc n)
positive_or d (negsuc n) = pos d

unfoldable pub apply_run_tools_options : {C : Type 0} → List (RunToolsOption C) → RunToolsConfig C
unfolding apply_run_tools_option
apply_run_tools_options opts =
    let cfg = set_options opts default_run_tools_config in
    record cfg {
      max_iterations = positive_or default_run_tools_max_iterations cfg.max_iterations;
      concurrency = positive_or default_run_tools_concurrency cfg.concurrency;
    }

-- What the world does in the round with that number: the error of a context that is done when the
-- round starts, the model's answer (nil is `none`) to a transcript, call options and tools, and the
-- error of a context that is done before the round's tool calls are.
pub record World (U C : Type 0) : Type 0 where
  pub ctx_done : ℕ → Option Error
  pub generate : ℕ → List Message → List C → List Tool → Error ⊎ Option (Response U)
  pub calls_stopped : ℕ → Option Error

pub data RunError : Type 0 where
  nil_registry nil_llm nil_answer too_many_iterations : RunError
  context_ended generation_failed calls_ended : Error → RunError

-- What `RunTools` returns, and the calls of the `onStep` callback.
pub record Run (U : Type 0) : Type 0 where
  pub response : Option (Response U)
  pub transcript : List Message
  pub error : Option RunError
  pub on_steps : List (ℕ × Response U)

abbrev pub assistant_message : {U : Type 0} → Response U → Message
assistant_message resp = record {
  role = role_assistant;
  content = resp.content;
  parts = [];
  tool_calls = resp.tool_calls;
  tool_call_id = "";
  name = "";
  cache_control = none;
  reasoning = resp.reasoning;
}

module _ {H V U C : Type 0} (host : Host H V) (world : World U C) (registry : ToolRegistry H) where
  -- The call of `runToolCalls` in a round.
  abbrev pub run_tool_calls : ℕ → List ToolCall → Error ⊎ List Message
  run_tool_calls i calls = elim (world.calls_stopped i) [
    | some e ↦ inl e
    | none ↦ inr (map (reply host registry) calls)
  ]

  -- `i` is the number of the round, `left` the number of rounds left.
  unfoldable pub run_tools_loop :
      RunToolsConfig C
      → (left i : ℕ) → Option (Response U)
      → List Message
      → List (ℕ × Response U)
      → Run U
  run_tools_loop cfg zero i last transcript steps = record {
    response = last;
    transcript = transcript;
    error = some too_many_iterations;
    on_steps = steps;
  }
  run_tools_loop cfg (suc left) i last transcript steps = elim (world.ctx_done i) [
    | some e ↦ record {
      response = last;
      transcript = transcript;
      error = some (context_ended e);
      on_steps = steps;
    }
    | none ↦ elim (world.generate i transcript cfg.call_options (registered_tools registry)) [
      | inl e ↦ record {
        response = last;
        transcript = transcript;
        error = some (generation_failed e);
        on_steps = steps;
      }
      | inr none ↦ record {
        response = none;
        transcript = transcript;
        error = some nil_answer;
        on_steps = steps;
      }
      | inr (some resp) ↦
          (let steps' = if cfg.on_step then steps ++ ((i, resp) ∷ []) else steps in
            let transcript' = transcript ++ (assistant_message resp ∷ []) in
            elim resp.tool_calls [
              | [] ↦ record {
                response = some resp;
                transcript = transcript';
                error = none;
                on_steps = steps';
              }
              | tc ∷ tcs ↦ elim (run_tool_calls i (tc ∷ tcs)) [
                | inl e ↦ record {
                  response = some resp;
                  transcript = transcript';
                  error = some (calls_ended e);
                  on_steps = steps';
                }
                | inr ms ↦ run_tools_loop cfg left (i + 1) (some resp) (transcript' ++ ms) steps'
              ]
            ])
    ]
  ]

abbrev pub rounds : ℤ → ℕ
rounds (pos n) = n
rounds (negsuc n) = 0

-- A nil registry or client is `none`.
unfoldable pub run_tools :
    {H V U C : Type 0}
    → Host H V
    → Option (World U C)
    → Option (ToolRegistry H)
    → List Message
    → List (RunToolsOption C)
    → Run U
unfolding run_tools_loop apply_run_tools_options
run_tools host world none messages opts = record {
  response = none;
  transcript = messages;
  error = some nil_registry;
  on_steps = [];
}
run_tools host none (some registry) messages opts = record {
  response = none;
  transcript = messages;
  error = some nil_llm;
  on_steps = [];
}
run_tools host (some world) (some registry) messages opts =
    let cfg = apply_run_tools_options opts in
    run_tools_loop host world registry cfg (rounds cfg.max_iterations) 1 none messages []
