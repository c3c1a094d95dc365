-- ===== src/Tool/Examples.antt =====
-- A registry with one tool, a model that calls it once, and the steps of that call.
use Prim.Native.String.{String}
use llm_go_sdk.Base.{
  List, [], arith, false, if◌then◌else◌, inl, inr, length, map, min, none, refl, some, true, ℕ,
  ◌++◌, ◌+◌, ◌<◌, ◌==◌, ◌∷◌, ◌≡◌, ◌≤◌, ◌⊎◌,
}
use llm_go_sdk.Base.Int.{pos}
use llm_go_sdk.Errors.{Error, canceled, sentinel}
use llm_go_sdk.Message.{Message, ToolCall}
use llm_go_sdk.Tool.{
  Host, Response, Tool, result_text, returned, tool_call_name, tool_result_string,
}
use llm_go_sdk.Tool.Registry.{ToolRegistry, register}
use llm_go_sdk.Tool.Registry.Registered.{IsRegistered, register-IsRegistered}
use llm_go_sdk.Tool.Registry.Dispatch.{}
use llm_go_sdk.Tool.Loop.{
  RunToolsOption, World, apply_run_tools_option, apply_run_tools_options, assistant_message,
  run_tools, run_tools_loop, with_max_iterations,
}
use llm_go_sdk.Tool.Loop.Transcript.{IsRun, run_tools-IsRun, turn_limit}
use llm_go_sdk.Tool.Loop.Paired.{answered_ids, asked, run_tools-paired}
use llm_go_sdk.Tool.Calls.{
  CallsState, Reach, finish, later, launch, receive, release, send, start, start_calls, work,
}
use llm_go_sdk.Tool.Calls.Outcome.{Reach-bounded, Reach-ordered}
use llm_go_sdk.Tool.Calls.Termination.{Reach-returns, Works}

-- A handler is what it returns.
abbrev host : Host String String
host = record {
  run = λ h arguments. returned (result_text h);
  marshal = λ v. inr v;
  quote = λ s. s;
}

abbrev weather : Tool
weather = record {
  tool_type = "function";
  function =
      some (record { name = "weather"; description = ""; parameters = "{}"; strict = false });
}

abbrev registry : ToolRegistry String
registry = record { handlers = ("weather", "rain") ∷ []; tools = weather ∷ [] }

registry-IsRegistered : IsRegistered registry
registry-IsRegistered = (refl, (refl, tt))

register-IsRegistered_example : IsRegistered (register weather (some "snow") registry)
register-IsRegistered_example =
    register-IsRegistered weather (some "snow") registry registry-IsRegistered

abbrev call_of : String → String → ToolCall
call_of id name = record {
  id = id;
  tool_type = "function";
  function = some (record { name = name; arguments = "{}" });
  signature = "";
  signature_provider = "";
}

abbrev response : String → List ToolCall → Response ℕ
response text calls = record {
  id = "";
  content = text;
  reasoning = none;
  finish_reason = "";
  usage = 0;
  tool_calls = calls;
  service_tier = "";
  provider = "";
  model = "";
  model_version = "";
  adjustments = [];
}

abbrev calls : List ToolCall
calls = call_of "1" "weather" ∷ call_of "2" "time" ∷ []

-- The model asks for two tools in the first turn, and answers in the second.
abbrev world : World ℕ ℕ
world = record {
  ctx_done = λ i. none;
  generate = λ i ms cs ts. inr (some (if i == 1 then response "" calls else response "rain" []));
  calls_stopped = λ i. none;
}

abbrev question : List Message
question = assistant_message (response "hello" []) ∷ []

abbrev options : List (RunToolsOption ℕ)
options = with_max_iterations (pos 3) ∷ []

run_tools-IsRun_example :
    (0 < turn_limit options)
    × IsRun host registry ℕ
        (turn_limit options)
        question
        (run_tools host (some world) (some registry) question options)
run_tools-IsRun_example = run_tools-IsRun host world registry question options

run_tools-paired_example :
    (added : List Message) × ((run_tools host
        (some world)
        (some registry)
        question
        options).transcript
      ≡ question ++ added)
    × (asked added ≡ answered_ids added)
unfolding run_tools run_tools_loop apply_run_tools_options apply_run_tools_option
run_tools-paired_example = run_tools-paired host world registry question options refl

abbrev answer : ToolCall → Message
answer tc = tool_result_string tc.id (tool_call_name tc) "rain"

abbrev ended : Error
ended = sentinel canceled

abbrev one_call : List ToolCall
one_call = call_of "1" "weather" ∷ []

abbrev after_call : CallsState
after_call = record {
  next = 1;
  running = [];
  closing = 0;
  results = [];
  received = 1;
  messages = answer (call_of "1" "weather") ∷ [];
  canceled = false;
  outcome = some (inr (answer (call_of "1" "weather") ∷ []));
}

-- The call is launched, its result sent and received, its slot released, and the messages returned.
after_call-Reach : Reach answer one_call 8 ended after_call
after_call-Reach =
    later
      (later
        (later
          (later (later start (work (launch refl refl (omega arith) (omega arith))))
            (work (send [] [] 0 (call_of "1" "weather") refl refl)))
          (work (release 0 refl)))
        (work (receive 0 (answer (call_of "1" "weather")) [] refl refl refl (omega arith) refl)))
      (work (finish refl refl refl))

Reach-ordered_example : (answer (call_of "1" "weather") ∷ []) ≡ map answer one_call
Reach-ordered_example =
    Reach-ordered answer one_call 8 ended after_call (answer (call_of "1" "weather") ∷ [])
      after_call-Reach refl

Reach-bounded_example : length after_call.running + after_call.closing ≤ min 8 (length one_call)
Reach-bounded_example = Reach-bounded answer one_call 8 ended after_call after_call-Reach

-- The first call runs, and the second one is not started.
abbrev one_running : CallsState
one_running = record (start_calls calls) { next = 1; running = 0 ∷ [] }

one_running-Reach : Reach answer calls 8 ended one_running
one_running-Reach = later start (work (launch refl refl (omega arith) (omega arith)))

Reach-returns_example :
    (t : CallsState) × Works answer calls 8 ended one_running t
    × (((one_running.canceled ≡ true) × (t.outcome ≡ some (inl ended)))
        ⊎ (t.outcome ≡ some (inr (map answer calls))))
Reach-returns_example =
    Reach-returns answer calls 8 ended one_running one_running-Reach (omega arith)
