-- ===== src/Tool/Loop/Paired.antt =====
-- Tool calls and tool results in the transcript of `RunTools` of runtools.go.
use Prim.Native.String.{String}
use mathlib.Core.List
use llm_go_sdk.Base.{
  Bool, Bool-cases, List, Option, [], ap, false, if◌then◌else◌, inl, inr, map, refl, some, sym,
  true, true≢false, ℕ, ◌++◌, ◌∙◌, ◌∷◌, ◌≡◌,
}
use llm_go_sdk.Errors.{}
use llm_go_sdk.Message.{Message, ToolCall, is_tool}
use llm_go_sdk.Tool.{Host, Response}
use llm_go_sdk.Tool.Registry.{ToolRegistry, reply}
use llm_go_sdk.Tool.Registry.Dispatch.{reply-Answers}
use llm_go_sdk.Tool.Loop.{
  RunError, RunToolsOption, World, assistant_message, calls_ended, run_tools,
}
use llm_go_sdk.Tool.Loop.Transcript.{
  Ending, Turns, answered_finally, ended_before, ended_in_calls, generating, limit_reached,
  nil_answered, no_turns, run_tools-IsRun, turn,
}

abbrev ids_of : List ToolCall → List String
ids_of tcs = map (λ tc. tc.id) tcs

-- The ids of the tool calls that messages ask for, and of those that they answer.
abbrev pub asked : List Message → List String
asked [] = []
asked (m ∷ ms) = ids_of m.tool_calls ++ asked ms

abbrev pub answered_ids : List Message → List String
answered_ids [] = []
answered_ids (m ∷ ms) = if is_tool m then m.tool_call_id ∷ answered_ids ms else answered_ids ms

asked-append : (xs ys : List Message) → asked (xs ++ ys) ≡ asked xs ++ asked ys
asked-append [] ys = refl
asked-append (x ∷ xs) ys =
    ap (λ z. ids_of x.tool_calls ++ z) (asked-append xs ys)
    ∙ sym (List.append_assoc (ids_of x.tool_calls) (asked xs) (asked ys))

answered-append :
    (xs ys : List Message) → answered_ids (xs ++ ys) ≡ answered_ids xs ++ answered_ids ys
answered-append [] ys = refl
answered-append (x ∷ xs) ys = elim (Bool-cases (is_tool x)) [
  | inl t ↦ rw t (ap (◌∷◌ x.tool_call_id) (answered-append xs ys))
  | inr f ↦ rw f (answered-append xs ys)
]

module _ {H V : Type 0} (host : Host H V) (registry : ToolRegistry H) where
  replies-asked : (tcs : List ToolCall) → asked (map (reply host registry) tcs) ≡ []
  replies-asked [] = refl
  replies-asked (tc ∷ tcs) =
      let e = (reply-Answers host registry tc).3 in rw (e, replies-asked tcs) refl

  replies-answered :
      (tcs : List ToolCall) → answered_ids (map (reply host registry) tcs) ≡ ids_of tcs
  replies-answered [] = refl
  replies-answered (tc ∷ tcs) =
      let a = reply-Answers host registry tc in rw (a.0, a.1, replies-answered tcs) refl

  Turns-paired :
      {U : Type 0} {n : ℕ} {last : Option (Response U)} {ms : List Message}
      → Turns host registry U n last ms
      → asked ms ≡ answered_ids ms
  Turns-paired no_turns = refl
  Turns-paired (turn {ms = ms} t resp tc tcs c) =
      let calls = resp.tool_calls in
      let rs = map (reply host registry) calls in
      let a = assistant_message resp in
      let left : asked (ms ++ (a ∷ rs)) ≡ asked ms ++ ids_of calls =
        asked-append ms (a ∷ rs)
        ∙ ap (λ z. asked ms ++ (ids_of calls ++ z)) (replies-asked calls)
        ∙ ap (λ z. asked ms ++ z) (List.append-nil (ids_of calls)) in
      let right : answered_ids (ms ++ (a ∷ rs)) ≡ answered_ids ms ++ ids_of calls =
        answered-append ms (a ∷ rs) ∙ ap (λ z. answered_ids ms ++ z) (replies-answered calls) in
      left ∙ ap (λ z. z ++ ids_of calls) (Turns-paired t) ∙ sym right

-- The calls of the last assistant message were cut off by the end of the context.
abbrev pub cut_off : Option RunError → Bool
cut_off (some (calls_ended e)) = true
cut_off _ = false

Ending-paired :
    {H V U : Type 0} (host : Host H V) (registry : ToolRegistry H) {limit n : ℕ}
    {last resp : Option (Response U)} {error : Option RunError} {rest : List Message}
    → Ending host registry U limit n last resp error rest
    → cut_off error ≡ false
    → (asked rest ≡ []) × (answered_ids rest ≡ [])
Ending-paired host registry (answered_finally resp c l) h = (rw c refl, refl)
Ending-paired host registry (limit_reached e) h = (refl, refl)
Ending-paired host registry (ended_before e l) h = (refl, refl)
Ending-paired host registry (generating e l) h = (refl, refl)
Ending-paired host registry (nil_answered l) h = (refl, refl)
Ending-paired host registry (ended_in_calls resp e c l) h = absurd (true≢false h)

-- Unless the context ends during the calls of a turn, the messages that `RunTools` adds answer the
-- calls that they ask for: the same ids, in the same order.
pub run_tools-paired :
    {H V U C : Type 0} (host : Host H V) (world : World U C) (registry : ToolRegistry H)
    (messages : List Message) (opts : List (RunToolsOption C))
    → cut_off (run_tools host (some world) (some registry) messages opts).error ≡ false
    → (added : List Message) × ((run_tools host
          (some world)
          (some registry)
          messages
          opts).transcript
        ≡ messages ++ added)
      × (asked added ≡ answered_ids added)
run_tools-paired host world registry messages opts h =
    let r = (run_tools-IsRun host world registry messages opts).1 in
    let e = Ending-paired host registry r.ending h in
    (
      r.done ++ r.rest,
      r.extends,
      asked-append r.done r.rest
          ∙ ap (λ z. asked r.done ++ z) (e.0 ∙ sym e.1)
          ∙ ap (λ z. z ++ answered_ids r.rest) (Turns-paired host registry r.are_turns)
          ∙ sym (answered-append r.done r.rest),
    )
