-- ===== src/Tool/Loop/Transcript.antt =====
-- The transcript that `RunTools` of runtools.go returns.
use mathlib.Core.List
use llm_go_sdk.Base.{
  List, Option, Option-cases, Sum-cases, [], ap, arith, if◌then◌else◌, inl, inr, list_cases, map,
  none, refl, some, subst, suc, sym, true, zero, ℕ, ◌++◌, ◌+◌, ◌<◌, ◌∙◌, ◌∷◌, ◌≡◌,
}
use llm_go_sdk.Base.Int.{negsuc, pos, ℤ}
use llm_go_sdk.Errors.{Error}
use llm_go_sdk.Message.{Message, ToolCall}
use llm_go_sdk.Tool.{Host, Response, has_tool_calls}
use llm_go_sdk.Tool.Registry.{ToolRegistry, registered_tools, reply}
use llm_go_sdk.Tool.Loop.{
  Run, RunError, RunToolsConfig, RunToolsOption, World, apply_run_tools_options, assistant_message,
  calls_ended, context_ended, default_run_tools_config, default_run_tools_max_iterations,
  generation_failed, nil_answer, positive_or, rounds, run_tools, run_tools_loop, set_options,
  too_many_iterations,
}

module _ {H V : Type 0} (host : Host H V) (registry : ToolRegistry H) where
  -- The messages of so many full turns: the model asks for tools, and each call has its answer, in
  -- the order of the calls. The last response is the second index.
  pub data Turns (U : Type 0) : ℕ → Option (Response U) → List Message → Type 0 where
    no_turns : Turns U 0 none []
    turn :
        {n : ℕ} {last : Option (Response U)} {ms : List Message}
        → Turns U n last ms
        → (resp : Response U) (tc : ToolCall) (tcs : List ToolCall) → resp.tool_calls ≡ tc ∷ tcs
        → Turns U
            (suc n)
            (some resp)
            (ms ++ (assistant_message resp ∷ map (reply host registry) resp.tool_calls))

  -- How the loop ends, with at most so many turns, after `n` full turns of which `last` is the last
  -- response: the response and the error that it returns and the messages after the full turns.
  pub data Ending (U : Type 0) (limit n : ℕ) (last : Option (Response U))
      : Option (Response U) → Option RunError → List Message → Type 0 where
    answered_finally :
        (resp : Response U)
        → resp.tool_calls ≡ []
        → n < limit
        → Ending U limit n last (some resp) none (assistant_message resp ∷ [])
    limit_reached : n ≡ limit → Ending U limit n last last (some too_many_iterations) []
    ended_before : (e : Error) → n < limit → Ending U limit n last last (some (context_ended e)) []
    generating :
        (e : Error) → n < limit → Ending U limit n last last (some (generation_failed e)) []
    nil_answered : n < limit → Ending U limit n last none (some nil_answer) []
    ended_in_calls :
        (resp : Response U) (e : Error)
        → has_tool_calls resp ≡ true
        → n < limit
        → Ending U limit n last (some resp) (some (calls_ended e)) (assistant_message resp ∷ [])

  -- The run started from these messages, did full turns and ended.
  pub record IsRun (U : Type 0) (limit : ℕ) (messages : List Message) (run : Run U) : Type 0 where
    pub turns : ℕ
    pub last : Option (Response U)
    pub done : List Message
    pub rest : List Message
    pub are_turns : Turns U turns last done
    pub ending : Ending U limit turns last run.response run.error rest
    pub extends : run.transcript ≡ messages ++ (done ++ rest)

module _ {H V U C : Type 0} (host : Host H V) (world : World U C) (registry : ToolRegistry H)
    (cfg : RunToolsConfig C) (limit : ℕ) (messages : List Message) where
  ended :
      {n : ℕ} {last : Option (Response U)} {done : List Message}
      → Turns host registry U n last done
      → (run : Run U) (rest : List Message)
      → Ending host registry U limit n last run.response run.error rest
      → run.transcript ≡ (messages ++ done) ++ rest
      → IsRun host registry U limit messages run
  ended {n} {last} {done} t run rest e x = record {
    turns = n;
    last = last;
    done = done;
    rest = rest;
    are_turns = t;
    ending = e;
    extends = x ∙ List.append_assoc messages done rest;
  }

  -- The transcript after a full turn, as the loop appends to it.
  turn_end :
      (done : List Message) (resp : Response U) (tc : ToolCall) (tcs : List ToolCall)
      → resp.tool_calls ≡ tc ∷ tcs
      → messages ++ (done ++ (assistant_message resp ∷ map (reply host registry) resp.tool_calls))
        ≡ ((messages ++ done) ++ (assistant_message resp ∷ []))
          ++ map (reply host registry) (tc ∷ tcs)
  turn_end done resp tc tcs c =
      let ms = map (reply host registry) (tc ∷ tcs) in
      let a = assistant_message resp in
      ap (λ x. messages ++ (done ++ (a ∷ map (reply host registry) x))) c
      ∙ sym (List.append_assoc messages done (a ∷ ms))
      ∙ sym (List.append_assoc (messages ++ done) (a ∷ []) ms)

  run_tools_loop-IsRun :
      (left i : ℕ) {n : ℕ} {last : Option (Response U)} {done : List Message}
      → Turns host registry U n last done
      → n + left ≡ limit
      → (steps : List (ℕ × Response U))
      → IsRun host registry U limit messages
          (run_tools_loop host world registry cfg left i last (messages ++ done) steps)
  unfolding run_tools_loop
  run_tools_loop-IsRun zero i {done = done} t h steps =
      ended t _ [] (limit_reached (omega arith)) (sym (List.append-nil (messages ++ done)))
  run_tools_loop-IsRun (suc left) i {n} {last} {done} t h steps =
      let transcript = messages ++ done in
      let more : n < limit = omega arith in
      let same = sym (List.append-nil transcript) in
      elim (Option-cases (world.ctx_done i)) [
        | inr (e, q) ↦ rw (q, run_tools_loop) (ended t _ [] (ended_before e more) same)
        | inl q ↦
            elim (Sum-cases
              (world.generate i transcript cfg.call_options (registered_tools registry))) [
                | inl (e, g) ↦ rw (q, g, run_tools_loop) (ended t _ [] (generating e more) same)
                | inr (none, g) ↦ rw (q, g, run_tools_loop) (ended t _ [] (nil_answered more) same)
                | inr (some resp, g) ↦
                    (let steps' = if cfg.on_step then steps ++ ((i, resp) ∷ []) else steps in
                      elim (list_cases resp.tool_calls) [
                        | inl c ↦
                            rw (q, g, c, run_tools_loop)
                              (ended t _ (assistant_message resp ∷ [])
                                (answered_finally resp c more) refl)
                        | inr (tc, tcs, c) ↦ elim (Option-cases (world.calls_stopped i)) [
                          | inr (e, k) ↦
                              rw (q, g, c, k, run_tools_loop)
                                (ended t _ (assistant_message resp ∷ [])
                                  (ended_in_calls resp e (rw c refl) more) refl)
                          | inl k ↦
                              rw (q, g, c, k, run_tools_loop)
                                (subst
                                  (λ x. IsRun host registry U limit messages (
                                    run_tools_loop host world registry cfg left (i + 1) (some resp)
                                      x steps'))
                                  (turn_end done resp tc tcs c)
                                  (run_tools_loop-IsRun left (i + 1) (turn t resp tc tcs c)
                                    (omega arith) steps'))
                        ]
                      ])
              ]
      ]

positive_or-positive : (d : ℕ) (z : ℤ) → 0 < d → 0 < rounds (positive_or d z)
positive_or-positive d (pos zero) h = h
positive_or-positive d (pos (suc n)) h = omega arith
positive_or-positive d (negsuc n) h = h

-- The bound on the turns that the options set.
unfoldable pub turn_limit : {C : Type 0} → List (RunToolsOption C) → ℕ
turn_limit opts = rounds (apply_run_tools_options opts).max_iterations

-- `RunTools` takes at least one turn at most, and returns the messages that it was given, then full
-- turns of an assistant message and the answer to each of its calls, in order, and then what the way
-- it ended adds: the final answer, an assistant message whose calls were cut off, or nothing. The
-- response and the error are those of that ending, and the error for too many turns comes after
-- exactly as many turns as the options allow.
pub run_tools-IsRun :
    {H V U C : Type 0} (host : Host H V) (world : World U C) (registry : ToolRegistry H)
    (messages : List Message) (opts : List (RunToolsOption C))
    → (0 < turn_limit opts)
      × IsRun host registry U
          (turn_limit opts)
          messages
          (run_tools host (some world) (some registry) messages opts)
unfolding run_tools apply_run_tools_options turn_limit
run_tools-IsRun {U = U} host world registry messages opts =
    let cfg = apply_run_tools_options opts in
    let limit = turn_limit opts in
    (
      positive_or-positive default_run_tools_max_iterations
          (set_options opts default_run_tools_config).max_iterations (omega arith),
      subst
          (λ x.
            IsRun host registry U limit messages
              (run_tools_loop host world registry cfg limit 1 none x []))
          (List.append-nil messages)
          (run_tools_loop-IsRun host world registry cfg limit messages limit 1 no_turns
            (omega arith) []),
    )
