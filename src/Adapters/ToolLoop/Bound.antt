-- ===== src/Adapters/ToolLoop/Bound.antt =====
-- adapters/langchaingo/tools.go: the bound on the turns; and the record changes nothing of a run.
use go_ai.Prelude.{
  ok, ℕ, zero, suc, ◌≤◌, ◌≡◌, refl, sym, ap, ◌∙◌, inl, inr, Bool, true, false, Option, none, some,
  List, [], ◌∷◌, ◌++◌, map, length, Result, err, arith, Bool-cases, Option-cases, Result-cases,
  if◌then◌else◌,
}
use go_ai.Text.{Text, ◌==◌}
use go_ai.Dict.{Dict, lookup, insert, lookup-insert}
use go_ai.Agent.State.{State}
use go_ai.Agent.Graph.{is_empty}
use go_ai.Mcp.{Tool, Arguments}
use go_ai.Adapters.Options.{NodeSettings, NodeOption, resolve}
use go_ai.Adapters.Langchaingo.{Message, ToolCall, LlmTool, Model, opening_messages, first_choice}
use go_ai.Adapters.ToolLoop
use go_ai.Adapters.ToolLoop.{
  ToolLoopError, turns_exceeded, max_tool_turns, by_name, llm_tools, call_options,
  assistant_message, response_message, tool_arguments, run_tool_calls, tool_turns, tool_model_node,
}
use go_ai.Adapters.ToolLoop.Recorded.{
  Log, recorded_model, recorded_tool, IsToolFault, Ends, with_reply, with_model_error,
  with_tool_fault, out_of_turns,
}
use go_ai.Adapters.ToolLoop.Conversation.{llm_tools-recorded, recorded_run, tool_model_node-Ends}

-- The outcome of a recorded computation, without the record.
abbrev unrecorded : {A W : Type 0} → A × (W × Log) → A × W
unrecorded r = (r.0, r.1.0)

abbrev recorded_option : {W : Type 0} → Option (Tool W) → Option (Tool (W × Log))
recorded_option none = none
recorded_option (some t) = some (recorded_tool t)

recorded_if :
    {W : Type 0} (b : Bool) (t : Tool W) (o : Option (Tool W))
    → (if b then some (recorded_tool t) else recorded_option o)
      ≡ recorded_option (if b then some t else o)
recorded_if true t o = refl
recorded_if false t o = refl

-- The two maps hold the same tools, one of them recorded.
abbrev Mirrors : {W : Type 0} → Dict (Tool W) → Dict (Tool (W × Log)) → Type 0
Mirrors tools tools' = (n : Text) → lookup n tools' ≡ recorded_option (lookup n tools)

by_name-Mirrors :
    {W : Type 0} (ts : List (Tool W)) (found : Dict (Tool W)) (found' : Dict (Tool (W × Log)))
    → Mirrors found found'
    → Mirrors (by_name found ts) (by_name found' (map recorded_tool ts))
unfolding by_name
by_name-Mirrors [] found found' h = h
by_name-Mirrors (t ∷ ts) found found' h =
    by_name-Mirrors ts (insert t.name t found) (insert t.name (recorded_tool t) found') (λ n.
      rw (lookup-insert t.name n (recorded_tool t) found', lookup-insert t.name n t found, h n)
        (recorded_if (t.name == n) t (lookup n found)))

module _ {W : Type 0} (model : Model W) (decode : Text → Result Text Arguments)
    (tools : Dict (Tool W)) (tools' : Dict (Tool (W × Log))) (mirrors : Mirrors tools tools')
    (options : Option (List LlmTool)) (c : NodeSettings) where
  run_tool_calls-unrecorded :
      (calls : List ToolCall) (msgs : List Message) (x : W × Log)
      → unrecorded (run_tool_calls (recorded_model model) decode tools' options c calls msgs x)
        ≡ run_tool_calls model decode tools options c calls msgs x.0
  unfolding run_tool_calls
  run_tool_calls-unrecorded [] msgs x = refl
  run_tool_calls-unrecorded (tc ∷ calls) msgs x = elim (Option-cases (lookup tc.name tools)) [
    | inl missing ↦
        let missing' : lookup tc.name tools' ≡ none =
          mirrors tc.name ∙ ap recorded_option missing in
        rw (missing, missing', run_tool_calls) refl
    | inr (tool, found) ↦
        let found' : lookup tc.name tools' ≡ some (recorded_tool tool) =
          mirrors tc.name ∙ ap recorded_option found in
        elim (Result-cases (tool_arguments decode tc.arguments)) [
          | inr (e, failed) ↦ rw (found, found', failed, run_tool_calls) refl
          | inl (args, decoded) ↦ elim (Result-cases (tool.call args x.0).0) [
            | inr (e, failed) ↦ rw (found, found', decoded, failed, run_tool_calls) refl
            | inl (result, called) ↦
                rw (found, found', decoded, called, run_tool_calls)
                  (run_tool_calls-unrecorded calls (msgs ++ response_message tc result ∷ [])
                    ((tool.call args x.0).1, x.1))
          ]
        ]
  ]

  tool_turns-unrecorded :
      (left : ℕ) (msgs : List Message) (x : W × Log)
      → unrecorded (tool_turns (recorded_model model) decode tools' options c left msgs x)
        ≡ tool_turns model decode tools options c left msgs x.0
  unfolding tool_turns
  tool_turns-unrecorded zero msgs x = refl
  tool_turns-unrecorded (suc left) msgs x =
      let x' : W × Log = (recorded_model model msgs options x).1 in
      elim (Result-cases (first_choice (model msgs options x.0).0)) [
        | inr (e, failed) ↦ rw (failed, tool_turns) refl
        | inl (choice, first) ↦ elim (Bool-cases (is_empty choice.tool_calls)) [
          | inl done ↦ rw (first, done, tool_turns) refl
          | inr asked ↦
              let start = msgs ++ assistant_message choice.tool_calls ∷ [] in
              let ran =
                run_tool_calls (recorded_model model) decode tools' options c choice.tool_calls
                  start x' in
              let same = run_tool_calls-unrecorded choice.tool_calls start x' in
              elim (Result-cases ran.0) [
                | inr (e, failed) ↦
                    let failed' = sym (ap (λ r. r.0) same) ∙ failed in
                    rw (first, asked, failed, failed', tool_turns) (ap (λ r. (err e, r.1)) same)
                | inl (msgs', answered) ↦
                    let answered' = sym (ap (λ r. r.0) same) ∙ answered in
                    rw (first, asked, answered, answered', tool_turns)
                      (tool_turns-unrecorded left msgs' ran.1
                        ∙ ap (λ r. tool_turns model decode tools options c left msgs' r.1) same)
              ]
        ]
      ]

-- At most `limit` exchanges, and exactly so many where the run gave up for their number.
abbrev pub IsWithin : ℕ → Log → Result ToolLoopError State → Type 0
IsWithin limit log (ok out) = length log ≤ limit
IsWithin limit log (err (turns_exceeded n)) = (length log ≡ limit) × (n ≡ limit)
IsWithin limit log (err e) = length log ≤ limit

tool_fault-IsWithin :
    (limit : ℕ) (calls : List ToolCall) (log : Log) (e : ToolLoopError)
    → length log ≤ limit
    → IsToolFault calls e
    → IsWithin limit log (err e)
tool_fault-IsWithin limit calls log (ToolLoop.model_error e) h k = h
tool_fault-IsWithin limit calls log (ToolLoop.unknown_tool n) h k = h
tool_fault-IsWithin limit calls log (ToolLoop.decode_tool_args e) h k = h
tool_fault-IsWithin limit calls log (ToolLoop.tool_error e) h k = h
tool_fault-IsWithin limit calls log (turns_exceeded n) h k = absurd k

Ends-IsWithin :
    {W : Type 0} {model : Model W} {decode : Text → Result Text Arguments} {tools : List (Tool W)}
    {options : Option (List LlmTool)} {opening : List Message} {start : W} {c : NodeSettings}
    {limit : ℕ} {log : Log} {out : Result ToolLoopError State}
    → Ends model decode tools options opening start c limit log out
    → IsWithin limit log out
Ends-IsWithin (with_reply chain within sent first done) = omega arith
Ends-IsWithin (with_model_error chain within sent failed) = omega arith
Ends-IsWithin {limit}
      (with_tool_fault {log} {msgs} {a} {choice} {e} chain within sent first fault) =
    tool_fault-IsWithin limit choice.tool_calls ((record { sent = msgs; answer = a }) ∷ log) e
      (omega arith) fault
Ends-IsWithin (out_of_turns chain full) = (full, refl)

no_tool-Mirrors : {W : Type 0} → Mirrors {W = W} [] []
unfolding lookup
no_tool-Mirrors n = refl

-- A run of the node makes at most eight calls of the model, and exactly eight where it gives up for
-- their number; recording the calls changes neither the result nor the world.
pub tool_model_node-IsWithin :
    {W : Type 0} (model : Model W) (decode : Text → Result Text Arguments) (tools : List (Tool W))
    (opts : List NodeOption) (s : State) (w : W)
    → let run = recorded_run model decode tools opts s w in
      IsWithin max_tool_turns run.1.1 run.0
      × ((run.0, run.1.0) ≡ tool_model_node model decode tools opts s w)
unfolding tool_model_node
tool_model_node-IsWithin model decode tools opts s w =
    let (opening, opens, ends) = tool_model_node-Ends model decode tools opts s w in
    let c = resolve opts in
    (
      Ends-IsWithin ends,
      rw (llm_tools-recorded tools) (
          tool_turns-unrecorded model decode (by_name [] tools)
            (by_name [] (map recorded_tool tools)) (by_name-Mirrors tools [] [] no_tool-Mirrors)
            (call_options (llm_tools tools)) c max_tool_turns (opening_messages c s) (w, [])),
    )
