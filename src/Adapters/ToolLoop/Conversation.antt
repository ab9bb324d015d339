-- ===== src/Adapters/ToolLoop/Conversation.antt =====
-- adapters/langchaingo/tools.go: the conversation of a run, as the model sees it.
use go_ai.Prelude.{
  false≢true, none, ℕ, zero, suc, ◌+◌, ◌≡◌, refl, sym, ap, ◌∙◌, subst, inl, inr, false, Option,
  List, [], ◌∷◌, ◌++◌, map, length, Result, ok, err, arith, Bool-cases, Option-cases, Result-cases,
}
use mathlib.Core.List.{append-nil, append_assoc}
use go_ai.Text.{Text}
use go_ai.Dict.{Dict, lookup}
use go_ai.Agent.State.{State}
use go_ai.Agent.Graph.{is_empty, is_empty-nil}
use go_ai.Mcp.{Tool, Arguments}
use go_ai.Adapters.Options.{NodeSettings, NodeOption, resolve}
use go_ai.Adapters.Langchaingo.{
  Message, ToolCall, Choice, LlmTool, Model, opening_messages, first_choice,
}
use go_ai.Adapters.ToolLoop
use go_ai.Adapters.ToolLoop.{
  ToolLoopError, max_tool_turns, unknown_tool, decode_tool_args, tool_error, by_name, llm_tools,
  call_options, assistant_message, response_message, tool_arguments, run_tool_calls, tool_turns,
  tool_model_node,
}
use go_ai.Adapters.ToolLoop.Found.{Finds, by_name-Finds, no_tool-Finds}
use go_ai.Adapters.ToolLoop.Recorded.{
  Log, recorded_model, recorded_tool, IsArguments, IsOpening, IsLast, Responses, no_calls,
  then_response, IsChain, at_start, then_turn, IsToolFault, Ends, with_reply, with_model_error,
  with_tool_fault, out_of_turns,
}

pub llm_tools-recorded :
    {W : Type 0} (ts : List (Tool W)) → llm_tools (map recorded_tool ts) ≡ llm_tools ts
unfolding llm_tools
llm_tools-recorded [] = refl
llm_tools-recorded (t ∷ ts) = rw (llm_tools-recorded ts) refl

tool_arguments-IsArguments :
    (decode : Text → Result Text Arguments) (a : Text) (args : Arguments)
    → tool_arguments decode a ≡ ok args
    → IsArguments decode a args
unfolding tool_arguments
tool_arguments-IsArguments decode [] args h = let same : none ≡ args = cc in sym same
tool_arguments-IsArguments decode (b ∷ a) args h = h

opening_messages-IsOpening : (c : NodeSettings) (s : State) → IsOpening c s (opening_messages c s)
unfolding opening_messages
opening_messages-IsOpening c s = elim (Bool-cases (is_empty c.system)) [
  | inl blank ↦ inl (is_empty-nil c.system blank, rw (blank, opening_messages) refl)
  | inr given ↦
      inr ((λ e. false≢true (sym given ∙ ap is_empty e)), rw (given, opening_messages) refl)
]

IsToolFault-later :
    (tc : ToolCall) (calls : List ToolCall) (e : ToolLoopError)
    → IsToolFault calls e
    → IsToolFault (tc ∷ calls) e
IsToolFault-later tc calls (ToolLoop.model_error e) h = h
IsToolFault-later tc calls (unknown_tool n) h = inr h
IsToolFault-later tc calls (decode_tool_args e) h = h
IsToolFault-later tc calls (tool_error e) h = h
IsToolFault-later tc calls (ToolLoop.turns_exceeded n) h = h

module _ {W : Type 0} (model : Model W) (decode : Text → Result Text Arguments) (ts : List (Tool W))
    (tools : Dict (Tool (W × Log))) (finds : Finds ts tools) (options : Option (List LlmTool))
    (c : NodeSettings) (opening : List Message) (start : W) where
  abbrev ran :
      List ToolCall → List Message → W × Log → Result ToolLoopError (List Message) × (W × Log)
  ran = run_tool_calls (recorded_model model) decode tools options c

  abbrev IsRan :
      List ToolCall
      → List Message
      → W × Log
      → Result ToolLoopError (List Message)
      → W × Log
      → Type 0
  IsRan calls msgs x (ok out) y =
      (y.1 ≡ x.1) × (rs : List Message) × Responses decode ts calls rs x.0 y.0 × (out ≡ msgs ++ rs)
  IsRan calls msgs x (err e) y = (y.1 ≡ x.1) × IsToolFault calls e

  IsRan-next :
      (tc : ToolCall) (calls : List ToolCall) (msgs : List Message) (u : Tool W) (args : Arguments)
      (result : Text) (x x' y : W × Log) (out : Result ToolLoopError (List Message))
      → IsLast ts tc.name u
      → IsArguments decode tc.arguments args
      → u.call args x.0 ≡ (ok result, x'.0)
      → x'.1 ≡ x.1
      → IsRan calls (msgs ++ response_message tc result ∷ []) x' out y
      → IsRan (tc ∷ calls) msgs x out y
  IsRan-next tc calls msgs u args result x x' y (err e) last given called same (kept, fault) =
      (kept ∙ same, IsToolFault-later tc calls e fault)
  IsRan-next tc calls msgs u args result x x' y (ok out) last given called same
        (kept, rs, answered, made) =
      (
        kept ∙ same,
        response_message tc result ∷ rs,
        then_response u args result last given called answered,
        made ∙ append_assoc msgs (response_message tc result ∷ []) rs,
      )

  -- A recorded tool answers as the tool does, and leaves the record as it is.
  recorded_call :
      (u : Tool W) (t : Tool (W × Log)) (args : Arguments) (x : W × Log)
      → t ≡ recorded_tool u
      → (u.call args x.0 ≡ ((t.call args x).0, (t.call args x).1.0)) × ((t.call args x).1.1 ≡ x.1)
  recorded_call u t args x same =
      let e = ap (λ (v : Tool (W × Log)). v.call args x) same in
      (ap (λ r. (r.0, r.1.0)) (sym e), ap (λ r. r.1.1) e)

  run_tool_calls-IsRan :
      (calls : List ToolCall) (msgs : List Message) (x : W × Log)
      → IsRan calls msgs x (ran calls msgs x).0 (ran calls msgs x).1
  unfolding run_tool_calls
  run_tool_calls-IsRan [] msgs x = (refl, [], no_calls, sym (append-nil msgs))
  run_tool_calls-IsRan (tc ∷ calls) msgs x = elim (Option-cases (lookup tc.name tools)) [
    | inl missing ↦ rw (missing, run_tool_calls) (refl, inl refl)
    | inr (tool, found) ↦ elim (Result-cases (tool_arguments decode tc.arguments)) [
      | inr (e, failed) ↦ rw (found, failed, run_tool_calls) (refl, tt)
      | inl (args, decoded) ↦
          let (u, last, recorded) = finds tc.name tool found in
          let (answers, same) = recorded_call u tool args x recorded in
          elim (Result-cases (tool.call args x).0) [
            | inr (e, failed) ↦ rw (found, decoded, failed, run_tool_calls) (same, tt)
            | inl (result, called) ↦
                let msgs' = msgs ++ response_message tc result ∷ [] in
                let x' = (tool.call args x).1 in
                rw (found, decoded, called, run_tool_calls)
                  (IsRan-next tc calls msgs u args result x x' (ran calls msgs' x').1
                    (ran calls msgs' x').0 last
                    (tool_arguments-IsArguments decode tc.arguments args decoded)
                    (answers ∙ ap (λ r. (r, x'.0)) called) same
                    (run_tool_calls-IsRan calls msgs' x'))
          ]
    ]
  ]

  abbrev turns : ℕ → List Message → W × Log → Result ToolLoopError State × (W × Log)
  turns = tool_turns (recorded_model model) decode tools options c

  abbrev Chain : Log → List Message → W → Type 0
  Chain = IsChain model decode ts options opening start

  abbrev Ended : Log → Result ToolLoopError State → Type 0
  Ended = Ends model decode ts options opening start c max_tool_turns

  -- After the calls of a reply, of which the turns below the bound `left` are done.
  turns_continued :
      (left : ℕ) (msgs : List Message) (x y : W × Log) (a : Result Text (List Choice)) (w' : W)
      (choice : Choice) (out : Result ToolLoopError (List Message))
      → Chain x.1 msgs x.0
      → length x.1 + suc left ≡ max_tool_turns
      → model msgs options x.0 ≡ (a, w')
      → first_choice a ≡ ok choice
      → is_empty choice.tool_calls ≡ false
      → IsRan choice.tool_calls
          (msgs ++ assistant_message choice.tool_calls ∷ [])
          (w', (record { sent = msgs; answer = a }) ∷ x.1)
          out
          y
      → ((msgs' : List Message)
          → Chain y.1 msgs' y.0
          → length y.1 + left ≡ max_tool_turns
          → Ended (turns left msgs' y).1.1 (turns left msgs' y).0)
      → let final = elim out as (λ r. Result ToolLoopError State × (W × Log)) [
        | err e ↦ (err e, y)
        | ok msgs' ↦ turns left msgs' y
      ] in
        Ended final.1.1 final.0
  turns_continued left msgs x y a w' choice (err e) chain within sent first asked (kept, fault)
        later =
      rw kept (with_tool_fault chain (omega arith) sent first fault)
  turns_continued left msgs x y a w' choice (ok out) chain within sent first asked
        (kept, rs, answered, made) later =
      later out
        (subst (λ l. Chain l out y.0) (sym kept)
          (subst (λ m. Chain ((record { sent = msgs; answer = a }) ∷ x.1) m y.0) (sym made)
            (then_turn chain sent first asked answered)))
        (let longer = ap length kept in omega arith)

  tool_turns-Ends :
      (left : ℕ) (msgs : List Message) (x : W × Log)
      → Chain x.1 msgs x.0
      → length x.1 + left ≡ max_tool_turns
      → Ended (turns left msgs x).1.1 (turns left msgs x).0
  unfolding tool_turns
  tool_turns-Ends zero msgs x chain within = out_of_turns chain (omega arith)
  tool_turns-Ends (suc left) msgs x chain within =
      let (a, w') = model msgs options x.0 in
      let x' : W × Log = (recorded_model model msgs options x).1 in
      elim (Result-cases (first_choice a)) [
        | inr (e, failed) ↦
            rw (failed, tool_turns) (with_model_error {w' = w'} chain (omega arith) refl failed)
        | inl (choice, first) ↦ elim (Bool-cases (is_empty choice.tool_calls)) [
          | inl done ↦
              rw (first, done, tool_turns)
                (with_reply {w' = w'} chain (omega arith) refl first done)
          | inr asked ↦
              let start = msgs ++ assistant_message choice.tool_calls ∷ [] in
              rw (first, asked, tool_turns)
                (turns_continued left msgs x (ran choice.tool_calls start x').1 a w' choice
                  (ran choice.tool_calls start x').0 chain within refl first asked
                  (run_tool_calls-IsRan choice.tool_calls start x')
                  (λ msgs' chain' within'.
                    tool_turns-Ends left msgs' (ran choice.tool_calls start x').1 chain' within'))
        ]
      ]

-- A run of the node, on a model whose exchanges are recorded.
abbrev pub recorded_run :
    {W : Type 0}
    → Model W
    → (Text → Result Text Arguments)
    → List (Tool W)
    → List NodeOption
    → State
    → W
    → Result ToolLoopError State × (W × Log)
unfolding tool_model_node
recorded_run model decode tools opts s w =
    tool_model_node (recorded_model model) decode (map recorded_tool tools) opts s (w, [])

pub tool_model_node-Ends :
    {W : Type 0} (model : Model W) (decode : Text → Result Text Arguments) (tools : List (Tool W))
    (opts : List NodeOption) (s : State) (w : W)
    → let run = recorded_run model decode tools opts s w in
      let options = call_options (llm_tools tools) in
      (opening : List Message) × IsOpening (resolve opts) s opening
      × Ends model decode tools options opening w (resolve opts) max_tool_turns run.1.1 run.0
unfolding tool_model_node
tool_model_node-Ends {W} model decode tools opts s w =
    let c = resolve opts in
    let opening = opening_messages c s in
    (
      opening,
      opening_messages-IsOpening c s,
      rw (llm_tools-recorded tools) (
          tool_turns-Ends model decode tools (by_name [] (map recorded_tool tools))
            (by_name-Finds tools [] [] (no_tool-Finds W)) (call_options (llm_tools tools)) c opening
            w max_tool_turns opening (w, []) at_start refl),
    )
