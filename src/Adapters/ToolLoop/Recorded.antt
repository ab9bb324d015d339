-- ===== src/Adapters/ToolLoop/Recorded.antt =====
-- adapters/langchaingo/tools.go: a model whose exchanges are recorded, and how a run of the tool loop
-- looks in the record.
use go_ai.Prelude.{
  ℕ, ◌≡◌, ◌≢◌, ◌⊎◌, ◌<◌, false, true, Option, none, List, [], ◌∷◌, ◌++◌, map, length, Result, ok,
  err, Elem, All,
}
use go_ai.Text.{Text}
use go_ai.Value.{text}
use go_ai.Agent.State.{State}
use go_ai.Agent.Graph.{is_empty}
use go_ai.Mcp.{Tool, Arguments}
use go_ai.Adapters.Options.{NodeSettings, prompt_of}
use go_ai.Adapters.Langchaingo.{
  role_human, role_system, role_ai, role_tool, text_content, tool_call, tool_call_response, Message,
  ToolCall, Choice, LlmTool, Model, ModelError, first_choice,
}
use go_ai.Adapters.ToolLoop.{
  ToolLoopError, model_error, unknown_tool, decode_tool_args, tool_error, turns_exceeded,
}

pub record Exchange : Type 0 where
  pub sent : List Message
  pub answer : Result Text (List Choice)

-- The latest exchange comes first.
abbrev pub Log : Type 0
Log = List Exchange

abbrev pub recorded_model : {W : Type 0} → Model W → Model (W × Log)
recorded_model model msgs options x =
    let (answer, w') = model msgs options x.0 in
    (answer, (w', (record { sent = msgs; answer = answer }) ∷ x.1))

abbrev pub recorded_tool : {W : Type 0} → Tool W → Tool (W × Log)
recorded_tool t = record {
  server = t.server;
  name = t.name;
  description = t.description;
  schema = t.schema;
  call = λ args x. let (result, w') = t.call args x.0 in (result, (w', x.1));
}

-- Why the calls of a reply were not all answered.
abbrev pub IsToolFault : List ToolCall → ToolLoopError → Type 0
IsToolFault calls (model_error e) = ⊥
IsToolFault calls (unknown_tool n) = Elem n (map (λ (tc : ToolCall). tc.name) calls)
IsToolFault calls (decode_tool_args e) = Unit
IsToolFault calls (tool_error e) = Unit
IsToolFault calls (turns_exceeded n) = ⊥

-- The turn that asks for the calls.
abbrev pub asking : List ToolCall → Message
asking calls = record { role = role_ai; parts = map tool_call calls }

-- What an empty or a JSON text of arguments stands for.
abbrev pub IsArguments : (Text → Result Text Arguments) → Text → Arguments → Type 0
IsArguments decode [] args = args ≡ none
IsArguments decode (b ∷ json) args = decode (b ∷ json) ≡ ok args

-- The node starts with the system prompt, if there is one, and the prompt.
abbrev pub IsOpening : NodeSettings → State → List Message → Type 0
IsOpening c s opening =
    let prompt : Message = record {
      role = role_human;
      parts = text_content (prompt_of c s) ∷ [];
    } in
    ((c.system ≡ []) × (opening ≡ prompt ∷ []))
    ⊎ ((c.system ≢ [])
        × (opening
            ≡ (record { role = role_system; parts = text_content c.system ∷ [] }) ∷ prompt ∷ []))

-- The last tool of that name.
abbrev pub IsLast : {W : Type 0} → List (Tool W) → Text → Tool W → Type 0
IsLast {W} tools n t =
    (before : List (Tool W)) × (after : List (Tool W)) × (tools ≡ before ++ t ∷ after)
    × (t.name ≡ n)
    × All (λ (u : Tool W). u.name ≢ n) after

module _ {W : Type 0} (decode : Text → Result Text Arguments) (tools : List (Tool W)) where
  -- One response for each call, in the order of the calls: under the call's own id and name it has
  -- what the last tool of that name answers to the call's arguments, from the world at that moment.
  pub data Responses : List ToolCall → List Message → W → W → Type 0 where
    no_calls : {w : W} → Responses [] [] w w
    then_response :
        {tc : ToolCall} {calls : List ToolCall} {rs : List Message} {w w' w'' : W} (t : Tool W)
        (args : Arguments) (result : Text)
        → IsLast tools tc.name t
        → IsArguments decode tc.arguments args
        → t.call args w ≡ (ok result, w')
        → Responses calls rs w' w''
        → Responses
            (tc ∷ calls)
            ((record { role = role_tool; parts = tool_call_response tc.id tc.name result ∷ [] })
              ∷ rs)
            w
            w''

module _ {W : Type 0} (model : Model W) (decode : Text → Result Text Arguments)
    (tools : List (Tool W)) (options : Option (List LlmTool)) (opening : List Message)
    (start : W) where
  -- The exchanges so far, what is to be sent next, and the world: the opening, and for each reply the
  -- turn that asks for its calls with the responses to all of them.
  pub data IsChain : Log → List Message → W → Type 0 where
    at_start : IsChain [] opening start
    then_turn :
        {log : Log} {msgs rs : List Message} {a : Result Text (List Choice)} {choice : Choice}
        {w w' w'' : W}
        → IsChain log msgs w
        → model msgs options w ≡ (a, w')
        → first_choice a ≡ ok choice
        → is_empty choice.tool_calls ≡ false
        → Responses decode tools choice.tool_calls rs w' w''
        → IsChain
            ((record { sent = msgs; answer = a }) ∷ log)
            ((msgs ++ asking choice.tool_calls ∷ []) ++ rs)
            w''

  -- How a run of at most `limit` turns ends: with the first reply that asks for no tool, with an error
  -- of the model or of a tool, or after `limit` replies that all asked for tools.
  pub data Ends (c : NodeSettings) (limit : ℕ) : Log → Result ToolLoopError State → Type 0 where
    with_reply :
        {log : Log} {msgs : List Message} {a : Result Text (List Choice)} {choice : Choice}
        {w w' : W}
        → IsChain log msgs w
        → length log < limit
        → model msgs options w ≡ (a, w')
        → first_choice a ≡ ok choice
        → is_empty choice.tool_calls ≡ true
        → Ends c limit
            ((record { sent = msgs; answer = a }) ∷ log)
            (ok ((c.output_key, text choice.content) ∷ []))
    with_model_error :
        {log : Log} {msgs : List Message} {a : Result Text (List Choice)} {e : ModelError}
        {w w' : W}
        → IsChain log msgs w
        → length log < limit
        → model msgs options w ≡ (a, w')
        → first_choice a ≡ err e
        → Ends c limit ((record { sent = msgs; answer = a }) ∷ log) (err (model_error e))
    with_tool_fault :
        {log : Log} {msgs : List Message} {a : Result Text (List Choice)} {choice : Choice}
        {e : ToolLoopError} {w w' : W}
        → IsChain log msgs w
        → length log < limit
        → model msgs options w ≡ (a, w')
        → first_choice a ≡ ok choice
        → IsToolFault choice.tool_calls e
        → Ends c limit ((record { sent = msgs; answer = a }) ∷ log) (err e)
    out_of_turns :
        {log : Log} {msgs : List Message} {w : W}
        → IsChain log msgs w
        → length log ≡ limit
        → Ends c limit log (err (turns_exceeded limit))
