-- ===== src/Adapters/ToolLoop.antt =====
-- adapters/langchaingo/tools.go: the loop between a model and the MCP tools that it calls.
pub mod Recorded
pub mod Found
pub mod Conversation
pub mod Bound
use go_ai.Prelude.{
  ℕ, zero, suc, Option, none, some, List, [], ◌∷◌, ◌++◌, map, Result, ok, err, if◌then◌else◌,
}
use go_ai.Text.{Text, codes}
use go_ai.Dict.{Dict, lookup, insert}
use go_ai.Value.{text}
use go_ai.Agent.State.{State}
use go_ai.Agent.Graph.{is_empty}
use go_ai.Mcp.{Tool, Arguments, McpError}
use go_ai.Adapters.Options.{NodeSettings, NodeOption, resolve}
use go_ai.Adapters.Langchaingo.{
  Role, role_ai, role_tool, ToolCall, tool_call, tool_call_response, Message, Choice, LlmTool,
  Model, ModelError, opening_messages, first_choice,
}

abbrev pub max_tool_turns : ℕ
max_tool_turns = 8

pub data ToolLoopError : Type 0 where
  model_error : ModelError → ToolLoopError
  unknown_tool : Text → ToolLoopError
  decode_tool_args : Text → ToolLoopError
  tool_error : McpError → ToolLoopError
  turns_exceeded : ℕ → ToolLoopError

unfoldable pub llm_tools : {W : Type 0} → List (Tool W) → List LlmTool
llm_tools [] = []
llm_tools (t ∷ ts) =
    (record {
      kind = codes "function";
      name = t.name;
      description = t.description;
      parameters = t.schema;
    })
    ∷ llm_tools ts

-- The map `byName`: of two tools of one name the later one stays.
unfoldable pub by_name : {W : Type 0} → Dict (Tool W) → List (Tool W) → Dict (Tool W)
by_name found [] = found
by_name found (t ∷ ts) = by_name (insert t.name t found) ts

unfoldable pub call_options : List LlmTool → Option (List LlmTool)
call_options ts = if is_empty ts then none else some ts

abbrev pub assistant_message : List ToolCall → Message
assistant_message calls = record { role = role_ai; parts = map tool_call calls }

abbrev pub response_message : ToolCall → Text → Message
response_message tc result = record {
  role = role_tool;
  parts = tool_call_response tc.id tc.name result ∷ [];
}

-- `json.Unmarshal` into a map, none for null.
unfoldable pub tool_arguments : (Text → Result Text Arguments) → Text → Result Text Arguments
tool_arguments decode a = if is_empty a then ok none else decode a

module _ {W : Type 0} (model : Model W) (decode : Text → Result Text Arguments)
    (tools : Dict (Tool W)) (options : Option (List LlmTool)) (c : NodeSettings) where
  -- The loop over the calls of one reply.
  unfoldable pub run_tool_calls :
      List ToolCall → List Message → W → Result ToolLoopError (List Message) × W
  unfolding tool_arguments
  run_tool_calls [] msgs w = (ok msgs, w)
  run_tool_calls (tc ∷ calls) msgs w = elim (lookup tc.name tools) [
    | none ↦ (err (unknown_tool tc.name), w)
    | some tool ↦ elim (tool_arguments decode tc.arguments) [
      | err e ↦ (err (decode_tool_args e), w)
      | ok args ↦
          let (answer, w') = tool.call args w in
          (elim answer [
            | err e ↦ (err (tool_error e), w')
            | ok result ↦ run_tool_calls calls (msgs ++ response_message tc result ∷ []) w'
          ])
    ]
  ]

  -- The loop over the turns, with the turns that are left.
  unfoldable pub tool_turns : ℕ → List Message → W → Result ToolLoopError State × W
  unfolding first_choice run_tool_calls
  tool_turns zero msgs w = (err (turns_exceeded max_tool_turns), w)
  tool_turns (suc left) msgs w =
      let rest = λ (msgs' : List Message) (w' : W). tool_turns left msgs' w' in
      let (answer, w₁) = model msgs options w in
      elim (first_choice answer) [
        | err e ↦ (err (model_error e), w₁)
        | ok choice ↦
            if is_empty choice.tool_calls
            then (ok ((c.output_key, text choice.content) ∷ []), w₁)
            else (let (ran, w₂) =
                  run_tool_calls choice.tool_calls
                    (msgs ++ assistant_message choice.tool_calls ∷ []) w₁ in
                elim ran [ err e ↦ (err e, w₂) | ok msgs' ↦ rest msgs' w₂ ])
      ]

unfoldable pub tool_model_node :
    {W : Type 0}
    → Model W
    → (Text → Result Text Arguments)
    → List (Tool W)
    → List NodeOption
    → State
    → W
    → Result ToolLoopError State × W
unfolding resolve llm_tools by_name call_options opening_messages tool_turns
tool_model_node model decode tools opts s w =
    let c = resolve opts in
    tool_turns model decode (by_name [] tools) (call_options (llm_tools tools)) c max_tool_turns
      (opening_messages c s) w
