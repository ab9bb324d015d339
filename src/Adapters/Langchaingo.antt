-- ===== src/Adapters/Langchaingo.antt =====
-- adapters/langchaingo/langchaingo.go: a LangChainGo chat model as a node, and the messages that the
-- adapter exchanges with it. The model is a parameter.
use go_ai.Prelude.{Option, none, List, [], ◌∷◌, ◌++◌, Result, ok, err, if◌then◌else◌}
use go_ai.Text.{Text}
use go_ai.Value.{Value, text}
use go_ai.Agent.State.{State}
use go_ai.Agent.Graph.{is_empty}
use go_ai.Adapters.Options.{NodeSettings, NodeOption, resolve, prompt_of}

pub data Role : Type 0 where
  role_system role_human role_ai role_tool : Role

-- A call that the model asks for. Its function call, a pointer in Go, is not nil.
pub record ToolCall : Type 0 where
  pub id : Text
  pub name : Text
  pub arguments : Text

pub data Part : Type 0 where
  text_content : Text → Part
  tool_call : ToolCall → Part
  tool_call_response : (id name content : Text) → Part

pub record Message : Type 0 where
  pub role : Role
  pub parts : List Part

pub record Choice : Type 0 where
  pub content : Text
  pub tool_calls : List ToolCall

pub record LlmTool : Type 0 where
  pub kind : Text
  pub name : Text
  pub description : Text
  pub parameters : Value

-- `GenerateContent`: the messages, the tools of `llms.WithTools` where that option is given, and the
-- choices of the answer.
abbrev pub Model : Type 0 → Type 0
Model W = List Message → Option (List LlmTool) → W → Result Text (List Choice) × W

pub data ModelError : Type 0 where
  model_call : Text → ModelError
  no_choices : ModelError

unfoldable pub opening_messages : NodeSettings → State → List Message
unfolding prompt_of
opening_messages c s =
    (if is_empty c.system
      then []
      else (record { role = role_system; parts = text_content c.system ∷ [] }) ∷ [])
    ++ (record { role = role_human; parts = text_content (prompt_of c s) ∷ [] }) ∷ []

-- The first choice of an answer.
unfoldable pub first_choice : Result Text (List Choice) → Result ModelError Choice
first_choice (err e) = err (model_call e)
first_choice (ok []) = err no_choices
first_choice (ok (choice ∷ more)) = ok choice

abbrev reply_state : NodeSettings → Result ModelError Choice → Result ModelError State
reply_state c (err e) = err e
reply_state c (ok choice) = ok ((c.output_key, text choice.content) ∷ [])

unfoldable pub model_node :
    {W : Type 0} → Model W → List NodeOption → State → W → Result ModelError State × W
unfolding resolve opening_messages first_choice
model_node model opts s w =
    let c = resolve opts in
    let (answer, w') = model (opening_messages c s) none w in
    (reply_state c (first_choice answer), w')
