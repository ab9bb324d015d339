-- ===== src/Adapters/Tests.antt =====
-- Runs of the adapters' nodes, and the theorems on the tool loop at a concrete model.
use go_ai.Prelude.{ℕ, zero, suc, ◌≡◌, refl, none, some, List, [], ◌∷◌, Result, ok, err}
use go_ai.Text.{Text, codes, ◌==◌}
use go_ai.Dict.{lookup, insert}
use go_ai.Value.{null, text}
use go_ai.Agent.State.{State, channel}
use go_ai.Mcp.{Tool, Arguments}
use go_ai.Adapters.Options.{
  NodeOption, with_system_prompt, with_input_key, apply_all, resolve, prompt_of,
}
use go_ai.Adapters.Eino.{
  EinoMessage, EinoModel, system_message, user_message, eino_messages, eino_reply, chat_model_node,
}
use go_ai.Adapters.Langchaingo.{Model, opening_messages, first_choice, model_node}
use go_ai.Adapters.ToolLoop.{
  turns_exceeded, max_tool_turns, unknown_tool, llm_tools, by_name, call_options, tool_arguments,
  run_tool_calls, tool_turns, tool_model_node,
}
use go_ai.Adapters.ToolLoop.Conversation.{recorded_run}
use go_ai.Adapters.ToolLoop.Bound.{IsWithin, tool_model_node-IsWithin}

-- Every definition that the runs below compute with.
nodes : Unit {0}
unfolding lookup insert ◌==◌ channel apply_all resolve prompt_of eino_messages eino_reply
    chat_model_node opening_messages first_choice model_node llm_tools by_name call_options
    tool_arguments run_tool_calls tool_turns tool_model_node
nodes = tt

abbrev greeting : State
greeting = (codes "question", text (codes "hi")) ∷ []

abbrev settings : List NodeOption
settings = with_input_key (codes "question") ∷ with_system_prompt (codes "be brief") ∷ []

-- Its world is the last list of messages that it was sent.
abbrev counting_eino : EinoModel (List EinoMessage)
counting_eino msgs seen = (ok (some (codes "hello")), msgs)

eino_greets : chat_model_node counting_eino settings greeting [] ≡ (
  ok ((codes "output", text (codes "hello")) ∷ []),
  system_message (codes "be brief") ∷ user_message (codes "hi") ∷ [],
)
unfolding nodes
eino_greets = refl

-- A world that counts the model's calls: the model asks for the tool until its third call.
abbrev patient_model : Model ℕ
patient_model msgs options (suc (suc zero)) =
    (ok ((record { content = codes "done"; tool_calls = [] }) ∷ []), 3)
patient_model msgs options n = (
  ok (
      (record {
        content = [];
        tool_calls = (record { id = codes "1"; name = codes "clock"; arguments = [] }) ∷ [];
      })
      ∷ []),
  suc n,
)

-- It never stops asking.
abbrev restless_model : Model ℕ
restless_model msgs options n = (
  ok (
      (record {
        content = [];
        tool_calls = (record { id = codes "1"; name = codes "clock"; arguments = [] }) ∷ [];
      })
      ∷ []),
  suc n,
)

abbrev clock : Tool ℕ
clock = record {
  server = codes "s";
  name = codes "clock";
  description = [];
  schema = null;
  call = λ args n. (ok (codes "noon"), n);
}

abbrev no_arguments : Text → Result Text Arguments
no_arguments t = ok none

patient_run :
    tool_model_node patient_model no_arguments (clock ∷ []) settings greeting 0
    ≡ (ok ((codes "output", text (codes "done")) ∷ []), 3)
unfolding nodes
patient_run = refl

restless_run :
    tool_model_node restless_model no_arguments (clock ∷ []) settings greeting 0
    ≡ (err (turns_exceeded 8), 8)
unfolding nodes
restless_run = refl

toolless_run :
    tool_model_node restless_model no_arguments [] settings greeting 0
    ≡ (err (unknown_tool (codes "clock")), 1)
unfolding nodes
toolless_run = refl

tool_model_node-IsWithin_example :
    let run = recorded_run restless_model no_arguments (clock ∷ []) settings greeting 0 in
    IsWithin max_tool_turns run.1.1 run.0
    × ((run.0, run.1.0)
        ≡ tool_model_node restless_model no_arguments (clock ∷ []) settings greeting 0)
tool_model_node-IsWithin_example =
    tool_model_node-IsWithin restless_model no_arguments (clock ∷ []) settings greeting 0
