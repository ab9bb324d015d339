-- ===== src/Adapters/Options.antt =====
-- The options of a node, which adapters/langchaingo/langchaingo.go and adapters/eino/eino.go declare
-- alike, and the prompt that each node reads.
use go_ai.Prelude.{List, [], ◌∷◌}
use go_ai.Text.{Text, codes}
use go_ai.Value.{Value, text}
use go_ai.Agent.State.{State, channel}

pub record NodeSettings : Type 0 where
  pub system : Text
  pub input_key : Text
  pub output_key : Text

-- What `WithSystemPrompt`, `WithInputKey` and `WithOutputKey` return.
pub data NodeOption : Type 0 where
  with_system_prompt : Text → NodeOption
  with_input_key : Text → NodeOption
  with_output_key : Text → NodeOption

abbrev pub apply_option : NodeOption → NodeSettings → NodeSettings
apply_option (with_system_prompt s) c = record c { system = s }
apply_option (with_input_key k) c = record c { input_key = k }
apply_option (with_output_key k) c = record c { output_key = k }

-- The loop of `resolve`, in the order of the options.
unfoldable pub apply_all : NodeSettings → List NodeOption → NodeSettings
apply_all c [] = c
apply_all c (o ∷ opts) = apply_all (apply_option o c) opts

unfoldable pub resolve : List NodeOption → NodeSettings
unfolding apply_all
resolve opts =
    apply_all (record { system = []; input_key = codes "input"; output_key = codes "output" }) opts

-- `v.(string)` with the failure dropped: the empty text.
abbrev pub text_or_empty : Value → Text
text_or_empty (text t) = t
text_or_empty v = []

-- `prompt, _ := s[c.inputKey].(string)`.
unfoldable pub prompt_of : NodeSettings → State → Text
unfolding channel
prompt_of c s = text_or_empty (channel c.input_key s)
