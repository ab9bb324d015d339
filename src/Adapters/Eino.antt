-- ===== src/Adapters/Eino.antt =====
-- adapters/eino/eino.go: an Eino chat model as a node. The model is a parameter.
use go_ai.Prelude.{Option, none, some, List, [], ◌∷◌, ◌++◌, Result, ok, err, if◌then◌else◌}
use go_ai.Text.{Text}
use go_ai.Value.{text}
use go_ai.Agent.State.{State}
use go_ai.Agent.Graph.{is_empty}
use go_ai.Adapters.Options.{NodeSettings, NodeOption, resolve, prompt_of}

pub data EinoMessage : Type 0 where
  system_message : Text → EinoMessage
  user_message : Text → EinoMessage

pub data EinoError : Type 0 where
  model_generate : Text → EinoError
  nil_message : EinoError

-- `Generate`: the content of the reply, none where the reply is nil.
abbrev pub EinoModel : Type 0 → Type 0
EinoModel W = List EinoMessage → W → Result Text (Option Text) × W

unfoldable pub eino_messages : NodeSettings → State → List EinoMessage
unfolding prompt_of
eino_messages c s =
    (if is_empty c.system then [] else system_message c.system ∷ [])
    ++ user_message (prompt_of c s) ∷ []

unfoldable pub eino_reply : NodeSettings → Result Text (Option Text) → Result EinoError State
eino_reply c (err e) = err (model_generate e)
eino_reply c (ok none) = err nil_message
eino_reply c (ok (some content)) = ok ((c.output_key, text content) ∷ [])

unfoldable pub chat_model_node :
    {W : Type 0} → EinoModel W → List NodeOption → State → W → Result EinoError State × W
unfolding resolve eino_messages eino_reply
chat_model_node model opts s w =
    let c = resolve opts in
    let (answer, w') = model (eino_messages c s) w in (eino_reply c answer, w')
