-- ===== src/Registry/Records.antt =====
-- registry/metadata.go: the agent record, and how it is built.
use go_ai.Prelude.{Bool, false, Option, some, List, [], ◌∷◌, ◌++◌, nat_eq, if◌then◌else◌}
use go_ai.Prelude.Int.{ℤ}
use go_ai.Text.{Text, codes}
use go_ai.Text.Space.{trim_space}
use go_ai.Dict.{Dict, lookup}
use go_ai.Value.{Value, text, texts}
use go_ai.Agent.Graph.{is_empty}

abbrev pub default_team : Text
default_team = codes "default"

abbrev pub schema_version : Text
schema_version = codes "edge"

abbrev pub agent_type_durable : Text
agent_type_durable = codes "durable"

pub record ToolMetadata : Type 0 where
  pub name : Text
  pub description : Text
  pub args : Text

pub record AgentSpec : Type 0 where
  pub app_id : Text
  pub kind : Text
  pub orchestrator : Bool
  pub framework : Text
  pub role : Text
  pub goal : Text
  pub max_iterations : ℤ
  pub metadata : Dict Value

pub record RegistryRef : Type 0 where
  pub name : Text
  pub resource_name : Text

pub record AgentRecord : Type 0 where
  pub version : Text
  pub agent : AgentSpec
  pub name : Text
  pub registered_at : Text
  pub registry : Option RegistryRef
  pub tools : List ToolMetadata

pub record AgentInfo : Type 0 where
  pub name : Text
  pub framework : Text
  pub team : Text
  pub app_id : Text
  pub role : Text
  pub goal : Text
  pub max_steps : ℤ
  pub nodes : List Text
  pub tools : List ToolMetadata

-- `strings.NewReplacer(" ", "_", "-", "_")`, whose patterns are single bytes.
unfoldable pub underscored : Text → Text
underscored [] = []
underscored (c ∷ s) =
    (if nat_eq c b' ' then b'_' else if nat_eq c b'-' then b'_' else c) ∷ underscored s

-- `strings.ToLower` is the first argument.
module _ (to_lower : Text → Text) where
  -- The closure `norm`.
  unfoldable pub norm : Text → Text
  unfolding underscored
  norm s = underscored (to_lower (trim_space s))

  unfoldable pub build_workflow_name : Text → Text → Text
  unfolding norm
  build_workflow_name framework name =
      codes "dapr." ++ norm framework ++ codes "." ++ norm name ++ codes ".workflow"

  -- `now` is the formatted time.
  unfoldable pub new_agent_record : Text → AgentInfo → AgentRecord
  unfolding build_workflow_name
  new_agent_record now info =
      let team = if is_empty info.team then default_team else info.team in
      let named : Dict Value =
        (codes "workflow_name", text (build_workflow_name info.framework info.name)) ∷ [] in
      let meta =
        if is_empty info.nodes then named else named ++ (codes "nodes", texts info.nodes) ∷ [] in
      record {
        version = schema_version;
        name = info.name;
        registered_at = now;
        agent = record {
          app_id = info.app_id;
          kind = agent_type_durable;
          orchestrator = false;
          framework = info.framework;
          role = info.role;
          goal = info.goal;
          max_iterations = info.max_steps;
          metadata = meta;
        };
        registry = some (record { name = team; resource_name = [] });
        tools = info.tools;
      }

-- A type assertion to string: the empty string where it fails.
abbrev pub as_text : Option Value → Text
as_text (some (text w)) = w
as_text _ = []

unfoldable pub workflow_name : AgentRecord → Text
workflow_name r = as_text (lookup (codes "workflow_name") r.agent.metadata)
