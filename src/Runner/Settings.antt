-- ===== src/Runner/Settings.antt =====
-- runner.go: the configuration of a runner, and what `NewRunner` reads from it.
use go_ai.Prelude.{Option, none, some, List, [], ◌∷◌, Result, ok, err, if◌then◌else◌}
use go_ai.Prelude.Int.{ℤ}
use go_ai.Text.{Text, codes, contains}
use go_ai.Agent.State.{StateError}
use go_ai.Agent.Graph.{Graph, AgentError, is_empty}
use go_ai.Agent.Compile.{CompiledGraph, node_names}
use go_ai.Durable.Workflow.{NodeRetryPolicy}
use go_ai.Durable.Backend.{BackendError}
use go_ai.Registry.Records.{ToolMetadata, AgentInfo}
use go_ai.Registry.Directory.{RegistryError}

pub record ToolInfo : Type 0 where
  pub name : Text
  pub description : Text
  pub args : Text

-- `graph` is none for a nil graph.
pub record Config (W : Type 0) : Type 0 where
  pub graph : Option (Graph W)
  pub name : Text
  pub framework : Text
  pub max_steps : ℤ
  pub role : Text
  pub goal : Text
  pub team : Text
  pub app_id : Text
  pub registry_store : Text
  pub tools : List ToolInfo
  pub node_retry : Option NodeRetryPolicy

-- `Invoke` fails with the last two.
pub data RunnerError : Type 0 where
  graph_required : RunnerError
  name_required : RunnerError
  framework_required : RunnerError
  compile_failed : AgentError → RunnerError
  backend_failed : BackendError → RunnerError
  client_failed : Text → RunnerError
  register_failed : RegistryError → RunnerError
  input_failed : StateError → RunnerError
  run_failed : BackendError → RunnerError

-- The sidecar's metadata, as far as it is read: its id and the names of its components.
pub record SidecarMetadata : Type 0 where
  pub id : Text
  pub components : List Text

abbrev pub agent_registry_component : Text
agent_registry_component = codes "agent-registry"

unfoldable pub tool_metadata : List ToolInfo → List ToolMetadata
tool_metadata [] = []
tool_metadata (t ∷ ts) =
    (record { name = t.name; description = t.description; args = t.args }) ∷ tool_metadata ts

unfoldable pub env_or : (Text → Text) → Text → Text → Text
env_or getenv key default = if is_empty (getenv key) then default else getenv key

unfoldable pub discover_registry_store : Option SidecarMetadata → Text
unfolding contains
discover_registry_store none = codes "kvstore"
discover_registry_store (some md) =
    if contains agent_registry_component md.components
    then agent_registry_component
    else codes "kvstore"

-- The three checks at the head of `NewRunner`.
unfoldable pub check_config : {W : Type 0} → Config W → Result RunnerError (Graph W)
check_config cfg = elim cfg.graph [
  | none ↦ err graph_required
  | some g ↦
      if is_empty cfg.name
      then err name_required
      else if is_empty cfg.framework
      then err framework_required
      else ok g
]

abbrev sidecar_id : Option SidecarMetadata → Text
sidecar_id none = []
sidecar_id (some md) = md.id

abbrev pub or_else : Text → Text → Text
or_else [] other = other
or_else (c ∷ t) other = c ∷ t

-- `appID`: of the configuration, of the sidecar, or the agent's name.
unfoldable pub app_id_of : {W : Type 0} → Config W → Option SidecarMetadata → Text
app_id_of cfg md = or_else (or_else cfg.app_id (sidecar_id md)) cfg.name

-- `regStore`: of the configuration, of the environment, or discovered.
unfoldable pub registry_store_of :
    {W : Type 0} → (Text → Text) → Config W → Option SidecarMetadata → Text
unfolding env_or discover_registry_store
registry_store_of getenv cfg md =
    or_else (or_else cfg.registry_store (env_or getenv (codes "GOAI_REGISTRY_STORE") []))
      (discover_registry_store md)

unfoldable pub agent_info :
    {W : Type 0} → Config W → CompiledGraph W → Option SidecarMetadata → AgentInfo
unfolding app_id_of tool_metadata node_names
agent_info cfg cg md = record {
  name = cfg.name;
  framework = cfg.framework;
  team = cfg.team;
  app_id = app_id_of cfg md;
  role = cfg.role;
  goal = cfg.goal;
  max_steps = cfg.max_steps;
  nodes = node_names cg;
  tools = tool_metadata cfg.tools;
}
