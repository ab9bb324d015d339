-- ===== src/Runner.antt =====
-- runner.go: a graph as a registered durable agent. `NewRunner` composes the compiler, the worker, the
-- registry and the usage report; `Invoke` hands a run to the backend. The lines that it prints are
-- left out.
pub mod Settings
pub mod Tracked
pub mod Resources
pub mod Invocation
mod Tests
use go_ai.Prelude.{
  ℕ, zero, suc, Bool, true, false, Option, none, some, List, [], ◌∷◌, Result, ok, err, map,
  if◌then◌else◌,
}
use go_ai.Prelude.Int.{ℤ, pos, negsuc}
use go_ai.Text.{Text, codes, contains}
use go_ai.Dict.{Dict}
use go_ai.Agent.State.{State, Input, StateError, to_state}
use go_ai.Agent.Graph.{Graph, AgentError, is_empty}
use go_ai.Agent.Compile.{CompiledGraph, compile, node_names}
use go_ai.Durable.Workflow.{NodeRetryPolicy, GraphRegistry, register}
use go_ai.Durable.Backend.{BackendError, WorkflowClient, RunOptions, run}
use go_ai.Durable.Worker.{
  WorkflowRegistry, WorkerRuntime, DaprBackend, new_dapr_backend, close_backend,
}
use go_ai.Registry.Records.{
  ToolMetadata, AgentInfo, AgentRecord, build_workflow_name, new_agent_record,
}
use go_ai.Registry.DaprStore.{DaprClient, dapr_store}
use go_ai.Registry.Directory.{Codec, RegistryError}
use go_ai.Registry.Directory
use go_ai.Analytics.Host.{Process, framework_version}
use go_ai.Runner.Settings.{
  ToolInfo, Config, RunnerError, graph_required, name_required, framework_required, compile_failed,
  backend_failed, client_failed, register_failed, input_failed, run_failed, SidecarMetadata,
  agent_registry_component, tool_metadata, env_or, discover_registry_store, check_config, or_else,
  app_id_of, registry_store_of, agent_info,
}
use go_ai.Analytics.Report.{UsageEvent, with_started, report_usage}

-- A runner's client is nil only where `NewRunner` did not make it.
pub record Runner (H W : Type 0) : Type 0 where
  pub graph : CompiledGraph W
  pub backend : Option (DaprBackend H)
  pub has_client : Bool
  pub agent_record : AgentRecord
  pub workflow_name : Text
  pub node_retry : Option NodeRetryPolicy

-- What the process keeps: the graphs of the worker, the packages reported, and the events for which a
-- sender was started, the latest first.
pub record ProcessState (W : Type 0) : Type 0 where
  pub graphs : GraphRegistry W
  pub reported : Dict Bool
  pub events : List UsageEvent

-- The SDKs, on a state `C`: the worker's calls, the Dapr client with its state API, and `GetMetadata`,
-- none where its answer is nil.
pub record Platform (R H C : Type 0) : Type 0 where
  pub workflows : WorkflowRegistry R
  pub runtime : WorkerRuntime R H C
  pub new_client : C → Option Text × C
  pub close_client : C → C
  pub get_metadata : C → Option SidecarMetadata × C
  pub state_api : DaprClient C

-- The call of `reportUsage`.
unfoldable pub reported_usage :
    {W : Type 0} → Text → Process → Config W → ProcessState W → ProcessState W
unfolding report_usage framework_version
reported_usage endpoint process cfg p =
    let dimensions : Dict Text =
      (codes "kind", codes "agent")
      ∷ (codes "framework", cfg.framework)
      ∷ (codes "framework_version", framework_version process cfg.framework)
      ∷ [] in
    let (reported', started) =
      report_usage endpoint process (codes "go-ai") dimensions p.reported in
    record p { reported = reported'; events = with_started started p.events }

-- What `NewRunner` takes from its surroundings beside the platform: the formatted time, the JSON codecs
-- and the endpoint of the usage report.
pub record Surroundings : Type 0 where
  pub process : Process
  pub usage_endpoint : Text
  pub now : Text
  pub codec : Codec

module _ {R H C W : Type 0} (platform : Platform R H C) (around : Surroundings)
    (cfg : Config W) where
  -- `NewRunner` from the metadata on, with a worker and a client. Where the agent cannot be registered
  -- both are closed.
  unfoldable pub enlist :
      CompiledGraph W
      → Text
      → DaprBackend H
      → C
      → ProcessState W
      → Result RunnerError (Runner H W) × C × ProcessState W
  unfolding agent_info registry_store_of dapr_store new_agent_record close_backend
  enlist cg workflow_name backend c p =
      let (md, c₁) = platform.get_metadata c in
      let to_lower = around.process.to_lower in
      let store =
        dapr_store to_lower platform.state_api (registry_store_of around.process.getenv cfg md) in
      let agent = new_agent_record to_lower around.now (agent_info cfg cg md) in
      let (failed, c₂, agent') = Directory.register store around.codec agent c₁ in
      elim failed [
        | some e ↦ (
          err (register_failed e),
          platform.close_client (close_backend platform.workflows platform.runtime backend c₂),
          p,
        )
        | none ↦ (
          ok (record {
            graph = cg;
            backend = some backend;
            has_client = true;
            agent_record = agent';
            workflow_name = workflow_name;
            node_retry = cfg.node_retry;
          }),
          c₂,
          record p { graphs = register p.graphs cg },
        )
      ]

  -- `NewRunner` from the compiled graph on.
  unfoldable pub connect :
      CompiledGraph W → C → ProcessState W → Result RunnerError (Runner H W) × C × ProcessState W
  unfolding build_workflow_name new_dapr_backend close_backend enlist node_names
  connect cg c p =
      let workflow_name = build_workflow_name around.process.to_lower cfg.framework cfg.name in
      let (made, c₁) =
        new_dapr_backend platform.workflows platform.runtime workflow_name (node_names cg) c in
      elim made [
        | err e ↦ (err (backend_failed e), c₁, p)
        | ok backend ↦
            let (failed, c₂) = platform.new_client c₁ in
            (elim failed [
              | some e ↦ (
                err (client_failed e),
                close_backend platform.workflows platform.runtime backend c₂,
                p,
              )
              | none ↦ enlist cg workflow_name backend c₂ p
            ])
      ]

  unfoldable pub new_runner :
      C → ProcessState W → Result RunnerError (Runner H W) × C × ProcessState W
  unfolding check_config reported_usage compile connect
  new_runner c p = elim (check_config cfg) [
    | err e ↦ (err e, c, p)
    | ok g ↦
        let p' = reported_usage around.usage_endpoint around.process cfg p in
        (elim (compile g) [ err e ↦ (err (compile_failed e), c, p') | ok cg ↦ connect cg c p' ])
  ]

module _ {R H C : Type 0} (platform : Platform R H C) where
  -- `Close`.
  unfoldable pub close_runner : {W : Type 0} → Runner H W → C → C
  unfolding close_backend
  close_runner r c =
      let c' = elim r.backend as (λ b. C) [
        | none ↦ c
        | some backend ↦ close_backend platform.workflows platform.runtime backend c
      ] in
      if r.has_client then platform.close_client c' else c'

pub record InvokeOptions : Type 0 where
  pub instance_id : Text
  pub max_steps : ℤ

-- `opts[0]` of the variadic options, or the zero value.
abbrev pub first_options : List InvokeOptions → InvokeOptions
first_options [] = record { instance_id = []; max_steps = pos 0 }
first_options (opt ∷ opts) = opt

-- `maxSteps`: of the options, or of the agent's record where they have 0.
abbrev pub steps_or : ℤ → ℤ → ℤ
steps_or (pos zero) default = default
steps_or (pos (suc n)) default = pos (suc n)
steps_or (negsuc n) default = negsuc n

unfoldable pub run_options : {H W : Type 0} → Runner H W → InvokeOptions → RunOptions
run_options r opt = record {
  instance_id = opt.instance_id;
  max_steps = steps_or opt.max_steps r.agent_record.agent.max_iterations;
  workflow_name = r.workflow_name;
  node_retry = r.node_retry;
}

abbrev pub run_result : Result BackendError State → Result RunnerError State
run_result (ok s) = ok s
run_result (err e) = err (run_failed e)

module _ {H C W J : Type 0} (client : WorkflowClient C) (decode : Text → Result Text State)
    (marshal : J → Result Text Text) (unmarshal : Text → Result Text State) where
  unfoldable pub invoke :
      Runner H W
      → Input J
      → List InvokeOptions
      → C
      → GraphRegistry W
      → Result RunnerError State × C × GraphRegistry W
  unfolding to_state run_options run
  invoke r input opts c graphs = elim (to_state marshal unmarshal input) [
    | err e ↦ (err (input_failed e), c, graphs)
    | ok s ↦
        let (out, c', graphs') =
          run client decode graphs r.graph s (run_options r (first_options opts)) c in
        (run_result out, c', graphs')
  ]
