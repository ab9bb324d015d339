-- ===== src/Durable/Backend.antt =====
-- durable/dapr.go and durable/backend.go: `Run`, which schedules the workflow and waits for it. The Dapr client is a parameter.
pub mod Completion
pub mod Served
use go_ai.Prelude.{
  Bool, true, false, ◌||◌, not, Option, none, some, List, [], ◌∷◌, Result, ok, err, if◌then◌else◌,
}
use go_ai.Prelude.Int.{ℤ}
use go_ai.Text.{Text}
use go_ai.Dict.{Dict, insert}
use go_ai.Agent.State.{State}
use go_ai.Agent.Graph.{is_empty}
use go_ai.Agent.Config.{flag_at}
use go_ai.Agent.Compile.{CompiledGraph}
use go_ai.Durable.Workflow.{NodeRetryPolicy, GraphWorkflowInput, GraphRegistry, register}

pub data BackendError : Type 0 where
  workflow_name_required : BackendError
  register_workflow : Text → Text → BackendError
  register_node : Text → Text → BackendError
  workflow_client : Text → BackendError
  start_worker : Text → BackendError
  schedule_workflow : Text → BackendError
  wait_for_completion : Text → BackendError
  finished_with_status : Text → Text → BackendError
  decode_output : Text → BackendError

-- A gRPC error of `ScheduleWorkflow`: the status code that the code looks at, and the text.
pub data ScheduleError : Type 0 where
  already_exists : Text → ScheduleError
  other_failure : Text → ScheduleError

abbrev pub error_text : ScheduleError → Text
error_text (already_exists e) = e
error_text (other_failure e) = e

abbrev pub is_already_exists : ScheduleError → Bool
is_already_exists (already_exists e) = true
is_already_exists (other_failure e) = false

-- The workflow's metadata: its status by name, whether that is the completed one, and its output.
pub record Metadata : Type 0 where
  pub status : Text
  pub is_completed : Bool
  pub output : Option Text

-- The workflow client: `C` is its state together with the sidecar's.
pub record WorkflowClient (C : Type 0) : Type 0 where
  pub schedule : Text → GraphWorkflowInput → Option Text → C → Result ScheduleError Text × C
  pub wait : Text → C → Result Text Metadata × C

pub record RunOptions : Type 0 where
  pub instance_id : Text
  pub max_steps : ℤ
  pub workflow_name : Text
  pub node_retry : Option NodeRetryPolicy

abbrev pub optional : Text → Option Text
optional [] = none
optional (c ∷ t) = some (c ∷ t)

module _ {C : Type 0} (client : WorkflowClient C) (decode : Text → Result Text State) where
  -- The last part of `Run`: an absent or empty output leaves the state nil.
  unfoldable pub decode_result : Option Text → Result BackendError State
  decode_result none = ok []
  decode_result (some []) = ok []
  decode_result (some (c ∷ o)) = elim (decode (c ∷ o)) [
    | err e ↦ err (decode_output e)
    | ok out ↦ ok out
  ]

  unfoldable pub check_status : Text → Metadata → Result BackendError State
  unfolding decode_result
  check_status id meta =
      if meta.is_completed
      then decode_result meta.output
      else err (finished_with_status id meta.status)

  unfoldable pub await_run : Text → C → Result BackendError State × C
  unfolding check_status
  await_run id c =
      let (answer, c') = client.wait id c in
      elim answer [
        | err e ↦ (err (wait_for_completion e), c')
        | ok meta ↦ (check_status id meta, c')
      ]

  -- A pinned ID that already exists is a resume.
  unfoldable pub instance_of : RunOptions → Result ScheduleError Text → Result BackendError Text
  instance_of opts (ok id) = ok id
  instance_of opts (err e) =
      if is_empty opts.instance_id || not (is_already_exists e)
      then err (schedule_workflow (error_text e))
      else ok opts.instance_id

  -- `Run`: the registry of graphs is written first, whatever follows.
  unfoldable pub run :
      {W : Type 0}
      → GraphRegistry W
      → CompiledGraph W
      → State
      → RunOptions
      → C
      → Result BackendError State × C × GraphRegistry W
  unfolding await_run instance_of
  run graphs cg input opts c =
      let graphs' = register graphs cg in
      let input' : GraphWorkflowInput = record {
        graph = cg.name;
        state = input;
        max_steps = opts.max_steps;
        node_retry = opts.node_retry;
      } in
      if is_empty opts.workflow_name
      then (err workflow_name_required, c, graphs')
      else (let (answer, c₁) =
            client.schedule opts.workflow_name input' (optional opts.instance_id) c in
          elim (instance_of opts answer) [
            | err e ↦ (err e, c₁, graphs')
            | ok id ↦ let (result, c₂) = await_run id c₁ in (result, c₂, graphs')
          ])
