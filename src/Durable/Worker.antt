-- ===== src/Durable/Worker.antt =====
-- durable/dapr.go: `NewDaprBackend`, which registers the workflow and an activity for each node and
-- starts the worker, and `Close`. The workflow SDK is a parameter.
pub mod Activities
use go_ai.Prelude.{
  Bool, true, ◌||◌, Option, none, some, List, [], ◌∷◌, Result, ok, err, if◌then◌else◌,
}
use go_ai.Text.{Text}
use go_ai.Dict.{Dict, insert}
use go_ai.Agent.Graph.{is_empty}
use go_ai.Agent.Config.{flag_at}
use go_ai.Durable.Backend.{
  BackendError, workflow_name_required, register_workflow, register_node, workflow_client,
  start_worker,
}

-- The SDK's registry of workflows and activities, a value `R`; an error is its text.
pub record WorkflowRegistry (R : Type 0) : Type 0 where
  pub new_registry : R
  pub add_workflow : Text → R → Result Text R
  pub add_activity : Text → R → Result Text R

-- The calls that connect to the sidecar, on a state `C`. `H` is the type of cancel functions, one for
-- each context that `with_cancel` makes.
pub record WorkerRuntime (R H C : Type 0) : Type 0 where
  pub new_workflow_client : C → Option Text × C
  pub with_cancel : C → H × C
  pub start : H → R → C → Option Text × C
  pub cancel : H → C → C

-- A backend that was not made by `NewDaprBackend` may have no cancel function.
pub record DaprBackend (H : Type 0) : Type 0 where
  pub cancel_func : Option H

module _ {R : Type 0} (reg : WorkflowRegistry R) where
  -- The loop over the node names; `seen` is the map of that name.
  unfoldable pub register_nodes : Dict Bool → List Text → R → Result BackendError R
  register_nodes seen [] r = ok r
  register_nodes seen (name ∷ names) r =
      let skip = register_nodes seen names r in
      let add : Result BackendError R = elim (reg.add_activity name r) [
        | err e ↦ err (register_node name e)
        | ok r' ↦ register_nodes (insert name true seen) names r'
      ] in
      if is_empty name || flag_at name seen then skip else add

  -- The registry that the worker is started with.
  unfoldable pub worker_registry : Text → List Text → Result BackendError R
  unfolding register_nodes
  worker_registry name node_names =
      if is_empty name
      then err workflow_name_required
      else (elim (reg.add_workflow name reg.new_registry) [
        | err e ↦ err (register_workflow name e)
        | ok r ↦ register_nodes [] node_names r
      ])

module _ {R H C : Type 0} (reg : WorkflowRegistry R) (runtime : WorkerRuntime R H C) where
  -- The last part of `NewDaprBackend`, with a registry and a client.
  unfoldable pub launch : R → C → Result BackendError (DaprBackend H) × C
  launch r c =
      let (cancel, c₁) = runtime.with_cancel c in
      let (failed, c₂) = runtime.start cancel r c₁ in
      elim failed [
        | some e ↦ (err (start_worker e), runtime.cancel cancel c₂)
        | none ↦ (ok (record { cancel_func = some cancel }), c₂)
      ]

  unfoldable pub new_dapr_backend : Text → List Text → C → Result BackendError (DaprBackend H) × C
  unfolding worker_registry launch
  new_dapr_backend name node_names c = elim (worker_registry reg name node_names) [
    | err e ↦ (err e, c)
    | ok r ↦
        let (failed, c') = runtime.new_workflow_client c in
        (elim failed [ some e ↦ (err (workflow_client e), c') | none ↦ launch r c' ])
  ]

  unfoldable pub close_backend : DaprBackend H → C → C
  close_backend b c = elim b.cancel_func [ none ↦ c | some cancel ↦ runtime.cancel cancel c ]
