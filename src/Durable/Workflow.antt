-- ===== src/Durable/Workflow.antt =====
-- durable/dapr.go: the generic workflow and its activity. The Dapr runtime that starts an activity,
-- retries it and records its result is a parameter, with a state of its own.
pub mod Loop
pub mod Refines
pub mod Safe
use go_ai.Prelude.{ℕ, zero, suc, Option, none, some, Result, ok, err, map_err, if◌then◌else◌}
use go_ai.Prelude.Int.{ℤ}
use go_ai.Text.{Text, ◌==◌}
use go_ai.Dict.{Dict, lookup, insert}
use go_ai.Agent.State.{State}
use go_ai.Agent.Graph.{AgentError, end_node}
use go_ai.Agent.Compile.{CompiledGraph, next, apply_updates, run_node}
use go_ai.Agent.Engine.{effective_max_steps}

-- Durations are nanoseconds; the floating-point coefficient, which the code only copies, is its
-- JSON text.
pub record NodeRetryPolicy : Type 0 where
  pub max_attempts : ℤ
  pub initial_interval : ℤ
  pub backoff_coefficient : Text
  pub max_interval : ℤ

pub record GraphWorkflowInput : Type 0 where
  pub graph : Text
  pub state : State
  pub max_steps : ℤ
  pub node_retry : Option NodeRetryPolicy

pub record ExecuteNodeInput : Type 0 where
  pub graph : Text
  pub node : Text
  pub state : State

pub data WorkflowError : Type 0 where
  not_registered : Text → WorkflowError
  max_steps_exceeded : ℕ → WorkflowError
  node_failed : Text → Text → WorkflowError
  agent_error : AgentError → WorkflowError

-- `graphRegistry`, the process-local map from names to graphs.
abbrev pub GraphRegistry : Type 0 → Type 0
GraphRegistry W = Dict (CompiledGraph W)

-- `Register`, a write under the graph's own name.
unfoldable pub register : {W : Type 0} → GraphRegistry W → CompiledGraph W → GraphRegistry W
register graphs cg = insert cg.name cg graphs

-- `executeNodeActivity`, after its input is decoded.
unfoldable pub execute_node_activity :
    {W : Type 0} → GraphRegistry W → ExecuteNodeInput → W → Result WorkflowError State × W
unfolding run_node
execute_node_activity graphs input w = elim (lookup input.graph graphs) [
  | none ↦ (err (not_registered input.graph), w)
  | some cg ↦
      let (result, w') = run_node cg input.node input.state w in (map_err agent_error result, w')
]

-- `ctx.CallActivity(name, …).Await(&updates)`: the runtime's answer, an error as its text.
abbrev pub CallActivity : Type 0 → Type 0
CallActivity R = Text → ExecuteNodeInput → Option NodeRetryPolicy → R → Result Text State × R

-- One round of the loop, from the activity's answer: the next node and the merged state.
module _ {W : Type 0} (cg : CompiledGraph W) where
  unfoldable pub after_routing : Text → State → Result WorkflowError (Text × State)
  after_routing current state' = elim (next cg current state') [
    | err e ↦ err (agent_error e)
    | ok dst ↦ ok (dst, state')
  ]

  unfoldable pub after_activity :
      Text → State → Result Text State → Result WorkflowError (Text × State)
  unfolding after_routing apply_updates
  after_activity current state (err e) = err (node_failed current e)
  after_activity current state (ok updates) = after_routing current (apply_updates cg state updates)

module _ {W R : Type 0} (call : CallActivity R) (cg : CompiledGraph W) (graph : Text)
    (retry : Option NodeRetryPolicy) where
  unfoldable pub workflow_loop :
      (left limit : ℕ) → Text → State → R → Result WorkflowError State × R
  unfolding after_activity
  workflow_loop zero limit current state r =
      if current == end_node then (ok state, r) else (err (max_steps_exceeded limit), r)
  workflow_loop (suc left) limit current state r =
      let rest = λ (dst : Text) (state' : State) (r' : R). workflow_loop left limit dst state' r' in
      if current == end_node
      then (ok state, r)
      else (let (answer, r') =
            call current (record { graph = graph; node = current; state = state }) retry r in
          elim (after_activity cg current state answer) [
            | err e ↦ (err e, r')
            | ok (dst, state') ↦ rest dst state' r'
          ])

-- `graphWorkflow`, after its input is decoded.
unfoldable pub graph_workflow :
    {W R : Type 0}
    → CallActivity R
    → GraphRegistry W
    → GraphWorkflowInput
    → R
    → Result WorkflowError State × R
unfolding workflow_loop effective_max_steps
graph_workflow call graphs input r = elim (lookup input.graph graphs) [
  | none ↦ (err (not_registered input.graph), r)
  | some cg ↦
      let limit = effective_max_steps input.max_steps in
      workflow_loop call cg input.graph input.node_retry limit limit cg.entry input.state r
]
