-- ===== src/Durable/Workflow/Refines.antt =====
-- The durable workflow against the in-process interpreter.
use go_ai.Prelude.{
  ℕ, ◌≡◌, refl, ap, subst, ◌∙◌, inl, inr, Option, none, some, List, Result, ok, err, map_err, arith,
  Option-cases,
}
use go_ai.Prelude.Int.{ℤ}
use go_ai.Text.{Text}
use go_ai.Dict.{lookup}
use go_ai.Agent.State.{State, merge}
use go_ai.Agent.State.Merge.{clone-eq}
use go_ai.Agent.Graph.{AgentError, NodeFunc, end_node}
use go_ai.Agent.Graph
use go_ai.Agent.Compile.{CompiledGraph, next, route, apply_updates, run_node}
use go_ai.Agent.Engine.{
  Round, failed, moved, round, after_node, advance, execute, execute_loop, effective_max_steps,
}
use go_ai.Agent.Engine.Runs.{execute_induction}
use go_ai.Durable.Workflow.Loop.{proceed, loop_end, loop_out, loop_step}
use go_ai.Durable.Workflow.{
  NodeRetryPolicy, WorkflowError, max_steps_exceeded, node_failed, agent_error, GraphRegistry,
  execute_node_activity, CallActivity, after_routing, after_activity, workflow_loop, graph_workflow,
}

-- The runtime of a run in which no activity is lost: each call runs the activity once. `wire` is
-- what the JSON encoding and decoding between workflow and activity makes of a state, and `render`
-- the text in which an activity's error reaches the workflow.
module _ {W : Type 0} (wire : State → State) (render : WorkflowError → Text)
    (graphs : GraphRegistry W) where
  abbrev wired : Result WorkflowError State → Result Text State
  wired (ok updates) = ok (wire updates)
  wired (err e) = err (render e)

  abbrev pub direct : CallActivity W
  direct name input retry w =
      let (result, w') =
        execute_node_activity graphs (record input { state = wire input.state }) w in
      (wired result, w')

module _ (render : WorkflowError → Text) where
  -- The error of a workflow for an error of the interpreter.
  abbrev pub workflow_error : AgentError → WorkflowError
  workflow_error (Graph.max_steps_exceeded limit name) = max_steps_exceeded limit
  workflow_error (Graph.no_function_registered n) =
      node_failed n (render (agent_error (Graph.no_function_registered n)))
  workflow_error (Graph.node_failed n e) = node_failed n (render (agent_error (Graph.node_error e)))
  workflow_error e = agent_error e

  -- A workflow returns no state beside an error.
  abbrev pub workflow_result :
      {W : Type 0} → State → Option AgentError → W → Result WorkflowError State × W
  workflow_result s none w = (ok s, w)
  workflow_result s (some e) w = (err (workflow_error e), w)

  abbrev round_result : {W : Type 0} → Round W → Result WorkflowError (Text × State) × W
  round_result (failed s e w) = (err (workflow_error e), w)
  round_result (moved d s u w) = (ok (d, s), w)

module _ {W : Type 0} (cg : CompiledGraph W) (render : WorkflowError → Text) where
  after_routing-advance :
      (current : Text) (s : State) (us : List Text) (w : W)
      → ◌≡◌ {A = Result WorkflowError (Text × State) × W}
          (after_routing cg current s, w)
          (round_result render (advance cg current s us w))
  unfolding after_routing advance next route
  after_routing-advance current s us w = ground arith

  apply_updates-eq :
      (s updates : State) → apply_updates cg s updates ≡ (merge s updates cg.reducers).0
  unfolding apply_updates
  apply_updates-eq s updates = ap (λ x. (merge x updates cg.reducers).0) (clone-eq s)

  -- One round of the interpreter against one of the workflow, from the answer of the node.
  after_activity-advance :
      (current : Text) (s updates : State) (w : W)
      → ◌≡◌ {A = Result WorkflowError (Text × State) × W}
          (after_activity cg current s (ok updates), w)
          (round_result render (after_node cg current s (ok updates) w))
  unfolding after_activity after_node
  after_activity-advance current s updates w =
      let m = merge s updates cg.reducers in
      ap (λ x. (after_routing cg current x, w)) (apply_updates-eq s updates)
      ∙ after_routing-advance current m.0 m.1 w

-- The states of a run pass through the encoder unharmed: `Safe` says of which states that holds, and
-- the nodes and the reducers keep to them.
pub record IsJsonSafe {W : Type 0} (wire : State → State) (cg : CompiledGraph W)
    (Safe : State → Type 0) : Type 0 where
  pub unharmed : (s : State) → Safe s → wire s ≡ s
  pub by_nodes :
      (n : Text) (fn : NodeFunc W) (s u : State) (w : W)
      → lookup n cg.nodes ≡ some fn
      → Safe s
      → (fn s w).0 ≡ ok u
      → Safe u
  pub by_merge : (s u : State) → Safe s → Safe u → Safe (merge s u cg.reducers).0

module _ {W : Type 0} (wire : State → State) (render : WorkflowError → Text)
    (graphs : GraphRegistry W) (cg : CompiledGraph W) (Safe : State → Type 0)
    (registered : lookup cg.name graphs ≡ some cg) (json : IsJsonSafe wire cg Safe)
    (retry : Option NodeRetryPolicy) where
  abbrev called : Text → State → W → Result Text State × W
  called current s w =
      direct wire render graphs current (record { graph = cg.name; node = current; state = s })
        retry w

  after_answer :
      (current : Text) (s : State) (w : W) (fn : NodeFunc W) (answer : Result Text State)
      → lookup current cg.nodes ≡ some fn
      → Safe s
      → (fn s w).0 ≡ answer
      → ◌≡◌ {A = Result WorkflowError (Text × State) × W}
          (
            after_activity cg current s
                (wired wire render graphs (map_err agent_error (map_err Graph.node_error answer))),
            (fn s w).1,
          )
          (round_result render (after_node cg current s answer (fn s w).1))
  after_answer current s w fn (err e) found safe same = unfold after_activity after_node in refl
  after_answer current s w fn (ok u) found safe same =
      rw (json.unharmed u (json.by_nodes current fn s u w found safe same))
        (after_activity-advance cg render current s u (fn s w).1)

  round_refines :
      (current : Text) (s : State) (w : W)
      → Safe s
      → ◌≡◌ {A = Result WorkflowError (Text × State) × W}
          (after_activity cg current s (called current s w).0, (called current s w).1)
          (round_result render (round cg current s w))
  unfolding execute_node_activity run_node round
  round_refines current s w safe = elim (Option-cases (lookup current cg.nodes)) [
    | inl missing ↦
        rw (registered, missing, execute_node_activity, run_node, round)
          (unfold after_activity in refl)
    | inr (fn, found) ↦
        rw (registered, found, execute_node_activity, run_node, round)
          (rw (json.unharmed s safe) (after_answer current s w fn (fn s w).0 found safe refl))
  ]

  after_node-Safe :
      (current dst : Text) (s t : State) (answer : Result Text State) (us : List Text) (w v : W)
      → Safe s
      → ((u : State) → answer ≡ ok u → Safe u)
      → after_node cg current s answer w ≡ moved dst t us v
      → Safe t
  unfolding after_node advance
  after_node-Safe current dst s t (err e) us w v safe good h = cc
  after_node-Safe current dst s t (ok u) us w v safe good h =
      let m = merge s u cg.reducers in
      let same : m.0 ≡ t = ground arith in subst Safe same (json.by_merge s u safe (good u refl))

  pub round-Safe :
      (current dst : Text) (s t : State) (us : List Text) (w v : W)
      → Safe s
      → round cg current s w ≡ moved dst t us v
      → Safe t
  unfolding round
  round-Safe current dst s t us w v safe h = elim (Option-cases (lookup current cg.nodes)) [
    | inl missing ↦ ground arith
    | inr (fn, found) ↦
        after_node-Safe current dst s t (fn s w).0 us (fn s w).1 v safe
          (λ u same. json.by_nodes current fn s u w found safe same) (rw (found, round) at h)
  ]

  -- The loops agree, round by round.
  loop_refines :
      (limit left step : ℕ) (current : Text) (s : State) (w : W)
      → Safe s
      → let run = execute_loop cg left limit step current s w in
        workflow_loop (direct wire render graphs) cg cg.name retry left limit current s w
        ≡ workflow_result render run.state run.failure run.world
  loop_refines limit left step =
      execute_induction cg limit
        (λ left step current s w run.
          Safe s
          → workflow_loop (direct wire render graphs) cg cg.name retry left limit current s w
            ≡ workflow_result render run.state run.failure run.world)
        (λ left step s w safe. loop_end (direct wire render graphs) cg cg.name retry left limit s w)
        (λ step current s w other safe.
          loop_out (direct wire render graphs) cg cg.name retry limit current s w other)
        (λ left step current s t e w v other h safe.
          loop_step (direct wire render graphs) cg cg.name retry left limit current s w other
          ∙ ap (proceed (direct wire render graphs) cg cg.name retry left limit)
              (round_refines current s w safe ∙ ap (round_result render) h))
        (λ left step current dst s t us w v run other h ih safe.
          loop_step (direct wire render graphs) cg cg.name retry left limit current s w other
          ∙ ap (proceed (direct wire render graphs) cg cg.name retry left limit)
              (round_refines current s w safe ∙ ap (round_result render) h)
          ∙ ih (round-Safe current dst s t us w v safe h))
        left step

-- A durable run gives what the in-process interpreter gives: the same final state, or the same error
-- (a node's reaching the workflow as its rendered text) and no state; and the same world. The
-- states of the run have to survive the JSON encoding, and the graph to be registered.
pub graph_workflow-execute :
    {W : Type 0} (wire : State → State) (render : WorkflowError → Text) (graphs : GraphRegistry W)
    (cg : CompiledGraph W) (Safe : State → Type 0) (input : State) (max_steps : ℤ)
    (retry : Option NodeRetryPolicy) (w : W)
    → lookup cg.name graphs ≡ some cg
    → IsJsonSafe wire cg Safe
    → Safe input
    → graph_workflow
        (direct wire render graphs)
        graphs
        (record { graph = cg.name; state = input; max_steps = max_steps; node_retry = retry })
        w
      ≡ workflow_result render
          (execute cg input max_steps w).state
          (execute cg input max_steps w).failure
          (execute cg input max_steps w).world
unfolding graph_workflow execute
graph_workflow-execute wire render graphs cg Safe input max_steps retry w registered json safe =
    let limit = effective_max_steps max_steps in
    rw (registered, graph_workflow, clone-eq input)
      (loop_refines wire render graphs cg Safe registered json retry limit limit 0 cg.entry input w
        safe)
