-- ===== src/Durable/Workflow/Loop.antt =====
-- The loop of the workflow, unrolled once.
use go_ai.Prelude.{ℕ, zero, suc, ◌≡◌, ◌≢◌, Option, Result, ok, err, Result-cases, inl, inr}
use go_ai.Text.{Text, eq_refl, eq_false}
use go_ai.Agent.State.{State}
use go_ai.Agent.Graph.{end_node}
use go_ai.Agent.Compile.{CompiledGraph}
use go_ai.Durable.Workflow.{
  NodeRetryPolicy, WorkflowError, max_steps_exceeded, CallActivity, after_activity, workflow_loop,
}

module _ {W R : Type 0} (call : CallActivity R) (cg : CompiledGraph W) (graph : Text)
    (retry : Option NodeRetryPolicy) where
  -- What follows a round, from its outcome and the runtime's state.
  abbrev pub proceed :
      (left limit : ℕ) → Result WorkflowError (Text × State) × R → Result WorkflowError State × R
  proceed left limit (err e, r) = (err e, r)
  proceed left limit (ok (dst, s), r) = workflow_loop call cg graph retry left limit dst s r

  pub loop_end :
      (left limit : ℕ) (s : State) (r : R)
      → workflow_loop call cg graph retry left limit end_node s r ≡ (ok s, r)
  unfolding workflow_loop
  loop_end zero limit s r = rw (eq_refl end_node)
  loop_end (suc left) limit s r = rw (eq_refl end_node)

  pub loop_out :
      (limit : ℕ) (current : Text) (s : State) (r : R)
      → current ≢ end_node
      → workflow_loop call cg graph retry zero limit current s r
        ≡ (err (max_steps_exceeded limit), r)
  unfolding workflow_loop
  loop_out limit current s r other = rw (eq_false current end_node other)

  pub loop_step :
      (left limit : ℕ) (current : Text) (s : State) (r : R)
      → current ≢ end_node
      → let answer = call current (record { graph = graph; node = current; state = s }) retry r in
        workflow_loop call cg graph retry (suc left) limit current s r
        ≡ proceed left limit (after_activity cg current s answer.0, answer.1)
  unfolding workflow_loop
  loop_step left limit current s r other =
      let answer = call current (record { graph = graph; node = current; state = s }) retry r in
      elim (Result-cases (after_activity cg current s answer.0)) [
        | inl (x, e) ↦ rw (eq_false current end_node other, e)
        | inr (x, e) ↦ rw (eq_false current end_node other, e)
      ]
