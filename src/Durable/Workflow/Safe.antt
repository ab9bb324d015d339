-- ===== src/Durable/Workflow/Safe.antt =====
-- The final state of a run that keeps to states which the JSON encoding leaves alone.
use go_ai.Prelude.{ℕ, ◌≡◌, none, some}
use go_ai.Prelude.Int.{ℤ}
use go_ai.Text.{Text}
use go_ai.Dict.{lookup}
use go_ai.Agent.State.{State}
use go_ai.Agent.State.Merge.{clone-eq}
use go_ai.Agent.Compile.{CompiledGraph}
use go_ai.Agent.Engine.{execute, execute_loop, effective_max_steps}
use go_ai.Agent.Engine.Runs.{execute_induction}
use go_ai.Durable.Workflow.{WorkflowError, GraphRegistry}
use go_ai.Durable.Workflow.Refines.{IsJsonSafe, round-Safe}

module _ {W : Type 0} (wire : State → State) (render : WorkflowError → Text)
    (graphs : GraphRegistry W) (cg : CompiledGraph W) (Safe : State → Type 0)
    (registered : lookup cg.name graphs ≡ some cg) (json : IsJsonSafe wire cg Safe) where
  pub execute_loop-Safe :
      (limit left step : ℕ) (current : Text) (s : State) (w : W)
      → Safe s
      → let run = execute_loop cg left limit step current s w in run.failure ≡ none → Safe run.state
  execute_loop-Safe limit left step =
      execute_induction cg limit
        (λ left step current s w run. Safe s → run.failure ≡ none → Safe run.state)
        (λ left step s w safe fine. safe) (λ step current s w other safe fine. cc)
        (λ left step current s t e w v other h safe fine. cc)
        (λ left step current dst s t us w v run other h ih safe fine.
          ih
            (round-Safe wire render graphs cg Safe registered json none current dst s t us w v safe
              h)
            fine)
        left step

  pub execute-Safe :
      (input : State) (max_steps : ℤ) (w : W)
      → Safe input
      → (execute cg input max_steps w).failure ≡ none
      → Safe (execute cg input max_steps w).state
  unfolding execute
  execute-Safe input max_steps w safe = rw (clone-eq input) (
      execute_loop-Safe (effective_max_steps max_steps) (effective_max_steps max_steps) 0 cg.entry
        input w safe)
