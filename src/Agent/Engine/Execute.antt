-- ===== src/Agent/Engine/Execute.antt =====
-- What `Execute` promises of a compiled graph.
use go_ai.Prelude.{◌≡◌, ◌≢◌, true, inl, inr, some, List, Result, ok, err, arith, All, Option-cases}
use go_ai.Prelude.Int.{ℤ}
use go_ai.Text.{Text}
use go_ai.Dict.{lookup, has}
use go_ai.Agent.State.{State, merge, clone}
use go_ai.Agent.Graph.{no_function_registered}
use go_ai.Agent.Compile.{CompiledGraph, next, route}
use go_ai.Agent.Compile.Closed.{IsClosed, IsTarget, next-IsTarget}
use go_ai.Agent.Engine.{
  StepRecord, failed, moved, advance, after_node, round, execute, effective_max_steps,
}
use go_ai.Agent.Engine.Runs.{IsSound, execute_induction, execute_loop-IsSound}

-- The steps of a run are at most the limit, are numbered from 1 and follow one another from the
-- entry; a run without error stands at the end node, and the limit is reported only by a run that
-- has made that many steps and does not stand at the end node.
pub execute-IsSound :
    {W : Type 0} (cg : CompiledGraph W) (input : State) (max_steps : ℤ) (w : W)
    → IsSound
        (effective_max_steps max_steps)
        (effective_max_steps max_steps)
        0
        cg.entry
        (execute cg input max_steps w)
unfolding execute
execute-IsSound cg input max_steps w =
    let limit = effective_max_steps max_steps in
    execute_loop-IsSound cg limit limit 0 cg.entry (clone input) w

-- A step that the graph allows: from a node of the graph, along what `Next` answers for some state.
abbrev pub IsAllowed : {W : Type 0} → CompiledGraph W → StepRecord → Type 0
IsAllowed cg r =
    (has r.node cg.nodes ≡ true)
    × (s : State) × (next cg r.node s ≡ ok r.next)
    × IsTarget cg.nodes r.next

module _ {W : Type 0} (cg : CompiledGraph W) where
  advance_moved :
      (current dst : Text) (s t : State) (us u : List Text) (w v : W)
      → advance cg current s us w ≡ moved dst t u v
      → next cg current t ≡ ok dst
  unfolding advance
  advance_moved current dst s t us u w v h =
      let moved_by : (d : Text) × (next cg current s ≡ ok d) × (moved d s us w ≡ moved dst t u v) =
        ground arith in
      ground arith

  after_node_moved :
      (current dst : Text) (s t : State) (answer : Result Text State) (u : List Text) (w v : W)
      → after_node cg current s answer w ≡ moved dst t u v
      → next cg current t ≡ ok dst
  unfolding after_node
  after_node_moved current dst s t (err e) u w v h = cc
  after_node_moved current dst s t (ok updates) u w v h =
      let m = merge s updates cg.reducers in advance_moved current dst m.0 t m.1 u w v h

  round_moved :
      (current dst : Text) (s t : State) (u : List Text) (w v : W)
      → round cg current s w ≡ moved dst t u v
      → (has current cg.nodes ≡ true) × (next cg current t ≡ ok dst)
  unfolding round
  round_moved current dst s t u w v h = elim (Option-cases (lookup current cg.nodes)) [
    | inl missing ↦ ground arith
    | inr (fn, found) ↦ (
      rw (found, has),
      after_node_moved current dst s t (fn s w).0 u (fn s w).1 v (rw (found, round) at h),
    )
  ]

  next-registered : (src n : Text) (s : State) → next cg src s ≢ err (no_function_registered n)
  unfolding next route
  next-registered src n s = ground arith

  after_node-registered :
      (current n : Text) (s t : State) (answer : Result Text State) (w v : W)
      → after_node cg current s answer w ≢ failed t (no_function_registered n) v
  unfolding after_node advance
  after_node-registered current n s t (err e) w v = ground arith
  after_node-registered current n s t (ok updates) w v =
      ground (arith, next-registered current n (merge s updates cg.reducers).0)

  round-registered :
      (current n : Text) (s t : State) (w v : W)
      → has current cg.nodes ≡ true
      → round cg current s w ≢ failed t (no_function_registered n) v
  unfolding round
  round-registered current n s t w v h = elim (Option-cases (lookup current cg.nodes)) [
    | inl missing ↦ ground arith
    | inr (fn, found) ↦
        rw (found, round) (after_node-registered current n s t (fn s w).0 (fn s w).1 v)
  ]

-- On a compiled graph, every step of a run is from a node, along an answer of `Next`, to a node or
-- the end, and no run fails for want of a node's function.
pub execute-IsAllowed :
    {W : Type 0} (cg : CompiledGraph W) (input : State) (max_steps : ℤ) (w : W)
    → IsClosed cg
    → All (IsAllowed cg) (execute cg input max_steps w).steps
      × ((n : Text) → (execute cg input max_steps w).failure ≢ some (no_function_registered n))
unfolding execute
execute-IsAllowed {W} cg input max_steps w closed =
    execute_induction cg (effective_max_steps max_steps)
      (λ left step current s w run.
        IsTarget cg.nodes current
        → All (IsAllowed cg) run.steps
          × ((n : Text) → run.failure ≢ some (no_function_registered n)))
      (λ left step s w t. (tt, λ n e. cc)) (λ step current s w other t. (tt, λ n e. cc))
      (λ left step current s u e w v other h t. (
        tt,
        λ n k. elim t [
          | inl here ↦ round-registered cg current n s u w v here (ground arith)
          | inr end ↦ other end
        ],
      ))
      (λ left step current dst s t u w v run other h ih target.
        let (here, to) = round_moved cg current dst s t u w v h in
        let on = next-IsTarget cg current dst t closed to in
        (((here, t, to, on), (ih on).0), (ih on).1))
      (effective_max_steps max_steps) 0 cg.entry (clone input) w (inl closed.entered)
