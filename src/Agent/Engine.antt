-- ===== src/Agent/Engine.antt =====
-- agent/engine.go: the in-process interpreter.
pub mod Runs
pub mod Execute
use go_ai.Prelude.{
  ℕ, zero, suc, ◌+◌, Option, none, some, List, [], ◌∷◌, Result, ok, err, if◌then◌else◌,
}
use go_ai.Prelude.Int.{ℤ, pos, negsuc}
use go_ai.Text.{Text, ◌==◌}
use go_ai.Dict.{lookup}
use go_ai.Agent.State.{State, clone, merge}
use go_ai.Agent.Graph.{
  AgentError, max_steps_exceeded, no_function_registered, node_failed, end_node,
}
use go_ai.Agent.Compile.{CompiledGraph, next}

pub record StepRecord : Type 0 where
  pub step : ℕ
  pub node : Text
  pub updated : List Text
  pub next : Text

-- What `Execute` returns, a state beside an error, with the calls of `OnStep` and the world.
pub record Run (W : Type 0) : Type 0 where
  pub state : State
  pub failure : Option AgentError
  pub steps : List StepRecord
  pub world : W

-- A `return`, with no step behind it, and a step put in front of what follows it.
abbrev pub ended : {W : Type 0} → State → Option AgentError → W → Run W
ended state failure w = record { state = state; failure = failure; steps = []; world = w }

abbrev pub recorded : {W : Type 0} → StepRecord → Run W → Run W
recorded r run = record run { steps = r ∷ run.steps }

-- The default of 100 for a limit that is not positive.
unfoldable pub effective_max_steps : ℤ → ℕ
effective_max_steps (pos zero) = 100
effective_max_steps (pos (suc n)) = suc n
effective_max_steps (negsuc n) = 100

-- One round of the loop: it returns an error, or moves on to the next node.
pub data Round (W : Type 0) : Type 0 where
  failed : State → AgentError → W → Round W
  moved : (next : Text) → State → (updated : List Text) → W → Round W

module _ {W : Type 0} (cg : CompiledGraph W) where
  unfoldable pub advance : Text → State → List Text → W → Round W
  advance current state updated w = elim (next cg current state) [
    | err e ↦ failed state e w
    | ok dst ↦ moved dst state updated w
  ]

  unfoldable pub after_node : Text → State → Result Text State → W → Round W
  unfolding advance merge
  after_node current state (err e) w = failed state (node_failed current e) w
  after_node current state (ok updates) w =
      let (state', updated) = merge state updates cg.reducers in advance current state' updated w

  unfoldable pub round : Text → State → W → Round W
  unfolding after_node
  round current state w = elim (lookup current cg.nodes) [
    | none ↦ failed state (no_function_registered current) w
    | some fn ↦ let (result, w') = fn state w in after_node current state result w'
  ]

  -- The loop, with the steps that the limit leaves; `step` counts up beside it.
  unfoldable pub execute_loop : (left limit step : ℕ) → Text → State → W → Run W
  unfolding round
  execute_loop zero limit step current state w =
      if current == end_node
      then ended state none w
      else ended state (some (max_steps_exceeded limit cg.name)) w
  execute_loop (suc left) limit step current state w =
      let rest = λ (dst : Text) (state' : State) (w' : W).
        execute_loop left limit (step + 1) dst state' w' in
      if current == end_node then ended state none w else (elim (round current state w) [
        | failed state' e w' ↦ ended state' (some e) w'
        | moved dst state' updated w' ↦
            recorded (record { step = step + 1; node = current; updated = updated; next = dst })
              (rest dst state' w')
      ])

  unfoldable pub execute : State → ℤ → W → Run W
  unfolding execute_loop effective_max_steps clone
  execute input max_steps w =
      let limit = effective_max_steps max_steps in
      execute_loop limit limit 0 cg.entry (clone input) w
