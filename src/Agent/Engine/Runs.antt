-- ===== src/Agent/Engine/Runs.antt =====
-- What a run of the interpreter does: its steps, its end, and its limit.
use go_ai.Prelude.{
  ℕ, zero, suc, ◌+◌, ◌≤◌, ◌≡◌, refl, sym, subst, ap, ◌∙◌, ◌≢◌, false≢true, inl, inr, none, some,
  List, [], ◌∷◌, Result, ok, err, arith, length, Bool-cases, Option-cases, ◌⊎◌,
}
use go_ai.Text.{Text, ◌==◌, eq_iff}
use go_ai.Dict.{lookup}
use go_ai.Agent.State.{State, merge}
use go_ai.Agent.Graph.{AgentError, max_steps_exceeded, end_node}
use go_ai.Agent.Compile.{CompiledGraph, next, route}
use go_ai.Agent.Engine.{
  ended, recorded, StepRecord, Run, Round, failed, moved, advance, after_node, round, execute_loop,
}

pub Round-cases :
    {W : Type 0} (r : Round W)
    → ((s : State) × (e : AgentError) × (w : W) × (r ≡ failed s e w))
      ⊎ ((d : Text) × (s : State) × (u : List Text) × (w : W) × (r ≡ moved d s u w))
Round-cases (failed s e w) = inl (s, e, w, refl)
Round-cases (moved d s u w) = inr (d, s, u, w, refl)

-- Induction on a run: it ends at the end node, at the limit or at a failing round, or a round moves
-- it on.
module _ {W : Type 0} (cg : CompiledGraph W) (limit : ℕ)
    (P : (left step : ℕ) → Text → State → W → Run W → Type 0) where
  pub execute_induction :
      ((left step : ℕ) (s : State) (w : W) → P left step end_node s w (ended s none w))
      → ((step : ℕ) (current : Text) (s : State) (w : W)
          → current ≢ end_node
          → P 0 step current s w (ended s (some (max_steps_exceeded limit cg.name)) w))
      → ((left step : ℕ) (current : Text) (s t : State) (e : AgentError) (w v : W)
          → current ≢ end_node
          → round cg current s w ≡ failed t e v
          → P (suc left) step current s w (ended t (some e) v))
      → ((left step : ℕ) (current dst : Text) (s t : State) (u : List Text) (w v : W) (run : Run W)
          → current ≢ end_node
          → round cg current s w ≡ moved dst t u v
          → P left (step + 1) dst t v run
          → P
              (suc left)
              step
              current
              s
              w
              (recorded (record { step = step + 1; node = current; updated = u; next = dst }) run))
      → (left step : ℕ) (current : Text) (s : State) (w : W)
      → P left step current s w (execute_loop cg left limit step current s w)
  unfolding execute_loop
  execute_induction done out fails moves zero step current s w =
      elim (Bool-cases (current == end_node)) [
        | inl e ↦
            let same = (eq_iff current end_node).0 e in
            rw e (subst (λ c. P 0 step c s w (ended s none w)) (sym same) (done 0 step s w))
        | inr n ↦
            rw n (out step current s w (λ e. false≢true (sym n ∙ (eq_iff current end_node).1 e)))
      ]
  execute_induction done out fails moves (suc left) step current s w =
      elim (Bool-cases (current == end_node)) [
        | inl e ↦
            let same = (eq_iff current end_node).0 e in
            rw e (
              subst (λ c. P (suc left) step c s w (ended s none w)) (sym same)
                (done (suc left) step s w))
        | inr n ↦
            let other : current ≢ end_node =
              λ e. false≢true (sym n ∙ (eq_iff current end_node).1 e) in
            elim (Round-cases (round cg current s w)) [
              | inl (t, e, v, h) ↦ rw (n, h) (fails left step current s t e w v other h)
              | inr (d, t, u, v, h) ↦
                  rw (n, h)
                    (moves left step current d s t u w v _ other h
                      (execute_induction done out fails moves left (step + 1) d t v))
            ]
      ]

-- The records of `rs` follow one another from the node `current` on, numbered from `step + 1`.
abbrev pub IsChain : ℕ → Text → List StepRecord → Type 0
IsChain step current [] = Unit
IsChain step current (r ∷ rs) =
    (r.node ≡ current) × (r.step ≡ step + 1) × IsChain (step + 1) r.next rs

-- Where a run stands after its steps.
abbrev pub reached : Text → List StepRecord → Text
reached current [] = current
reached current (r ∷ rs) = reached r.next rs

pub record IsSound {W : Type 0} (left limit step : ℕ) (current : Text) (run : Run W) : Type 0 where
  pub chained : IsChain step current run.steps
  pub bounded : length run.steps ≤ left
  pub completed : run.failure ≡ none → reached current run.steps ≡ end_node
  pub exhausted :
      (l : ℕ) (n : Text)
      → run.failure ≡ some (max_steps_exceeded l n)
      → (l ≡ limit) × (length run.steps ≡ left) × (reached current run.steps ≢ end_node)

module _ {W : Type 0} (cg : CompiledGraph W) where
  -- No round reports the limit.
  next-ne-limit :
      (src : Text) (s : State) (l : ℕ) (n : Text) → next cg src s ≢ err (max_steps_exceeded l n)
  unfolding next route
  next-ne-limit src s l n = ground arith

  after_node-ne-limit :
      (src : Text) (s t : State) (answer : Result Text State) (w v : W) (l : ℕ) (n : Text)
      → after_node cg src s answer w ≢ failed t (max_steps_exceeded l n) v
  unfolding after_node advance
  after_node-ne-limit src s t (err e) w v l n = ground arith
  after_node-ne-limit src s t (ok updates) w v l n =
      ground (arith, next-ne-limit src (merge s updates cg.reducers).0 l n)

  round-ne-limit :
      (src : Text) (s t : State) (w v : W) (l : ℕ) (n : Text)
      → round cg src s w ≢ failed t (max_steps_exceeded l n) v
  unfolding round
  round-ne-limit src s t w v l n = elim (Option-cases (lookup src cg.nodes)) [
    | inl missing ↦ rw (missing, round) (λ e. ground arith)
    | inr (fn, found) ↦ rw (found, round) (after_node-ne-limit src s t (fn s w).0 (fn s w).1 v l n)
  ]

  pub execute_loop-IsSound :
      (left limit step : ℕ) (current : Text) (s : State) (w : W)
      → IsSound left limit step current (execute_loop cg left limit step current s w)
  execute_loop-IsSound left limit step current s w =
      execute_induction cg limit (λ left step current s w run. IsSound left limit step current run)
        (λ left step s w. record {
          chained = tt;
          bounded = omega arith;
          completed = λ e. refl;
          exhausted = λ l n e. cc;
        })
        (λ step current s w other. record {
          chained = tt;
          bounded = omega arith;
          completed = λ e. cc;
          exhausted = λ l n e. (ground arith, refl, other);
        })
        (λ left step current s t e w v other h. record {
          chained = tt;
          bounded = omega arith;
          completed = λ k. cc;
          exhausted = λ l n k. absurd (round-ne-limit current s t w v l n (ground arith));
        })
        (λ left step current dst s t u w v run other h ih. record {
          chained = (refl, refl, ih.chained);
          bounded = omega (arith, ih.bounded);
          completed = ih.completed;
          exhausted = λ l n k. let x = ih.exhausted l n k in (x.0, ap suc x.1, x.2);
        })
        left step current s w
