-- ===== src/Agent/Tests.antt =====
-- Runs of the graph engine on a small graph, and its theorems at that graph.
use mathlib.Core.List.{Permᴰ}
use go_ai.Agent.Graph.{Conditional}
use go_ai.Prelude.{false, ℕ, suc, ◌≡◌, refl, ◌↔◌, inl, inr, none, some, [], ◌∷◌, ok, err, All, ◌≢◌}
use go_ai.Prelude.Int.{pos}
use go_ai.Text.{Text, codes, ◌==◌}
use go_ai.Dict.{keys, Dict, lookup, insert}
use go_ai.Value.{Value, null, text, array, nil, cons}
use go_ai.Agent.State.{
  State, append_reducer, existing_items, update_items, merge, clone, channel, written,
}
use go_ai.Agent.State.Merge.{merged, channel-merge}
use go_ai.Agent.Graph.{
  NodeFunc, RouterFunc, Graph, new_graph, fail, add_node, add_edge, add_conditional_edge, set_entry,
  with_reducer, start_node, end_node, edge_to_unknown_target, no_function_registered,
  max_steps_exceeded,
}
use go_ai.Agent.Graph.Built.{
  Built, fresh, node, edge, branch, reduce, IsWellFormed, Built-IsWellFormed,
}
use go_ai.Agent.Config.{describe, describe_node}
use go_ai.Agent.Config.Order.{describe_node-order}
use go_ai.Agent.Compile.Names.{node_names-compile}
use go_ai.Agent.Compile.{
  node_names, CompiledGraph, resolved_entry, valid_target, check_edges, check_mapping, check_conds,
  check_graph, compiled, compile, route, next,
}
use go_ai.Agent.Compile.Closed.{
  IsTarget, IsCompilable, compile_iff, IsClosed, compile-IsClosed, next-IsTarget,
}
use go_ai.Agent.Engine.{effective_max_steps, advance, after_node, round, execute_loop, execute}
use go_ai.Agent.Engine.Runs.{IsSound}
use go_ai.Agent.Engine.Execute.{execute-IsSound, IsAllowed, execute-IsAllowed}

-- Every definition that the runs below compute with.
engine : Unit {0}
unfolding lookup insert ◌==◌ append_reducer existing_items update_items merge clone channel written
    new_graph fail add_node add_edge add_conditional_edge set_entry with_reducer describe
    resolved_entry valid_target check_edges check_mapping check_conds check_graph compiled compile
    route next effective_max_steps advance after_node round execute_loop execute
engine = tt

-- The world counts the calls of nodes.
abbrev plan : NodeFunc ℕ
plan s w = (ok ((codes "log", text (codes "planned")) ∷ []), suc w)

abbrev act : NodeFunc ℕ
act s w =
    (ok ((codes "log", text (codes "acted")) ∷ (codes "done", text (codes "yes")) ∷ []), suc w)

abbrev answer_key : Value → Text
answer_key null = codes "again"
answer_key v = codes "stop"

abbrev by_done : RouterFunc
unfolding channel
by_done s = ok (answer_key (channel (codes "done") s))

abbrev choices : Dict Text
choices = (codes "again", codes "plan") ∷ (codes "stop", end_node) ∷ []

abbrev draft : Graph ℕ
unfolding engine
draft =
    with_reducer
      (add_edge
        (add_edge
          (add_node (add_node (new_graph (codes "agent")) (codes "plan") (some plan)) (codes "act")
            (some act))
          start_node (codes "plan"))
        (codes "plan") (codes "act"))
      (codes "log") append_reducer

abbrev sample : Graph ℕ
unfolding engine
sample = add_conditional_edge draft (codes "act") (some by_done) choices

abbrev sample_cg : CompiledGraph ℕ
unfolding engine
sample_cg = compiled sample

sample_compiles : compile sample ≡ ok sample_cg
unfolding engine
sample_compiles = refl

abbrev logged : State
logged =
    (codes "log", array (cons (text (codes "planned")) (cons (text (codes "acted")) nil)))
    ∷ (codes "done", text (codes "yes"))
    ∷ []

-- A whole run, a run that meets its limit, and a graph with a dangling edge.
engine_tests :
    ((execute sample_cg [] (pos 0) 0).state ≡ logged)
    × ((execute sample_cg [] (pos 0) 0).failure ≡ none)
    × ((execute sample_cg [] (pos 0) 0).world ≡ 2)
    × ((execute sample_cg [] (pos 1) 0).failure ≡ some (max_steps_exceeded 1 (codes "agent")))
    × (compile (add_edge sample (codes "plan") (codes "gone"))
        ≡ err (edge_to_unknown_target (codes "plan") (codes "gone")))
unfolding engine
engine_tests = (refl, refl, refl, refl, refl)

sample-IsCompilable : IsCompilable sample
unfolding engine
sample-IsCompilable = record {
  unfailed = refl;
  populated = refl;
  entered = refl;
  edges_closed = ((refl, inl refl), tt);
  conds_closed = ((refl, (inl refl, (inr refl, tt))), tt);
}

sample-IsClosed : IsClosed sample_cg
sample-IsClosed = compile-IsClosed sample sample_cg sample_compiles

compile_iff_example : ((cg : CompiledGraph ℕ) × (compile sample ≡ ok cg)) ↔ IsCompilable sample
compile_iff_example = compile_iff sample

compile-IsClosed_example : IsClosed sample_cg
compile-IsClosed_example = compile-IsClosed sample sample_cg sample_compiles

routed : next sample_cg (codes "act") logged ≡ ok end_node
unfolding engine
routed = refl

next-IsTarget_example : IsTarget sample_cg.nodes end_node
next-IsTarget_example = next-IsTarget sample_cg (codes "act") end_node logged sample-IsClosed routed

execute-IsSound_example :
    IsSound
      (effective_max_steps (pos 5))
      (effective_max_steps (pos 5))
      0
      sample_cg.entry
      (execute sample_cg [] (pos 5) 0)
execute-IsSound_example = execute-IsSound sample_cg [] (pos 5) 0

execute-IsAllowed_example :
    All (IsAllowed sample_cg) (execute sample_cg [] (pos 5) 0).steps
    × ((n : Text) → (execute sample_cg [] (pos 5) 0).failure ≢ some (no_function_registered n))
execute-IsAllowed_example = execute-IsAllowed sample_cg [] (pos 5) 0 sample-IsClosed

abbrev updates : State
updates = (codes "log", text (codes "more")) ∷ []

channel-merge_example :
    channel (codes "log") (merge logged updates sample_cg.reducers).0
    ≡ merged sample_cg.reducers
        (codes "log")
        (channel (codes "log") logged)
        (lookup (codes "log") updates)
channel-merge_example = channel-merge sample_cg.reducers (codes "log") updates logged (tt, tt)

sample_built : Built sample
unfolding engine
sample_built = branch (codes "act") (some by_done) choices (
    reduce (codes "log") append_reducer (
      edge (codes "plan") (codes "act") (
        edge start_node (codes "plan") (
          node (codes "act") (some act)
            (node (codes "plan") (some plan) (fresh (codes "agent")))))))

Built-IsWellFormed_example : IsWellFormed sample
Built-IsWellFormed_example = Built-IsWellFormed sample sample_built

node_names-compile_example : node_names sample_cg ≡ keys sample.nodes
node_names-compile_example = node_names-compile sample sample_cg sample_built sample_compiles

abbrev branch_at : Dict Text → Dict Conditional
branch_at mapping = (codes "act", record { router = by_done; mapping = mapping }) ∷ []

abbrev reordered : Dict Text
reordered = (codes "stop", end_node) ∷ (codes "again", codes "plan") ∷ []

branch_found :
    (mapping : Dict Text)
    → lookup (codes "act") (branch_at mapping)
      ≡ some (record { router = by_done; mapping = mapping })
unfolding engine
branch_found mapping = refl

describe_node-order_example :
    describe_node [] (branch_at choices) (codes "act") false
    ≡ describe_node [] (branch_at reordered) (codes "act") false
describe_node-order_example =
    describe_node-order [] (branch_at choices) (branch_at reordered) (codes "act") false
      (record { router = by_done; mapping = choices })
      (record { router = by_done; mapping = reordered }) (branch_found choices)
      (branch_found reordered) (Permᴰ.swap refl refl)
