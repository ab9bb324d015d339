-- ===== src/Agent/Compile.antt =====
-- agent/graph.go: `Compile`, and the compiled graph's operations that both runners share.
pub mod Closed
pub mod Names
use go_ai.Prelude.{
  Bool, not, ◌||◌, Option, none, some, List, [], ◌∷◌, Result, ok, err, map_err, map, if◌then◌else◌,
}
use go_ai.Text.{Text, ◌==◌}
use go_ai.Dict.{Dict, lookup, has}
use go_ai.Agent.State.{State, Reducer, clone, merge}
use go_ai.Agent.Graph.{
  NodeFunc, Conditional, AgentError, no_nodes, entry_not_defined, edge_from_unknown_node,
  edge_to_unknown_target, conditional_from_unknown_node, conditional_to_unknown_target,
  no_function_registered, node_error, router_failed, unmapped_key, Graph, end_node, is_empty,
}
use go_ai.Agent.Config.{GraphConfig, NodeConfig, describe}

pub record CompiledGraph (W : Type 0) : Type 0 where
  pub name : Text
  pub nodes : Dict (NodeFunc W)
  pub order : List Text
  pub edges : Dict Text
  pub conds : Dict Conditional
  pub reducers : Dict Reducer
  pub entry : Text
  pub config : GraphConfig

abbrev head_or_empty : List Text → Text
head_or_empty [] = []
head_or_empty (x ∷ xs) = x

-- The entry that `Compile` settles on: the first node where none is set.
unfoldable pub resolved_entry : {W : Type 0} → Graph W → Text
resolved_entry g = if is_empty g.entry then head_or_empty g.order else g.entry

module _ {W : Type 0} (nodes : Dict (NodeFunc W)) where
  -- The closure `validTarget`.
  unfoldable pub valid_target : Text → Bool
  valid_target t = has t nodes || t == end_node

  -- The loops of `Compile` return at the first bad edge that they meet.
  unfoldable pub check_edges : Dict Text → Option AgentError
  unfolding valid_target
  check_edges [] = none
  check_edges ((src, dst) ∷ edges) =
      if not (has src nodes)
      then some (edge_from_unknown_node src)
      else if not (valid_target dst)
      then some (edge_to_unknown_target src dst)
      else check_edges edges

  unfoldable pub check_mapping : Text → Dict Text → Option AgentError
  unfolding valid_target
  check_mapping src [] = none
  check_mapping src ((key, dst) ∷ mapping) =
      if not (valid_target dst)
      then some (conditional_to_unknown_target src key dst)
      else check_mapping src mapping

  unfoldable pub check_conds : Dict Conditional → Option AgentError
  unfolding check_mapping
  check_conds [] = none
  check_conds ((src, c) ∷ conds) =
      let rest = check_conds conds in
      if not (has src nodes)
      then some (conditional_from_unknown_node src)
      else elim (check_mapping src c.mapping) [ some e ↦ some e | none ↦ rest ]

-- The checks of `Compile`, in its order.
unfoldable pub check_graph : {W : Type 0} → Graph W → Option AgentError
unfolding check_edges check_conds resolved_entry
check_graph g = elim g.failure [
  | some e ↦ some e
  | none ↦
      if is_empty g.nodes
      then some (no_nodes g.name)
      else if not (has (resolved_entry g) g.nodes)
      then some (entry_not_defined (resolved_entry g))
      else elim (check_edges g.nodes g.edges) [
        | some e ↦ some e
        | none ↦ check_conds g.nodes g.conds
      ]
]

-- The value that `Compile` builds when every check has passed.
unfoldable pub compiled : {W : Type 0} → Graph W → CompiledGraph W
unfolding describe resolved_entry
compiled g = record {
  name = g.name;
  nodes = g.nodes;
  order = g.order;
  edges = g.edges;
  conds = g.conds;
  reducers = g.reducers;
  entry = resolved_entry g;
  config = describe g.name g.order g.edges g.conds (resolved_entry g);
}

unfoldable pub compile : {W : Type 0} → Graph W → Result AgentError (CompiledGraph W)
unfolding check_graph compiled
compile g = elim (check_graph g) [ some e ↦ err e | none ↦ ok (compiled g) ]

-- The answer of a conditional edge.
unfoldable pub route : Text → Conditional → State → Result AgentError Text
route src c state = elim (c.router state) [
  | err e ↦ err (router_failed src e)
  | ok key ↦ elim (lookup key c.mapping) [ none ↦ err (unmapped_key src key) | some dst ↦ ok dst ]
]

module _ {W : Type 0} where
  unfoldable pub node_names : CompiledGraph W → List Text
  node_names cg = map (λ (n : NodeConfig). n.name) cg.config.nodes

  unfoldable pub run_node : CompiledGraph W → Text → State → W → Result AgentError State × W
  run_node cg name state w = elim (lookup name cg.nodes) [
    | none ↦ (err (no_function_registered name), w)
    | some fn ↦ let (result, w') = fn state w in (map_err node_error result, w')
  ]

  unfoldable pub apply_updates : CompiledGraph W → State → State → State
  unfolding clone merge
  apply_updates cg state updates = (merge (clone state) updates cg.reducers).0

  unfoldable pub next : CompiledGraph W → Text → State → Result AgentError Text
  unfolding route
  next cg src state = elim (lookup src cg.edges) [
    | some dst ↦ ok dst
    | none ↦ elim (lookup src cg.conds) [ some c ↦ route src c state | none ↦ ok end_node ]
  ]
