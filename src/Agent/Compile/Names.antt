-- ===== src/Agent/Compile/Names.antt =====
-- agent/config.go and agent/graph.go: the node names of a compiled graph.
use go_ai.Prelude.{◌≡◌, refl, sym, ap, ◌∙◌, Bool, List, [], ◌∷◌, ◌++◌, map, ok}
use mathlib.Core.List.{append-nil}
use go_ai.Text.{Text}
use go_ai.Dict.{Dict, insert, keys}
use go_ai.Agent.Graph.{Graph, Conditional}
use go_ai.Agent.Graph.Built.{Built, Built-IsWellFormed}
use go_ai.Agent.Config.{
  NodeConfig, GraphConfig, flag_at, describe_node, push_edge, describe_nodes, describe,
}
use go_ai.Agent.Compile.{CompiledGraph, compiled, compile, node_names, resolved_entry}
use go_ai.Agent.Compile.Closed.{compile-eq}

abbrev names_in : GraphConfig → List Text
names_in c = map (λ (n : NodeConfig). n.name) c.nodes

names_push :
    (ns : List NodeConfig) (n : Text) (order : List Text)
    → map (λ (x : NodeConfig). x.name) (ns ++ record { name = n } ∷ []) ++ order
      ≡ map (λ (x : NodeConfig). x.name) ns ++ (n ∷ order)
names_push [] n order = refl
names_push (x ∷ ns) n order = ap (λ r. x.name ∷ r) (names_push ns n order)

names_in-describe_nodes :
    (edges : Dict Text) (conds : Dict Conditional) (order : List Text) (c : GraphConfig)
    (finish : Dict Bool)
    → names_in (describe_nodes edges conds order c finish).0 ≡ names_in c ++ order
unfolding describe_nodes
names_in-describe_nodes edges conds [] c finish = sym (append-nil (names_in c))
names_in-describe_nodes edges conds (n ∷ order) c finish =
    let step = describe_node edges conds n (flag_at n finish) in
    names_in-describe_nodes edges conds order
      (record c { nodes = c.nodes ++ record { name = n } ∷ []; edges = push_edge c.edges step.0 })
      (insert n step.1 finish)
    ∙ names_push c.nodes n order

names_in-describe :
    (name : Text) (order : List Text) (edges : Dict Text) (conds : Dict Conditional) (entry : Text)
    → names_in (describe name order edges conds entry) ≡ order
unfolding describe
names_in-describe name order edges conds entry = names_in-describe_nodes edges conds order _ []

-- The node names of a compiled graph are its nodes, each once, in the order in which they were added.
pub node_names-compile :
    {W : Type 0} (g : Graph W) (cg : CompiledGraph W)
    → Built g
    → compile g ≡ ok cg
    → node_names cg ≡ keys g.nodes
unfolding node_names compiled
node_names-compile g cg b h =
    ap node_names (compile-eq g cg h)
    ∙ names_in-describe g.name g.order g.edges g.conds (resolved_entry g)
    ∙ sym (Built-IsWellFormed g b).ordered
