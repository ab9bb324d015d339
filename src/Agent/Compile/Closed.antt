-- ===== src/Agent/Compile/Closed.antt =====
-- When `Compile` succeeds, and what that buys: routing never leaves the graph.
use go_ai.Prelude.{
  ◌≡◌, refl, true, false, ◌↔◌, ◌⊎◌, inl, inr, none, some, [], ◌∷◌, ok, err, arith, All,
  Option-cases,
}
use go_ai.Text.{Text, eq_iff}
use go_ai.Dict.{Dict, lookup, has}
use go_ai.Agent.State.{State}
use go_ai.Agent.Graph.{NodeFunc, Conditional, Graph, end_node, is_empty}
use go_ai.Agent.Compile.{
  CompiledGraph, resolved_entry, check_edges, check_mapping, check_conds, check_graph, compiled,
  compile, route, next,
}

-- A place that an edge may lead to.
abbrev pub IsTarget : {W : Type 0} → Dict (NodeFunc W) → Text → Type 0
IsTarget nodes t = (has t nodes ≡ true) ⊎ (t ≡ end_node)

abbrev EdgeIsClosed : {W : Type 0} → Dict (NodeFunc W) → Text × Text → Type 0
EdgeIsClosed nodes e = (has e.0 nodes ≡ true) × IsTarget nodes e.1

abbrev MappingIsClosed : {W : Type 0} → Dict (NodeFunc W) → Dict Text → Type 0
MappingIsClosed nodes mapping = All (λ (e : Text × Text). IsTarget nodes e.1) mapping

abbrev CondIsClosed : {W : Type 0} → Dict (NodeFunc W) → Text × Conditional → Type 0
CondIsClosed nodes e = (has e.0 nodes ≡ true) × MappingIsClosed nodes e.1.mapping

-- What a graph must be for `Compile` to accept it, with no order among the checks.
pub record IsCompilable {W : Type 0} (g : Graph W) : Type 0 where
  pub unfailed : g.failure ≡ none
  pub populated : is_empty g.nodes ≡ false
  pub entered : has (resolved_entry g) g.nodes ≡ true
  pub edges_closed : All (EdgeIsClosed g.nodes) g.edges
  pub conds_closed : All (CondIsClosed g.nodes) g.conds

module _ {W : Type 0} (nodes : Dict (NodeFunc W)) where
  check_edges-eq-none_iff :
      (edges : Dict Text) → (check_edges nodes edges ≡ none) ↔ All (EdgeIsClosed nodes) edges
  unfolding check_edges
  check_edges-eq-none_iff [] = ground arith
  check_edges-eq-none_iff ((src, dst) ∷ edges) =
      ground (arith, eq_iff dst end_node, check_edges-eq-none_iff edges)

  check_mapping-eq-none_iff :
      (src : Text) (mapping : Dict Text)
      → (check_mapping nodes src mapping ≡ none) ↔ MappingIsClosed nodes mapping
  unfolding check_mapping
  check_mapping-eq-none_iff src [] = ground arith
  check_mapping-eq-none_iff src ((key, dst) ∷ mapping) =
      ground (arith, eq_iff dst end_node, check_mapping-eq-none_iff src mapping)

  check_conds-eq-none_iff :
      (conds : Dict Conditional) → (check_conds nodes conds ≡ none) ↔ All (CondIsClosed nodes) conds
  unfolding check_conds
  check_conds-eq-none_iff [] = ground arith
  check_conds-eq-none_iff ((src, c) ∷ conds) =
      ground (arith, check_mapping-eq-none_iff src c.mapping, check_conds-eq-none_iff conds)

module _ {W : Type 0} (g : Graph W) where
  check_graph-eq-none : check_graph g ≡ none → IsCompilable g
  unfolding check_graph
  check_graph-eq-none h = record {
    unfailed = ground arith;
    populated = ground arith;
    entered = ground arith;
    edges_closed = (check_edges-eq-none_iff g.nodes g.edges).0 (ground arith);
    conds_closed = (check_conds-eq-none_iff g.nodes g.conds).0 (ground arith);
  }

  eq-none_of_IsCompilable : IsCompilable g → check_graph g ≡ none
  unfolding check_graph
  eq-none_of_IsCompilable c =
      rw
        (
          c.unfailed,
          c.populated,
          c.entered,
          (check_edges-eq-none_iff g.nodes g.edges).1 c.edges_closed,
        )
        ((check_conds-eq-none_iff g.nodes g.conds).1 c.conds_closed)

  -- `Compile` succeeds exactly on a graph with no recorded error, at least one node, a defined entry
  -- and edges that start at nodes and lead to nodes or the end; whichever order its loops visit the
  -- maps in.
  pub compile_iff : ((cg : CompiledGraph W) × (compile g ≡ ok cg)) ↔ IsCompilable g
  unfolding compile
  compile_iff = (
    λ r. check_graph-eq-none (ground arith),
    λ c. (compiled g, rw (eq-none_of_IsCompilable c, compile)),
  )

  pub compile-eq : (cg : CompiledGraph W) → compile g ≡ ok cg → cg ≡ compiled g
  unfolding compile
  compile-eq cg h = ground arith

-- The routing data of a compiled graph leads to its nodes and its end only.
pub record IsClosed {W : Type 0} (cg : CompiledGraph W) : Type 0 where
  pub entered : has cg.entry cg.nodes ≡ true
  pub edges_closed : All (EdgeIsClosed cg.nodes) cg.edges
  pub conds_closed : All (CondIsClosed cg.nodes) cg.conds

-- What `Compile` returns has a defined entry, and edges and conditional edges that lead from its nodes
-- to its nodes or the end.
pub compile-IsClosed :
    {W : Type 0} (g : Graph W) (cg : CompiledGraph W) → compile g ≡ ok cg → IsClosed cg
unfolding compiled
compile-IsClosed g cg h =
    let c = (compile_iff g).0 (cg, h) in
    rw (compile-eq g cg h)
      (record { entered = c.entered; edges_closed = c.edges_closed; conds_closed = c.conds_closed })

module _ {W : Type 0} (nodes : Dict (NodeFunc W)) where
  lookup-edges :
      (edges : Dict Text) (src dst : Text)
      → All (EdgeIsClosed nodes) edges
      → lookup src edges ≡ some dst
      → IsTarget nodes dst
  unfolding lookup
  lookup-edges [] src dst h e = cc
  lookup-edges ((s, d) ∷ edges) src dst h e = ground (arith, lookup-edges edges src dst)

  lookup-mapping :
      (mapping : Dict Text) (key dst : Text)
      → MappingIsClosed nodes mapping
      → lookup key mapping ≡ some dst
      → IsTarget nodes dst
  unfolding lookup
  lookup-mapping [] key dst h e = cc
  lookup-mapping ((k, d) ∷ mapping) key dst h e = ground (arith, lookup-mapping mapping key dst)

  lookup-conds :
      (conds : Dict Conditional) (src : Text) (c : Conditional)
      → All (CondIsClosed nodes) conds
      → lookup src conds ≡ some c
      → MappingIsClosed nodes c.mapping
  unfolding lookup
  lookup-conds [] src c h e = cc
  lookup-conds ((s, d) ∷ conds) src c h e = ground (arith, lookup-conds conds src c)

  route-IsTarget :
      (src dst : Text) (c : Conditional) (s : State)
      → MappingIsClosed nodes c.mapping
      → route src c s ≡ ok dst
      → IsTarget nodes dst
  unfolding route
  route-IsTarget src dst c s h e =
      elim (c.router s) as (λ r. c.router s ≡ r → IsTarget nodes dst) [
        | ok key ↦ λ a. lookup-mapping c.mapping key dst h (ground arith)
        | err x ↦ λ a. ground arith
      ]
        refl

-- Whatever the state, the node that `Next` names is a node of the graph or the end.
pub next-IsTarget :
    {W : Type 0} (cg : CompiledGraph W) (src dst : Text) (s : State)
    → IsClosed cg
    → next cg src s ≡ ok dst
    → IsTarget cg.nodes dst
unfolding next
next-IsTarget cg src dst s c e = elim (Option-cases (lookup src cg.edges)) [
  | inl missing ↦ elim (Option-cases (lookup src cg.conds)) [
    | inl absent ↦ inr (ground arith)
    | inr (cond, found) ↦
        route-IsTarget cg.nodes src dst cond s
          (lookup-conds cg.nodes cg.conds src cond c.conds_closed found) (ground arith)
  ]
  | inr (d, found) ↦ lookup-edges cg.nodes cg.edges src dst c.edges_closed (ground arith)
]
