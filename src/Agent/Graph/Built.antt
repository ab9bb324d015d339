-- ===== src/Agent/Graph/Built.antt =====
-- agent/graph.go: what every graph is that the builder's calls make.
use go_ai.Prelude.{
  ◌≡◌, refl, ap, ◌∙◌, inl, inr, ◌≢◌, true, false, ◌||◌, Option, none, some, [], ◌∷◌, ◌++◌, arith,
  All, All-append, Bool-cases, Option-cases,
}
use go_ai.Text.{Text, ◌==◌, eq_iff}
use go_ai.Dict.{Dict, lookup, insert, has, keys, IsMap, insert-IsMap, lookup-insert, keys-insert}
use go_ai.Agent.State.{Reducer}
use go_ai.Agent.Graph.{
  start_node, end_node, NodeFunc, RouterFunc, Conditional, AgentError, Graph, new_graph, is_empty,
  fail, add_node, add_edge, add_conditional_edge, set_entry, with_reducer,
}

-- The graphs that calls of the builder make, in any number and order.
pub data Built {W : Type 0} : Graph W → Type 0 where
  fresh : (name : Text) → Built (new_graph name)
  node :
      {g : Graph W} (name : Text) (fn : Option (NodeFunc W)) → Built g → Built (add_node g name fn)
  edge : {g : Graph W} (src dst : Text) → Built g → Built (add_edge g src dst)
  branch :
      {g : Graph W} (src : Text) (router : Option RouterFunc) (mapping : Dict Text)
      → Built g
      → Built (add_conditional_edge g src router mapping)
  enter : {g : Graph W} (name : Text) → Built g → Built (set_entry g name)
  reduce : {g : Graph W} (channel : Text) (r : Reducer) → Built g → Built (with_reducer g channel r)

abbrev pub IsNodeName : Text → Type 0
IsNodeName name = (name ≢ []) × (name ≢ start_node) × (name ≢ end_node)

pub record IsWellFormed {W : Type 0} (g : Graph W) : Type 0 where
  pub ordered : keys g.nodes ≡ g.order
  pub distinct : IsMap g.nodes
  pub named : All IsNodeName g.order
  pub exclusive : (src : Text) → has src g.edges ≡ true → has src g.conds ≡ false
  pub routed : All (λ (e : Text × Conditional). is_empty e.1.mapping ≡ false) g.conds

module _ {W : Type 0} (g : Graph W) where
  fail-IsWellFormed : (e : AgentError) → IsWellFormed g → IsWellFormed (fail g e)
  unfolding fail
  fail-IsWellFormed e wf = elim (Option-cases g.failure) [
    | inl clear ↦
        simp (clear, fail)
          (record {
            ordered = wf.ordered;
            distinct = wf.distinct;
            named = wf.named;
            exclusive = wf.exclusive;
            routed = wf.routed;
          })
    | inr (old, failed) ↦ simp (failed, fail) wf
  ]

  -- `AddNode` with a fresh and good name.
  added-IsWellFormed :
      (name : Text) (fn : NodeFunc W)
      → IsNodeName name
      → has name g.nodes ≡ false
      → IsWellFormed g
      → IsWellFormed (record g { nodes = insert name fn g.nodes; order = g.order ++ name ∷ [] })
  added-IsWellFormed name fn good absent wf = record {
    ordered = keys-insert name fn g.nodes absent ∙ ap (λ ks. ks ++ name ∷ []) wf.ordered;
    distinct = insert-IsMap name fn g.nodes wf.distinct;
    named = All-append IsNodeName g.order (name ∷ []) wf.named (good, tt);
    exclusive = wf.exclusive;
    routed = wf.routed;
  }

  good_name :
      (name : Text)
      → (name == [] || name == start_node || name == end_node) ≡ false
      → IsNodeName name
  good_name name h = (
    (λ e. ground (arith, eq_iff name [])),
    (λ e. ground (arith, eq_iff name start_node)),
    λ e. ground (arith, eq_iff name end_node),
  )

  add_node-IsWellFormed :
      (name : Text) (fn : Option (NodeFunc W)) → IsWellFormed g → IsWellFormed (add_node g name fn)
  unfolding add_node
  add_node-IsWellFormed name none wf =
      elim (Bool-cases (name == [] || name == start_node || name == end_node)) [
        | inl bad ↦ simp bad (fail-IsWellFormed _ wf)
        | inr good ↦ elim (Bool-cases (has name g.nodes)) [
          | inl taken ↦ simp (good, taken) (fail-IsWellFormed _ wf)
          | inr absent ↦ simp (good, absent) (fail-IsWellFormed _ wf)
        ]
      ]
  add_node-IsWellFormed name (some fn) wf =
      elim (Bool-cases (name == [] || name == start_node || name == end_node)) [
        | inl bad ↦ simp bad (fail-IsWellFormed _ wf)
        | inr good ↦ elim (Bool-cases (has name g.nodes)) [
          | inl taken ↦ simp (good, taken) (fail-IsWellFormed _ wf)
          | inr absent ↦
              simp (good, absent) (added-IsWellFormed name fn (good_name name good) absent wf)
        ]
      ]

  -- The edges and the branches may change where no node has both.
  rerouted-IsWellFormed :
      (edges : Dict Text) (conds : Dict Conditional)
      → ((src : Text) → has src edges ≡ true → has src conds ≡ false)
      → All (λ (e : Text × Conditional). is_empty e.1.mapping ≡ false) conds
      → IsWellFormed g
      → IsWellFormed (record g { edges = edges; conds = conds })
  rerouted-IsWellFormed edges conds apart full wf = record {
    ordered = wf.ordered;
    distinct = wf.distinct;
    named = wf.named;
    exclusive = apart;
    routed = full;
  }

  entered-IsWellFormed : (name : Text) → IsWellFormed g → IsWellFormed (record g { entry = name })
  entered-IsWellFormed name wf = record {
    ordered = wf.ordered;
    distinct = wf.distinct;
    named = wf.named;
    exclusive = wf.exclusive;
    routed = wf.routed;
  }

  set_entry-IsWellFormed : (name : Text) → IsWellFormed g → IsWellFormed (set_entry g name)
  unfolding set_entry
  set_entry-IsWellFormed name wf = entered-IsWellFormed name wf

  add_edge-IsWellFormed : (src dst : Text) → IsWellFormed g → IsWellFormed (add_edge g src dst)
  unfolding add_edge
  add_edge-IsWellFormed src dst wf = elim (Bool-cases (src == start_node)) [
    | inl entry ↦ simp entry (entered-IsWellFormed dst wf)
    | inr inner ↦ elim (Bool-cases (has src g.conds)) [
      | inl taken ↦ simp (inner, taken) (fail-IsWellFormed _ wf)
      | inr free ↦
          simp (inner, free)
            (rerouted-IsWellFormed (insert src dst g.edges) g.conds
              (λ other h.
                ground (
                  arith,
                  eq_iff src other,
                  lookup-insert src other dst g.edges,
                  wf.exclusive other,
                ))
              wf.routed wf)
    ]
  ]

  routed_insert :
      (src : Text) (c : Conditional) (conds : Dict Conditional)
      → is_empty c.mapping ≡ false
      → All (λ (e : Text × Conditional). is_empty e.1.mapping ≡ false) conds
      → All (λ (e : Text × Conditional). is_empty e.1.mapping ≡ false) (insert src c conds)
  unfolding insert
  routed_insert src c [] full h = (full, tt)
  routed_insert src c ((name, old) ∷ rest) full h = elim (Bool-cases (name == src)) [
    | inl same ↦ rw same (full, h.1)
    | inr other ↦ rw other (h.0, routed_insert src c rest full h.1)
  ]

  branched-IsWellFormed :
      (src : Text) (c : Conditional)
      → is_empty c.mapping ≡ false
      → has src g.edges ≡ false
      → IsWellFormed g
      → IsWellFormed (record g { conds = insert src c g.conds })
  branched-IsWellFormed src c full free wf =
      rerouted-IsWellFormed g.edges (insert src c g.conds)
        (λ other h.
          ground (arith, eq_iff src other, lookup-insert src other c g.conds, wf.exclusive other))
        (routed_insert src c g.conds full wf.routed) wf

  add_conditional_edge-IsWellFormed :
      (src : Text) (router : Option RouterFunc) (mapping : Dict Text)
      → IsWellFormed g
      → IsWellFormed (add_conditional_edge g src router mapping)
  unfolding add_conditional_edge
  add_conditional_edge-IsWellFormed src none mapping wf = fail-IsWellFormed _ wf
  add_conditional_edge-IsWellFormed src (some router) mapping wf =
      elim (Bool-cases (is_empty mapping)) [
        | inl nothing ↦ simp nothing (fail-IsWellFormed _ wf)
        | inr full ↦ elim (Bool-cases (has src g.edges)) [
          | inl taken ↦ simp (full, taken) (fail-IsWellFormed _ wf)
          | inr free ↦ simp (full, free) (branched-IsWellFormed src _ full free wf)
        ]
      ]

  reduced-IsWellFormed :
      (channel : Text) (r : Reducer) → IsWellFormed g → IsWellFormed (with_reducer g channel r)
  unfolding with_reducer
  reduced-IsWellFormed channel r wf = record {
    ordered = wf.ordered;
    distinct = wf.distinct;
    named = wf.named;
    exclusive = wf.exclusive;
    routed = wf.routed;
  }

fresh-IsWellFormed : {W : Type 0} (name : Text) → IsWellFormed {W = W} (new_graph name)
unfolding new_graph lookup
fresh-IsWellFormed name = record {
  ordered = refl;
  distinct = tt;
  named = tt;
  exclusive = λ src h. refl;
  routed = tt;
}

-- Whatever calls made a graph, its order lists each of its nodes once, in the order of their first
-- `AddNode`, none of them with an empty or reserved name; no node has both a static and a conditional
-- edge; and every conditional edge has a mapping.
pub Built-IsWellFormed : {W : Type 0} (g : Graph W) → Built g → IsWellFormed g
Built-IsWellFormed _ (fresh name) = fresh-IsWellFormed name
Built-IsWellFormed _ (node {g} name fn b) = add_node-IsWellFormed g name fn (Built-IsWellFormed g b)
Built-IsWellFormed _ (edge {g} src dst b) = add_edge-IsWellFormed g src dst (Built-IsWellFormed g b)
Built-IsWellFormed _ (branch {g} src router mapping b) =
    add_conditional_edge-IsWellFormed g src router mapping (Built-IsWellFormed g b)
Built-IsWellFormed _ (enter {g} name b) = set_entry-IsWellFormed g name (Built-IsWellFormed g b)
Built-IsWellFormed _ (reduce {g} channel r b) =
    reduced-IsWellFormed g channel r (Built-IsWellFormed g b)
