-- ===== src/Agent/Graph.antt =====
-- agent/graph.go: the graph builder. Its methods return the graph they changed, so a chain of calls
-- is a composition of functions here.
pub mod Built
use go_ai.Prelude.{
  ℕ, ◌≡◌, refl, Bool, true, false, ◌||◌, Option, none, some, List, [], ◌∷◌, ◌++◌, Result,
  if◌then◌else◌,
}
use go_ai.Text.{Text, codes, ◌==◌}
use go_ai.Dict.{Dict, insert, has}
use go_ai.Agent.State.{State, Reducer}

abbrev pub start_node : Text
start_node = codes "__start__"

abbrev pub end_node : Text
end_node = codes "__end__"

-- A node calls models and tools: it takes and returns the world `W` beside the state. Its error is
-- the text of the Go error.
abbrev pub NodeFunc : Type 0 → Type 0
NodeFunc W = State → W → Result Text State × W

-- A router is a pure function of the state, as replay demands.
abbrev pub RouterFunc : Type 0
RouterFunc = State → Result Text Text

pub record Conditional : Type 0 where
  pub router : RouterFunc
  pub mapping : Dict Text

-- Every error that the package builds, with the texts that it formats, and `node_error` for a node's
-- own error where it is passed on as it is.
pub data AgentError : Type 0 where
  invalid_node_name : Text → AgentError
  duplicate_node : Text → AgentError
  nil_function : Text → AgentError
  has_conditional_edge : Text → AgentError
  needs_router_and_mapping : Text → AgentError
  has_static_edge : Text → AgentError
  no_nodes : Text → AgentError
  entry_not_defined : Text → AgentError
  edge_from_unknown_node : Text → AgentError
  edge_to_unknown_target : Text → Text → AgentError
  conditional_from_unknown_node : Text → AgentError
  conditional_to_unknown_target : Text → Text → Text → AgentError
  max_steps_exceeded : ℕ → Text → AgentError
  no_function_registered : Text → AgentError
  node_failed : Text → Text → AgentError
  node_error : Text → AgentError
  router_failed : Text → Text → AgentError
  unmapped_key : Text → Text → AgentError

-- `failure` is the field `err`.
pub record Graph (W : Type 0) : Type 0 where
  pub name : Text
  pub nodes : Dict (NodeFunc W)
  pub order : List Text
  pub edges : Dict Text
  pub conds : Dict Conditional
  pub reducers : Dict Reducer
  pub entry : Text
  pub failure : Option AgentError

unfoldable pub new_graph : {W : Type 0} → Text → Graph W
new_graph name = record {
  name = name;
  nodes = [];
  order = [];
  edges = [];
  conds = [];
  reducers = [];
  entry = [];
  failure = none;
}

-- `len(m) == 0`, on a list or a map.
abbrev pub is_empty {ℓ} : {A : Type ℓ} → List A → Bool
is_empty [] = true
is_empty (x ∷ xs) = false

pub is_empty-nil {ℓ} : {A : Type ℓ} (xs : List A) → is_empty xs ≡ true → xs ≡ []
is_empty-nil [] h = refl
is_empty-nil (x ∷ xs) h = cc h

module _ {W : Type 0} where
  -- Only the first error is kept.
  unfoldable pub fail : Graph W → AgentError → Graph W
  fail g e = elim g.failure [ none ↦ record g { failure = some e } | some old ↦ g ]

  -- `fn` is none for a nil function.
  unfoldable pub add_node : Graph W → Text → Option (NodeFunc W) → Graph W
  unfolding fail
  add_node g name none =
      if name == [] || name == start_node || name == end_node
      then fail g (invalid_node_name name)
      else if has name g.nodes
      then fail g (duplicate_node name)
      else fail g (nil_function name)
  add_node g name (some fn) =
      if name == [] || name == start_node || name == end_node
      then fail g (invalid_node_name name)
      else if has name g.nodes
      then fail g (duplicate_node name)
      else record g { nodes = insert name fn g.nodes; order = g.order ++ name ∷ [] }

  unfoldable pub add_edge : Graph W → Text → Text → Graph W
  unfolding fail
  add_edge g src dst =
      if src == start_node
      then record g { entry = dst }
      else if has src g.conds
      then fail g (has_conditional_edge src)
      else record g { edges = insert src dst g.edges }

  -- `router` is none for a nil function.
  unfoldable pub add_conditional_edge : Graph W → Text → Option RouterFunc → Dict Text → Graph W
  unfolding fail
  add_conditional_edge g src none mapping = fail g (needs_router_and_mapping src)
  add_conditional_edge g src (some router) mapping =
      if is_empty mapping
      then fail g (needs_router_and_mapping src)
      else if has src g.edges
      then fail g (has_static_edge src)
      else record g { conds = insert src (record { router = router; mapping = mapping }) g.conds }

  unfoldable pub set_entry : Graph W → Text → Graph W
  set_entry g name = record g { entry = name }

  unfoldable pub with_reducer : Graph W → Text → Reducer → Graph W
  with_reducer g channel r = record g { reducers = insert channel r g.reducers }
