-- ===== src/Durable/Tests.antt =====
-- The durable workflow on a small graph, and its theorems at that graph.
use go_ai.Prelude.{
  false, Elem, IsDistinct, ◌↔◌, arith, if◌then◌else◌, ℕ, suc, ◌≡◌, refl, true, none, some, List, [],
  ◌∷◌, ◌++◌, Result, ok, err,
}
use go_ai.Prelude.Int.{pos}
use go_ai.Text.{Text, codes, ◌==◌, contains, contains_iff}
use go_ai.Dict.{lookup, insert}
use go_ai.Value.{text}
use go_ai.Agent.State.{State, merge, clone, channel, written}
use go_ai.Agent.Graph.{NodeFunc, end_node}
use go_ai.Agent.Compile.{CompiledGraph, next, route, run_node, apply_updates}
use go_ai.Agent.Engine.{effective_max_steps, execute, execute_loop, round, after_node, advance}
use go_ai.Durable.Worker.{WorkflowRegistry, register_nodes}
use go_ai.Durable.Worker.Activities.{IsActivityRegistry, register_nodes_offers}
use go_ai.Agent.Graph.{is_empty}
use go_ai.Durable.Workflow.{
  GraphWorkflowInput, GraphRegistry, WorkflowError, register, execute_node_activity, after_routing,
  after_activity, workflow_loop, graph_workflow,
}
use go_ai.Durable.Backend.{
  WorkflowClient, RunOptions, already_exists, run, await_run, instance_of, check_status,
  decode_result,
}
use go_ai.Durable.Backend.Completion.{IsBacked, run-completed}
use go_ai.Durable.Workflow.Refines.{direct, workflow_result, IsJsonSafe, graph_workflow-execute}

-- Every definition that the runs below compute with.
workflow : Unit {0}
unfolding lookup insert ◌==◌ merge clone channel written next route run_node apply_updates
    effective_max_steps execute execute_loop round after_node advance register execute_node_activity
    after_routing after_activity workflow_loop graph_workflow
workflow = tt

-- The world counts the calls of nodes.
abbrev mark : Text → NodeFunc ℕ
mark name s w = (ok ((name, text (codes "seen")) ∷ []), suc w)

abbrev pair_graph : CompiledGraph ℕ
pair_graph = record {
  name = codes "pair";
  nodes = (codes "a", mark (codes "a")) ∷ (codes "b", mark (codes "b")) ∷ [];
  order = codes "a" ∷ codes "b" ∷ [];
  edges = (codes "a", codes "b") ∷ (codes "b", end_node) ∷ [];
  conds = [];
  reducers = [];
  entry = codes "a";
  config = record {
    name = codes "pair";
    nodes = [];
    edges = [];
    entry = codes "a";
    finish_points = [];
  };
}

abbrev graphs : GraphRegistry ℕ
unfolding workflow
graphs = register [] pair_graph

abbrev same_state : State → State
same_state s = s

abbrev rendered : WorkflowError → Text
rendered e = codes "error"

abbrev input : GraphWorkflowInput
input = record { graph = codes "pair"; state = []; max_steps = pos 5; node_retry = none }

abbrev both_seen : State
both_seen = (codes "a", text (codes "seen")) ∷ (codes "b", text (codes "seen")) ∷ []

workflow_tests :
    graph_workflow (direct same_state rendered graphs) graphs input 0 ≡ (ok both_seen, 2)
unfolding workflow
workflow_tests = refl

registered : lookup (codes "pair") graphs ≡ some pair_graph
unfolding workflow
registered = refl

json_safe : IsJsonSafe same_state pair_graph (λ s. Unit {0})
json_safe = record {
  unharmed = λ s safe. refl;
  by_nodes = λ n fn s u w found safe answered. tt;
  by_merge = λ s u safe_s safe_u. tt;
}

graph_workflow-execute_example :
    graph_workflow (direct same_state rendered graphs) graphs input 0
    ≡ workflow_result rendered
        (execute pair_graph [] (pos 5) 0).state
        (execute pair_graph [] (pos 5) 0).failure
        (execute pair_graph [] (pos 5) 0).world
graph_workflow-execute_example =
    graph_workflow-execute same_state rendered graphs pair_graph (λ s. Unit {0}) [] (pos 5) none 0
      registered json_safe tt

-- A sidecar that knows the instance "i", which has completed with the output "o"; the client's state
-- counts the calls.
abbrev resumed_client : WorkflowClient ℕ
resumed_client = record {
  schedule = λ name asked id c. (err (already_exists []), suc c);
  wait = λ id c. (
    ok (record { status = codes "COMPLETED"; is_completed = true; output = some (codes "o") }),
    suc c,
  );
}

abbrev decode_both : Text → Result Text State
decode_both b = ok both_seen

abbrev pinned_run : RunOptions
pinned_run = record {
  instance_id = codes "i";
  max_steps = pos 5;
  workflow_name = codes "w";
  node_retry = none;
}

pinned_run_test :
    run resumed_client decode_both [] pair_graph [] pinned_run 0
    ≡ (ok both_seen, 2, (codes "pair", pair_graph) ∷ [])
unfolding workflow run await_run instance_of check_status decode_result
pinned_run_test = refl

run-completed_example :
    (lookup (codes "pair") (run resumed_client decode_both [] pair_graph [] pinned_run 0).2
      ≡ some pair_graph)
    × IsBacked resumed_client decode_both [] pair_graph [] pinned_run 0
        (run resumed_client decode_both [] pair_graph [] pinned_run 0).0
run-completed_example = run-completed resumed_client decode_both [] pair_graph [] pinned_run 0

-- A registry that refuses a name that it has; two nodes, one of them named twice, and an empty name.
abbrev listing : WorkflowRegistry (List Text)
unfolding contains
listing = record {
  new_registry = [];
  add_workflow = λ n r. ok r;
  add_activity = λ n r. if contains n r then err n else ok (r ++ n ∷ []);
}

abbrev all_listed : List Text → List Text
all_listed r = r

listing_law : IsActivityRegistry listing all_listed
unfolding contains
listing_law = record {
  accepts = λ n r absent. (r ++ n ∷ [], ground (arith, contains_iff n r), refl);
}

abbrev repeated : List Text
repeated = codes "a" ∷ [] ∷ codes "b" ∷ codes "a" ∷ []

register_nodes_offers_example :
    (r' : List Text) × (register_nodes listing [] repeated [] ≡ ok r')
    × IsDistinct (all_listed r')
    × ((n : Text) → Elem n (all_listed r') ↔ (Elem n repeated × (is_empty n ≡ false)))
register_nodes_offers_example =
    register_nodes_offers listing all_listed listing_law repeated [] refl
