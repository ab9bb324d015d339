-- ===== src/Runner/Tests.antt =====
-- A runner on a small platform, and the theorems on runners there.
use go_ai.Prelude.{
  ℕ, suc, ◌≡◌, refl, sym, ap, ◌∙◌, arith, Bool, true, false, none, some, List, [], ◌∷◌, Result, ok,
  err, if◌then◌else◌,
}
use go_ai.Prelude.Int.{ℤ, pos}
use go_ai.Text.{Text, codes, ◌==◌, contains, includes, has_suffix}
use go_ai.Text.Space.{trim_space}
use go_ai.Dict.{lookup, insert}
use go_ai.Value.{text}
use go_ai.Agent.State.{State, state, to_state, clone, merge, channel, written}
use go_ai.Agent.Graph.{Graph, NodeFunc, new_graph, fail, add_node, add_edge, start_node, end_node}
use go_ai.Agent.Config.{describe, describe_node}
use go_ai.Agent.Compile.{
  CompiledGraph, resolved_entry, valid_target, check_edges, check_mapping, check_conds, check_graph,
  compiled, compile, route, next, node_names, run_node, apply_updates,
}
use go_ai.Agent.Engine.{effective_max_steps, advance, after_node, round, execute_loop, execute}
use go_ai.Durable.Workflow.{register}
use go_ai.Durable.Workflow.Refines.{IsJsonSafe}
use go_ai.Durable.Backend.{optional}
use go_ai.Durable.Backend.Served.{serving, instance_id_of, run_outcome, IsJsonCodec}
use go_ai.Durable.Worker.{register_nodes, worker_registry, launch, new_dapr_backend, close_backend}
use go_ai.Registry.Records.{underscored, norm, build_workflow_name, new_agent_record}
use go_ai.Registry.DaprStore.{
  DaprClient, is_etag_conflict, stored_item, store_error, dapr_get, dapr_set, dapr_delete,
  dapr_store,
}
use go_ai.Registry.Directory
use go_ai.Registry.Directory.{
  Codec, effective_team, agent_key, index_key, partition_meta, add_name, backfill, index_names,
  load_index, write_index, attempt_update, update_loop, update_index,
}
use go_ai.Analytics.Host.{
  Process, framework_version, is_truthy, any_truthy, usage_reporting_disabled,
}
use go_ai.Analytics.Report.{report_usage}
use go_ai.Runner.{
  Runner, ProcessState, Platform, Surroundings, reported_usage, enlist, connect, new_runner,
  InvokeOptions, run_result, invoke,
}
use go_ai.Runner.Settings.{
  Config, RunnerError, register_failed, tool_metadata, env_or, discover_registry_store,
  check_config, app_id_of, registry_store_of, agent_info,
}
use go_ai.Runner.Tracked.{Held, tracked}
use go_ai.Runner.Resources.{IsBalanced, new_runner-IsBalanced}
use go_ai.Runner.Invocation.{IsOptions, IsLimit, invoke-execute}

-- Every definition that the runs below compute with.
running : Unit {0}
unfolding lookup insert ◌==◌ contains includes has_suffix trim_space clone merge channel written
    to_state new_graph fail add_node add_edge resolved_entry valid_target check_edges check_mapping
    check_conds check_graph compiled compile describe describe_node route next node_names run_node
    apply_updates effective_max_steps advance after_node round execute_loop execute register
    register_nodes worker_registry launch new_dapr_backend close_backend build_workflow_name norm
    underscored new_agent_record stored_item store_error is_etag_conflict dapr_get dapr_set
    dapr_delete dapr_store effective_team agent_key index_key partition_meta add_name backfill
    index_names load_index write_index attempt_update update_loop update_index Directory.register
    framework_version is_truthy any_truthy usage_reporting_disabled report_usage tool_metadata
    env_or discover_registry_store check_config app_id_of registry_store_of agent_info
    reported_usage enlist connect new_runner
running = tt

abbrev mark : Text → NodeFunc ℕ
mark name s w = (ok ((name, text (codes "seen")) ∷ []), suc w)

abbrev one_node : Graph ℕ
unfolding running
one_node =
    add_edge
      (add_edge (add_node (new_graph (codes "g")) (codes "a") (some (mark (codes "a")))) start_node
        (codes "a"))
      (codes "a") end_node

abbrev config : Config ℕ
unfolding running
config = record {
  graph = some one_node;
  name = codes "bot";
  framework = codes "eino";
  max_steps = pos 5;
  role = [];
  goal = [];
  team = [];
  app_id = [];
  registry_store = codes "kv";
  tools = [];
  node_retry = none;
}

abbrev process : Process
process = record {
  getenv = λ k. [];
  to_lower = λ s. s;
  hostname = λ s. none;
  build_info = none;
  os = [];
  arch = [];
  go_version = [];
}

-- The index is its first name, closed by nothing.
abbrev first_name : List Text → Text
first_name [] = []
first_name (n ∷ ns) = n

abbrev codec : Codec
codec = record {
  encode_record = λ r. ok r.name;
  decode_record = λ s. err [];
  encode_index = λ ns. ok (first_name ns);
  decode_index = λ s. ok (some (s ∷ []));
}

abbrev around : Surroundings
around = record {
  process = process;
  usage_endpoint = codes "https://scarf";
  now = [];
  codec = codec;
}

-- Each call of the state API counts; a save fails where the flag is set.
abbrev state_api : Bool → DaprClient ℕ
state_api full = record {
  get_state = λ store key meta c. (ok none, suc c);
  save_state = λ store key value meta c. (if full then some (codes "full") else none, suc c);
  save_state_with_etag =
      λ store key value etag meta c. (if full then some (codes "full") else none, suc c);
  delete_state = λ store key meta c. (none, suc c);
}

abbrev platform : Bool → Platform (List Text) ℕ ℕ
platform full = record {
  workflows = record {
    new_registry = [];
    add_workflow = λ name r. ok (name ∷ r);
    add_activity = λ name r. ok (name ∷ r);
  };
  runtime = record {
    new_workflow_client = λ c. (none, c);
    with_cancel = λ c. (c, c);
    start = λ cancel r c. (none, c);
    cancel = λ cancel c. c;
  };
  new_client = λ c. (none, c);
  close_client = λ c. c;
  get_metadata = λ c. (none, c);
  state_api = state_api full;
}

abbrev fresh_process : ProcessState ℕ
fresh_process = record { graphs = []; reported = []; events = [] }

abbrev nothing_held : Held
nothing_held = record { contexts = 0; clients = 0; workflow_clients = 0 }

new_runner-IsBalanced_example :
    let out = new_runner (tracked (platform true)) around config (0, nothing_held) fresh_process in
    IsBalanced (platform true) around config nothing_held fresh_process out.0 out.1 out.2
new_runner-IsBalanced_example =
    new_runner-IsBalanced (platform true) around config nothing_held 0 fresh_process

abbrev store_full : RunnerError → Bool
store_full (register_failed e) = true
store_full e = false

abbrev fails_full : Result RunnerError (Runner ℕ ℕ) → Bool
fails_full (ok r) = false
fails_full (err e) = store_full e

refused : fails_full (new_runner (platform true) around config 0 fresh_process).0 ≡ true
unfolding running
refused = refl

abbrev made :
    (r : Runner ℕ ℕ) × ((new_runner (platform false) around config 0 fresh_process).0 ≡ ok r)
unfolding running
made = (_, refl)

-- The one state that occurs in a run from itself.
abbrev seen : State
seen = (codes "a", text (codes "seen")) ∷ []

node_marks :
    (n : Text) (fn : NodeFunc ℕ) → lookup n made.0.graph.nodes ≡ some fn → mark (codes "a") ≡ fn
unfolding running
node_marks n fn h = ground arith

seen_merged : (merge seen seen made.0.graph.reducers).0 ≡ seen
unfolding running
seen_merged = refl

abbrev seen_wire : State → State
seen_wire s = seen

seen_safe : IsJsonSafe seen_wire made.0.graph (λ s. s ≡ seen)
seen_safe = record {
  unharmed = λ s safe. sym safe;
  by_nodes = λ n fn s u w found safe answered.
      (let same = ap (λ (f : NodeFunc ℕ). (f s w).0) (node_marks n fn found) ∙ answered in cc);
  by_merge = λ s u safe_s safe_u. rw (safe_s, safe_u) seen_merged;
}

abbrev seen_decode : Text → Result Text State
seen_decode t = ok seen

abbrev seen_encode : State → Text
seen_encode s = codes "{}"

seen_codec : IsJsonCodec seen_encode seen_decode seen_wire
seen_codec = record { nonempty = λ s. refl; decodes = λ s. refl }

abbrev no_json : Text → Result Text Text
no_json t = err t

invoke-execute_example :
    let client =
      serving seen_wire
        (λ e. [])
        seen_encode
        (codes "i")
        (codes "dapr.eino.bot.workflow")
        (register [] made.0.graph) in
    let out = invoke client seen_decode no_json seen_decode made.0 (state seen) [] (0, none) [] in
    (g : Graph ℕ) × (cg : CompiledGraph ℕ) × (opt : InvokeOptions) × (n : ℤ) × (config.graph
      ≡ some g)
    × (compile g ≡ ok cg)
    × IsOptions [] opt
    × IsLimit opt.max_steps config.max_steps n
    × (let done = execute cg seen n 0 in
        (out.0
          ≡ run_result (
              run_outcome
                (instance_id_of (codes "i") (optional opt.instance_id))
                done.state
                done.failure))
        × (out.1.0 ≡ done.world))
unfolding running
invoke-execute_example =
    invoke-execute (platform false) around config 0 fresh_process made.0 seen_wire (λ e. [])
      seen_encode seen_decode (codes "i") no_json seen_decode (λ s. s ≡ seen) (state seen) seen []
      [] 0 made.1 seen_codec seen_safe refl refl
