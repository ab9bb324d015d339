-- ===== src/Durable/Backend/Served.antt =====
-- durable/dapr.go: `Run` against a sidecar that runs the workflow it is asked for.
use go_ai.Prelude.{
  ◌≡◌, refl, ap, ◌∙◌, true, false, Option, none, some, [], ◌∷◌, Result, ok, err, if◌then◌else◌,
}
use go_ai.Text.{Text, codes, ◌==◌, eq_refl}
use go_ai.Dict.{lookup, lookup-insert}
use go_ai.Agent.State.{State}
use go_ai.Agent.Graph.{AgentError, is_empty}
use go_ai.Agent.Compile.{CompiledGraph}
use go_ai.Agent.Engine.{execute}
use go_ai.Durable.Workflow.{WorkflowError, GraphRegistry, register, graph_workflow}
use go_ai.Durable.Workflow.Refines.{direct, workflow_result, IsJsonSafe, graph_workflow-execute}
use go_ai.Durable.Workflow.Safe.{execute-Safe}
use go_ai.Durable.Backend.{
  BackendError, other_failure, finished_with_status, Metadata, WorkflowClient, RunOptions, optional,
  decode_result, check_status, await_run, instance_of, run,
}

-- The metadata of an instance that is done: failed, or completed with its encoded state.
abbrev pub metadata_of : (State → Text) → Result WorkflowError State → Metadata
metadata_of encode (err e) = record { status = codes "FAILED"; is_completed = false; output = none }
metadata_of encode (ok s) = record {
  status = codes "COMPLETED";
  is_completed = true;
  output = some (encode s);
}

abbrev pub instance_id_of : Text → Option Text → Text
instance_id_of fresh none = fresh
instance_id_of fresh (some id) = id

-- An instance: its ID and its outcome.
abbrev pub Instance : Type 0
Instance = Text × Result WorkflowError State

-- A sidecar with a worker that offers one workflow, under the name `served`, for the graphs. It runs
-- that workflow when it is scheduled by its name, under the pinned ID or a fresh one, and refuses every
-- other name; it knows the instance by its ID alone; no activity is lost. Its state is the world and
-- the instance.
abbrev pub serving :
    {W : Type 0}
    → (wire : State → State) → (render : WorkflowError → Text) → (encode : State → Text)
    → (fresh served : Text) → GraphRegistry W
    → WorkflowClient (W × Option Instance)
serving wire render encode fresh served graphs = record {
  schedule = λ name input id x.
      let out =
        graph_workflow (direct wire render graphs) graphs
          (record input { state = wire input.state }) x.0 in
      if name == served
      then (ok (instance_id_of fresh id), (out.1, some (instance_id_of fresh id, out.0)))
      else (err (other_failure (codes "workflow not registered")), x);
  wait = λ id x. elim x.1 [
    | none ↦ (err (codes "no such instance exists"), x)
    | some known ↦
        if known.0 == id
        then (ok (metadata_of encode known.1), x)
        else (err (codes "no such instance exists"), x)
  ];
}

-- What `Run` returns for a run of the interpreter.
abbrev pub run_outcome : Text → State → Option AgentError → Result BackendError State
run_outcome id s none = ok s
run_outcome id s (some e) = err (finished_with_status id (codes "FAILED"))

-- The encoder writes JSON that is not empty, and the decoder reads back what a state's JSON holds.
pub record IsJsonCodec (encode : State → Text) (decode : Text → Result Text State)
    (wire : State → State) : Type 0 where
  pub nonempty : (s : State) → is_empty (encode s) ≡ false
  pub decodes : (s : State) → decode (encode s) ≡ ok (wire s)

module _ {W : Type 0} (wire : State → State) (render : WorkflowError → Text) (encode : State → Text)
    (decode : Text → Result Text State) (fresh served : Text)
    (codec : IsJsonCodec encode decode wire) (graphs : GraphRegistry W) where
  decoded :
      (out : Text) (s : State)
      → is_empty out ≡ false
      → decode out ≡ ok s
      → decode_result (serving wire render encode fresh served graphs) decode (some out) ≡ ok s
  unfolding decode_result
  decoded [] s full h = cc
  decoded (c ∷ out) s full h = rw (h, decode_result) refl

  served_result :
      (id : Text) (s : State) (failure : Option AgentError) (w : W)
      → (failure ≡ none → wire s ≡ s)
      → let out = workflow_result render s failure w in
        await_run
          (serving wire render encode fresh served graphs)
          decode
          id
          (out.1, some (id, out.0))
        ≡ (run_outcome id s failure, (w, some (id, out.0)))
  unfolding await_run check_status
  served_result id s none w same =
      rw (eq_refl id, await_run, eq_refl id)
        (ap (λ r. (r, (w, some (id, ok s))))
          (decoded (encode s) s (codec.nonempty s) (codec.decodes s ∙ ap ok (same refl))))
  served_result id s (some e) w same = rw (eq_refl id, await_run, eq_refl id) refl

-- `Run` under the name that the sidecar serves returns what `Execute` does, and leaves the world that
-- it leaves.
pub run-execute :
    {W : Type 0} (wire : State → State) (render : WorkflowError → Text) (encode : State → Text)
    (decode : Text → Result Text State) (fresh served : Text) (graphs : GraphRegistry W)
    (cg : CompiledGraph W) (Safe : State → Type 0) (s : State) (opts : RunOptions) (w : W)
    → IsJsonCodec encode decode wire
    → IsJsonSafe wire cg Safe
    → Safe s
    → is_empty opts.workflow_name ≡ false
    → opts.workflow_name ≡ served
    → let client = serving wire render encode fresh served (register graphs cg) in
      let out = run client decode graphs cg s opts (w, none) in
      let done = execute cg s opts.max_steps w in
      (out.0
        ≡ run_outcome (instance_id_of fresh (optional opts.instance_id)) done.state done.failure)
      × (out.1.0 ≡ done.world)
unfolding run instance_of register
run-execute wire render encode decode fresh served graphs cg Safe s opts w codec json safe named
      asked =
    let graphs' = register graphs cg in
    let registered : lookup cg.name graphs' ≡ some cg =
      lookup-insert cg.name cg.name cg graphs ∙ rw (eq_refl cg.name) in
    let done = execute cg s opts.max_steps w in
    let id = instance_id_of fresh (optional opts.instance_id) in
    let ran =
      graph_workflow-execute wire render graphs' cg Safe s opts.max_steps opts.node_retry w
        registered json safe in
    let answered =
      served_result wire render encode decode fresh served codec graphs' id done.state done.failure
        done.world
        (λ fine. json.unharmed done.state (
          execute-Safe wire render graphs' cg Safe registered json s opts.max_steps w safe fine)) in
    let runs : (opts.workflow_name == served) ≡ true = rw asked (eq_refl served) in
    rw (named, runs, json.unharmed s safe, ran, runs)
      (ap (λ r. r.0) answered, ap (λ r. r.1.0) answered)
