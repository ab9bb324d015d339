-- ===== src/Runner/Invocation.antt =====
-- runner.go: what a runner is made of, and what `Invoke` returns.
use go_ai.Prelude.{
  zero, suc, ◌⊎◌, ◌≢◌, ◌∷◌, ◌≡◌, refl, ap, ◌∙◌, subst, inl, inr, none, some, List, [], Result, ok,
  Bool-cases, Option-cases, Result-cases,
}
use go_ai.Prelude.Int.{ℤ, pos, negsuc}
use go_ai.Text.{Text}
use go_ai.Agent.State.{State, Input, to_state}
use go_ai.Agent.Graph.{Graph, is_empty}
use go_ai.Agent.Compile.{CompiledGraph, compile, node_names}
use go_ai.Agent.Engine.{Run, execute}
use go_ai.Durable.Workflow.{WorkflowError, GraphRegistry, register}
use go_ai.Durable.Workflow.Refines.{IsJsonSafe}
use go_ai.Durable.Backend.{optional}
use go_ai.Durable.Backend.Served.{serving, instance_id_of, run_outcome, IsJsonCodec, run-execute}
use go_ai.Durable.Worker.{DaprBackend, new_dapr_backend}
use go_ai.Registry.Records.{AgentRecord, AgentSpec, build_workflow_name, new_agent_record}
use go_ai.Registry.Store.{StateStore}
use go_ai.Registry.DaprStore.{dapr_store}
use go_ai.Registry.Directory
use go_ai.Registry.Directory.{Codec, backfill, agent_key, partition_meta}
use go_ai.Runner.{
  Runner, ProcessState, Platform, reported_usage, Surroundings, enlist, connect, new_runner,
  InvokeOptions, first_options, steps_or, run_options, run_result, invoke,
}
use go_ai.Runner.Settings.{Config, check_config, registry_store_of, agent_info}

ok_injective : {E A : Type 0} {a b : A} → ◌≡◌ {A = Result E A} (ok a) (ok b) → a ≡ b
ok_injective h = cc

check_config-graph :
    {W : Type 0} (cfg : Config W) (g : Graph W) → check_config cfg ≡ ok g → cfg.graph ≡ some g
unfolding check_config
check_config-graph cfg g h = elim (Option-cases cfg.graph) [
  | inl missing ↦ cc (simp (missing, check_config) at h)
  | inr (g', given) ↦
      let k = simp (given, check_config) at h in
      elim (Bool-cases (is_empty cfg.name)) [
        | inl unnamed ↦ cc (rw unnamed at k)
        | inr named ↦ elim (Bool-cases (is_empty cfg.framework)) [
          | inl unframed ↦ cc (rw (named, unframed) at k)
          | inr framed ↦ given ∙ ap some (ok_injective (rw (named, framed) at k))
        ]
      ]
]

-- A registration returns the record with another registry reference at most.
register-agent :
    {S : Type 0} (store : StateStore S) (codec : Codec) (r : AgentRecord) (s : S)
    → ((Directory.register store codec r s).2.agent ≡ r.agent)
unfolding Directory.register
register-agent store codec r s = elim (Bool-cases (is_empty r.name)) [
  | inl unnamed ↦ rw (unnamed, Directory.register) refl
  | inr named ↦
      let ref = backfill store.name r in
      let r' : AgentRecord = record r { registry = some ref } in
      elim (Result-cases (codec.encode_record r')) [
        | inr (e, failed) ↦ rw (named, failed, Directory.register) refl
        | inl (blob, encoded) ↦
            let saved =
              (store.set (agent_key ref.name r.name) blob [] (partition_meta ref.name) s).0 in
            elim (Option-cases saved) [
              | inr (e, failed) ↦ rw (named, encoded, failed, Directory.register) refl
              | inl fine ↦ rw (named, encoded, fine, Directory.register) refl
            ]
      ]
]

module _ {R H C W : Type 0} (pf : Platform R H C) (around : Surroundings) (cfg : Config W) where
  -- The runner is that of the configuration and of the compiled graph.
  abbrev IsRunnerOf : CompiledGraph W → Runner H W → Type 0
  IsRunnerOf cg r =
      (r.graph ≡ cg)
      × (r.workflow_name ≡ build_workflow_name around.process.to_lower cfg.framework cfg.name)
      × (r.agent_record.agent.max_iterations ≡ cfg.max_steps)
      × (r.node_retry ≡ cfg.node_retry)

  abbrev pub IsMade : Runner H W → Type 0
  IsMade r =
      (g : Graph W) × (check_config cfg ≡ ok g)
      × (cg : CompiledGraph W) × (compile g ≡ ok cg)
      × IsRunnerOf cg r

  enlist-IsRunnerOf :
      (cg : CompiledGraph W) (backend : DaprBackend H) (c : C) (p : ProcessState W) (r : Runner H W)
      → (enlist pf around cfg cg
          (build_workflow_name around.process.to_lower cfg.framework cfg.name)
          backend
          c
          p).0
        ≡ ok r
      → IsRunnerOf cg r
  unfolding enlist
  enlist-IsRunnerOf cg backend c p r h =
      let (md, c₁) = pf.get_metadata c in
      let store =
        dapr_store around.process.to_lower pf.state_api
          (registry_store_of around.process.getenv cfg md) in
      let agent = new_agent_record around.process.to_lower around.now (agent_info cfg cg md) in
      elim (Option-cases (Directory.register store around.codec agent c₁).0) [
        | inr (e, failed) ↦ cc (rw (failed, enlist) at h)
        | inl fine ↦
            let kept =
              ap (λ (a : AgentSpec). a.max_iterations)
                (register-agent store around.codec agent c₁) in
            let k = rw (fine, enlist) at h in
            subst (IsRunnerOf cg) (ok_injective k) (refl, refl, kept, refl)
      ]

  connect-IsRunnerOf :
      (cg : CompiledGraph W) (c : C) (p : ProcessState W) (r : Runner H W)
      → (connect pf around cfg cg c p).0 ≡ ok r
      → IsRunnerOf cg r
  unfolding connect
  connect-IsRunnerOf cg c p r h =
      let name = build_workflow_name around.process.to_lower cfg.framework cfg.name in
      let made = new_dapr_backend pf.workflows pf.runtime name (node_names cg) c in
      elim (Result-cases made.0) [
        | inr (e, failed) ↦ cc (rw (failed, connect) at h)
        | inl (backend, launched) ↦ elim (Option-cases (pf.new_client made.1).0) [
          | inr (e, failed) ↦ cc (rw (launched, failed, connect) at h)
          | inl opened ↦
              enlist-IsRunnerOf cg backend (pf.new_client made.1).1 p r
                (rw (launched, opened, connect) at h)
        ]
      ]

  new_runner-IsMade :
      (c : C) (p : ProcessState W) (r : Runner H W)
      → (new_runner pf around cfg c p).0 ≡ ok r
      → IsMade r
  unfolding new_runner
  new_runner-IsMade c p r h = elim (Result-cases (check_config cfg)) [
    | inr (e, failed) ↦ cc (rw (failed, new_runner) at h)
    | inl (g, checked) ↦ elim (Result-cases (compile g)) [
      | inr (e, failed) ↦ cc (rw (checked, failed, new_runner) at h)
      | inl (cg, compiled) ↦ (
        g,
        checked,
        cg,
        compiled,
        connect-IsRunnerOf cg c (reported_usage around.usage_endpoint around.process cfg p) r
            (rw (checked, compiled, new_runner) at h),
      )
    ]
  ]

-- The options of a call: the first ones given, or none, which are an empty ID and a limit of 0.
abbrev pub IsOptions : List InvokeOptions → InvokeOptions → Type 0
IsOptions [] opt = (opt.instance_id ≡ []) × (opt.max_steps ≡ pos 0)
IsOptions (given ∷ more) opt = opt ≡ given

-- The limit of a run: the one of the options, or the one of the configuration where that is 0.
abbrev pub IsLimit : (asked configured n : ℤ) → Type 0
IsLimit asked configured n = ((asked ≡ pos 0) × (n ≡ configured)) ⊎ ((asked ≢ pos 0) × (n ≡ asked))

first_options-IsOptions : (opts : List InvokeOptions) → IsOptions opts (first_options opts)
first_options-IsOptions [] = (refl, refl)
first_options-IsOptions (opt ∷ opts) = refl

steps_or-IsLimit : (asked configured : ℤ) → IsLimit asked configured (steps_or asked configured)
steps_or-IsLimit (pos zero) configured = inl (refl, refl)
steps_or-IsLimit (pos (suc n)) configured = inr ((λ e. cc e), refl)
steps_or-IsLimit (negsuc n) configured = inr ((λ e. cc e), refl)

-- A runner that `NewRunner` returned runs the graph of its configuration: on a sidecar that runs the
-- workflow named after the configuration's framework and name, when asked for it by that name, and no
-- other, `Invoke` returns the final state of `Execute` on the compiled graph, or fails as it does, and
-- leaves the same world. The step limit is that of the first options, or of the configuration where
-- that is 0 or there are no options. The input has to convert to a state that survives the JSON
-- encoding, as the graph's nodes and reducers keep it.
pub invoke-execute :
    {R H C W J : Type 0} (pf : Platform R H C) (around : Surroundings) (cfg : Config W) (c : C)
    (p : ProcessState W) (r : Runner H W) (wire : State → State) (render : WorkflowError → Text)
    (encode : State → Text) (decode : Text → Result Text State) (fresh : Text)
    (marshal : J → Result Text Text) (unmarshal : Text → Result Text State) (Safe : State → Type 0)
    (input : Input J) (s : State) (opts : List InvokeOptions) (graphs : GraphRegistry W) (w : W)
    → (new_runner pf around cfg c p).0 ≡ ok r
    → IsJsonCodec encode decode wire
    → IsJsonSafe wire r.graph Safe
    → to_state marshal unmarshal input ≡ ok s
    → Safe s
    → let served = build_workflow_name around.process.to_lower cfg.framework cfg.name in
      let client = serving wire render encode fresh served (register graphs r.graph) in
      let out = invoke client decode marshal unmarshal r input opts (w, none) graphs in
      (g : Graph W) × (cg : CompiledGraph W) × (opt : InvokeOptions) × (n : ℤ) × (cfg.graph
        ≡ some g)
      × (compile g ≡ ok cg)
      × IsOptions opts opt
      × IsLimit opt.max_steps cfg.max_steps n
      × (let done = execute cg s n w in
          (out.0
            ≡ run_result (
                run_outcome
                  (instance_id_of fresh (optional opt.instance_id))
                  done.state
                  done.failure))
          × (out.1.0 ≡ done.world))
unfolding invoke run_options build_workflow_name
invoke-execute {W} pf around cfg c p r wire render encode decode fresh marshal unmarshal Safe input
      s opts graphs w returned codec json converted safe =
    let (g, checked, cg, compiled, (graph_is, name_is, limit_is, retry_is)) =
      new_runner-IsMade pf around cfg c p r returned in
    let opt = first_options opts in
    let served = build_workflow_name around.process.to_lower cfg.framework cfg.name in
    let (same, world) =
      run-execute wire render encode decode fresh served graphs r.graph Safe s (run_options r opt) w
        codec json safe (ap is_empty name_is) name_is in
    let id = instance_id_of fresh (optional opt.instance_id) in
    let client = serving wire render encode fresh served (register graphs r.graph) in
    let out = invoke client decode marshal unmarshal r input opts (w, none) graphs in
    let IsDone : Run W → Type 0 = λ done.
      (out.0 ≡ run_result (run_outcome id done.state done.failure)) × (out.1.0 ≡ done.world) in
    let done : IsDone (execute r.graph s (run_options r opt).max_steps w) =
      simp (converted, invoke) (ap run_result same, world) in
    (
      g,
      cg,
      opt,
      steps_or opt.max_steps cfg.max_steps,
      check_config-graph cfg g checked,
      compiled,
      first_options-IsOptions opts,
      steps_or-IsLimit opt.max_steps cfg.max_steps,
      subst IsDone
          (ap (λ x. execute x s (run_options r opt).max_steps w) graph_is
            ∙ ap (λ n. execute cg s (steps_or opt.max_steps n) w) limit_is)
          done,
    )
