-- ===== src/Runner/Resources.antt =====
-- runner.go: what a `NewRunner` holds on to when it returns.
use go_ai.Prelude.{
  ◌⊎◌, suc, ◌≡◌, refl, ap, ◌∙◌, subst, inl, inr, Option, none, some, List, Result, ok, err,
  Bool-cases, Option-cases, Result-cases,
}
use go_ai.Text.{Text}
use go_ai.Dict.{Dict}
use go_ai.Agent.Graph.{is_empty}
use go_ai.Agent.Compile.{CompiledGraph, compile, node_names}
use go_ai.Durable.Workflow.{register}
use go_ai.Durable.Backend.{BackendError}
use go_ai.Durable.Worker.{DaprBackend, worker_registry, launch, new_dapr_backend, close_backend}
use go_ai.Registry.Records.{AgentRecord, build_workflow_name, new_agent_record}
use go_ai.Registry.DaprStore.{dapr_store, dapr_get, dapr_set}
use go_ai.Registry.Directory
use go_ai.Registry.Directory.Keeps.{register-kept}
use go_ai.Runner.{
  Runner, ProcessState, Platform, reported_usage, Surroundings, enlist, connect, new_runner,
  close_runner,
}
use go_ai.Runner.Settings.{
  Config, RunnerError, client_failed, check_config, registry_store_of, agent_info,
}
use go_ai.Runner.Tracked.{
  Held, workflow_client_added, with_runner, with_workflow_client, less, context_added, given_back,
  opening, tracked_runtime, tracked,
}

module _ {R H C W : Type 0} (pf : Platform R H C) (around : Surroundings) (cfg : Config W)
    (held : Held) where
  abbrev Outcome : Type 0
  Outcome = Result RunnerError (Runner H W) × (C × Held) × ProcessState W

  -- After an error no context, no client and no graph is left, but the workflow client may be. A runner
  -- that was returned holds one of each more, and its `Close` gives back the context and the client,
  -- and not the workflow client.
  abbrev pub IsBalanced :
      ProcessState W → Result RunnerError (Runner H W) → C × Held → ProcessState W → Type 0
  IsBalanced p (err e) x p' =
      ((x.1 ≡ held) ⊎ (x.1 ≡ with_workflow_client held)) × (p'.graphs ≡ p.graphs)
  IsBalanced p (ok r) x p' =
      (x.1 ≡ with_runner held)
      × (p'.graphs ≡ register p.graphs r.graph)
      × ((y : C)
          → (close_runner (tracked pf) r (y, with_runner held)).1 ≡ with_workflow_client held)

  dapr_get-held :
      (store k : Text) (meta : Dict Text) (x : C × Held)
      → (dapr_get around.process.to_lower (tracked pf).state_api store k meta x).1.1 ≡ x.1
  unfolding dapr_get
  dapr_get-held store k meta x = elim (Result-cases (pf.state_api.get_state store k meta x.0).0) [
    | inl (item, found) ↦ rw (found, dapr_get) refl
    | inr (e, failed) ↦ rw (failed, dapr_get) refl
  ]

  dapr_set-held :
      (store k v etag : Text) (meta : Dict Text) (x : C × Held)
      → (dapr_set around.process.to_lower (tracked pf).state_api store k v etag meta x).1.1 ≡ x.1
  unfolding dapr_set
  dapr_set-held store k v etag meta x = elim (Bool-cases (is_empty etag)) [
    | inl blank ↦ rw (blank, dapr_set) refl
    | inr tagged ↦ rw (tagged, dapr_set) refl
  ]

  registered_held :
      (store : Text) (r : AgentRecord) (x : C × Held) (h : Held)
      → x.1 ≡ h
      → (Directory.register
          (dapr_store around.process.to_lower (tracked pf).state_api store)
          around.codec
          r
          x).1.1
        ≡ h
  unfolding dapr_store
  registered_held store r x h same =
      register-kept (dapr_store around.process.to_lower (tracked pf).state_api store) around.codec
        (λ y. y.1 ≡ h) (λ k meta y e. dapr_get-held store k meta y ∙ e)
        (λ k v etag meta y e. dapr_set-held store k v etag meta y ∙ e) r x same

  enlist-IsBalanced :
      (cg : CompiledGraph W) (name : Text) (cancel : H) (x : C × Held) (p : ProcessState W)
      → x.1 ≡ with_runner held
      → let out =
          enlist (tracked pf) around cfg cg name (record { cancel_func = some cancel }) x p in
        IsBalanced p out.0 out.1 out.2
  unfolding enlist close_backend close_runner
  enlist-IsBalanced cg name cancel x p h =
      let md = (pf.get_metadata x.0).0 in
      let store = registry_store_of around.process.getenv cfg md in
      let agent = new_agent_record around.process.to_lower around.now (agent_info cfg cg md) in
      let x' : C × Held = ((pf.get_metadata x.0).1, x.1) in
      let out =
        Directory.register (dapr_store around.process.to_lower (tracked pf).state_api store)
          around.codec agent x' in
      let same = registered_held store agent x' (with_runner held) h in
      elim (Option-cases out.0) [
        | inl fine ↦ rw (fine, enlist) (same, refl, λ y. refl)
        | inr (e, failed) ↦ rw (failed, enlist) (inr (ap given_back same), refl)
      ]

  -- From the answer of the client's constructor on.
  new_client_then :
      (cg : CompiledGraph W) (name : Text) (cancel : H) (failed : Option Text) (c : C) (h : Held)
      (p : ProcessState W)
      → h ≡ context_added (with_workflow_client held)
      → let backend : DaprBackend H = record { cancel_func = some cancel } in
        let made = opening (failed, c) h in
        let out : Outcome = elim made.0 as (λ o. Outcome) [
          | some e ↦ (
            err (client_failed e),
            close_backend pf.workflows (tracked_runtime pf.runtime) backend made.1,
            p,
          )
          | none ↦ enlist (tracked pf) around cfg cg name backend made.1 p
        ] in
        IsBalanced p out.0 out.1 out.2
  unfolding close_backend
  new_client_then cg name cancel none c h p same =
      enlist-IsBalanced cg name cancel (c, record h { clients = suc h.clients }) p
        (ap (λ (k : Held). record k { clients = suc k.clients }) same)
  new_client_then cg name cancel (some e) c h p same =
      (inr (ap (λ (k : Held). record k { contexts = less k.contexts }) same), refl)

  -- What the construction of the backend holds.
  abbrev IsLaunched : Result BackendError (DaprBackend H) → Held → Type 0
  IsLaunched (err e) h = (h ≡ held) ⊎ (h ≡ with_workflow_client held)
  IsLaunched (ok b) h =
      (h ≡ context_added (with_workflow_client held))
      × (cancel : H) × (b ≡ record { cancel_func = some cancel })

  backend-IsLaunched :
      (name : Text) (nodes : List Text) (x : C × Held)
      → x.1 ≡ held
      → let out = new_dapr_backend pf.workflows (tracked_runtime pf.runtime) name nodes x in
        IsLaunched out.0 out.1.1
  unfolding new_dapr_backend launch
  backend-IsLaunched name nodes x h =
      elim (Result-cases (worker_registry pf.workflows name nodes)) [
        | inr (e, failed) ↦ rw (failed, new_dapr_backend) (inl h)
        | inl (r, registered) ↦ elim (Option-cases (pf.runtime.new_workflow_client x.0).0) [
          | inr (e, failed) ↦
              rw (registered, failed, new_dapr_backend)
                (inl (ap (λ o. workflow_client_added o x.1) failed ∙ h))
          | inl connected ↦
              let c = (pf.runtime.new_workflow_client x.0).1 in
              let added =
                ap (λ o. workflow_client_added o x.1) connected ∙ ap with_workflow_client h in
              let (cancel, c₁) = pf.runtime.with_cancel c in
              elim (Option-cases (pf.runtime.start cancel r c₁).0) [
                | inr (e, failed) ↦
                    rw (registered, connected, failed, new_dapr_backend, launch) (inr added)
                | inl started ↦
                    rw (registered, connected, started, new_dapr_backend, launch)
                      (ap context_added added, cancel, refl)
              ]
        ]
      ]

  connect-IsBalanced :
      (cg : CompiledGraph W) (c : C) (p : ProcessState W)
      → let out = connect (tracked pf) around cfg cg (c, held) p in IsBalanced p out.0 out.1 out.2
  unfolding connect
  connect-IsBalanced cg c p =
      let name = build_workflow_name around.process.to_lower cfg.framework cfg.name in
      let out =
        new_dapr_backend pf.workflows (tracked_runtime pf.runtime) name (node_names cg) (c, held) in
      let launched = backend-IsLaunched name (node_names cg) (c, held) refl in
      elim (Result-cases out.0) [
        | inr (e, failed) ↦
            rw (failed, connect) (subst (λ r. IsLaunched r out.1.1) failed launched, refl)
        | inl (b, made) ↦
            let (same, cancel, this) = subst (λ r. IsLaunched r out.1.1) made launched in
            rw (made ∙ ap ok this, connect)
              (new_client_then cg name cancel (pf.new_client out.1.0).0 (pf.new_client out.1.0).1
                out.1.1 p same)
      ]

  -- Where `NewRunner` returns an error it leaves no context, no client of the sidecar and no graph
  -- behind, and at most one workflow client. Where it returns a runner it holds one context, one
  -- client and one workflow client more, of which the runner's `Close` gives back the context and the
  -- client but not the workflow client, and the runner's graph is registered with the worker.
  pub new_runner-IsBalanced :
      (c : C) (p : ProcessState W)
      → let out = new_runner (tracked pf) around cfg (c, held) p in IsBalanced p out.0 out.1 out.2
  unfolding new_runner reported_usage
  new_runner-IsBalanced c p = elim (Result-cases (check_config cfg)) [
    | inr (e, failed) ↦ rw (failed, new_runner) (inl refl, refl)
    | inl (g, checked) ↦ elim (Result-cases (compile g)) [
      | inr (e, failed) ↦ rw (checked, failed, new_runner) (inl refl, refl)
      | inl (cg, made) ↦
          rw (checked, made, new_runner)
            (connect-IsBalanced cg c (reported_usage around.usage_endpoint around.process cfg p))
    ]
  ]
