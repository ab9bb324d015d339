-- ===== src/Durable/Backend/Completion.antt =====
-- durable/dapr.go: what stands behind a result of `Run`.
use go_ai.Prelude.{
  ◌≡◌, ◌∙◌, ◌⊎◌, inl, inr, true, false, some, Result, ok, err, arith, Bool-cases, Result-cases,
}
use go_ai.Text.{Text, eq_refl}
use go_ai.Dict.{lookup, lookup-insert}
use go_ai.Agent.State.{State}
use go_ai.Agent.Graph.{is_empty}
use go_ai.Agent.Compile.{CompiledGraph}
use go_ai.Durable.Workflow.{GraphRegistry, register}
use go_ai.Durable.Backend.{
  BackendError, ScheduleError, is_already_exists, Metadata, WorkflowClient, RunOptions, optional,
  decode_result, check_status, await_run, instance_of, run,
}

module _ {C W : Type 0} (client : WorkflowClient C) (decode : Text → Result Text State)
    (graphs : GraphRegistry W) (cg : CompiledGraph W) (input : State) (opts : RunOptions)
    (c : C) where
  -- What the client answers to the call that schedules the workflow.
  abbrev scheduled : Result ScheduleError Text × C
  scheduled =
      client.schedule opts.workflow_name
        (record {
          graph = cg.name;
          state = input;
          max_steps = opts.max_steps;
          node_retry = opts.node_retry;
        })
        (optional opts.instance_id) c

  -- The instance that `Run` waits for: the one that it started, or the pinned one that existed.
  abbrev pub IsInstance : Text → Type 0
  IsInstance id =
      (scheduled.0 ≡ ok id)
      ⊎ ((id ≡ opts.instance_id)
          × (is_empty opts.instance_id ≡ false)
          × (e : ScheduleError) × (scheduled.0 ≡ err e)
          × (is_already_exists e ≡ true))

  instance_of-IsInstance :
      (id : Text) → instance_of client decode opts scheduled.0 ≡ ok id → IsInstance id
  unfolding instance_of
  instance_of-IsInstance id h = elim (Result-cases scheduled.0) [
    | inl (a, e) ↦ inl (ground arith)
    | inr (a, e) ↦ inr (ground arith, ground arith, a, e, ground arith)
  ]

  await_run-ok :
      (id : Text) (x : C) (out : State)
      → (await_run client decode id x).0 ≡ ok out
      → (meta : Metadata) × ((client.wait id x).0 ≡ ok meta)
        × (meta.is_completed ≡ true)
        × (decode_result client decode meta.output ≡ ok out)
  unfolding await_run check_status
  await_run-ok id x out h = elim (Result-cases (client.wait id x).0) [
    | inl (meta, e) ↦ (meta, e, ground arith, ground arith)
    | inr (e, failed) ↦ ground arith
  ]

  run-graphs : (run client decode graphs cg input opts c).2 ≡ register graphs cg
  unfolding run
  run-graphs = elim (Bool-cases (is_empty opts.workflow_name)) [
    | inl unnamed ↦ simp (unnamed, run)
    | inr named ↦ elim (Result-cases (instance_of client decode opts scheduled.0)) [
      | inl (id, e) ↦ simp (named, e, run)
      | inr (x, e) ↦ simp (named, e, run)
    ]
  ]

  run-awaits :
      (out : State)
      → (run client decode graphs cg input opts c).0 ≡ ok out
      → (id : Text) × (instance_of client decode opts scheduled.0 ≡ ok id)
        × ((await_run client decode id scheduled.1).0 ≡ ok out)
  unfolding run
  run-awaits out h = elim (Bool-cases (is_empty opts.workflow_name)) [
    | inl unnamed ↦ cc (simp (unnamed, run) at h)
    | inr named ↦ elim (Result-cases (instance_of client decode opts scheduled.0)) [
      | inl (id, e) ↦ (id, e, simp (named, e, run) at h)
      | inr (x, e) ↦ cc (simp (named, e, run) at h)
    ]
  ]

  -- What stands behind a result: for a state, the instance that completed with it.
  abbrev pub IsBacked : Result BackendError State → Type 0
  IsBacked (err e) = Unit
  IsBacked (ok out) =
      (id : Text) × (meta : Metadata) × IsInstance id
      × ((client.wait id scheduled.1).0 ≡ ok meta)
      × (meta.is_completed ≡ true)
      × (decode_result client decode meta.output ≡ ok out)

  -- `Run` registers the graph whatever comes of it, and returns a state only where an instance that it
  -- started, or the pinned one that existed already, has completed, with that instance's output.
  pub run-completed :
      (lookup cg.name (run client decode graphs cg input opts c).2 ≡ some cg)
      × IsBacked (run client decode graphs cg input opts c).0
  unfolding register
  run-completed = (
    rw run-graphs (lookup-insert cg.name cg.name cg graphs ∙ rw (eq_refl cg.name)),
    elim (Result-cases (run client decode graphs cg input opts c).0) [
      | inr (e, failed) ↦ rw failed tt
      | inl (out, h) ↦
          let (id, found, awaited) = run-awaits out h in
          let (meta, waited, completed, decoded) = await_run-ok id scheduled.1 out awaited in
          rw h (id, meta, instance_of-IsInstance id found, waited, completed, decoded)
    ],
  )
