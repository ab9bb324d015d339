-- ===== src/Runner/Tracked.antt =====
-- runner.go: a platform on which the contexts and the clients that are held are counted, the clients of the
-- workflow worker by themselves.
use go_ai.Prelude.{ℕ, zero, suc, Option, none, some}
use go_ai.Text.{Text}
use go_ai.Durable.Worker.{WorkerRuntime}
use go_ai.Registry.DaprStore.{DaprClient}
use go_ai.Runner.{Platform}

-- The contexts that were made and not cancelled, and the clients that were opened and not closed.
pub record Held : Type 0 where
  pub contexts : ℕ
  pub clients : ℕ
  pub workflow_clients : ℕ

abbrev pub with_workflow_client : Held → Held
with_workflow_client h = record h { workflow_clients = suc h.workflow_clients }

abbrev pub with_runner : Held → Held
with_runner h = record {
  contexts = suc h.contexts;
  clients = suc h.clients;
  workflow_clients = suc h.workflow_clients;
}

abbrev pub less : ℕ → ℕ
less zero = zero
less (suc n) = n

abbrev pub context_added : Held → Held
context_added h = record h { contexts = suc h.contexts }

abbrev pub workflow_client_added : Option Text → Held → Held
workflow_client_added none h = with_workflow_client h
workflow_client_added (some e) h = h

module _ {C : Type 0} where
  -- A call that opens a client where it does not fail.
  abbrev pub opening : Option Text × C → Held → Option Text × (C × Held)
  opening (none, c) h = (none, (c, record h { clients = suc h.clients }))
  opening (some e, c) h = (some e, (c, h))

  abbrev pub beside : {A : Type 0} → A × C → Held → A × (C × Held)
  beside r h = (r.0, (r.1, h))

  abbrev pub tracked_runtime : {R H : Type 0} → WorkerRuntime R H C → WorkerRuntime R H (C × Held)
  tracked_runtime rt = record {
    new_workflow_client = λ x.
        let (failed, c) = rt.new_workflow_client x.0 in
        (failed, (c, workflow_client_added failed x.1));
    with_cancel = λ x. beside (rt.with_cancel x.0) (context_added x.1);
    start = λ cancel r x. beside (rt.start cancel r x.0) x.1;
    cancel = λ cancel x. (rt.cancel cancel x.0, record x.1 { contexts = less x.1.contexts });
  }

  abbrev pub tracked_state_api : DaprClient C → DaprClient (C × Held)
  tracked_state_api api = record {
    get_state = λ store key meta x. beside (api.get_state store key meta x.0) x.1;
    save_state = λ store key value meta x. beside (api.save_state store key value meta x.0) x.1;
    save_state_with_etag = λ store key value etag meta x.
        beside (api.save_state_with_etag store key value etag meta x.0) x.1;
    delete_state = λ store key meta x. beside (api.delete_state store key meta x.0) x.1;
  }

  -- The platform, with a count of what is held.
  abbrev pub tracked : {R H : Type 0} → Platform R H C → Platform R H (C × Held)
  tracked pf = record {
    workflows = pf.workflows;
    runtime = tracked_runtime pf.runtime;
    new_client = λ x. opening (pf.new_client x.0) x.1;
    close_client = λ x. (pf.close_client x.0, record x.1 { clients = less x.1.clients });
    get_metadata = λ x. beside (pf.get_metadata x.0) x.1;
    state_api = tracked_state_api pf.state_api;
  }

-- One context and one client fewer.
abbrev pub given_back : Held → Held
given_back h = record h { contexts = less h.contexts; clients = less h.clients }
