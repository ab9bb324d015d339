-- ===== src/Mcp/Discovery.antt =====
-- mcp/mcp.go: what a discovery returns.
use go_ai.Prelude.{
  Result, ◌≡◌, refl, sym, ap, ◌∙◌, subst, ◌⊎◌, inl, inr, true, false, none, List, [], ◌∷◌, ◌++◌, ok,
  err, arith, Result-cases, Bool-cases,
}
use mathlib.Core.List.{append-nil, append_assoc}
use go_ai.Text.{Text, codes}
use go_ai.Durable.Backend.{Metadata}
use go_ai.Mcp.{
  McpError, grpc_unavailable, get_metadata_failed, list_tools_failed, Arguments, Tool, Sidecar,
  McpCodec, ToolDeclaration, discover_servers, call_tool, tools_of, listed_tools, list_tools,
  list_all, discover_tools, run_workflow,
}
use go_ai.Mcp.Calls.{output_of, run_workflow-IsCompleted, run_workflow-of_IsCompleted}

module _ {C : Type 0} (sidecar : Sidecar C) (codec : McpCodec) where
  -- In the state `c` the server's workflow for its list was scheduled, without an input, and waited
  -- for; it completed in the state `c'`, with an output that decodes to the declarations.
  pub record IsListed (server : Text) (c c' : C) (ds : List ToolDeclaration) : Type 0 where
    pub id : Text
    pub at : C
    pub meta : Metadata
    pub scheduled :
        sidecar.schedule (codes "dapr.internal.mcp." ++ server ++ codes ".ListTools") none c
        ≡ (ok id, at)
    pub waited : sidecar.wait id at ≡ (ok meta, c')
    pub completed : meta.is_completed ≡ true
    pub declared : codec.decode_tools (output_of meta.output) ≡ ok ds

  -- One tool for each declaration, in their order, whose call is that of its own server and name.
  pub data Mirrors (server : Text) : List ToolDeclaration → List (Tool C) → Type 0 where
    all_made : Mirrors server [] []
    then_made :
        {d : ToolDeclaration} {ds : List ToolDeclaration} {t : Tool C} {ts : List (Tool C)}
        → t.server ≡ server
        → t.name ≡ d.name
        → t.description ≡ d.description
        → t.schema ≡ d.input_schema
        → ((args : Arguments) (c : C)
            → t.call args c ≡ call_tool sidecar codec server d.name args c)
        → Mirrors server ds ts
        → Mirrors server (d ∷ ds) (t ∷ ts)

  -- The servers are asked one after the other, from the state `c` on, and each answers with a list.
  pub data Answered : List Text → C → List (List (Tool C)) → Type 0 where
    no_more : {c : C} → Answered [] c []
    then_asked :
        {server : Text} {servers : List Text} {c c' : C} {ds : List ToolDeclaration}
        {ts : List (Tool C)} {rest : List (List (Tool C))}
        → IsListed server c c' ds
        → Mirrors server ds ts
        → Answered servers c' rest
        → Answered (server ∷ servers) c (ts ∷ rest)

  -- The servers are asked one after the other, up to one that gives no list.
  pub data Fails : List Text → C → McpError → Type 0 where
    at_server :
        {server : Text} {servers : List Text} {c : C} (reason : McpError)
        → ((c' : C) (ds : List ToolDeclaration) → ¬ IsListed server c c' ds)
        → Fails (server ∷ servers) c (list_tools_failed server reason)
    at_later :
        {server : Text} {servers : List Text} {c c' : C} {ds : List ToolDeclaration} {e : McpError}
        → IsListed server c c' ds
        → Fails servers c' e
        → Fails (server ∷ servers) c e

  abbrev pub concat : List (List (Tool C)) → List (Tool C)
  concat [] = []
  concat (ts ∷ rest) = ts ++ concat rest

  tools_of-Mirrors :
      (server : Text) (ds : List ToolDeclaration)
      → Mirrors server ds (tools_of sidecar codec server ds)
  unfolding tools_of
  tools_of-Mirrors server [] = all_made
  tools_of-Mirrors server (d ∷ ds) =
      then_made refl refl refl refl (λ args c. refl) (tools_of-Mirrors server ds)

  abbrev list_workflow : Text → Text
  list_workflow server = codes "dapr.internal.mcp." ++ server ++ codes ".ListTools"

  run_workflow-IsListed :
      (server out : Text) (c : C) (ds : List ToolDeclaration)
      → (run_workflow sidecar (list_workflow server) none c).0 ≡ ok out
      → codec.decode_tools out ≡ ok ds
      → IsListed server c (run_workflow sidecar (list_workflow server) none c).1 ds
  unfolding run_workflow
  run_workflow-IsListed server out c ds h decoded =
      let name = list_workflow server in
      let (id, meta, scheduled, waited, done, same) =
        run_workflow-IsCompleted sidecar codec name none c out h in
      let c₁ = (sidecar.schedule name none c).1 in
      let after : (run_workflow sidecar name none c).1 ≡ (sidecar.wait id c₁).1 =
        simp (scheduled, waited, run_workflow) in
      record {
        id = id;
        at = c₁;
        meta = meta;
        scheduled = ap (λ r. (r, c₁)) scheduled;
        waited = ap (λ r. (r, (sidecar.wait id c₁).1)) waited ∙ ap (λ x. (ok meta, x)) (sym after);
        completed = done;
        declared = ap codec.decode_tools (sym same) ∙ decoded;
      }

  list_tools-IsListed :
      (server : Text) (c : C) (ts : List (Tool C))
      → (list_tools sidecar codec server c).0 ≡ ok ts
      → (ds : List ToolDeclaration) × IsListed server c (list_tools sidecar codec server c).1 ds
        × Mirrors server ds ts
  unfolding list_tools listed_tools
  list_tools-IsListed server c ts h =
      elim (Result-cases (run_workflow sidecar (list_workflow server) none c).0) [
        | inr (e, failed) ↦ cc (rw (failed, list_tools) at h)
        | inl (out, ran) ↦ elim (Result-cases (codec.decode_tools out)) [
          | inr (e, failed) ↦ cc (rw (ran, failed, list_tools, listed_tools) at h)
          | inl (ds, decoded) ↦
              let same : tools_of sidecar codec server ds ≡ ts =
                let k = rw (ran, decoded, list_tools, listed_tools) at h in cc in
              let after : (run_workflow sidecar (list_workflow server) none c).1
                  ≡ (list_tools sidecar codec server c).1 =
                rw (ran, list_tools) refl in
              (
                ds,
                subst (λ x. IsListed server c x ds) after
                    (run_workflow-IsListed server out c ds ran decoded),
                subst (Mirrors server ds) same (tools_of-Mirrors server ds),
              )
        ]
      ]

  list_tools-unlisted :
      (server : Text) (c : C) (reason : McpError)
      → (list_tools sidecar codec server c).0 ≡ err reason
      → (c' : C) (ds : List ToolDeclaration) → ¬ IsListed server c c' ds
  unfolding list_tools listed_tools
  list_tools-unlisted server c reason h c' ds listed =
      let out = output_of listed.meta.output in
      let ran : (run_workflow sidecar (list_workflow server) none c).0 ≡ ok out =
        run_workflow-of_IsCompleted sidecar codec (list_workflow server) none c out (
          listed.id,
          listed.meta,
          ap (λ r. r.0) listed.scheduled,
          ap (λ r. (sidecar.wait listed.id r.1).0) listed.scheduled ∙ ap (λ r. r.0) listed.waited,
          listed.completed,
          refl,
        ) in
      cc (rw (ran, listed.declared, list_tools, listed_tools) at h)

  list_all-Answered :
      (servers : List Text) (c : C) (found tools : List (Tool C))
      → (list_all sidecar codec found servers c).0 ≡ ok tools
      → (rest : List (List (Tool C))) × Answered servers c rest × (tools ≡ found ++ concat rest)
  unfolding list_all
  list_all-Answered [] c found tools h =
      ([], no_more, sym (let same : found ≡ tools = ground arith in same) ∙ sym (append-nil found))
  list_all-Answered (server ∷ servers) c found tools h =
      elim (Result-cases (list_tools sidecar codec server c).0) [
        | inr (e, failed) ↦ cc (simp (failed, list_all) at h)
        | inl (ts, found_ts) ↦
            let c' = (list_tools sidecar codec server c).1 in
            let (ds, listed, mirrors) = list_tools-IsListed server c ts found_ts in
            let (rest, answered, same) =
              list_all-Answered servers c' (found ++ ts) tools (rw (found_ts, list_all) at h) in
            (
              ts ∷ rest,
              then_asked listed mirrors answered,
              same ∙ append_assoc found ts (concat rest),
            )
      ]

  list_all-Fails :
      (servers : List Text) (c : C) (found : List (Tool C)) (e : McpError)
      → (list_all sidecar codec found servers c).0 ≡ err e
      → Fails servers c e
  unfolding list_all
  list_all-Fails [] c found e h = ground arith
  list_all-Fails (server ∷ servers) c found e h =
      elim (Result-cases (list_tools sidecar codec server c).0) [
        | inr (reason, failed) ↦
            let same : list_tools_failed server reason ≡ e =
              let k = simp (failed, list_all) at h in cc in
            subst (Fails (server ∷ servers) c) same
              (at_server reason (list_tools-unlisted server c reason failed))
        | inl (ts, found_ts) ↦
            let c' = (list_tools sidecar codec server c).1 in
            let (ds, listed, mirrors) = list_tools-IsListed server c ts found_ts in
            at_later listed
              (list_all-Fails servers c' (found ++ ts) e (rw (found_ts, list_all) at h))
      ]

  -- The outcome of a discovery from the state `c`.
  abbrev pub IsDiscovery : C → Result McpError (List (Tool C)) → Type 0
  IsDiscovery c (ok tools) =
      (servers : List Text) × (c' : C) × (rest : List (List (Tool C))) × (sidecar.has_grpc ≡ true)
      × (sidecar.get_metadata c ≡ (ok servers, c'))
      × Answered servers c' rest
      × (tools ≡ concat rest)
  IsDiscovery c (err e) =
      ((sidecar.has_grpc ≡ false) × (e ≡ grpc_unavailable))
      ⊎ ((message : Text) × ((sidecar.get_metadata c).0 ≡ err message)
          × (e ≡ get_metadata_failed message))
      ⊎ ((servers : List Text) × (c' : C) × (sidecar.get_metadata c ≡ (ok servers, c'))
          × Fails servers c' e)

  list_all-IsDiscovery :
      (c c' : C) (servers : List Text) (out : Result McpError (List (Tool C)))
      → sidecar.has_grpc ≡ true
      → sidecar.get_metadata c ≡ (ok servers, c')
      → (list_all sidecar codec [] servers c').0 ≡ out
      → IsDiscovery c out
  list_all-IsDiscovery c c' servers (ok tools) grpc found h =
      let (rest, answered, same) = list_all-Answered servers c' [] tools h in
      (servers, c', rest, grpc, found, answered, same)
  list_all-IsDiscovery c c' servers (err e) grpc found h =
      inr (inr (servers, c', found, list_all-Fails servers c' [] e h))

  discovered :
      (c c' : C) (servers : List Text)
      → sidecar.has_grpc ≡ true
      → sidecar.get_metadata c ≡ (ok servers, c')
      → discover_servers sidecar c ≡ (ok servers, c')
  unfolding discover_servers
  discovered c c' servers grpc found = simp (grpc, found, discover_servers)

  -- A discovery returns the tools of every loaded server, one for each declaration of the list that
  -- the server's workflow completed with, in the order of the servers and of their lists; a tool has
  -- the declaration's name, description and schema, and calls the workflow of its own server and name.
  -- It fails only where there is no client, where the servers cannot be read, or at the first server
  -- whose workflow does not complete with a list.
  pub discover_tools-IsDiscovery : (c : C) → IsDiscovery c (discover_tools sidecar codec c).0
  unfolding discover_tools discover_servers
  discover_tools-IsDiscovery c = elim (Bool-cases sidecar.has_grpc) [
    | inr missing ↦ simp (missing, discover_tools, discover_servers) (inl (refl, refl))
    | inl grpc ↦ elim (Result-cases (sidecar.get_metadata c).0) [
      | inr (message, failed) ↦
          simp (grpc, failed, discover_tools, discover_servers) (inr (inl (message, refl, refl)))
      | inl (servers, found) ↦
          let c' = (sidecar.get_metadata c).1 in
          let read : sidecar.get_metadata c ≡ (ok servers, c') = ap (λ r. (r, c')) found in
          let same = discovered c c' servers grpc read in
          let at = (discover_servers sidecar c).1 in
          rw (ap (λ r. r.0) same, discover_tools)
            (list_all-IsDiscovery c at servers (list_all sidecar codec [] servers at).0 grpc
              (read ∙ ap (λ x. (ok servers, x)) (sym (ap (λ r. r.1) same))) refl)
    ]
  ]
