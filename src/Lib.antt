-- ===== src/Lib.antt =====
-- go-ai: durable agents as graphs, an agent directory, and verified identity.
--
-- The program. An agent is a graph (agent/): nodes take the shared state and return updates, which
-- are merged into it channel by channel; edges and routers say which node is next. A graph is built,
-- compiled, and run either by the interpreter in the process or by the durable backend (durable/),
-- a Dapr workflow that calls one activity per node and routes by the same compiled graph. Agents
-- are recorded in a directory (registry/), documents in a state store with one index of names per
-- team. Requests to an agent pass a gate that verifies the caller's token (identity/), and requests
-- from it carry that token on, to the origin that it was meant for. A runner (runner.go) puts these
-- together: it compiles a graph, starts the worker, records the agent, reports one usage event
-- (analytics.go), and hands runs to the backend. Adapters (adapters/) make nodes of the chat models of
-- two frameworks; one of them lets a model call the tools that mcp/ finds in the sidecar.
--
-- Which file models which part:
--   Prelude, Text, Dict, Value: shared. Text is Go's string, a list of bytes, with the functions of
--     strings that the program calls; Dict is Go's map with a fixed order of its entries, which
--     stands for the order that a range loop picks; Value is what a JSON document decodes to.
--   Agent.State: agent/state.go (State, ToState, Into, AppendReducer, Clone, merge).
--   Agent.Graph: the builder of agent/graph.go; its methods return the changed graph.
--   Agent.Compile: Compile, RunNode, ApplyUpdates and Next of agent/graph.go.
--   Agent.Config: agent/config.go (describe).
--   Agent.Engine: agent/engine.go (Execute). `round` is the body of its loop.
--   Durable.Workflow: graphWorkflow, executeNodeActivity and Register of durable/dapr.go.
--   Durable.Backend: Run of durable/dapr.go, and the options of durable/backend.go.
--   Durable.Worker: NewDaprBackend and Close of durable/dapr.go.
--   Registry.Records, Registry.Store, Registry.DaprStore, Registry.Directory: registry/metadata.go,
--     registry/store.go, registry/daprstore.go and registry/registry.go.
--   Registry.Directory.Writers: concurrent runs of updateIndex, registry/registry.go, as a step relation.
--   Identity.Config, Identity.Code, Identity.Errors, Identity.Context: identity/identity.go,
--     identity/errors.go and identity/context.go.
--   Identity.Middleware, Identity.Claims, Identity.Token: identity/middleware.go.
--   Identity.Transport: identity/http.go.
--   Identity.Verifier, Identity.Discovery: identity/verifier.go; Identity.Jwx is the token library that
--     it calls, as an interface.
--   Runner.Settings, Runner: runner.go (the configuration; NewRunner, Close and Invoke).
--   Analytics.Dimension, Analytics.Host, Analytics.Report: analytics.go (cleanDimension; what is read of
--     the process, with frameworkVersion of runner.go; reportUsage and the request).
--   Mcp: mcp/mcp.go.
--   Adapters.Options, Adapters.Langchaingo, Adapters.ToolLoop, Adapters.Eino: the options and ModelNode of
--     adapters/langchaingo/langchaingo.go, adapters/langchaingo/tools.go, and adapters/eino/eino.go.
-- The modules below these hold proofs and tests.
--
-- State. A node, a verifier and a store take and return a world `W`, so that the order of the effects
-- is part of what is compared. A mutex makes the code that it guards one step. Execute hands a node the
-- map that holds the state; a node that writes to that map, or keeps it, is outside the model.
--
-- Bounds. The loops of Execute and graphWorkflow run on the steps that the limit leaves (100 where no
-- limit is set), as the code counts them; originalRequestURL on its 64 hops; updateIndex on its 10
-- attempts; ToolModelNode on its 8 turns. The digits of an etag are taken with one step more than the
-- number, which is enough since each step divides it by ten.
--
-- Parameters. The Dapr runtime and client, the jwx library with its key cache and clock, the JSON
-- codecs, net/url and the network, strings.EqualFold and strings.ToLower are arguments of the
-- definitions that use them. A theorem names what it asks of them.
--
-- Instruments. Two instances of the parameters serve to state theorems: a model that records what it is
-- sent (Adapters.ToolLoop.Recorded), and a platform that counts the contexts and clients that are held
-- (Runner.Tracked). Durable.Backend.Served is a sidecar that serves one workflow: it runs that one when
-- it is scheduled by its name, refuses every other name, and answers for the instance's own ID alone.
--
-- Not modelled: the contexts that are passed to nodes, routers, stores and models, so that a
-- cancellation within them cannot be expressed; examples/, the accessors of the runner, the HTTP client
-- and the panic recovery of the usage report; of the rest, log lines, timeouts and the texts of
-- messages. Values on which the code panics (a null tool in a list, a tool call without a function, a
-- nil answer beside no error) have no place in the types.
pub mod Analytics
pub mod Prelude
pub mod Text
pub mod Dict
pub mod Value
pub mod Agent
pub mod Durable
pub mod Registry
pub mod Identity
pub mod Mcp
pub mod Adapters
pub mod Runner
