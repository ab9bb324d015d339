-- ===== src/Mcp.antt =====
-- mcp/mcp.go: discovery and calls of the tools that the sidecar serves as workflows. The sidecar and
-- the JSON decoders are parameters.
pub mod Discovery
pub mod Calls
mod Tests
use go_ai.Prelude.{
  Bool, Option, none, some, List, [], ◌∷◌, ◌++◌, map, Result, ok, err, if◌then◌else◌,
}
use go_ai.Text.{Text, codes}
use go_ai.Dict.{Dict}
use go_ai.Value.{Value}
use go_ai.Durable.Backend.{Metadata}

abbrev pub workflow_prefix : Text
workflow_prefix = codes "dapr.internal.mcp."

pub data McpError : Type 0 where
  grpc_unavailable : McpError
  get_metadata_failed : Text → McpError
  list_tools_failed : Text → McpError → McpError
  decode_tool_list : Text → McpError
  decode_tool_result : Text → McpError
  tool_failed : Text → Text → Text → McpError
  schedule_failed : Text → Text → McpError
  wait_failed : Text → Text → McpError
  finished_with_status : Text → Text → McpError

-- The arguments of a tool: none is the nil map, which is not encoded as the empty one is.
abbrev pub Arguments : Type 0
Arguments = Option (Dict Value)

-- The input of a workflow: none for no input, or a map with the arguments.
abbrev pub WorkflowInput : Type 0
WorkflowInput = Option (Dict Arguments)

-- The tools and the result that the SDK's types decode to; a content of another kind than text is
-- `other_content`. The tools in a list are not null.
pub record ToolDeclaration : Type 0 where
  pub name : Text
  pub description : Text
  pub input_schema : Value

pub data Content : Type 0 where
  text_part : Text → Content
  other_content : Content

pub record CallToolResult : Type 0 where
  pub content : List Content
  pub is_error : Bool

pub record McpCodec : Type 0 where
  pub decode_tools : Text → Result Text (List ToolDeclaration)
  pub decode_result : Text → Result Text CallToolResult

-- The raw gRPC client, where there is one, and the workflow client, on a state `C`. `get_metadata`
-- answers with the names of the loaded servers.
pub record Sidecar (C : Type 0) : Type 0 where
  pub has_grpc : Bool
  pub get_metadata : C → Result Text (List Text) × C
  pub schedule : Text → WorkflowInput → C → Result Text Text × C
  pub wait : Text → C → Result Text Metadata × C

pub record Tool (C : Type 0) : Type 0 where
  pub server : Text
  pub name : Text
  pub description : Text
  pub schema : Value
  pub call : Arguments → C → Result McpError Text × C

unfoldable pub text_content : List Content → Text
text_content [] = []
text_content (text_part t ∷ content) = t ++ text_content content
text_content (other_content ∷ content) = text_content content

module _ {C : Type 0} (sidecar : Sidecar C) where
  -- The last part of `runWorkflow`.
  unfoldable pub workflow_output : Text → Metadata → Result McpError Text
  workflow_output name meta =
      if meta.is_completed
      then (elim meta.output [ some out ↦ ok out | none ↦ ok (codes "null") ])
      else err (finished_with_status name meta.status)

  unfoldable pub run_workflow : Text → WorkflowInput → C → Result McpError Text × C
  unfolding workflow_output
  run_workflow name input c =
      let (scheduled, c₁) = sidecar.schedule name input c in
      elim scheduled [
        | err e ↦ (err (schedule_failed name e), c₁)
        | ok id ↦
            let (waited, c₂) = sidecar.wait id c₁ in
            (elim waited [
              | err e ↦ (err (wait_failed name e), c₂)
              | ok meta ↦ (workflow_output name meta, c₂)
            ])
      ]

  unfoldable pub discover_servers : C → Result McpError (List Text) × C
  discover_servers c =
      let (answer, c') = sidecar.get_metadata c in
      if sidecar.has_grpc
      then (elim answer [ err e ↦ (err (get_metadata_failed e), c') | ok names ↦ (ok names, c') ])
      else (err grpc_unavailable, c)

module _ {C : Type 0} (sidecar : Sidecar C) (codec : McpCodec) where
  abbrev pub call_workflow : Text → Text → Text
  call_workflow server tool = workflow_prefix ++ server ++ codes ".CallTool." ++ tool

  -- `callTool`, from the output of the workflow.
  unfoldable pub tool_result : Text → Text → Text → Result McpError Text
  unfolding text_content
  tool_result server tool out = elim (codec.decode_result out) [
    | err e ↦ err (decode_tool_result e)
    | ok res ↦
        if res.is_error
        then err (tool_failed server tool (text_content res.content))
        else ok (text_content res.content)
  ]

  unfoldable pub call_tool : Text → Text → Arguments → C → Result McpError Text × C
  unfolding run_workflow tool_result
  call_tool server tool args c =
      let (ran, c') =
        run_workflow sidecar (call_workflow server tool) (some ((codes "arguments", args) ∷ []))
          c in
      elim ran [ err e ↦ (err e, c') | ok out ↦ (tool_result server tool out, c') ]

  -- The loop of `listTools`: each tool has a closure of its own.
  unfoldable pub tools_of : Text → List ToolDeclaration → List (Tool C)
  unfolding call_tool
  tools_of server [] = []
  tools_of server (t ∷ ts) =
      (record {
        server = server;
        name = t.name;
        description = t.description;
        schema = t.input_schema;
        call = call_tool server t.name;
      })
      ∷ tools_of server ts

  unfoldable pub listed_tools : Text → Text → Result McpError (List (Tool C))
  unfolding tools_of
  listed_tools server out = elim (codec.decode_tools out) [
    | err e ↦ err (decode_tool_list e)
    | ok ts ↦ ok (tools_of server ts)
  ]

  unfoldable pub list_tools : Text → C → Result McpError (List (Tool C)) × C
  unfolding run_workflow listed_tools
  list_tools server c =
      let (ran, c') =
        run_workflow sidecar (workflow_prefix ++ server ++ codes ".ListTools") none c in
      elim ran [ err e ↦ (err e, c') | ok out ↦ (listed_tools server out, c') ]

  -- The loop of `DiscoverTools`; `tools` is what was found so far.
  unfoldable pub list_all : List (Tool C) → List Text → C → Result McpError (List (Tool C)) × C
  unfolding list_tools
  list_all tools [] c = (ok tools, c)
  list_all tools (server ∷ servers) c =
      let (answer, c') = list_tools server c in
      elim answer [
        | err e ↦ (err (list_tools_failed server e), c')
        | ok ts ↦ list_all (tools ++ ts) servers c'
      ]

  unfoldable pub discover_tools : C → Result McpError (List (Tool C)) × C
  unfolding discover_servers list_all
  discover_tools c =
      let (answer, c') = discover_servers sidecar c in
      elim answer [ err e ↦ (err e, c') | ok servers ↦ list_all [] servers c' ]
