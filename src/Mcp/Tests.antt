-- ===== src/Mcp/Tests.antt =====
-- Runs of the MCP client, and its theorems at a concrete sidecar.
use go_ai.Prelude.{
  ℕ, suc, ◌≡◌, refl, ◌↔◌, true, false, none, some, List, [], ◌∷◌, Result, ok, err, map,
}
use go_ai.Text.{Text, codes, ◌==◌, has_suffix}
use go_ai.Value.{null}
use go_ai.Mcp.{
  Sidecar, McpCodec, McpError, text_part, other_content, CallToolResult, Tool, text_content,
  workflow_output, run_workflow, discover_servers, tool_result, call_workflow, call_tool, tools_of,
  listed_tools, list_tools, list_all, discover_tools,
}
use go_ai.Mcp.Discovery.{IsDiscovery, discover_tools-IsDiscovery}
use go_ai.Mcp.Calls.{IsCompleted, call_tool-IsCompleted}

-- Every definition that the runs below compute with.
client : Unit {0}
unfolding ◌==◌ has_suffix text_content workflow_output run_workflow discover_servers tool_result
    call_tool tools_of listed_tools list_tools list_all discover_tools
client = tt

-- A sidecar with two servers. It counts the workflows; each completes, with its name as output.
abbrev two_servers : Sidecar ℕ
two_servers = record {
  has_grpc = true;
  get_metadata = λ c. (ok (codes "a" ∷ codes "b" ∷ []), c);
  schedule = λ name input c. (ok name, suc c);
  wait = λ id c.
      (ok (record { status = codes "COMPLETED"; is_completed = true; output = some id }), c);
}

-- A server has one tool, named for the workflow that listed it; a tool answers with its workflow.
abbrev echo_codec : McpCodec
echo_codec = record {
  decode_tools = λ out. ok ((record { name = out; description = []; input_schema = null }) ∷ []);
  decode_result = λ out.
      ok
        (record { content = text_part out ∷ other_content ∷ text_part out ∷ []; is_error = false });
}

abbrev tool_names : Result McpError (List (Tool ℕ)) → List Text
tool_names (ok ts) = map (λ (t : Tool ℕ). t.name) ts
tool_names (err e) = []

both_listed :
    tool_names (discover_tools two_servers echo_codec 0).0
    ≡ codes "dapr.internal.mcp.a.ListTools" ∷ codes "dapr.internal.mcp.b.ListTools" ∷ []
unfolding client
both_listed = refl

both_asked : (discover_tools two_servers echo_codec 0).1 ≡ 2
unfolding client
both_asked = refl

-- The output, twice, around a part that is no text.
abbrev echoed : Text
echoed = codes "dapr.internal.mcp.a.CallTool.tdapr.internal.mcp.a.CallTool.t"

called_twice : (call_tool two_servers echo_codec (codes "a") (codes "t") none 0).0 ≡ ok echoed
unfolding client
called_twice = refl

discover_tools-IsDiscovery_example :
    IsDiscovery two_servers echo_codec 0 (discover_tools two_servers echo_codec 0).0
discover_tools-IsDiscovery_example = discover_tools-IsDiscovery two_servers echo_codec 0

call_tool-IsCompleted_example :
    ((call_tool two_servers echo_codec (codes "a") (codes "t") none 0).0 ≡ ok echoed) ↔ (
      (out : Text) × (res : CallToolResult) × IsCompleted two_servers echo_codec
        (call_workflow two_servers echo_codec (codes "a") (codes "t"))
        (some ((codes "arguments", none) ∷ []))
        0
        out
      × (echo_codec.decode_result out ≡ ok res)
      × (res.is_error ≡ false)
      × (echoed ≡ text_content res.content))
call_tool-IsCompleted_example =
    call_tool-IsCompleted two_servers echo_codec (codes "a") (codes "t") none 0 echoed
