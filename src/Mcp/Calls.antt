-- ===== src/Mcp/Calls.antt =====
-- mcp/mcp.go: what stands behind the text that a tool returns.
use go_ai.Prelude.{
  ◌≡◌, ◌↔◌, true, false, Option, none, some, [], ◌∷◌, ok, arith, Bool-cases, Option-cases,
  Result-cases, inl, inr,
}
use go_ai.Text.{Text, codes}
use go_ai.Durable.Backend.{Metadata}
use go_ai.Mcp.{
  Arguments, CallToolResult, McpCodec, Sidecar, text_content, workflow_output, run_workflow,
  call_workflow, tool_result, call_tool, WorkflowInput,
}

-- What the code takes for the output of a completed workflow.
abbrev pub output_of : Option Text → Text
output_of none = codes "null"
output_of (some out) = out

module _ {C : Type 0} (sidecar : Sidecar C) (codec : McpCodec) where
  -- The workflow was scheduled in the state `c`, waited for, and completed with the output.
  abbrev pub IsCompleted : Text → WorkflowInput → C → Text → Type 0
  IsCompleted name input c out =
      (id : Text) × (meta : Metadata) × ((sidecar.schedule name input c).0 ≡ ok id)
      × ((sidecar.wait id (sidecar.schedule name input c).1).0 ≡ ok meta)
      × (meta.is_completed ≡ true)
      × (out ≡ output_of meta.output)

  pub run_workflow-IsCompleted :
      (name : Text) (input : WorkflowInput) (c : C) (out : Text)
      → (run_workflow sidecar name input c).0 ≡ ok out
      → IsCompleted name input c out
  unfolding run_workflow workflow_output
  run_workflow-IsCompleted name input c out h =
      elim (Result-cases (sidecar.schedule name input c).0) [
        | inr (e, failed) ↦ cc (simp (failed, run_workflow) at h)
        | inl (id, scheduled) ↦
            let c' = (sidecar.schedule name input c).1 in
            elim (Result-cases (sidecar.wait id c').0) [
              | inr (e, failed) ↦ cc (simp (scheduled, failed, run_workflow) at h)
              | inl (meta, waited) ↦
                  let k : workflow_output sidecar name meta ≡ ok out =
                    simp (scheduled, waited, run_workflow) at h in
                  elim (Bool-cases meta.is_completed) [
                    | inr running ↦ ground arith
                    | inl done ↦ elim (Option-cases meta.output) [
                      | inl nothing ↦ (id, meta, scheduled, waited, done, ground arith)
                      | inr (o, some_out) ↦ (id, meta, scheduled, waited, done, ground arith)
                    ]
                  ]
            ]
      ]

  pub run_workflow-of_IsCompleted :
      (name : Text) (input : WorkflowInput) (c : C) (out : Text)
      → IsCompleted name input c out
      → (run_workflow sidecar name input c).0 ≡ ok out
  unfolding run_workflow workflow_output
  run_workflow-of_IsCompleted name input c out (id, meta, scheduled, waited, done, same) =
      let k : workflow_output sidecar name meta ≡ ok out = elim (Option-cases meta.output) [
        | inl nothing ↦ ground arith
        | inr (o, some_out) ↦ ground arith
      ] in
      simp (scheduled, waited, k, run_workflow)

  -- A call returns a text exactly where the workflow of that server and tool, given the arguments,
  -- has completed with an output that decodes to a result which is not flagged as an error; the text
  -- is that of the result's text parts.
  pub call_tool-IsCompleted :
      (server tool : Text) (args : Arguments) (c : C) (answer : Text)
      → ((call_tool sidecar codec server tool args c).0 ≡ ok answer) ↔ (
          (out : Text) × (res : CallToolResult) × IsCompleted
            (call_workflow sidecar codec server tool)
            (some ((codes "arguments", args) ∷ []))
            c
            out
          × (codec.decode_result out ≡ ok res)
          × (res.is_error ≡ false)
          × (answer ≡ text_content res.content))
  unfolding call_tool tool_result
  call_tool-IsCompleted server tool args c answer =
      let name = call_workflow sidecar codec server tool in
      let input : WorkflowInput = some ((codes "arguments", args) ∷ []) in
      (
        (λ h. elim (Result-cases (run_workflow sidecar name input c).0) [
          | inr (e, failed) ↦ cc (simp (failed, call_tool) at h)
          | inl (out, ran) ↦
              let k : tool_result sidecar codec server tool out ≡ ok answer =
                simp (ran, call_tool) at h in
              elim (Result-cases (codec.decode_result out)) [
                | inr (e, failed) ↦ ground arith
                | inl (res, decoded) ↦ (
                  out,
                  res,
                  run_workflow-IsCompleted name input c out ran,
                  decoded,
                  ground arith,
                  ground arith,
                )
              ]
        ]),
        λ (out, res, completed, decoded, fine, same). simp (
          run_workflow-of_IsCompleted name input c out completed,
          decoded,
          fine,
          same,
          call_tool,
          tool_result,
        ),
      )
