-- ===== src/Executor/Run.antt =====
-- The part of `ToolExecutor.execute` that runs a cleared tool, with `_emit_intent` and `_emit_receipt`.
-- Only the tool and the preparation of its output are taken to raise.
use moss_code.Base.{
  String, Bool, true, false, not, ◌&&◌, Option, none, some, List, [], ◌∷◌, ◌++◌, if◌then◌else◌,
  ◌==◌, same, concat, elem,
}
use moss_code.Shell.Command.{ShellLib}
use moss_code.Executor.Runtime.{
  ℤ, pos, negsuc, Agent, State, Tool, Metadata, ToolExecutionResult, ToolRunOutput, ApprovalReceipt,
  Outcome, returned, raised, action_intent, action_receipt,
}
use moss_code.Executor.Guards.{risk_level_for, read_only_for}
use moss_code.Executor.Texts.{path_escape}

abbrev is_nonzero : ℤ → Bool
is_nonzero (pos n) = not (n == 0)
is_nonzero (negsuc n) = true

-- The status and the error code of a tool that returned.
unfoldable pub status_of : Option ℤ → Bool → String × String
status_of none changed = ("ok", "")
status_of (some exit_code) changed =
    if is_nonzero exit_code && changed
    then ("partial_success", "tool_partial_success")
    else if is_nonzero exit_code
    then ("error", "tool_failed")
    else ("ok", "")

abbrev or_zero : Option ℤ → ℤ
or_zero none = pos 0
or_zero (some n) = n

abbrev some_paths : List String → Bool
some_paths [] = false
some_paths (p ∷ ps) = true

abbrev no_approval : ApprovalReceipt
no_approval = record { tool = ""; expected_sha256 = []; diff_digest = "" }

abbrev pub receipt_or_none : Option ApprovalReceipt → ApprovalReceipt
receipt_or_none none = no_approval
receipt_or_none (some r) = r

module _ (W Args : Type 0) (fnmatch : String → String → Bool) (lib : ShellLib)
    (agent : Agent W Args) where
  -- The intent goes to the trace before the undo record is written; where that raises, the intent is
  -- forgotten.
  unfoldable pub emit_intent : String → Option ApprovalReceipt → State W → Option String × State W
  emit_intent name receipt s =
      let id = agent.new_action_id s.world in
      let traced = record s { trace = s.trace ++ (action_intent id name ∷ []) } in
      if agent.has_task
      then elim (agent.capture_undo s.world id (receipt_or_none receipt)) [
        | none ↦ (none, traced)
        | some w ↦ (some id, record traced { world = w })
      ]
      else (none, s)

  -- The receipt goes to the trace before the undo record is completed.
  unfoldable pub emit_receipt : Option String → Metadata → State W → State W
  emit_receipt none metadata s = s
  emit_receipt (some id) metadata s =
      let traced = record s {
        trace = s.trace ++ (action_receipt id metadata.tool_status metadata.affected_paths ∷ []);
      } in
      if agent.has_task
      then elim (agent.update_undo s.world id metadata.affected_paths) [
        | none ↦ traced
        | some w ↦ record traced { world = w; last_action_receipt_id = id }
      ]
      else s

  abbrev changed : Tool → W → W → List String
  changed tool before after =
      if tool.risky then agent.changed_paths before after else agent.changed_paths before before

  -- The end of a call whose tool returned: `w` is the world before the call, `s` the state after it.
  unfoldable pub finish :
      String
      → Args
      → Tool
      → Option String
      → W
      → ToolRunOutput
      → String
      → State W
      → ToolExecutionResult × State W
  unfolding status_of
  finish name args tool intent before output content s =
      let paths = changed tool before s.world in
      let own_code : ℤ = elim output.exit_code [
        | none ↦ or_zero (agent.exit_code_in content)
        | some n ↦ n
      ] in
      let exit_code = if same name "run_shell" then some own_code else none in
      let (status, error_code) = status_of exit_code (some_paths paths) in
      let found = agent.scan name args content in
      let w1 : W = elim found [
        | none ↦ s.world
        | some pattern ↦ agent.flag_injection_suspected s.world pattern
      ] in
      let w2 = agent.update_memory_after_tool w1 name args content in
      let w3 =
        if elem status ("ok" ∷ "partial_success" ∷ [])
          && elem name ("read_file" ∷ "write_file" ∷ "edit_file" ∷ [])
        then agent.note_nearby_instructions w2 (agent.arg_text "path" args)
        else w2 in
      let metadata : Metadata = record {
        tool_status = status;
        tool_error_code = error_code;
        security_event_type = elim found [
          | none ↦ ""
          | some pattern ↦ "prompt_injection_suspected"
        ];
        risk_level = risk_level_for W Args fnmatch lib agent tool name args;
        read_only = read_only_for W Args fnmatch lib agent tool name args;
        affected_paths = paths;
        workspace_changed = some_paths paths;
        exit_code = exit_code;
      } in
      let w4 = agent.record_process_note_for_tool w3 name metadata in
      let s5 = emit_receipt intent metadata (record s { world = w4 }) in
      let w6 = agent.fire_post_tool s5.world name args status paths in
      (record { content = content; metadata = metadata }, record s5 { world = w6 })

  -- The `except` branch.
  unfoldable pub fail :
      String → Args → Tool → Option String → W → String → State W → ToolExecutionResult × State W
  fail name args tool intent before exc s =
      let paths = changed tool before s.world in
      let metadata : Metadata = record {
        tool_status = if some_paths paths then "partial_success" else "error";
        tool_error_code = if some_paths paths then "tool_partial_success" else "tool_failed";
        security_event_type = path_escape exc;
        risk_level = risk_level_for W Args fnmatch lib agent tool name args;
        read_only = read_only_for W Args fnmatch lib agent tool name args;
        affected_paths = paths;
        workspace_changed = some_paths paths;
        exit_code = none;
      } in
      let w1 = agent.record_process_note_for_tool s.world name metadata in
      (
        record {
          content = concat ("error: tool " ∷ name ∷ " failed: " ∷ exc ∷ []);
          metadata = metadata;
        },
        emit_receipt intent metadata (record s { world = w1 }),
      )

  -- The tool, then the preparation of its output.
  unfoldable pub attempt : String → Args → W → Outcome (ToolRunOutput × String) × W
  attempt name args w =
      let (ran, w1) = agent.run w name args in
      elim ran [
        | raised exc ↦ (raised exc, w1)
        | returned output ↦
            let (prepared, w2) = agent.prepare_tool_output w1 name args output.content in
            elim prepared [
              | raised exc ↦ (raised exc, w2)
              | returned content ↦ (returned (output, content), w2)
            ]
      ]

  unfoldable pub conclude :
      String
      → Args
      → Tool
      → Option String
      → W
      → Outcome (ToolRunOutput × String)
      → State W
      → ToolExecutionResult × State W
  conclude name args tool intent before (raised exc) s = fail name args tool intent before exc s
  conclude name args tool intent before (returned (output, content)) s =
      finish name args tool intent before output content s

  -- From the intent on, with the world before it.
  unfoldable pub run_from :
      String → Args → Tool → W → Option String × State W → ToolExecutionResult × State W
  run_from name args tool before (intent, s) =
      let (done, w) = attempt name args s.world in
      conclude name args tool intent before done (record s { world = w })

  unfoldable pub run_cleared :
      String → Args → Tool → Option ApprovalReceipt → State W → ToolExecutionResult × State W
  run_cleared name args tool receipt s =
      run_from name args tool s.world (if tool.risky then emit_intent name receipt s else (none, s))
