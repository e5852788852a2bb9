-- ===== src/Executor/Guards.antt =====
-- The guards of `ToolExecutor.execute`, in order, with what they compute from the tool and its arguments.
use moss_code.Base.{
  String, Bool, true, false, not, ◌&&◌, Option, none, some, List, [], ◌∷◌, if◌then◌else◌, same,
  truthy, concat, join, elem, strip,
}
use moss_code.Policy.{PolicyDecision, ToolSpec, decide}
use moss_code.Shell.Risk.{denied}
use moss_code.Shell.Command.{ShellLib, classify_shell_command}
use moss_code.Executor.Texts.{shell_risk_level, path_escape, slashes, lstrip_dots}
use moss_code.Executor.Runtime.{Agent, State, Tool, ToolExecutionResult, ApprovalReceipt}

-- A refusal with its metadata, or the tool with the receipt of its approval.
pub data Guarded (W : Type 0) : Type 0 where
  refused : ToolExecutionResult → State W → Guarded W
  cleared : Tool → Option ApprovalReceipt → State W → Guarded W

unfoldable pub rejected : String → String → String → Bool → String → ToolExecutionResult
rejected error_code security_event risk reads content = record {
  content = content;
  metadata = record {
    tool_status = "rejected";
    tool_error_code = error_code;
    security_event_type = security_event;
    risk_level = risk;
    read_only = reads;
    affected_paths = [];
    workspace_changed = false;
    exit_code = none;
  };
}

-- `allowed_tools is None or name in allowed_tools`
abbrev pub is_allowed : Option (List String) → String → Bool
is_allowed none name = true
is_allowed (some names) name = elem name names

module _ (W Args : Type 0) (fnmatch : String → String → Bool) (lib : ShellLib)
    (agent : Agent W Args) where
  open agent use {arg_text, tools}

  abbrev is_shell : String → Bool
  is_shell name = same name "run_shell"

  unfoldable pub risk_level_for : Tool → String → Args → String
  unfolding classify_shell_command shell_risk_level
  risk_level_for tool name args =
      if is_shell name
      then shell_risk_level (classify_shell_command lib (arg_text "command" args)).level
      else if tool.risky
      then "high"
      else "low"

  unfoldable pub read_only_for : Tool → String → Args → Bool
  read_only_for tool name args = if is_shell name then false else not tool.risky

  unfoldable pub resolved_relative_paths : W → Args → ToolSpec → List String
  unfolding strip
  resolved_relative_paths w args spec =
      let raw = strip (arg_text "path" args) in
      let resolved = if agent.in_run_dir spec then agent.run_path w raw else agent.path w raw in
      if not (truthy raw)
      then []
      else elim resolved [ none ↦ lstrip_dots (slashes raw) ∷ [] | some p ↦ p ∷ [] ]

  -- `none` where there is no policy or no spec.
  unfoldable pub policy_decision : W → Tool → Args → Option PolicyDecision
  policy_decision w tool args = elim agent.policy [
    | none ↦ none
    | some policy ↦ elim tool.spec [
      | none ↦ none
      | some spec ↦ some (decide fnmatch policy spec (resolved_relative_paths w args spec))
    ]
  ]

  abbrev default_reason : String → String
  default_reason reason = if truthy reason then reason else "command is on the deny list"

  unfoldable pub denied_shell_reason : String → Args → String
  denied_shell_reason name args =
      let risk = classify_shell_command lib (arg_text "command" args) in
      if is_shell name
      then elim risk.level [ denied ↦ default_reason (join "; " risk.reasons) | _ ↦ "" ]
      else ""

  unfoldable pub build_receipt : W → String → Args → Option ApprovalReceipt
  unfolding strip
  build_receipt w name args =
      let raw = strip (arg_text "path" args) in
      if elem name ("write_file" ∷ "edit_file" ∷ []) && truthy raw
      then elim (agent.path w raw) [
        | none ↦ none
        | some p ↦ some record {
          tool = name;
          expected_sha256 = (p, agent.file_sha256 w p) ∷ [];
          diff_digest = agent.sha256 (agent.file_change_preview w name args);
        }
      ]
      else none

  abbrev pub same_sha : Option String → Option String → Bool
  same_sha none none = true
  same_sha none (some b) = false
  same_sha (some a) none = false
  same_sha (some a) (some b) = same a b

  unfoldable pub stale_paths : W → List (String × Option String) → String
  stale_paths w [] = ""
  stale_paths w ((p, expected) ∷ rest) =
      let later = stale_paths w rest in
      if agent.is_symlink w p
      then concat (p ∷ " is now a symlink" ∷ [])
      else if not (same_sha (agent.file_sha256 w p) expected)
      then concat (p ∷ " changed on disk" ∷ [])
      else later

  unfoldable pub stale_preconditions : W → Option ApprovalReceipt → String
  stale_preconditions w none = ""
  stale_preconditions w (some r) = stale_paths w r.expected_sha256

  -- The guards that ask no one: the refusal of the first that fails.
  unfoldable pub check_call : W → Tool → String → Args → Option ToolExecutionResult
  unfolding rejected
  check_call w tool name args =
      let risk = risk_level_for tool name args in
      let reads = read_only_for tool name args in
      let denied_reason = denied_shell_reason name args in
      let repeated =
        if agent.repeated_tool_call w name args
        then some (
            rejected "repeated_identical_call" "" risk reads (
              concat (
                "error: repeated identical tool call for " ∷ name
                ∷ "; choose a different tool or return a final answer" ∷ [])))
        else none in
      let shell =
        if truthy denied_reason
        then some (
            rejected "command_denied" "denied_command" "high" false
              (concat ("error: refused to run " ∷ name ∷ ": " ∷ denied_reason ∷ [])))
        else repeated in
      let policy : Option ToolExecutionResult = elim (policy_decision w tool args) [
        | none ↦ shell
        | some decision ↦
            if decision.allowed
            then shell
            else some (
                rejected "capability_denied" "capability_denied" risk reads
                  (concat ("error: policy refused " ∷ name ∷ ": " ∷ decision.reason ∷ [])))
      ] in
      elim (agent.validate_tool w name args) [
        | none ↦ policy
        | some exc ↦ some (
            rejected "invalid_arguments" (path_escape exc) risk reads (
              concat
                ("error: invalid arguments for " ∷ name ∷ ": " ∷ exc ∷ example_text name ∷ [])))
      ]
    where
      example_text : String → String
      example_text n =
          if truthy (agent.tool_example n)
          then concat ("\nexample: " ∷ agent.tool_example n ∷ [])
          else ""

  abbrev or_exit_code : String → String
  or_exit_code reason = if truthy reason then reason else "exit code 2"

  -- The hook, the approval and the check of the receipt.
  unfoldable pub ask : Tool → String → Args → State W → Guarded W
  unfolding rejected
  ask tool name args s =
      let risk = risk_level_for tool name args in
      let reads = read_only_for tool name args in
      let (hook, w1) = agent.fire_pre_tool s.world name args in
      let receipt = if tool.risky then build_receipt w1 name args else none in
      let (approved, w2) = if tool.risky then agent.approve w1 name args else (true, w1) in
      let stale = stale_preconditions w2 receipt in
      elim hook [
        | some reason ↦
            refused
              (rejected "hook_denied" "hook_denied" risk reads (
                concat (
                  "error: "
                  ∷ name
                  ∷ " was denied by the pre_tool hook: "
                  ∷ or_exit_code reason
                  ∷ [])))
              (record s { world = w1 })
        | none ↦
            if not approved
            then refused
                (rejected "approval_denied"
                  (if agent.read_only then "read_only_block" else "approval_denied") risk reads
                  (concat ("error: approval denied for " ∷ name ∷ [])))
                (record s { world = w2 })
            else if truthy stale
            then refused
                (rejected "precondition_failed" "precondition_failed" risk reads (
                  concat (
                    "error: " ∷ name ∷ " preconditions changed after approval: " ∷ stale
                    ∷ "; re-request approval" ∷ [])))
                (record s { world = w2 })
            else cleared tool receipt (record s { world = w2 })
      ]

  unfoldable pub guards : String → Args → State W → Guarded W
  unfolding rejected
  guards name args s =
      if not (is_allowed (agent.effective_allowed_tools s.world) name)
      then refused
          (rejected "tool_not_allowed" "" "high" false
            (concat ("error: tool '" ∷ name ∷ "' is not allowed in this run" ∷ [])))
          s
      else elim (tools name) [
        | none ↦
            refused
              (rejected "unknown_tool" "" "high" false
                (concat ("error: unknown tool '" ∷ name ∷ "'" ∷ [])))
              s
        | some tool ↦ elim (check_call s.world tool name args) [
          | some result ↦ refused result s
          | none ↦ ask tool name args s
        ]
      ]
