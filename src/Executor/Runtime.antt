-- ===== src/Executor/Runtime.antt =====
-- What `ToolExecutor` uses of the agent, and the records of moss/execution/executor.py.
-- The world is everything outside: the files, the session and the user.
use moss_code.Base.{ℕ, String, Bool, Option, List, Dict}
use moss_code.Policy.{Policy, ToolSpec}

-- An exit code.
pub data ℤ : Type 0 where
  pos : ℕ → ℤ
  negsuc : ℕ → ℤ

pub record Tool : Type 0 where
  pub risky : Bool
  pub spec : Option ToolSpec

pub record ToolRunOutput : Type 0 where
  pub content : String
  pub exit_code : Option ℤ

-- A call that may raise, with the text of its exception.
pub data Outcome {ℓ} (A : Type ℓ) : Type ℓ where
  returned : A → Outcome A
  raised : String → Outcome A

pub record Metadata : Type 0 where
  pub tool_status : String
  pub tool_error_code : String
  pub security_event_type : String
  pub risk_level : String
  pub read_only : Bool
  pub affected_paths : List String
  pub workspace_changed : Bool
  pub exit_code : Option ℤ

pub record ToolExecutionResult : Type 0 where
  pub content : String
  pub metadata : Metadata

-- `expected_sha256` holds `none` for a file that was not there.
pub record ApprovalReceipt : Type 0 where
  pub tool : String
  pub expected_sha256 : Dict (Option String)
  pub diff_digest : String

-- The entries of the ledger in the trace: an intent, and a receipt with its status and paths. The other events
-- of the trace, the hooks' among them, are part of the world.
pub data Entry : Type 0 where
  action_intent : String → String → Entry
  action_receipt : String → String → List String → Entry

module _ (W : Type 0) where
  pub record State : Type 0 where
    pub world : W
    pub trace : List Entry
    pub last_action_receipt_id : String

  module _ (Args : Type 0) where
    pub record Agent : Type 0 where
      pub read_only : Bool
      pub policy : Option Policy
      -- Whether `current_task_state` is set.
      pub has_task : Bool
      pub effective_allowed_tools : W → Option (List String)
      pub tools : String → Option Tool
      -- The exception of `validate_tool`, if it raises.
      pub validate_tool : W → String → Args → Option String
      pub tool_example : String → String
      -- The text of an argument: `str((args or {}).get(key, ""))`.
      pub arg_text : String → Args → String
      -- The path below the root that `agent.path` resolves to; `none` when it raises.
      pub path : W → String → Option String
      -- The same for `run_path`, if that is the tool's scope.
      pub run_path : W → String → Option String
      pub in_run_dir : ToolSpec → Bool
      pub repeated_tool_call : W → String → Args → Bool
      -- The reason of a denial by the `pre_tool` hook.
      pub fire_pre_tool : W → String → Args → Option String × W
      pub approve : W → String → Args → Bool × W
      pub file_sha256 : W → String → Option String
      pub is_symlink : W → String → Bool
      pub file_change_preview : W → String → Args → String
      pub sha256 : String → String
      -- `tool["run"](args)`, with what it did to the world even where it raises.
      pub run : W → String → Args → Outcome ToolRunOutput × W
      -- `prepare_tool_output`, to the content for the prompt.
      pub prepare_tool_output : W → String → Args → String → Outcome String × W
      -- The paths that differ between two snapshots of the workspace.
      pub changed_paths : W → W → List String
      -- `re.search(r"exit_code:\s*(-?\d+)", content)`
      pub exit_code_in : String → Option ℤ
      -- The pattern that `_scan_result_for_injection` finds.
      pub scan : String → Args → String → Option String
      pub flag_injection_suspected : W → String → W
      pub update_memory_after_tool : W → String → Args → String → W
      pub note_nearby_instructions : W → String → W
      pub record_process_note_for_tool : W → String → Metadata → W
      pub fire_post_tool : W → String → Args → String → List String → W
      pub new_action_id : W → String
      -- The undo record of an intent, `none` where writing it raises; and its completion.
      pub capture_undo : W → String → ApprovalReceipt → Option W
      pub update_undo : W → String → List String → Option W
