-- ===== src/Executor/Tests.antt =====
-- A run of one risky tool, and the theorems of this folder at it. The world counts what the tool did.
use moss_code.Base.{
  ℕ, suc, ◌≡◌, refl, String, Bool, true, false, Option, none, some, [], ◌∷◌, ◌++◌, ◌==◌, same,
  if◌then◌else◌,
}
use moss_code.Shell.Command.{ShellLib}
use moss_code.Shell.Split.{tokens}
use moss_code.Executor.Runtime.{
  Agent, State, Tool, ToolExecutionResult, returned, ToolRunOutput, action_intent,
}
use moss_code.Executor.Guards.{guards}
use moss_code.Executor.Run.{run_cleared}
use moss_code.Executor.Refuse.{Verdict, guards-Verdict}
use moss_code.Executor.Receipts.{receipt_of_result, run_cleared-receipt}

abbrev no_match : String → String → Bool
no_match path pattern = false

abbrev sample_lib : ShellLib
sample_lib = record { lower = λ s. s; lex = λ line. tokens (line ∷ []) }

abbrev writer : Tool
writer = record { risky = true; spec = none }

abbrev find_tool : String → Option Tool
find_tool name = if same name "write_file" then some writer else none

abbrev output_of : String → ToolRunOutput
output_of args = record { content = "wrote"; exit_code = none }

abbrev sample : Agent ℕ String
sample = record {
  read_only = false;
  policy = none;
  has_task = true;
  effective_allowed_tools = λ w. none;
  tools = find_tool;
  validate_tool = λ w name args. none;
  tool_example = λ name. "";
  arg_text = λ key args. args;
  path = λ w raw. some raw;
  run_path = λ w raw. some raw;
  in_run_dir = λ spec. false;
  repeated_tool_call = λ w name args. false;
  fire_pre_tool = λ w name args. (none, w);
  approve = λ w name args. (true, w);
  file_sha256 = λ w p. none;
  is_symlink = λ w p. false;
  file_change_preview = λ w name args. "";
  sha256 = λ s. s;
  run = λ w name args. (returned (output_of args), suc w);
  prepare_tool_output = λ w name args content. (returned content, w);
  changed_paths = λ before after. if before == after then [] else "a.py" ∷ [];
  exit_code_in = λ content. none;
  scan = λ name args content. none;
  flag_injection_suspected = λ w pattern. w;
  update_memory_after_tool = λ w name args content. w;
  note_nearby_instructions = λ w path. w;
  record_process_note_for_tool = λ w name metadata. w;
  fire_post_tool = λ w name args status paths. w;
  new_action_id = λ w. "act_1";
  capture_undo = λ w id receipt. some w;
  update_undo = λ w id paths. some w;
}

abbrev start : State ℕ
start = record { world = 0; trace = []; last_action_receipt_id = "" }

guards-Verdict_example :
    Verdict ℕ String no_match sample_lib sample "write_file" "a.py" start
      (guards ℕ String no_match sample_lib sample "write_file" "a.py" start)
guards-Verdict_example =
    guards-Verdict ℕ String no_match sample_lib sample "write_file" "a.py" start

run_cleared-receipt_example :
    let r : ToolExecutionResult × State ℕ =
      run_cleared ℕ String no_match sample_lib sample "write_file" "a.py" writer none start in
    r.1.trace
    ≡ []
      ++ (action_intent "act_1" "write_file"
          ∷ receipt_of_result ℕ String no_match sample_lib sample "act_1" r.0
          ∷ [])
run_cleared-receipt_example =
    run_cleared-receipt ℕ String no_match sample_lib sample "write_file" "a.py" writer none start 0
      refl refl refl
