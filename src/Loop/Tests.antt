-- ===== src/Loop/Tests.antt =====
-- A run of two rounds, and the theorems of this folder at it. The world counts the calls of the model; the
-- first call asks for two tools out of order, the second one answers.
use moss_code.Base.{
  ℕ, suc, ◌+◌, ◌≡◌, refl, String, Bool, true, false, none, List, [], ◌∷◌, ◌++◌, leb, ◌==◌, same,
  if◌then◌else◌, drop, ◌-◌, map,
}
use mathlib.Core.List.{Perm}
use moss_code.Budget.{Floats, RunBudget, first_hard, pairs, at_hard, first_soft, at_soft}
use moss_code.Task.{
  record_model_turn, record_attempt, record_tool, record_tool_call, finish_success,
}
use moss_code.Loop.Notices.{record_notices}
use moss_code.Executor.Runtime.{ToolExecutionResult}
use moss_code.Parser.{Action, tool, final}
use moss_code.Loop.World.{Agent, State, Bundle, done, answered}
use moss_code.Loop.Batch.{settle, admitted, execute_tool_batch, sort_by_index}
use moss_code.Loop.Run.{run, begin_run, Ending, answer}
use moss_code.Loop.Quiet.{tool_entries}
use moss_code.Loop.Steps.{Batched, Short}
use moss_code.Loop.Exits.{Finishes, run-Finishes}
use moss_code.Loop.Order.{IsSorted, execute_tool_batch_order}

same_law : (used limit : ℕ) → (limit == 0) ≡ false → leb limit used ≡ true → leb limit used ≡ true
same_law used limit z h = h

same_int_law : (used limit : ℕ) → leb limit used ≡ true → leb limit used ≡ true
same_int_law used limit h = h

abbrev whole : Floats
whole = record {
  F = ℕ;
  zero = 0;
  plus = λ a b. a + b;
  ge = λ a b. leb b a;
  is_zero = λ a. a == 0;
  soft = λ a. a;
  soft_of_int = λ n. n;
  int_ge = λ n a. leb a n;
  soft_below = same_law;
  soft_of_int_below = same_int_law;
}

abbrev no_limits : RunBudget whole
no_limits = record {
  max_steps = 0;
  max_input_tokens = none;
  max_output_tokens = none;
  max_wall_clock_s = none;
  max_usd = none;
  steps = 0;
  input_tokens = 0;
  output_tokens = 0;
  elapsed_s = 0;
  usd = none;
  usage_estimated = false;
  soft_reported = [];
}

abbrev plain : String → Bundle
plain text = record {
  text = text;
  sendable = true;
  overflow_reason = "";
  overflow_detail = "";
  resume_status = "";
  has_reductions = false;
  reduces_history = false;
  is_crowded = false;
  native = false;
}

abbrev call : ℕ → String → Action String
call index name = record {
  kind = tool;
  index = index;
  name = name;
  args = "a.py";
  text = "";
  call_id = "";
}

abbrev say : String → Action String
say text = record { kind = final; index = 0; name = ""; args = ""; text = text; call_id = "" }

abbrev two_calls : List (Action String)
two_calls = call 1 "grep" ∷ call 0 "read_file" ∷ []

abbrev parse : Bool → String → List (Action String)
parse native raw = if same raw "tools" then two_calls else say raw ∷ []

abbrev result_of : String → ToolExecutionResult
result_of content = record {
  content = content;
  metadata = record {
    tool_status = "ok";
    tool_error_code = "";
    security_event_type = "";
    risk_level = "low";
    read_only = true;
    affected_paths = [];
    workspace_changed = false;
    exit_code = none;
  };
}

abbrev sample : Agent
sample = record {
  W = ℕ;
  Args = String;
  Item = ℕ;
  Raw = String;
  fl = whole;
  max_steps = 3;
  compaction_off = true;
  parallel_tools = false;
  verify_before_final = true;
  has_shell = true;
  four_fifths = λ n. n;
  new_run_budget = no_limits;
  apply = λ e w. w;
  new_run_id = λ w. "run";
  new_task_id = λ w. "task";
  now = λ w. "now";
  resume_status = λ w. "none";
  new_checkpoint_id = λ w. "ckpt";
  elapsed = λ w. 0;
  build_context_result = λ message w. (plain message, w);
  compact_context = λ trigger w. (false, w);
  offload_request = λ message w. (none, w);
  complete = λ bundle tools w.
      (done (answered (if w == 0 then "tools" else "It works.") none none), suc w);
  probe = λ w. (false, w);
  raw_text = λ raw. raw;
  raw_str = λ raw. raw;
  redact_text = λ text. text;
  parse_model_actions = parse;
  estimate_tokens = λ text. 1;
  price_for_usage = λ i o. none;
  is_read_only_tool = λ name. true;
  execute_tool = λ deferred a w. (done (result_of a.name), w);
  arg_path = λ args. args;
  note_anchor_outcome = λ path w. (false, w);
  drain_instruction_notices = λ w. ([], w);
  stall_events = λ w. [];
  detect_stall = λ w. none;
  stall_notice = λ signal. "";
  check_plan_pressure = λ w. none;
}

abbrev answer_of : Ending (State sample) → String × List String × ℕ
answer_of (answer text t) = (text, map (λ e. e.name) (tool_entries t.log), t.task.model_turns)
answer_of _ = ("", [], 0)

sample_run : answer_of (run sample "Check it." 0 [] 0) ≡ ("It works.", "grep" ∷ "read_file" ∷ [], 2)
unfolding run first_hard pairs at_hard first_soft at_soft settle record_notices record_model_turn
    record_attempt record_tool record_tool_call finish_success
sample_run = refl

run-Finishes_example : Finishes sample (run sample "Check it." 0 [] 0)
run-Finishes_example = run-Finishes sample "Check it." 0 [] 0

abbrev begun : State sample
unfolding begin_run
begun = begin_run sample "Check it." 0 [] 0

execute_tool_batch_order_example :
    let batch = admitted sample two_calls begun.tool_steps in
    let rest = drop (3 - begun.tool_steps) (sort_by_index two_calls) in
    Perm (batch ++ rest) two_calls
    × IsSorted (batch ++ rest)
    × Batched sample batch begun (execute_tool_batch sample two_calls begun)
    × Short sample (3 - begun.tool_steps) (execute_tool_batch sample two_calls begun)
execute_tool_batch_order_example = execute_tool_batch_order sample two_calls begun
