-- ===== src/Task.antt =====
-- moss/agent/state.py: the state of one run, its operations, and its form as a dict.
-- The items of a plan are a parameter, and so are Python's conversions of a JSON value.
pub mod Stops
pub mod Form
mod Tests
use moss_code.Base.{
  ℕ, ◌+◌, ◌≡◌, String, Bool, true, false, Option, none, some, List, [], ◌∷◌, if◌then◌else◌, same,
  truthy, Dict, lookup, ◌>>=◌,
}

pub data Status : Type 0 where
  running completed stopped failed : Status

pub data StopReason : Type 0 where
  no_reason final_answer_returned step_limit_reached retry_limit_reached model_error : StopReason
  tool_timeout approval_denied delegate_failed persistence_error resume_load_error : StopReason
  interrupted budget_exceeded context_overflow : StopReason

unfoldable pub status_text : Status → String
status_text running = "running"
status_text completed = "completed"
status_text stopped = "stopped"
status_text failed = "failed"

unfoldable pub reason_text : StopReason → String
reason_text no_reason = ""
reason_text final_answer_returned = "final_answer_returned"
reason_text step_limit_reached = "step_limit_reached"
reason_text retry_limit_reached = "retry_limit_reached"
reason_text model_error = "model_error"
reason_text tool_timeout = "tool_timeout"
reason_text approval_denied = "approval_denied"
reason_text delegate_failed = "delegate_failed"
reason_text persistence_error = "persistence_error"
reason_text resume_load_error = "resume_load_error"
reason_text interrupted = "interrupted"
reason_text budget_exceeded = "budget_exceeded"
reason_text context_overflow = "context_overflow"

module _ (Item : Type 0) where
  -- `status` and `stop_reason` are texts, since a file may hold any.
  pub record TaskState : Type 0 where
    pub run_id : String
    pub task_id : String
    pub user_request : String
    pub status : String
    pub tool_steps : ℕ
    pub attempts : ℕ
    pub last_tool : String
    pub stop_reason : String
    pub final_answer : String
    pub checkpoint_id : String
    pub resume_status : String
    pub started_at : String
    pub model_turns : ℕ
    pub tool_calls : ℕ
    pub verification_requested : Bool
    pub plan : Option (List Item)

  -- `create` with its run id given, at the time `now`.
  unfoldable pub create : String → String → String → String → TaskState
  unfolding status_text reason_text
  create task_id user_request run_id now = record {
    run_id = run_id;
    task_id = task_id;
    user_request = user_request;
    status = status_text running;
    tool_steps = 0;
    attempts = 0;
    last_tool = "";
    stop_reason = reason_text no_reason;
    final_answer = "";
    checkpoint_id = "";
    resume_status = "";
    started_at = now;
    model_turns = 0;
    tool_calls = 0;
    verification_requested = false;
    plan = none;
  }

  unfoldable pub record_attempt : TaskState → TaskState
  record_attempt s = record s { attempts = s.attempts + 1 }

  unfoldable pub record_model_turn : TaskState → TaskState
  record_model_turn s = record s { model_turns = s.model_turns + 1 }

  unfoldable pub record_tool_call : String → TaskState → TaskState
  record_tool_call name s = record s { tool_calls = s.tool_calls + 1; last_tool = name }

  unfoldable pub record_tool : String → TaskState → TaskState
  record_tool name s = record s { tool_steps = s.tool_steps + 1; last_tool = name }

  unfoldable pub stop : StopReason → Status → String → TaskState → TaskState
  stop reason status answer s = record s {
    status = status_text status;
    stop_reason = reason_text reason;
    final_answer = if truthy answer then answer else s.final_answer;
  }

  unfoldable pub stop_step_limit : String → TaskState → TaskState
  stop_step_limit answer s = stop step_limit_reached stopped answer s

  unfoldable pub stop_retry_limit : String → TaskState → TaskState
  stop_retry_limit answer s = stop retry_limit_reached stopped answer s

  unfoldable pub stop_model_error : String → TaskState → TaskState
  stop_model_error answer s = stop model_error failed answer s

  unfoldable pub stop_budget_exceeded : String → TaskState → TaskState
  stop_budget_exceeded answer s = stop budget_exceeded stopped answer s

  unfoldable pub stop_context_overflow : String → TaskState → TaskState
  stop_context_overflow answer s = stop context_overflow failed answer s

  unfoldable pub stop_interrupted : String → TaskState → TaskState
  stop_interrupted answer s = stop interrupted failed answer s

  unfoldable pub finish_success : String → TaskState → TaskState
  unfolding status_text reason_text
  finish_success answer s = record s {
    status = status_text completed;
    stop_reason = reason_text final_answer_returned;
    final_answer = answer;
  }

  -- A value of the dict.
  pub data Value : Type 0 where
    text : String → Value
    number : ℕ → Value
    flag : Bool → Value
    items : List Item → Value

  abbrev plan_items : Option (List Item) → List Item
  plan_items none = []
  plan_items (some xs) = xs

  unfoldable pub to_dict : TaskState → Dict Value
  to_dict s =
      ("run_id", text s.run_id)
      ∷ ("task_id", text s.task_id)
      ∷ ("user_request", text s.user_request)
      ∷ ("status", text s.status)
      ∷ ("tool_steps", number s.tool_steps)
      ∷ ("attempts", number s.attempts)
      ∷ ("last_tool", text s.last_tool)
      ∷ ("stop_reason", text s.stop_reason)
      ∷ ("final_answer", text s.final_answer)
      ∷ ("checkpoint_id", text s.checkpoint_id)
      ∷ ("resume_status", text s.resume_status)
      ∷ ("started_at", text s.started_at)
      ∷ ("model_turns", number s.model_turns)
      ∷ ("tool_calls", number s.tool_calls)
      ∷ ("verification_requested", flag s.verification_requested)
      ∷ ("plan", items (plan_items s.plan))
      ∷ []

  -- Python's `str`, `int`, `bool` and `list` of a JSON value: `int` and `list` may raise, and each returns
  -- a value of its own kind as it is.
  pub record Convert : Type 0 where
    pub str : Value → String
    pub int : Value → Option ℕ
    pub bool : Value → Bool
    pub list : Value → Option (List Item)
    pub str-text : (s : String) → str (text s) ≡ s
    pub int-number : (n : ℕ) → int (number n) ≡ some n
    pub bool-flag : (b : Bool) → bool (flag b) ≡ b
    pub list-items : (xs : List Item) → list (items xs) ≡ some xs

  abbrev pub get : Dict Value → String → Value → Value
  unfolding lookup
  get d key default = elim (lookup key d) [ none ↦ default | some v ↦ v ]

  -- `none` when a conversion raises.
  unfoldable pub from_dict : Convert → Dict Value → Option (TaskState)
  from_dict c d = do
    tool_steps ← c.int (get d "tool_steps" (number 0))
    attempts ← c.int (get d "attempts" (number 0))
    model_turns ← c.int (get d "model_turns" (number 0))
    tool_calls ← c.int (get d "tool_calls" (number 0))
    plan ← c.list (get d "plan" (items []))
    some record {
      run_id = c.str (get d "run_id" (text ""));
      task_id = c.str (get d "task_id" (text ""));
      user_request = c.str (get d "user_request" (text ""));
      status = c.str (get d "status" (text "running"));
      tool_steps = tool_steps;
      attempts = attempts;
      last_tool = c.str (get d "last_tool" (text ""));
      stop_reason = c.str (get d "stop_reason" (text ""));
      final_answer = c.str (get d "final_answer" (text ""));
      checkpoint_id = c.str (get d "checkpoint_id" (text ""));
      resume_status = c.str (get d "resume_status" (text ""));
      started_at = c.str (get d "started_at" (text ""));
      model_turns = model_turns;
      tool_calls = tool_calls;
      verification_requested = c.bool (get d "verification_requested" (flag false));
      plan = some plan;
    }
