-- ===== src/Task/Stops.antt =====
-- How the operations keep the status and the stop reason together.
use moss_code.Base.{◌≡◌, refl, String}
use moss_code.Task.{
  Status, running, completed, stopped, failed, StopReason, no_reason, final_answer_returned,
  step_limit_reached, retry_limit_reached, model_error, budget_exceeded, context_overflow,
  interrupted, status_text, reason_text, TaskState, create, record_attempt, record_model_turn,
  record_tool_call, record_tool, stop, stop_step_limit, stop_retry_limit, stop_model_error,
  stop_budget_exceeded, stop_context_overflow, stop_interrupted, finish_success,
}

module _ (Item : Type 0) where
  -- One operation of the run on its state.
  pub data Step : TaskState Item → TaskState Item → Type 0 where
    attempt : {s : TaskState Item} → Step s (record_attempt Item s)
    model_turn : {s : TaskState Item} → Step s (record_model_turn Item s)
    tool_call : {s : TaskState Item} (name : String) → Step s (record_tool_call Item name s)
    tool : {s : TaskState Item} (name : String) → Step s (record_tool Item name s)
    step_limit : {s : TaskState Item} (a : String) → Step s (stop_step_limit Item a s)
    retry_limit : {s : TaskState Item} (a : String) → Step s (stop_retry_limit Item a s)
    error : {s : TaskState Item} (a : String) → Step s (stop_model_error Item a s)
    budget : {s : TaskState Item} (a : String) → Step s (stop_budget_exceeded Item a s)
    overflow : {s : TaskState Item} (a : String) → Step s (stop_context_overflow Item a s)
    interrupt : {s : TaskState Item} (a : String) → Step s (stop_interrupted Item a s)
    finish : {s : TaskState Item} (a : String) → Step s (finish_success Item a s)

  pub data Steps : TaskState Item → TaskState Item → Type 0 where
    done : {s : TaskState Item} → Steps s s
    more : {s t u : TaskState Item} → Steps s t → Step t u → Steps s u

  -- The reasons that stop a run, and the status that each leaves.
  unfoldable pub status_after : StopReason → Status
  status_after no_reason = running
  status_after final_answer_returned = completed
  status_after model_error = failed
  status_after context_overflow = failed
  status_after interrupted = failed
  status_after _ = stopped

  pub record IsConsistent (s : TaskState Item) : Type 0 where
    pub reason : StopReason
    pub is_reason : s.stop_reason ≡ reason_text reason
    pub is_status : s.status ≡ status_text (status_after reason)

  Step-IsConsistent : (s t : TaskState Item) → Step s t → IsConsistent s → IsConsistent t
  unfolding record_attempt record_model_turn record_tool_call record_tool stop stop_step_limit
      stop_retry_limit stop_model_error stop_budget_exceeded stop_context_overflow stop_interrupted
      finish_success status_after
  Step-IsConsistent s _ attempt h = record {
    reason = h.reason;
    is_reason = h.is_reason;
    is_status = h.is_status;
  }
  Step-IsConsistent s _ model_turn h = record {
    reason = h.reason;
    is_reason = h.is_reason;
    is_status = h.is_status;
  }
  Step-IsConsistent s _ (tool_call name) h = record {
    reason = h.reason;
    is_reason = h.is_reason;
    is_status = h.is_status;
  }
  Step-IsConsistent s _ (tool name) h = record {
    reason = h.reason;
    is_reason = h.is_reason;
    is_status = h.is_status;
  }
  Step-IsConsistent s _ (step_limit answer) h = record {
    reason = step_limit_reached;
    is_reason = refl;
    is_status = refl;
  }
  Step-IsConsistent s _ (retry_limit answer) h = record {
    reason = retry_limit_reached;
    is_reason = refl;
    is_status = refl;
  }
  Step-IsConsistent s _ (error answer) h = record {
    reason = model_error;
    is_reason = refl;
    is_status = refl;
  }
  Step-IsConsistent s _ (budget answer) h = record {
    reason = budget_exceeded;
    is_reason = refl;
    is_status = refl;
  }
  Step-IsConsistent s _ (overflow answer) h = record {
    reason = context_overflow;
    is_reason = refl;
    is_status = refl;
  }
  Step-IsConsistent s _ (interrupt answer) h = record {
    reason = interrupted;
    is_reason = refl;
    is_status = refl;
  }
  Step-IsConsistent s _ (finish answer) h = record {
    reason = final_answer_returned;
    is_reason = refl;
    is_status = refl;
  }

  -- Whatever sequence of operations a run makes from its creation, the status is the one of the stop
  -- reason: running without one, completed with a final answer, failed with a model error, an overflow or
  -- an interrupt, and stopped with any other.
  pub Steps-IsConsistent :
      (task_id request run_id now : String) (s : TaskState Item)
      → Steps (create Item task_id request run_id now) s
      → IsConsistent s
  unfolding create status_after
  Steps-IsConsistent task_id request run_id now _ done = record {
    reason = no_reason;
    is_reason = refl;
    is_status = refl;
  }
  Steps-IsConsistent task_id request run_id now s (more steps step) =
      Step-IsConsistent _ s step (Steps-IsConsistent task_id request run_id now _ steps)
