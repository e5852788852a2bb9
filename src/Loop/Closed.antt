-- ===== src/Loop/Closed.antt =====
-- What holds of a run that goes on, and of one that has ended.
use moss_code.Base.{
  eq_iff, ◌+◌, ◌≤◌, ◌≡◌, refl, String, true, false, [], ◌∷◌, arith, truthy, same, truthy-concat,
  truthy-join,
}
use moss_code.Task.{
  finish_success, stop_retry_limit, stop_model_error, stop_budget_exceeded, stop_context_overflow,
  stop_interrupted, StopReason, Status, status_text, reason_text, stop,
}
use moss_code.Task.Stops.{status_after, IsConsistent}
use moss_code.Loop.World.{Agent, State, reported, released, Bundle}
use moss_code.Loop.Finish.{
  graceful_first, graceful_rest, overflow_detail, overflow_text, model_error_text, interrupted_text,
  graceful_final, finish_budget_exceeded, finish_context_overflow, finish_model_error,
  finish_interrupted, finish_success_with,
}
use moss_code.Loop.Last.{retry_limit_text, finish_stopped, stop_at_retry_limit}
use moss_code.Loop.Run.{max_attempts, clean_up}
use moss_code.Loop.Quiet.{ends, Quiet}

same-of_eq : {s : String} → s ≡ "running" → same s "running" ≡ true
same-of_eq {s} h = (eq_iff s "running").1 h

module _ (agent : Agent) where
  open agent use {Item, max_steps}

  pub record Live (s : State agent) : Type 0 where
    pub no_end : ends s.log ≡ []
    pub is_running : s.task.status ≡ "running"
    pub counted : s.task.tool_steps ≡ s.tool_steps
    pub within : s.tool_steps ≤ max_steps
    pub turns : s.task.model_turns ≤ s.task.attempts
    pub tries : s.task.attempts ≤ s.attempts
    pub most : s.task.attempts ≤ max_attempts agent

  pub Quiet-Live : {s t : State agent} → Quiet agent s t → Live s → Live t
  Quiet-Live q h = ground arith

  -- What the ends of a run need of it.
  pub record IsOpen (s : State agent) : Type 0 where
    pub no_end : ends s.log ≡ []
    pub is_running : s.task.status ≡ "running"
    pub steps_le : s.task.tool_steps ≤ max_steps
    pub tries_le : s.task.attempts ≤ max_attempts agent
    pub turns_le : s.task.model_turns ≤ max_attempts agent + 1

  pub Live-IsOpen : {s : State agent} → Live s → IsOpen s
  Live-IsOpen h = ground arith

  pub Quiet-IsOpen : {s t : State agent} → Quiet agent s t → IsOpen s → IsOpen t
  Quiet-IsOpen q h = ground arith

  -- A run that has ended: one report, and then the lease; the state that the report tells.
  pub record IsClosed (final : String) (t : State agent) : Type 0 where
    pub one_end :
        ends t.log ≡ released ∷ reported t.task.status t.task.stop_reason t.task.final_answer ∷ []
    pub is_answer : t.task.final_answer ≡ final
    pub consistent : IsConsistent Item t.task
    pub not_running : same t.task.status "running" ≡ false
    pub steps_le : t.task.tool_steps ≤ max_steps
    pub tries_le : t.task.attempts ≤ max_attempts agent
    pub turns_le : t.task.model_turns ≤ max_attempts agent + 1

  pub finish_success-IsClosed :
      (final : String) (s : State agent)
      → IsOpen s
      → IsClosed final (finish_success_with agent final s).1
  unfolding finish_success_with finish_success status_after status_text reason_text
  finish_success-IsClosed final s h = record {
    one_end = ground arith;
    is_answer = refl;
    consistent = record {
      reason = StopReason.final_answer_returned;
      is_reason = refl;
      is_status = refl;
    };
    not_running = refl;
    steps_le = ground arith;
    tries_le = ground arith;
    turns_le = ground arith;
  }

  graceful_final-truthy :
      (s : State agent) (dimension : String) → truthy (graceful_final s.task dimension) ≡ true
  unfolding graceful_final
  graceful_final-truthy s dimension =
      truthy-join "\n" (graceful_first dimension) (graceful_rest s.task)
        (truthy-concat "Stopped: the " (dimension ∷ " budget for this run is exhausted." ∷ []) refl)

  pub finish_budget-IsClosed :
      (dimension : String) (s : State agent)
      → IsOpen s
      → IsClosed (graceful_final s.task dimension) (finish_budget_exceeded agent dimension s).1
  unfolding finish_budget_exceeded stop_budget_exceeded stop status_after status_text reason_text
  finish_budget-IsClosed dimension s h = record {
    one_end = ground arith;
    is_answer = rw (graceful_final-truthy s dimension);
    consistent = record { reason = StopReason.budget_exceeded; is_reason = refl; is_status = refl };
    not_running = refl;
    steps_le = ground arith;
    tries_le = ground arith;
    turns_le = ground arith;
  }

  overflow_text-truthy : (bundle : Bundle) → truthy (overflow_text bundle) ≡ true
  unfolding overflow_text
  overflow_text-truthy bundle =
      truthy-concat "Stopped without calling the model: " (overflow_detail bundle ∷ "." ∷ []) refl

  pub finish_overflow-IsClosed :
      (bundle : Bundle) (s : State agent)
      → IsOpen s
      → IsClosed (overflow_text bundle) (finish_context_overflow agent bundle s).1
  unfolding finish_context_overflow stop_context_overflow stop status_after status_text reason_text
  finish_overflow-IsClosed bundle s h = record {
    one_end = ground arith;
    is_answer = rw (overflow_text-truthy bundle);
    consistent = record {
      reason = StopReason.context_overflow;
      is_reason = refl;
      is_status = refl;
    };
    not_running = refl;
    steps_le = ground arith;
    tries_le = ground arith;
    turns_le = ground arith;
  }

  model_error_text-truthy : (message : String) → truthy (model_error_text message) ≡ true
  unfolding model_error_text
  model_error_text-truthy message =
      truthy-concat "Model backend error, stopped without a final answer: " (message ∷ []) refl

  pub finish_model_error-IsClosed :
      (message : String) (s : State agent)
      → IsOpen s
      → IsClosed
          (model_error_text (agent.redact_text message))
          (finish_model_error agent message s).1
  unfolding finish_model_error stop_model_error stop status_after status_text reason_text
  finish_model_error-IsClosed message s h = record {
    one_end = ground arith;
    is_answer = rw (model_error_text-truthy (agent.redact_text message));
    consistent = record { reason = StopReason.model_error; is_reason = refl; is_status = refl };
    not_running = refl;
    steps_le = ground arith;
    tries_le = ground arith;
    turns_le = ground arith;
  }

  pub finish_stopped-IsClosed :
      (final : String) (reason : StopReason) (s : State agent)
      → truthy final ≡ true
      → status_after Item reason ≡ Status.stopped
      → IsOpen s
      → IsClosed final
          (finish_stopped agent final
            (record s { task = stop Item reason Status.stopped final s.task })).1
  unfolding finish_stopped stop status_text
  finish_stopped-IsClosed final reason s filled stopping h = record {
    one_end = ground arith;
    is_answer = rw filled;
    consistent = record { reason = reason; is_reason = refl; is_status = rw stopping };
    not_running = refl;
    steps_le = ground arith;
    tries_le = ground arith;
    turns_le = ground arith;
  }

  pub stop_at_retry_limit-IsClosed :
      (s : State agent)
      → IsOpen s
      → IsClosed (stop_at_retry_limit agent s).0 (stop_at_retry_limit agent s).1
  unfolding stop_at_retry_limit stop_retry_limit finish_stopped status_after
  stop_at_retry_limit-IsClosed s h =
      finish_stopped-IsClosed (retry_limit_text agent) StopReason.retry_limit_reached s refl refl h

  interrupted_text-truthy : (reason : String) → truthy (interrupted_text reason) ≡ true
  unfolding interrupted_text
  interrupted_text-truthy reason =
      truthy-concat "Run interrupted before completion (" (reason ∷ ")." ∷ []) refl

  pub finish_interrupted-IsClosed :
      (reason : String) (s : State agent)
      → IsOpen s
      → IsClosed (interrupted_text reason) (finish_interrupted agent reason s)
  unfolding finish_interrupted stop_interrupted stop status_after status_text reason_text
  finish_interrupted-IsClosed reason s h = rw (same-of_eq h.is_running) (record {
    one_end = ground arith;
    is_answer = rw (interrupted_text-truthy reason);
    consistent = record { reason = StopReason.interrupted; is_reason = refl; is_status = refl };
    not_running = refl;
    steps_le = ground arith;
    tries_le = ground arith;
    turns_le = ground arith;
  })

  -- What `finally` does leaves the ends alone.
  pub clean_up-IsClosed :
      (final : String) (s : State agent) → IsClosed final s → IsClosed final (clean_up agent s)
  unfolding clean_up
  clean_up-IsClosed final s h = record {
    one_end = h.one_end;
    is_answer = h.is_answer;
    consistent = h.consistent;
    not_running = h.not_running;
    steps_le = h.steps_le;
    tries_le = h.tries_le;
    turns_le = h.turns_le;
  }
