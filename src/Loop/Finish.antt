-- ===== src/Loop/Finish.antt =====
-- The ways in which a run of the loop ends, and `graceful_final` of moss/agent/budget.py.
use moss_code.Base.{String, List, [], ◌∷◌, ◌++◌, if◌then◌else◌, concat, join, truthy, decimal, same}
use moss_code.Task.{
  TaskState, stop_model_error, stop_budget_exceeded, stop_context_overflow, stop_interrupted,
  finish_success,
}
use moss_code.Loop.World.{
  Agent, State, called, traced, progressed, reported, released, promoted, hooked, Bundle, act, note,
  write_task_state, trace_checkpoint, write_checkpoint,
}

abbrev pub graceful_first : String → String
graceful_first dimension =
    concat ("Stopped: the " ∷ dimension ∷ " budget for this run is exhausted." ∷ [])

abbrev pub graceful_rest : {Item : Type 0} → TaskState Item → List String
unfolding decimal
graceful_rest task =
    concat (
      "Completed: "
      ∷ decimal task.tool_steps
      ∷ " tool step(s) across "
      ∷ decimal task.model_turns
      ∷ " model turn(s)."
      ∷ [])
    ∷ ((if truthy task.last_tool
          then concat ("Last action: " ∷ task.last_tool ∷ "." ∷ []) ∷ []
          else [])
        ++ ("Suggested next step: rerun with a larger budget, or narrow the request." ∷ []))

unfoldable pub graceful_final : {Item : Type 0} → TaskState Item → String → String
graceful_final task dimension = join "\n" (graceful_first dimension ∷ graceful_rest task)

abbrev pub overflow_detail : Bundle → String
overflow_detail bundle =
    if truthy bundle.overflow_detail
    then bundle.overflow_detail
    else if truthy bundle.overflow_reason
    then bundle.overflow_reason
    else "prompt_too_large"

unfoldable pub overflow_text : Bundle → String
overflow_text bundle =
    concat ("Stopped without calling the model: " ∷ overflow_detail bundle ∷ "." ∷ [])

unfoldable pub model_error_text : String → String
model_error_text message =
    concat ("Model backend error, stopped without a final answer: " ∷ message ∷ [])

unfoldable pub interrupted_text : String → String
interrupted_text reason = concat ("Run interrupted before completion (" ∷ reason ∷ ")." ∷ [])

module _ (agent : Agent) where
  open agent use {W, Args, Item, Raw, fl, max_steps}

  -- The end that all ways share: the last trace event, the report, and the lease.
  unfoldable pub close : State agent → State agent
  unfolding act
  close s = act agent released (
      act agent (called "stop_heartbeat") (
        act agent (reported s.task.status s.task.stop_reason s.task.final_answer)
          (act agent (traced "run_finished") s)))

  unfoldable pub finish_budget_exceeded : String → State agent → String × State agent
  unfolding act note write_task_state trace_checkpoint close graceful_final
  finish_budget_exceeded dimension s =
      let final = graceful_final s.task dimension in
      let s1 = act agent (traced "budget_exceeded") s in
      let s2 =
        note agent "assistant" final
          (record s1 { task = stop_budget_exceeded Item final s1.task }) in
      (
        final,
        close (
            trace_checkpoint agent "budget_exceeded"
              (write_task_state agent (act agent (promoted final) s2))),
      )

  unfoldable pub finish_context_overflow : Bundle → State agent → String × State agent
  unfolding act note write_task_state write_checkpoint close overflow_text
  finish_context_overflow bundle s =
      let final = overflow_text bundle in
      let s1 = act agent (traced "context_overflow") (act agent (progressed "error") s) in
      let s2 =
        note agent "assistant" final
          (record s1 { task = stop_context_overflow Item final s1.task }) in
      (final, close (write_checkpoint agent "context_overflow" (write_task_state agent s2)))

  unfoldable pub finish_model_error : String → State agent → String × State agent
  unfolding act note write_task_state trace_checkpoint close model_error_text
  finish_model_error message s =
      let final = model_error_text (agent.redact_text message) in
      let s1 = act agent (traced "model_error") (act agent (progressed "error") s) in
      let s2 =
        note agent "assistant" final (record s1 { task = stop_model_error Item final s1.task }) in
      (final, close (trace_checkpoint agent "model_error" (write_task_state agent s2)))

  -- A run that is not running any more is left alone.
  unfoldable pub finish_interrupted : String → State agent → State agent
  unfolding act write_task_state trace_checkpoint close interrupted_text
  finish_interrupted reason s =
      let final = interrupted_text reason in
      let s1 = act agent (traced "run_interrupted") (act agent (called "cancel_token_set") s) in
      let s2 = record s1 { task = stop_interrupted Item final s1.task } in
      if same s.task.status "running"
      then close (trace_checkpoint agent "interrupted" (write_task_state agent s2))
      else s

  unfoldable pub finish_success_with : String → State agent → String × State agent
  unfolding act note trace_checkpoint write_checkpoint close
  finish_success_with final s =
      let s1 = note agent "assistant" final (act agent (hooked "pre_final") s) in
      let s2 = record s1 { task = finish_success Item final s1.task } in
      (final, close (write_checkpoint agent "run_finished" (act agent (promoted final) s2)))
