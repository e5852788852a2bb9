-- ===== src/Loop/Last.antt =====
-- `_build_prompt`, the last call without tools, and the ends behind the loop.
use moss_code.Base.{
  ℕ, ◌+◌, String, false, ◌&&◌, Option, none, some, List, [], ◌∷◌, if◌then◌else◌, concat, truthy,
  strip, decimal, find,
}
use moss_code.Budget.{consume, hard_exceeded, usage_from_metadata}
use moss_code.Task.{TaskState, stop_step_limit, stop_retry_limit, record_model_turn}
use moss_code.Parser.{Action, is_final, is_retry, truncate_after_final}
use moss_code.Loop.World.{
  Agent, State, traced, progressed, promoted, Bundle, Flow, done, interrupted, Completed, answered,
  failed, act, note, write_task_state, trace_checkpoint,
}
use moss_code.Loop.Finish.{close}

module _ (agent : Agent) where
  open agent use {W, Args, Item, Raw, fl, max_steps}

  -- `_build_prompt`
  unfoldable pub build_prompt : String → State agent → Bundle × State agent
  unfolding act
  build_prompt message s =
      let (bundle, w) = agent.build_context_result message s.world in
      (
        bundle,
        act agent (traced "prompt_built") (record s {
          world = w;
          history_reduction_streak =
              if bundle.reduces_history then s.history_reduction_streak + 1 else 0;
        }),
      )

  -- The answer in the actions of the last call: the text of the final action, or of a retry.
  unfoldable pub first_text : List (Action Args) → Option String
  unfolding strip
  first_text actions =
      let from_retry : Option String =
        elim (find (λ a. is_retry a.kind && truthy (strip a.text)) actions) [
          | none ↦ none
          | some a ↦ some (strip a.text)
        ] in
      elim (find (λ a. is_final a.kind) actions) [
        | none ↦ from_retry
        | some a ↦ if truthy (strip a.text) then some (strip a.text) else from_retry
      ]

  -- What follows the answer to the last call.
  unfoldable pub synthesized :
      Bundle → Raw → Option ℕ → Option ℕ → State agent → Option String × State agent
  unfolding act truncate_after_final first_text consume usage_from_metadata
  synthesized bundle raw input output s =
      let (i, o, estimated) =
        usage_from_metadata input output bundle.text (agent.raw_str raw)
          (some agent.estimate_tokens) in
      let budget = consume fl s.budget (record {
        steps = 1;
        input_tokens = i;
        output_tokens = o;
        elapsed_s = agent.elapsed s.world;
        usd = none;
        estimated = estimated;
      }) in
      (
        first_text (truncate_after_final (agent.parse_model_actions bundle.native raw)).0,
        act agent (traced "final_synthesis") (record s { budget = budget }),
      )

  unfoldable pub after_last_call :
      Bundle → Flow (Completed Raw) → State agent → Flow (Option String) × State agent
  unfolding synthesized
  after_last_call bundle (interrupted reason) s = (interrupted reason, s)
  after_last_call bundle (done (failed message)) s = (done none, s)
  after_last_call bundle (done (answered raw input output)) s =
      let (final, t) = synthesized bundle raw input output s in (done final, t)

  unfoldable pub last_call : Bundle → State agent → Flow (Option String) × State agent
  unfolding act after_last_call
  last_call bundle s =
      let s1 = act agent (progressed "thinking") s in
      let s2 = record s1 { task = record_model_turn Item s1.task } in
      let (r, w) = agent.complete bundle false s2.world in
      after_last_call bundle r (record s2 { world = w })

  abbrev pub synthesis_text : String
  synthesis_text =
      "Runtime notice: you have reached the step limit and can no longer call tools. Give the user your best complete answer now, using only what you have already gathered. If parts remain uncertain or unfinished, state clearly what you concluded and what is left. Do not ask to run more tools; respond with your final answer."

  -- A prompt that cannot be sent is not.
  unfoldable pub ask_last : Bundle → State agent → Flow (Option String) × State agent
  unfolding last_call
  ask_last bundle s = if bundle.sendable then last_call bundle s else (done none, s)

  unfoldable pub synthesize_unless :
      String → Option String → State agent → Flow (Option String) × State agent
  unfolding note write_task_state build_prompt ask_last
  synthesize_unless message (some dimension) s = (done none, s)
  synthesize_unless message none s =
      let (bundle, t) =
        build_prompt message (write_task_state agent (note agent "system" synthesis_text s)) in
      ask_last bundle t

  unfoldable pub synthesize_final_answer : String → State agent → Flow (Option String) × State agent
  unfolding synthesize_unless
  synthesize_final_answer message s = synthesize_unless message (hard_exceeded fl s.budget) s

  abbrev pub step_limit_rest : TaskState Item → List String
  unfolding decimal
  step_limit_rest task =
      decimal max_steps
      ∷ " steps) before finishing."
      ∷ (if truthy task.last_tool
          then concat (" Last action: " ∷ task.last_tool ∷ "." ∷ [])
          else "")
      ∷ " Rerun with a larger --max-steps, or narrow the request."
      ∷ []

  unfoldable pub step_limit_text : TaskState Item → String
  step_limit_text task = concat ("Stopped after reaching the step limit (" ∷ step_limit_rest task)

  abbrev pub retry_limit_text : String
  retry_limit_text =
      "Stopped after too many malformed model responses without a valid tool call or final answer."

  -- The end behind the loop, once the state names its reason.
  unfoldable pub finish_stopped : String → State agent → String × State agent
  unfolding act note write_task_state trace_checkpoint close
  finish_stopped final s = (
    final,
    close agent (
        trace_checkpoint agent
          (if truthy s.task.stop_reason then s.task.stop_reason else "run_stopped")
          (write_task_state agent (act agent (promoted final) (note agent "assistant" final s)))),
  )

  -- The answer of the last call, or a fixed text.
  unfoldable pub final_or_text : Option String → TaskState Item → String
  unfolding step_limit_text
  final_or_text none task = step_limit_text task
  final_or_text (some text) task = if truthy text then text else step_limit_text task

  unfoldable pub after_synthesis : Flow (Option String) × State agent → Flow String × State agent
  unfolding final_or_text finish_stopped
  after_synthesis (interrupted reason, s) = (interrupted reason, s)
  after_synthesis (done found, s) =
      let final = final_or_text found s.task in
      let (answer, t) =
        finish_stopped final (record s { task = stop_step_limit Item final s.task }) in
      (done answer, t)

  unfoldable pub stop_at_step_limit : String → State agent → Flow String × State agent
  unfolding after_synthesis synthesize_final_answer
  stop_at_step_limit message s = after_synthesis (synthesize_final_answer message s)

  unfoldable pub stop_at_retry_limit : State agent → String × State agent
  unfolding finish_stopped
  stop_at_retry_limit s =
      finish_stopped retry_limit_text
        (record s { task = stop_retry_limit Item retry_limit_text s.task })
