-- ===== src/Loop/Turns.antt =====
-- What follows the answer of the model in a round of `_run`, and the round as a whole.
use moss_code.Base.{
  ℕ, ◌+◌, String, Bool, true, Option, none, some, List, [], ◌∷◌, if◌then◌else◌, truthy, strip, find,
  filter,
}
use moss_code.Budget.{consume, hard_exceeded, soft_exceeded, usage_from_metadata}
use moss_code.Parser.{Action, is_tool, is_final, is_retry, truncate_after_final}
use moss_code.Loop.World.{
  Agent, State, called, traced, recorded, Bundle, Flow, done, interrupted, Completed, answered,
  failed, act, note, write_task_state,
}
use moss_code.Loop.Notices.{needs_verification}
use moss_code.Loop.Batch.{execute_tool_batch}
use moss_code.Loop.Finish.{
  finish_budget_exceeded, finish_context_overflow, finish_model_error, finish_success_with,
}
use moss_code.Loop.Rounds.{
  Turn, again, ended, broken, soft_notice, verification_text, open_round, count_attempt,
  prepare_prompt, announce_call,
}

module _ (agent : Agent) where
  open agent use {W, Args, Item, Raw, fl, max_steps}

  unfoldable pub record_usage : Bundle → Raw → Option ℕ → Option ℕ → State agent → State agent
  unfolding act consume usage_from_metadata
  record_usage bundle raw input output s =
      let (i, o, estimated) =
        usage_from_metadata input output bundle.text (agent.raw_str raw)
          (some agent.estimate_tokens) in
      let s1 = if estimated then s else act agent (called "record_token_usage_sample") s in
      record s1 {
        budget = consume fl s1.budget (record {
          steps = 1;
          input_tokens = i;
          output_tokens = o;
          elapsed_s = agent.elapsed s1.world;
          usd = agent.price_for_usage i o;
          estimated = estimated;
        });
      }

  unfoldable pub report_soft : State agent → State agent
  unfolding act note soft_exceeded
  report_soft s =
      let (soft, budget) = soft_exceeded fl s.budget in
      let s1 = record s { budget = budget } in
      elim soft [
        | none ↦ s1
        | some dimension ↦
            note agent "system" (soft_notice dimension)
              (act agent (traced "budget_soft_exceeded") s1)
      ]

  unfoldable pub record_probe : State agent → State agent
  unfolding act
  record_probe s =
      let (changed, w) = agent.probe s.world in
      let s1 = record s { world = w } in
      if changed then act agent (traced "cache_capability_detected") s1 else s1

  unfoldable pub record_calls : Bool → List (Action Args) → State agent → State agent
  unfolding act
  record_calls native [] s = s
  record_calls native (a ∷ actions) s = record_calls native actions (
      if native
      then act agent
          (recorded
            (record { role = "assistant"; name = a.name; content = ""; call_id = a.call_id }))
          s
      else s)

  -- `tool_steps += self._execute_tool_batch(…)`
  unfoldable pub count_steps : Flow ℕ × State agent → Flow (State agent) × State agent
  count_steps (interrupted reason, s) = (interrupted reason, s)
  count_steps (done count, s) =
      let t = record s { tool_steps = s.tool_steps + count } in (done t, t)

  -- The tool calls of an output, which count as steps.
  unfoldable pub run_tools :
      Bool → List (Action Args) → State agent → Flow (State agent) × State agent
  unfolding record_calls execute_tool_batch count_steps
  run_tools native actions s =
      count_steps (execute_tool_batch agent actions (record_calls native actions s))

  unfoldable pub record_retries : List (Action Args) → State agent → State agent
  unfolding note
  record_retries [] s = s
  record_retries (a ∷ actions) s =
      record_retries actions (if is_retry a.kind then note agent "assistant" a.text s else s)

  unfoldable pub request_verification : State agent → State agent
  unfolding act note write_task_state
  request_verification s = write_task_state agent (
      note agent "system" verification_text (
        act agent (traced "verification_requested") (record s {
          attempts = s.attempts + 1;
          task = record s.task { verification_requested = true };
        })))

  -- What follows the tools of an output.
  unfoldable pub conclude : Raw → List (Action Args) → State agent → Turn (State agent)
  unfolding record_retries write_task_state needs_verification request_verification
      finish_success_with
  conclude raw actions s = elim (find (λ a. is_final a.kind) actions) [
    | none ↦ again (write_task_state agent (record_retries actions s))
    | some a ↦
        if needs_verification agent s
        then again (request_verification s)
        else let (final, t) =
            finish_success_with agent (strip (if truthy a.text then a.text else agent.raw_text raw))
              s in
          ended final t
  ]

  unfoldable pub trace_parsed : List (Action Args) → State agent → State agent
  unfolding act
  trace_parsed [] s = act agent (traced "model_parsed") s
  trace_parsed (a ∷ dropped) s =
      act agent (traced "batch_truncated") (act agent (traced "model_parsed") s)

  unfoldable pub after_tools :
      Raw → List (Action Args) → Flow (State agent) × State agent → Turn (State agent)
  unfolding conclude
  after_tools raw actions (interrupted reason, s) = broken reason s
  after_tools raw actions (done t, s) = conclude raw actions t

  unfoldable pub take_actions : Bundle → Raw → List (Action Args) → State agent → Turn (State agent)
  unfolding run_tools after_tools
  take_actions bundle raw actions s =
      after_tools raw actions (run_tools bundle.native (filter (λ a. is_tool a.kind) actions) s)

  unfoldable pub take_answer : Bundle → Raw → Option ℕ → Option ℕ → State agent → Turn (State agent)
  unfolding record_probe record_usage report_soft truncate_after_final trace_parsed take_actions
  take_answer bundle raw input output s =
      let s1 = report_soft (record_usage bundle raw input output (record_probe s)) in
      let (actions, dropped) = truncate_after_final (agent.parse_model_actions bundle.native raw) in
      take_actions bundle raw actions (trace_parsed dropped s1)

  unfoldable pub after_call : Bundle → Flow (Completed Raw) → State agent → Turn (State agent)
  unfolding take_answer finish_model_error
  after_call bundle (interrupted reason) s = broken reason s
  after_call bundle (done (failed message)) s =
      let (final, t) = finish_model_error agent message s in ended final t
  after_call bundle (done (answered raw input output)) s = take_answer bundle raw input output s

  unfoldable pub ask_model : Bundle → State agent → Turn (State agent)
  unfolding announce_call after_call
  ask_model bundle s =
      let s1 = announce_call agent bundle s in
      let (r, w) = agent.complete bundle true s1.world in
      after_call bundle r (record s1 { world = w })

  unfoldable pub decide : State agent → Turn (State agent)
  unfolding count_attempt prepare_prompt ask_model finish_context_overflow
  decide s =
      let (bundle, s1) = prepare_prompt agent (count_attempt agent s) in
      if bundle.sendable
      then ask_model bundle s1
      else let (final, t) = finish_context_overflow agent bundle s1 in ended final t

  -- A budget that is used up ends the run with no call of the model.
  unfoldable pub after_budget : Option String → State agent → Turn (State agent)
  unfolding decide finish_budget_exceeded
  after_budget none s = decide s
  after_budget (some dimension) s =
      let (final, t) = finish_budget_exceeded agent dimension s in ended final t

  unfoldable pub round : State agent → Turn (State agent)
  unfolding open_round hard_exceeded after_budget
  round s = let t = open_round agent s in after_budget (hard_exceeded fl t.budget) t
