-- ===== src/Loop/Rounds.antt =====
-- One round of `_run`: the prompt, the call of the model, and what its actions do.
use moss_code.Base.{
  ◌+◌, String, false, not, ◌&&◌, none, some, [], ◌∷◌, if◌then◌else◌, leb, concat, truthy, same,
}
use moss_code.Budget.{Consumption, consume, soft_exceeded}
use moss_code.Task.{record_attempt, record_model_turn}
use moss_code.Loop.World.{
  Agent, State, called, traced, progressed, Bundle, act, write_task_state, write_checkpoint,
}
use moss_code.Loop.Notices.{maybe_nudge_convergence}
use moss_code.Loop.Last.{build_prompt}

-- What a round comes to: the next round, the end with an answer, or an interruption.
pub data Turn (S : Type 0) : Type 0 where
  again : S → Turn S
  ended : String → S → Turn S
  broken : String → S → Turn S

abbrev pub soft_notice : String → String
soft_notice dimension = concat (
    "Runtime notice: this run has used most of its " ∷ dimension
    ∷ " budget. Wrap up what you can verify now and return a <final> answer describing what is left."
    ∷ [])

abbrev pub verification_text : String
verification_text =
    "Runtime notice: this run changed files but never ran a test or lint command. Run one now (for example the project's test command), then return your <final> answer. If verification is not possible here, say so explicitly in the final answer."

module _ (agent : Agent) where
  open agent use {W, Args, Item, Raw, fl, max_steps}

  abbrev pub only_time : fl.F → Consumption fl
  only_time t = record {
    steps = 0;
    input_tokens = 0;
    output_tokens = 0;
    elapsed_s = t;
    usd = none;
    estimated = false;
  }

  -- The beginning of a round, up to the test of the budget.
  unfoldable pub open_round : State agent → State agent
  unfolding act maybe_nudge_convergence consume
  open_round s =
      let s1 = act agent (called "heartbeat_run") (maybe_nudge_convergence agent s) in
      record s1 { budget = consume fl s1.budget (only_time (agent.elapsed s1.world)) }

  unfoldable pub count_attempt : State agent → State agent
  unfolding write_task_state
  count_attempt s =
      write_task_state agent
        (record s { attempts = s.attempts + 1; task = record_attempt Item s.task })

  -- `_compaction_trigger`: `soft_exceeded` notes in the budget what it reports.
  unfoldable pub compaction_trigger : Bundle → State agent → String × State agent
  unfolding soft_exceeded
  compaction_trigger bundle s =
      if agent.compaction_off
      then ("", s)
      else if not bundle.sendable
      then ("context_overflow", s)
      else if bundle.is_crowded
      then ("context_utilization", s)
      else if leb 2 s.history_reduction_streak
      then ("history_reduction", s)
      else let (soft, budget) = soft_exceeded fl s.budget in
        elim soft [
          | none ↦ ("", record s { budget = budget })
          | some dimension ↦ ("budget_soft_exceeded", record s { budget = budget })
        ]

  -- A compaction resets the count of the reduced histories.
  unfoldable pub compact_with : String → Bundle → State agent → Bundle × State agent
  unfolding act build_prompt
  compact_with trigger bundle s =
      let (compacted, w) = agent.compact_context trigger s.world in
      let s1 = record s { world = w } in
      if compacted
      then build_prompt agent s1.prompt_message
          (act agent (traced "context_compacted") (record s1 { history_reduction_streak = 0 }))
      else (bundle, s1)

  unfoldable pub maybe_compact : Bundle → State agent → Bundle × State agent
  unfolding compaction_trigger compact_with
  maybe_compact bundle s =
      let (trigger, s1) = compaction_trigger bundle s in
      if truthy trigger then compact_with trigger bundle s1 else (bundle, s1)

  unfoldable pub offload : Bundle → State agent → Bundle × State agent
  unfolding act build_prompt
  offload bundle s =
      let (replacement, w) = agent.offload_request s.prompt_message s.world in
      let s1 = record s { world = w } in
      elim replacement [
        | none ↦ (bundle, s1)
        | some text ↦
            build_prompt agent text
              (record (act agent (traced "request_offloaded") s1) { prompt_message = text })
      ]

  unfoldable pub maybe_offload : Bundle → State agent → Bundle × State agent
  unfolding offload
  maybe_offload bundle s =
      if not bundle.sendable && same bundle.overflow_reason "request_too_large"
      then offload bundle s
      else (bundle, s)

  -- The prompt that is sent, or that cannot be.
  unfoldable pub prepare_prompt : State agent → Bundle × State agent
  unfolding build_prompt maybe_compact maybe_offload
  prepare_prompt s =
      let (b1, s1) = build_prompt agent s.prompt_message s in
      let (b2, s2) = maybe_compact b1 s1 in maybe_offload b2 s2

  unfoldable pub note_resume : Bundle → State agent → State agent
  unfolding act write_checkpoint
  note_resume bundle s =
      if same bundle.resume_status "partial-stale"
      then write_checkpoint agent "freshness_mismatch" s
      else if same bundle.resume_status "workspace-mismatch"
      then write_checkpoint agent "workspace_mismatch"
          (act agent (traced "runtime_identity_mismatch") s)
      else s

  unfoldable pub note_reductions : Bundle → State agent → State agent
  unfolding write_checkpoint
  note_reductions bundle s =
      if bundle.has_reductions then write_checkpoint agent "context_reduction" s else s

  -- The state at the call of the model.
  unfoldable pub announce_call : Bundle → State agent → State agent
  unfolding act note_resume note_reductions
  announce_call bundle s =
      let s1 =
        act agent (progressed "thinking")
          (act agent (traced "model_requested") (note_reductions bundle (note_resume bundle s))) in
      record s1 { task = record_model_turn Item s1.task }
