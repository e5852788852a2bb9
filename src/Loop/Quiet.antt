-- ===== src/Loop/Quiet.antt =====
-- The helpers that leave the counters, the status and the reports of a run alone.
use moss_code.Base.{
  same, if◌then◌else◌, ℕ, ◌≡◌, String, Bool, true, false, List, [], ◌∷◌, arith, Option,
  Option-cases, Bool-cases, inl, inr, truthy,
}
use moss_code.Parser.{Action}
use moss_code.Loop.World.{
  Entry, Agent, State, Effect, reported, released, recorded, traced, Notice, instruction_loaded,
  instruction_conflict, Bundle, act, write_checkpoint,
}
use moss_code.Loop.Notices.{
  maybe_nudge_convergence, record_notices, record_instruction_notices, check_plan_pressure,
  check_stall,
}
use moss_code.Loop.Batch.{note_anchor}
use moss_code.Loop.Last.{build_prompt}
use moss_code.Loop.Rounds.{
  open_round, compact_with, compaction_trigger, maybe_compact, offload, maybe_offload,
  prepare_prompt, note_resume, note_reductions,
}
use moss_code.Loop.Turns.{
  record_usage, report_soft, record_probe, record_calls, record_retries, trace_parsed,
}

-- The reports and the releases of the lease that a log holds.
abbrev pub ends : {Args : Type 0} → List (Effect Args) → List (Effect Args)
ends [] = []
ends (reported status reason answer ∷ log) = reported status reason answer ∷ ends log
ends (released ∷ log) = released ∷ ends log
ends (e ∷ log) = ends log

-- The results of tools that a log puts into the history.
abbrev pub tool_entries : {Args : Type 0} → List (Effect Args) → List Entry
tool_entries [] = []
tool_entries (recorded e ∷ log) =
    let older = tool_entries log in if same e.role "tool" then e ∷ older else older
tool_entries (e ∷ log) = tool_entries log

module _ (agent : Agent) where
  pub record Quiet (s t : State agent) : Type 0 where
    pub same_ends : ends t.log ≡ ends s.log
    pub same_entries : tool_entries t.log ≡ tool_entries s.log
    pub same_status : t.task.status ≡ s.task.status
    pub same_done : t.task.tool_steps ≡ s.task.tool_steps
    pub same_steps : t.tool_steps ≡ s.tool_steps
    pub same_tries : t.task.attempts ≡ s.task.attempts
    pub same_attempts : t.attempts ≡ s.attempts
    pub same_turns : t.task.model_turns ≡ s.task.model_turns

  pub Quiet-trans : {s t u : State agent} → Quiet s t → Quiet t u → Quiet s u
  Quiet-trans p q = ground arith

  maybe_nudge-Quiet : (s : State agent) → Quiet s (maybe_nudge_convergence agent s)
  unfolding maybe_nudge_convergence
  maybe_nudge-Quiet s = ground arith

  pub record_notices-Quiet :
      (notices : List Notice) (s : State agent) → Quiet s (record_notices agent notices s)
  unfolding record_notices
  record_notices-Quiet [] s = ground arith
  record_notices-Quiet (instruction_loaded p q c ∷ notices) s =
      Quiet-trans (ground arith) (record_notices-Quiet notices _)
  record_notices-Quiet (instruction_conflict ∷ notices) s =
      Quiet-trans (ground arith) (record_notices-Quiet notices _)

  pub record_instruction_notices-Quiet :
      (s : State agent) → Quiet s (record_instruction_notices agent s)
  unfolding record_instruction_notices
  record_instruction_notices-Quiet s = Quiet-trans (ground arith) (record_notices-Quiet _ _)

  pub check_plan_pressure-Quiet : (s : State agent) → Quiet s (check_plan_pressure agent s)
  unfolding check_plan_pressure
  check_plan_pressure-Quiet s = ground arith

  pub check_stall-Quiet : (s : State agent) → Quiet s (check_stall agent s)
  unfolding check_stall
  check_stall-Quiet s = ground arith

  pub write_checkpoint-Quiet :
      (trigger : String) (s : State agent) → Quiet s (write_checkpoint agent trigger s)
  unfolding write_checkpoint
  write_checkpoint-Quiet trigger s = ground arith

  pub note_anchor-Quiet :
      (a : Action agent.Args) (s : State agent) → Quiet s (note_anchor agent a s)
  unfolding note_anchor
  note_anchor-Quiet a s = ground arith

  pub build_prompt-Quiet :
      (message : String) (s : State agent) → Quiet s (build_prompt agent message s).1
  unfolding build_prompt
  build_prompt-Quiet message s = ground arith

  compaction_trigger-Quiet :
      (bundle : Bundle) (s : State agent) → Quiet s (compaction_trigger agent bundle s).1
  unfolding compaction_trigger
  compaction_trigger-Quiet bundle s = ground arith

  compact_with-Quiet :
      (trigger : String) (bundle : Bundle) (s : State agent)
      → Quiet s (compact_with agent trigger bundle s).1
  unfolding compact_with
  compact_with-Quiet trigger bundle s =
      let u = act agent (traced "context_compacted") (record s {
        world = (agent.compact_context trigger s.world).1;
        history_reduction_streak = 0;
      }) in
      ground (arith, build_prompt-Quiet s.prompt_message u)

  maybe_compact-Quiet :
      (bundle : Bundle) (s : State agent) → Quiet s (maybe_compact agent bundle s).1
  unfolding maybe_compact
  maybe_compact-Quiet bundle s =
      let r = compaction_trigger agent bundle s in
      elim (Bool-cases (truthy r.0)) [
        | inl e ↦
            rw e
              (Quiet-trans (compaction_trigger-Quiet bundle s) (compact_with-Quiet r.0 bundle r.1))
        | inr e ↦ rw e (compaction_trigger-Quiet bundle s)
      ]

  offload-Quiet : (bundle : Bundle) (s : State agent) → Quiet s (offload agent bundle s).1
  unfolding offload
  offload-Quiet bundle s =
      let (replacement, w) = agent.offload_request s.prompt_message s.world in
      elim (Option-cases replacement) [
        | inl e ↦ rw (e, offload) (ground arith)
        | inr (text, e) ↦
            rw (e, offload)
              (Quiet-trans
                {t = record (act agent (traced "request_offloaded") (record s { world = w })) {
                  prompt_message = text;
                }}
                (ground arith) (build_prompt-Quiet text _))
      ]

  maybe_offload-Quiet :
      (bundle : Bundle) (s : State agent) → Quiet s (maybe_offload agent bundle s).1
  unfolding maybe_offload
  maybe_offload-Quiet bundle s = ground (arith, offload-Quiet bundle s)

  pub prepare_prompt-Quiet : (s : State agent) → Quiet s (prepare_prompt agent s).1
  unfolding prepare_prompt
  prepare_prompt-Quiet s =
      let r = build_prompt agent s.prompt_message s in
      let q = maybe_compact agent r.0 r.1 in
      Quiet-trans
        (Quiet-trans (build_prompt-Quiet s.prompt_message s) (maybe_compact-Quiet r.0 r.1))
        (maybe_offload-Quiet q.0 q.1)

  pub open_round-Quiet : (s : State agent) → Quiet s (open_round agent s)
  unfolding open_round
  open_round-Quiet s = Quiet-trans (maybe_nudge-Quiet s) (ground arith)

  note_resume-Quiet : (bundle : Bundle) (s : State agent) → Quiet s (note_resume agent bundle s)
  unfolding note_resume
  note_resume-Quiet bundle s = ground arith

  note_reductions-Quiet :
      (bundle : Bundle) (s : State agent) → Quiet s (note_reductions agent bundle s)
  unfolding note_reductions
  note_reductions-Quiet bundle s = ground arith

  pub note_both-Quiet :
      (bundle : Bundle) (s : State agent)
      → Quiet s (note_reductions agent bundle (note_resume agent bundle s))
  note_both-Quiet bundle s =
      Quiet-trans (note_resume-Quiet bundle s) (note_reductions-Quiet bundle _)

  record_usage-Quiet :
      (bundle : Bundle) (raw : agent.Raw) (i o : Option ℕ) (s : State agent)
      → Quiet s (record_usage agent bundle raw i o s)
  unfolding record_usage
  record_usage-Quiet bundle raw i o s = ground arith

  report_soft-Quiet : (s : State agent) → Quiet s (report_soft agent s)
  unfolding report_soft
  report_soft-Quiet s = ground arith

  record_probe-Quiet : (s : State agent) → Quiet s (record_probe agent s)
  unfolding record_probe
  record_probe-Quiet s = ground arith

  trace_parsed-Quiet :
      (dropped : List (Action agent.Args)) (s : State agent)
      → Quiet s (trace_parsed agent dropped s)
  unfolding trace_parsed
  trace_parsed-Quiet [] s = ground arith
  trace_parsed-Quiet (a ∷ dropped) s = ground arith

  -- What follows the answer of the model, up to its actions.
  pub take_in-Quiet :
      (bundle : Bundle) (raw : agent.Raw) (i o : Option ℕ) (dropped : List (Action agent.Args))
      (s : State agent)
      → Quiet s (
          trace_parsed agent dropped
            (report_soft agent (record_usage agent bundle raw i o (record_probe agent s))))
  take_in-Quiet bundle raw i o dropped s =
      Quiet-trans (Quiet-trans (record_probe-Quiet s) (record_usage-Quiet bundle raw i o _))
        (Quiet-trans (report_soft-Quiet _) (trace_parsed-Quiet dropped _))

  pub record_calls-Quiet :
      (native : Bool) (actions : List (Action agent.Args)) (s : State agent)
      → Quiet s (record_calls agent native actions s)
  unfolding record_calls
  record_calls-Quiet native [] s = ground arith
  record_calls-Quiet true (a ∷ actions) s =
      Quiet-trans (ground arith) (record_calls-Quiet true actions _)
  record_calls-Quiet false (a ∷ actions) s = record_calls-Quiet false actions s

  pub record_retries-Quiet :
      (actions : List (Action agent.Args)) (s : State agent)
      → Quiet s (record_retries agent actions s)
  unfolding record_retries
  record_retries-Quiet [] s = ground arith
  record_retries-Quiet (a ∷ actions) s = Quiet-trans (ground arith) (record_retries-Quiet actions _)
