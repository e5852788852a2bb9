-- ===== src/Loop/Notices.antt =====
-- The notices of the loop: convergence, stall, pressure on the plan, near instructions, verification.
use moss_code.Base.{
  ℕ, ◌-◌, String, Bool, true, false, not, ◌&&◌, ◌||◌, none, some, List, [], ◌∷◌, if◌then◌else◌, ltb,
  concat, decimal, any,
}
use moss_code.Stall.{Kind, repeat_exact, ab_loop, no_progress, error_storm}
use moss_code.Loop.World.{
  Agent, State, traced, Notice, instruction_loaded, instruction_conflict, Pressure, act, note,
}

abbrev pub same_kind : Kind → Kind → Bool
same_kind repeat_exact repeat_exact = true
same_kind ab_loop ab_loop = true
same_kind no_progress no_progress = true
same_kind error_storm error_storm = true
same_kind _ _ = false

abbrev pub converge_text : ℕ → ℕ → ℕ → String
unfolding decimal
converge_text tool_steps max_steps remaining = concat (
    "Runtime notice: you have used "
    ∷ decimal tool_steps
    ∷ " of "
    ∷ decimal max_steps
    ∷ " tool steps ("
    ∷ decimal remaining
    ∷ " left). Stop exploring and converge now: take only the steps you truly need, then return your <final> answer. Re-reading files you have already seen wastes the remaining budget."
    ∷ [])

abbrev pub pressure_text : Pressure → String
unfolding decimal
pressure_text p = concat (
    "Runtime notice: plan step "
    ∷ p.step_id
    ∷ " ("
    ∷ p.title
    ∷ ") has taken "
    ∷ decimal p.spent_steps
    ∷ " tool steps. Update the plan with update_plan if the approach changed."
    ∷ [])

module _ (agent : Agent) where
  open agent use {max_steps}

  -- `max(1, int(max_steps * CONVERGE_RATIO))`
  abbrev pub threshold : ℕ
  threshold = if ltb (agent.four_fifths max_steps) 1 then 1 else agent.four_fifths max_steps

  unfoldable pub maybe_nudge_convergence : State agent → State agent
  unfolding act note
  maybe_nudge_convergence s =
      if s.converge_notice_sent || ltb max_steps 12
      then s
      else if ltb s.tool_steps threshold
      then s
      else note agent "system" (converge_text s.tool_steps max_steps (max_steps - s.tool_steps))
          (act agent (traced "convergence_nudge") (record s { converge_notice_sent = true }))

  unfoldable pub record_notices : List Notice → State agent → State agent
  unfolding act note
  record_notices [] s = s
  record_notices (instruction_loaded path scope content ∷ notices) s = record_notices notices (
      act agent (traced "instruction_loaded") (
        note agent "system"
          (concat ("Runtime notice: " ∷ path ∷ " applies to " ∷ scope ∷ "/.\n" ∷ content ∷ [])) s))
  record_notices (instruction_conflict ∷ notices) s =
      record_notices notices (act agent (traced "instruction_conflict") s)

  unfoldable pub record_instruction_notices : State agent → State agent
  record_instruction_notices s =
      let (notices, w) = agent.drain_instruction_notices s.world in
      record_notices notices (record s { world = w })

  unfoldable pub check_plan_pressure : State agent → State agent
  unfolding act note
  check_plan_pressure s = elim (agent.check_plan_pressure s.world) [
    | none ↦ s
    | some p ↦ note agent "system" (pressure_text p) (act agent (traced "plan_pressure") s)
  ]

  unfoldable pub check_stall : State agent → State agent
  unfolding act note
  check_stall s = elim (agent.detect_stall s.world) [
    | none ↦ s
    | some signal ↦
        if any (same_kind signal.kind) s.stall_notices_sent
        then s
        else note agent "system" (agent.stall_notice signal) (
            act agent (traced "stall_detected")
              (record s { stall_notices_sent = signal.kind ∷ s.stall_notices_sent }))
  ]

  unfoldable pub needs_verification : State agent → Bool
  needs_verification s =
      agent.verify_before_final
      && not s.task.verification_requested
      && agent.has_shell
      && any (λ o. o.workspace_changed) (agent.stall_events s.world)
      && not (any (λ o. o.verification) (agent.stall_events s.world))
