-- ===== src/Loop/Exits.antt =====
-- Every run ends: with one report, the lease released after it, and counters within their bounds.
use moss_code.Base.{
  ltb→lt, &&-eq-true, eq_iff, if-elim, ℕ, zero, suc, ◌+◌, ◌<◌, ◌≡◌, refl, String, true, ◌&&◌,
  Option, none, some, List, arith, leb, ltb, Bool-cases, inl, inr, truthy, truthy-concat,
}
use moss_code.Stall.{Kind}
use moss_code.Task.{
  StopReason, record_model_turn, create, stop_step_limit, stop_interrupted, stop, status_text,
  reason_text,
}
use moss_code.Task.Stops.{status_after}
use moss_code.Loop.World.{
  Agent, State, Bundle, Flow, done, interrupted, Completed, answered, failed, note,
  write_task_state,
}
use moss_code.Loop.Finish.{finish_interrupted, interrupted_text}
use moss_code.Loop.Last.{
  step_limit_text, step_limit_rest, synthesize_final_answer, synthesized, after_last_call,
  last_call, ask_last, synthesize_unless, final_or_text, after_synthesis, build_prompt,
  stop_at_step_limit, synthesis_text,
}
use moss_code.Loop.Rounds.{Turn, again, ended, broken}
use moss_code.Loop.Run.{
  Ending, answer, raised, out_of_rounds, max_attempts, after_round, goes_on, from_flow, leave,
  rounds, begin_run, clean_up, wrap_up, run,
}
use moss_code.Loop.Quiet.{Quiet-trans, build_prompt-Quiet}
use moss_code.Loop.Closed.{
  Live, IsOpen, IsClosed, Live-IsOpen, Quiet-Live, finish_stopped-IsClosed,
  stop_at_retry_limit-IsClosed, finish_interrupted-IsClosed, clean_up-IsClosed,
}
use moss_code.Loop.Ends.{round-Fits, Fits}

module _ (agent : Agent) where
  open agent use {W, Args, Item, Raw, fl, max_steps}

  -- What the loop may come to, with the calls that the last answer takes.
  abbrev Ends : Ending (State agent) → Type 0
  Ends (answer final t) = IsClosed agent final t
  Ends (raised reason t) = IsOpen agent t
  Ends (out_of_rounds t) = ⊥

  abbrev Synthesized : Flow (Option String) × State agent → Type 0
  Synthesized (interrupted reason, t) = IsOpen agent t
  Synthesized (done found, t) = IsOpen agent t

  after_last_call-Synthesized :
      (bundle : Bundle) (r : Flow (Completed Raw)) (s : State agent)
      → IsOpen agent s
      → Synthesized (after_last_call agent bundle r s)
  unfolding after_last_call synthesized
  after_last_call-Synthesized bundle (interrupted reason) s h = h
  after_last_call-Synthesized bundle (done (failed message)) s h = h
  after_last_call-Synthesized bundle (done (answered raw i o)) s h = ground arith

  last_call-Synthesized :
      (bundle : Bundle) (s : State agent) → Live agent s → Synthesized (last_call agent bundle s)
  unfolding last_call record_model_turn
  last_call-Synthesized bundle s h = after_last_call-Synthesized bundle _ _ (ground arith)

  ask_last-Synthesized :
      (bundle : Bundle) (s : State agent) → Live agent s → Synthesized (ask_last agent bundle s)
  unfolding ask_last
  ask_last-Synthesized bundle s h =
      if-elim Synthesized bundle.sendable (last_call-Synthesized bundle s h) (Live-IsOpen agent h)

  synthesize-Synthesized :
      (message : String) (found : Option String) (s : State agent)
      → Live agent s
      → Synthesized (synthesize_unless agent message found s)
  unfolding synthesize_unless
  synthesize-Synthesized message (some dimension) s h = Live-IsOpen agent h
  synthesize-Synthesized message none s h =
      let t = write_task_state agent (note agent "system" (synthesis_text agent) s) in
      let b = build_prompt agent message t in
      ask_last-Synthesized b.0 b.1 (
        Quiet-Live agent
          (Quiet-trans agent {t = t} (ground arith) (build_prompt-Quiet agent message t)) h)

  step_limit_text-truthy : (s : State agent) → truthy (step_limit_text agent s.task) ≡ true
  unfolding step_limit_text
  step_limit_text-truthy s =
      truthy-concat "Stopped after reaching the step limit (" (step_limit_rest agent s.task) refl

  final_or_text-truthy :
      (found : Option String) (s : State agent) → truthy (final_or_text agent found s.task) ≡ true
  unfolding final_or_text
  final_or_text-truthy none s = step_limit_text-truthy s
  final_or_text-truthy (some text) s = elim (Bool-cases (truthy text)) [
    | inl e ↦ rw (e, e)
    | inr e ↦ rw e (step_limit_text-truthy s)
  ]

  after_synthesis-Ends :
      (r : Flow (Option String) × State agent)
      → Synthesized r
      → Ends (from_flow agent (after_synthesis agent r))
  unfolding after_synthesis stop_step_limit status_after
  after_synthesis-Ends (interrupted reason, s) h = h
  after_synthesis-Ends (done found, s) h =
      finish_stopped-IsClosed agent (final_or_text agent found s.task) StopReason.step_limit_reached
        s (final_or_text-truthy found s) refl h

  leave-Ends : (message : String) (s : State agent) → Live agent s → Ends (leave agent message s)
  unfolding leave stop_at_step_limit synthesize_final_answer
  leave-Ends message s h =
      elim (Bool-cases (leb (max_attempts agent) s.attempts && ltb s.tool_steps max_steps)) [
        | inl e ↦ rw (e, leave) (stop_at_retry_limit-IsClosed agent s (Live-IsOpen agent h))
        | inr e ↦ rw (e, leave) (after_synthesis-Ends _ (synthesize-Synthesized message _ s h))
      ]

  goes_on-lt : (s : State agent) → goes_on agent s ≡ true → s.attempts < max_attempts agent
  unfolding goes_on
  goes_on-lt s e = ltb→lt _ _ (&&-eq-true _ _ e).1

  after_round-Ends :
      (next : State agent → Ending (State agent)) (turn : Turn (State agent)) (k : ℕ)
      → Fits agent k turn
      → ((t : State agent) → Live agent t → k < t.attempts → Ends (next t))
      → Ends (after_round agent next turn)
  unfolding after_round
  after_round-Ends next (again t) k h rest = rest t h.0 h.1
  after_round-Ends next (ended final t) k h rest = h
  after_round-Ends next (broken reason t) k h rest = h

  -- The fuel is more than the attempts that are left.
  rounds-Ends :
      (fuel : ℕ) (message : String) (s : State agent)
      → Live agent s
      → 0 < fuel
      → max_attempts agent < fuel + s.attempts
      → Ends (rounds agent fuel message s)
  unfolding rounds
  rounds-Ends zero message s h some_left lt = absurd (omega arith)
  rounds-Ends (suc fuel) message s h some_left lt = elim (Bool-cases (goes_on agent s)) [
    | inl e ↦
        let below = goes_on-lt s e in
        rw (e, rounds)
          (after_round-Ends _ _ s.attempts (round-Fits agent s h below)
            (λ t live more. rounds-Ends fuel message t live (omega arith) (omega arith)))
    | inr e ↦ rw (e, rounds) (leave-Ends message s h)
  ]

  begin_run-Live :
      (message : String) (streak : ℕ) (sent : List Kind) (w : W)
      → Live agent (begin_run agent message streak sent w)
  unfolding begin_run create status_text
  begin_run-Live message streak sent w = ground arith

  -- How `run` ends: with the answer that its report holds, or with an interruption that is raised again
  -- behind a report of its own.
  abbrev pub Finishes : Ending (State agent) → Type 0
  Finishes (answer final t) = IsClosed agent final t
  Finishes (raised reason t) =
      IsClosed agent (interrupted_text reason) t × (t.task.stop_reason ≡ "interrupted")
  Finishes (out_of_rounds t) = ⊥

  finish_interrupted-reason :
      (reason : String) (s : State agent)
      → s.task.status ≡ "running"
      → (clean_up agent (finish_interrupted agent reason s)).task.stop_reason ≡ "interrupted"
  unfolding clean_up finish_interrupted stop_interrupted stop reason_text
  finish_interrupted-reason reason s e = rw ((eq_iff s.task.status "running").1 e)

  wrap_up-Finishes : (r : Ending (State agent)) → Ends r → Finishes (wrap_up agent r)
  unfolding wrap_up
  wrap_up-Finishes (answer final t) h = clean_up-IsClosed agent final t h
  wrap_up-Finishes (raised reason t) h = (
    clean_up-IsClosed agent _ _ (finish_interrupted-IsClosed agent reason t h),
    finish_interrupted-reason reason t h.is_running,
  )
  wrap_up-Finishes (out_of_rounds t) h = h

  -- From every start, `run` ends within its rounds. It ends with an answer, or it raises again what broke a
  -- call of the model or of a tool off. Either way the log holds one report and, after it, one release of
  -- the lease; the report holds the status, the stop reason and the answer of the final state; the status
  -- fits the stop reason and is not `running`; the answer is the one that `run` returns, or tells of the
  -- interruption; at most `max_steps` tools ran, in at most `max_attempts` attempts, with at most one call
  -- of the model more than that.
  pub run-Finishes :
      (message : String) (streak : ℕ) (sent : List Kind) (w : W)
      → Finishes (run agent message streak sent w)
  unfolding run
  run-Finishes message streak sent w = wrap_up-Finishes _ (
      rounds-Ends (max_attempts agent + 1) message _ (begin_run-Live message streak sent w)
        (omega arith) (omega arith))
