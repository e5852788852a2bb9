-- ===== src/Loop/Ends.antt =====
-- What one round of the loop comes to.
use moss_code.Base.{
  ℕ, ◌+◌, ◌-◌, ◌≤◌, ◌<◌, String, Option, none, some, List, arith, Bool-cases, Option-cases, inl,
  inr, find, filter,
}
use moss_code.Task.{record_attempt, record_model_turn}
use moss_code.Parser.{Action, is_tool, is_final, truncate_after_final}
use moss_code.Loop.World.{
  Agent, State, Bundle, Flow, done, interrupted, Completed, answered, failed,
}
use moss_code.Loop.Notices.{needs_verification}
use moss_code.Loop.Batch.{execute_tool_batch}
use moss_code.Loop.Rounds.{
  Turn, again, ended, broken, open_round, count_attempt, prepare_prompt, announce_call,
}
use moss_code.Loop.Turns.{
  record_calls, count_steps, after_tools, after_call, run_tools, request_verification, conclude,
  take_actions, take_answer, ask_model, decide, after_budget, round,
}
use moss_code.Loop.Run.{max_attempts}
use moss_code.Loop.Quiet.{
  Quiet, Quiet-trans, open_round-Quiet, prepare_prompt-Quiet, note_both-Quiet, take_in-Quiet,
  record_calls-Quiet, record_retries-Quiet,
}
use moss_code.Loop.Closed.{
  Live, IsOpen, IsClosed, Live-IsOpen, Quiet-Live, Quiet-IsOpen, finish_success-IsClosed,
  finish_budget-IsClosed, finish_overflow-IsClosed, finish_model_error-IsClosed,
}
use moss_code.Loop.Steps.{Batched, Short, execute_tool_batch-Batched, execute_tool_batch-Short}

module _ (agent : Agent) where
  open agent use {W, Args, Item, Raw, fl, max_steps}

  -- What a round from `s` may come to.
  abbrev pub Fits : ℕ → Turn (State agent) → Type 0
  Fits k (again t) = Live agent t × (k < t.attempts)
  Fits k (ended final t) = IsClosed agent final t
  Fits k (broken reason t) = IsOpen agent t

  conclude-Fits :
      (raw : Raw) (actions : List (Action Args)) (s : State agent) (k : ℕ)
      → Live agent s
      → k < s.attempts
      → Fits k (conclude agent raw actions s)
  unfolding conclude request_verification
  conclude-Fits raw actions s k h lt = elim (Option-cases (find (λ a. is_final a.kind) actions)) [
    | inl e ↦
        let q = record_retries-Quiet agent actions s in
        rw (e, conclude)
          (Quiet-Live agent (Quiet-trans agent q (ground arith)) h, ground (arith, q))
    | inr (a, e) ↦ elim (Bool-cases (needs_verification agent s)) [
      | inl wanted ↦ rw (e, conclude) (rw wanted (ground arith, ground arith))
      | inr fine ↦
          rw (e, conclude) (rw fine (finish_success-IsClosed agent _ s (Live-IsOpen agent h)))
    ]
  ]

  -- What the tools of an output leave.
  abbrev After : ℕ → Flow (State agent) × State agent → Type 0
  After k (interrupted reason, t) = IsOpen agent t
  After k (done s1, t) = Live agent s1 × (k < s1.attempts)

  count_steps-After :
      (actions : List (Action Args)) (s : State agent) (k : ℕ) (r : Flow ℕ × State agent)
      → Live agent s
      → k < s.attempts
      → Batched agent actions s r
      → Short agent (max_steps - s.tool_steps) r
      → After k (count_steps agent r)
  unfolding count_steps
  count_steps-After actions s k (interrupted reason, t) h lt (e, q) short =
      Quiet-IsOpen agent q (Live-IsOpen agent h)
  count_steps-After actions s k (done n, t) h lt (results, w, e, ran, count) short =
      (ground arith, ground arith)

  after_tools-Fits :
      (raw : Raw) (actions : List (Action Args)) (r : Flow (State agent) × State agent) (k : ℕ)
      → After k r
      → Fits k (after_tools agent raw actions r)
  unfolding after_tools
  after_tools-Fits raw actions (interrupted reason, s) k h = h
  after_tools-Fits raw actions (done t, s) k h = conclude-Fits raw actions t k h.0 h.1

  take_actions-Fits :
      (bundle : Bundle) (raw : Raw) (actions : List (Action Args)) (s : State agent) (k : ℕ)
      → Live agent s
      → k < s.attempts
      → Fits k (take_actions agent bundle raw actions s)
  unfolding take_actions run_tools
  take_actions-Fits bundle raw actions s k h lt =
      let tools = filter (λ a. is_tool a.kind) actions in
      let q = record_calls-Quiet agent bundle.native tools s in
      let s1 = record_calls agent bundle.native tools s in
      after_tools-Fits raw actions _ k (
        count_steps-After _ s1 k (execute_tool_batch agent tools s1) (Quiet-Live agent q h)
          (ground (arith, q)) (execute_tool_batch-Batched agent tools s1)
          (execute_tool_batch-Short agent tools s1))

  after_call-Fits :
      (bundle : Bundle) (r : Flow (Completed Raw)) (s : State agent) (k : ℕ)
      → Live agent s
      → k < s.attempts
      → Fits k (after_call agent bundle r s)
  unfolding after_call take_answer
  after_call-Fits bundle (interrupted reason) s k h lt = Live-IsOpen agent h
  after_call-Fits bundle (done (failed message)) s k h lt =
      finish_model_error-IsClosed agent message s (Live-IsOpen agent h)
  after_call-Fits bundle (done (answered raw i o)) s k h lt =
      let parsed = truncate_after_final (agent.parse_model_actions bundle.native raw) in
      let q = take_in-Quiet agent bundle raw i o parsed.1 s in
      take_actions-Fits bundle raw parsed.0 _ k (Quiet-Live agent q h) (ground (arith, q))

  -- A run whose attempt is counted and whose model is not called.
  record Ready (s : State agent) : Type 0 where
    live : Live agent s
    one_more : s.task.model_turns + 1 ≤ s.task.attempts

  ask_model-Fits :
      (bundle : Bundle) (s : State agent) (k : ℕ)
      → Ready s
      → k < s.attempts
      → Fits k (ask_model agent bundle s)
  unfolding ask_model announce_call record_model_turn
  ask_model-Fits bundle s k h lt =
      let q = note_both-Quiet agent bundle s in
      after_call-Fits bundle _ _ k (ground (arith, q)) (ground (arith, q))

  prepare-Ready : (s : State agent) → Ready s → Ready (prepare_prompt agent s).1
  prepare-Ready s h = let q = prepare_prompt-Quiet agent s in ground (arith, q)

  count-Ready :
      (s : State agent)
      → Live agent s
      → s.attempts < max_attempts agent
      → Ready (count_attempt agent s)
  unfolding count_attempt record_attempt
  count-Ready s h lt = ground arith

  counted_lt :
      (s : State agent) {t : State agent} (k : ℕ)
      → Quiet agent (count_attempt agent s) t
      → k ≤ s.attempts
      → k < t.attempts
  unfolding count_attempt
  counted_lt s k q le = ground arith

  decide-Fits :
      (s : State agent) (k : ℕ)
      → Live agent s
      → s.attempts < max_attempts agent
      → k ≤ s.attempts
      → Fits k (decide agent s)
  unfolding decide
  decide-Fits s k h lt le =
      let r : Ready (count_attempt agent s) = count-Ready s h lt in
      let q = prepare_prompt-Quiet agent (count_attempt agent s) in
      let p = prepare_prompt agent (count_attempt agent s) in
      elim (Bool-cases p.0.sendable) [
        | inl e ↦
            rw (e, decide) (ask_model-Fits p.0 p.1 k (prepare-Ready _ r) (counted_lt s k q le))
        | inr e ↦
            rw (e, decide)
              (finish_overflow-IsClosed agent p.0 p.1 (Live-IsOpen agent (prepare-Ready _ r).live))
      ]

  after_budget-Fits :
      (found : Option String) (s : State agent) (k : ℕ)
      → Live agent s
      → s.attempts < max_attempts agent
      → k ≤ s.attempts
      → Fits k (after_budget agent found s)
  unfolding after_budget
  after_budget-Fits none s k h lt le = decide-Fits s k h lt le
  after_budget-Fits (some dimension) s k h lt le =
      finish_budget-IsClosed agent dimension s (Live-IsOpen agent h)

  pub round-Fits :
      (s : State agent)
      → Live agent s
      → s.attempts < max_attempts agent
      → Fits s.attempts (round agent s)
  unfolding round
  round-Fits s h lt =
      let q = open_round-Quiet agent s in
      after_budget-Fits _ (open_round agent s) s.attempts (Quiet-Live agent q h) (ground (arith, q))
        (ground (arith, q))
