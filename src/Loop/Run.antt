-- ===== src/Loop/Run.antt =====
-- `run` and `_run`: the state of a fresh run, the loop, and what is done however it ends.
use moss_code.Base.{
  ℕ, suc, zero, ◌+◌, ◌*◌, String, Bool, true, false, ◌&&◌, List, [], ◌∷◌, if◌then◌else◌, ltb, leb,
}
use moss_code.Task.{create}
use moss_code.Stall.{Kind}
use moss_code.Loop.World.{
  Agent, State, Effect, called, traced, recorded, hooked, Flow, done, interrupted, act,
}
use moss_code.Loop.Finish.{finish_interrupted}
use moss_code.Loop.Last.{stop_at_step_limit, stop_at_retry_limit}
use moss_code.Loop.Rounds.{Turn, again, ended, broken}
use moss_code.Loop.Turns.{round}

-- `out_of_rounds`: the fuel was too small.
pub data Ending (S : Type 0) : Type 0 where
  answer : String → S → Ending S
  raised : String → S → Ending S
  out_of_rounds : S → Ending S

module _ (agent : Agent) where
  open agent use {W, Args, Item, fl, max_steps}

  -- `max(agent.max_steps * 3, agent.max_steps + 4)`
  abbrev pub max_attempts : ℕ
  max_attempts = if ltb (max_steps * 3) (max_steps + 4) then max_steps + 4 else max_steps * 3

  -- The test of the loop.
  unfoldable pub goes_on : State agent → Bool
  goes_on s = ltb s.tool_steps max_steps && ltb s.attempts max_attempts

  abbrev pub from_flow : Flow String × State agent → Ending (State agent)
  from_flow (interrupted reason, s) = raised reason s
  from_flow (done final, s) = answer final s

  -- Behind the loop: too many attempts, or too many steps.
  unfoldable pub leave : String → State agent → Ending (State agent)
  unfolding stop_at_step_limit stop_at_retry_limit
  leave message s =
      if leb max_attempts s.attempts && ltb s.tool_steps max_steps
      then (let (final, t) = stop_at_retry_limit agent s in answer final t)
      else from_flow (stop_at_step_limit agent message s)

  -- What a round leads to, with the rounds that may follow.
  unfoldable pub after_round :
      (State agent → Ending (State agent)) → Turn (State agent) → Ending (State agent)
  after_round next (again t) = next t
  after_round next (ended final t) = answer final t
  after_round next (broken reason t) = raised reason t

  unfoldable pub rounds : ℕ → String → State agent → Ending (State agent)
  unfolding goes_on leave round after_round
  rounds zero message s = out_of_rounds s
  rounds (suc fuel) message s = elim (goes_on s) [
    | false ↦ leave message s
    | true ↦ after_round (rounds fuel message) (round agent s)
  ]

  -- The calls of a log, the first one last, on the world.
  abbrev pub apply_all : List (Effect Args) → W → W
  apply_all [] w = w
  apply_all (e ∷ es) w = agent.apply e (apply_all es w)

  -- The state at the head of the loop, and the calls that lead to it.
  unfoldable pub begin_run : String → ℕ → List Kind → W → State agent
  unfolding act create
  begin_run message streak sent w =
      let opening =
        recorded (record { role = "user"; name = ""; content = message; call_id = "" })
        ∷ called "set_task_summary"
        ∷ called "cancel_token_clear"
        ∷ called "begin_run"
        ∷ [] in
      let w1 = apply_all opening w in
      let task = create Item (agent.new_task_id w1) message (agent.new_run_id w1) (agent.now w1) in
      act agent (traced "run_started") (
        act agent (called "start_heartbeat") (
          act agent (called "start_run") (record {
            world = w1;
            log = opening;
            task = record task { resume_status = agent.resume_status w1 };
            budget = agent.new_run_budget;
            tool_steps = 0;
            attempts = 0;
            prompt_message = message;
            history_reduction_streak = streak;
            converge_notice_sent = false;
            stall_notices_sent = sent;
          })))

  -- `finally`: the heartbeat, the history, the hook, and the end of the run.
  unfoldable pub clean_up : State agent → State agent
  unfolding act
  clean_up s = act agent (called "end_run") (
      act agent (hooked "post_run")
        (act agent (called "clear_pending_history") (act agent (called "stop_heartbeat") s)))

  -- `run`, with the part around `_run`.
  unfoldable pub wrap_up : Ending (State agent) → Ending (State agent)
  unfolding clean_up finish_interrupted
  wrap_up (answer final s) = answer final (clean_up s)
  wrap_up (raised reason s) = raised reason (clean_up (finish_interrupted agent reason s))
  wrap_up (out_of_rounds s) = out_of_rounds s

  -- The rounds: one for each attempt, and one to leave.
  unfoldable pub run : String → ℕ → List Kind → W → Ending (State agent)
  unfolding begin_run rounds wrap_up
  run message streak sent w =
      wrap_up (rounds (max_attempts + 1) message (begin_run message streak sent w))
