-- ===== src/Loop/Steps.antt =====
-- A batch of tool calls: how many steps it takes, and in which order its results are recorded.
use moss_code.Base.{
  ℕ, suc, ◌+◌, ◌-◌, ◌≤◌, ◌≡◌, refl, ap, Bool, List, [], ◌∷◌, arith, length, length-take,
}
use moss_code.Task.{record_tool_call, record_tool}
use moss_code.Parser.{Action}
use moss_code.Executor.Runtime.{ToolExecutionResult}
use moss_code.Loop.World.{
  Entry, Agent, State, traced, Flow, done, interrupted, act, write_task_state, write_checkpoint,
}
use moss_code.Loop.Batch.{
  sort_by_index, run_actions, announce, record_result, after_result, join_results, finish_batch,
  settle, settle_all, admitted, run_batch, start_batch, execute_tool_batch, can_run_in_parallel,
}
use moss_code.Loop.Runs.{Execution, none_left, run_actions-Execution}
use moss_code.Loop.Quiet.{
  Quiet, Quiet-trans, ends, tool_entries, note_anchor-Quiet, record_instruction_notices-Quiet,
  check_stall-Quiet, check_plan_pressure-Quiet,
}

module _ (agent : Agent) where
  open agent use {W, Args, Item, max_steps}

  -- The entries of the results, the last one first, above those that are there: each has the name and the id of
  -- its call, and the content of its result.
  abbrev pub stacked : List (Action Args) → List ToolExecutionResult → List Entry → List Entry
  stacked [] results entries = entries
  stacked (a ∷ actions) [] entries = entries
  stacked (a ∷ actions) (r ∷ results) entries =
      stacked actions results (
        record { role = "tool"; name = a.name; content = r.content; call_id = a.call_id } ∷ entries)

  -- The task counts a step more for each action, the history has the result of each, in their order, and
  -- nothing else that matters to the end has changed.
  pub record Ran (actions : List (Action Args)) (results : List ToolExecutionResult)
      (s t : State agent) : Type 0 where
    pub entries : tool_entries t.log ≡ stacked actions results (tool_entries s.log)
    pub same_ends : ends t.log ≡ ends s.log
    pub same_status : t.task.status ≡ s.task.status
    pub more_done : t.task.tool_steps ≡ s.task.tool_steps + length actions
    pub same_steps : t.tool_steps ≡ s.tool_steps
    pub same_tries : t.task.attempts ≡ s.task.attempts
    pub same_attempts : t.attempts ≡ s.attempts
    pub same_turns : t.task.model_turns ≡ s.task.model_turns

  Ran-Quiet :
      {actions : List (Action Args)} {results : List ToolExecutionResult} {s t u : State agent}
      → Ran actions results s t
      → Quiet agent t u
      → Ran actions results s u
  Ran-Quiet r q = ground arith

  pub Quiet-Ran :
      {actions : List (Action Args)} {results : List ToolExecutionResult} {s t u : State agent}
      → Quiet agent s t
      → Ran actions results t u
      → Ran actions results s u
  Quiet-Ran {actions} {results} q r = ground (arith, ap (stacked actions results) q.same_entries)

  Ran-cons :
      (a : Action Args) (actions : List (Action Args)) (r : ToolExecutionResult)
      (results : List ToolExecutionResult) {s t u : State agent}
      → Ran (a ∷ []) (r ∷ []) s t
      → Ran actions results t u
      → Ran (a ∷ actions) (r ∷ results) s u
  Ran-cons a actions r results p q = ground (arith, ap (stacked actions results) p.entries)

  record_result-Ran :
      (a : Action Args) (result : ToolExecutionResult) (s : State agent)
      → Ran (a ∷ []) (result ∷ []) s (record_result agent a result s)
  unfolding record_result record_tool
  record_result-Ran a result s = ground arith

  after_result-Quiet : (a : Action Args) (s : State agent) → Quiet agent s (after_result agent a s)
  unfolding after_result
  after_result-Quiet a s =
      Quiet-trans agent (note_anchor-Quiet agent a s) (record_instruction_notices-Quiet agent _)

  -- The calls at the end of a step.
  write_step-Quiet :
      (s : State agent)
      → Quiet agent s (
          write_checkpoint agent "tool_executed"
            (act agent (traced "tool_executed") (write_task_state agent s)))
  unfolding write_checkpoint
  write_step-Quiet s = ground arith

  settle-Ran :
      (a : Action Args) (result : ToolExecutionResult) (s : State agent)
      → Ran (a ∷ []) (result ∷ []) s (settle agent a result s)
  unfolding settle
  settle-Ran a result s =
      Ran-Quiet (Ran-Quiet (record_result-Ran a result s) (after_result-Quiet a _))
        (write_step-Quiet _)

  settle_all-Ran :
      (actions : List (Action Args)) (results : List ToolExecutionResult) (s : State agent)
      → length results ≡ length actions
      → Ran actions results s (settle_all agent actions results s)
  unfolding settle_all
  settle_all-Ran [] results s e = ground arith
  settle_all-Ran (a ∷ actions) [] s e = absurd (omega arith)
  settle_all-Ran (a ∷ actions) (r ∷ results) s e =
      let ih = settle_all-Ran actions results (settle agent a r s) (omega arith) in
      Ran-cons a actions r results (settle-Ran a r s) ih

  announce-Quiet :
      (actions : List (Action Args)) (s : State agent) → Quiet agent s (announce agent actions s)
  unfolding announce record_tool_call
  announce-Quiet [] s = ground arith
  announce-Quiet (a ∷ actions) s = Quiet-trans agent (ground arith) (announce-Quiet actions _)

  abbrev Counts : ℕ → Flow (List ToolExecutionResult) → Type 0
  Counts n (interrupted reason) = Unit
  Counts n (done results) = length results ≡ n

  join_results-Counts :
      (n : ℕ) (first : Flow ToolExecutionResult × W) (rest : Flow (List ToolExecutionResult) × W)
      → Counts n rest.0
      → Counts (suc n) (join_results agent first rest).0
  unfolding join_results
  join_results-Counts n (interrupted reason, w1) rest h = tt
  join_results-Counts n (done result, w1) (interrupted reason, w2) h = tt
  join_results-Counts n (done result, w1) (done results, w2) h = omega (arith, h)

  -- A result for each action, unless the batch was broken off.
  run_actions-Counts :
      (parallel : Bool) (actions : List (Action Args)) (w : W)
      → Counts (length actions) (run_actions agent parallel actions w).0
  unfolding run_actions
  run_actions-Counts parallel [] w = refl
  run_actions-Counts parallel (a ∷ actions) w =
      join_results-Counts (length actions) (agent.execute_tool parallel a w) _
        (run_actions-Counts parallel actions _)

  -- The world that a batch begins in, and how it runs.
  abbrev pub begun_world : List (Action Args) → State agent → W
  begun_world actions s =
      (announce agent actions (act agent (traced "tools_batch_started") s)).world

  abbrev pub Executed :
      List (Action Args) → State agent → Flow (List ToolExecutionResult) → W → Type 0
  Executed actions s =
      Execution agent (can_run_in_parallel agent actions) actions (begun_world actions s)

  -- A batch that ran to its end, whose results are those in the history, or one that was broken off.
  abbrev pub Batched : List (Action Args) → State agent → Flow ℕ × State agent → Type 0
  Batched actions s (interrupted reason, t) =
      Executed actions s (interrupted reason) t.world × Quiet agent s t
  Batched actions s (done n, t) =
      (results : List ToolExecutionResult) × (w : W) × Executed actions s (done results) w
      × Ran actions results s t
      × (n ≡ length actions)

  finish_batch-Batched :
      (actions : List (Action Args)) (s s2 : State agent) (r : Flow (List ToolExecutionResult))
      → Quiet agent s s2
      → Counts (length actions) r
      → Executed actions s r s2.world
      → Batched actions s (finish_batch agent actions r s2)
  unfolding finish_batch
  finish_batch-Batched actions s s2 (interrupted reason) q h e = (e, q)
  finish_batch-Batched actions s s2 (done results) q h e =
      let r1 = Quiet-Ran q (settle_all-Ran actions results s2 h) in
      (
        results,
        s2.world,
        e,
        Ran-Quiet
            (Ran-Quiet
              {u = act agent (traced "tools_batch_finished") (settle_all agent actions results s2)}
              r1 (ground arith))
            (Quiet-trans agent (check_stall-Quiet agent _) (check_plan_pressure-Quiet agent _)),
        refl,
      )

  run_batch-Batched :
      (actions : List (Action Args)) (s : State agent)
      → Batched actions s (run_batch agent actions s)
  unfolding run_batch
  run_batch-Batched actions s =
      let s1 = announce agent actions (act agent (traced "tools_batch_started") s) in
      let w = (run_actions agent (can_run_in_parallel agent actions) actions s1.world).1 in
      finish_batch-Batched actions s (record s1 { world = w }) _
        (Quiet-trans agent
          (Quiet-trans agent {t = act agent (traced "tools_batch_started") s} (ground arith)
            (announce-Quiet actions _))
          (ground arith))
        (run_actions-Counts _ actions _) (run_actions-Execution agent _ actions _)

  abbrev pub Short : ℕ → Flow ℕ × State agent → Type 0
  Short k (interrupted reason, t) = Unit
  Short k (done n, t) = n ≤ k

  finish_batch-Short :
      (actions : List (Action Args)) (r : Flow (List ToolExecutionResult)) (s : State agent) (k : ℕ)
      → length actions ≤ k
      → Short k (finish_batch agent actions r s)
  unfolding finish_batch
  finish_batch-Short actions (interrupted reason) s k h = tt
  finish_batch-Short actions (done results) s k h = h

  start_batch-Batched :
      (actions : List (Action Args)) (s : State agent)
      → Batched actions s (start_batch agent actions s)
  unfolding start_batch
  start_batch-Batched [] s = ([], begun_world [] s, none_left, ground arith, refl)
  start_batch-Batched (a ∷ actions) s = run_batch-Batched (a ∷ actions) s

  start_batch-Short :
      (actions : List (Action Args)) (s : State agent) (k : ℕ)
      → length actions ≤ k
      → Short k (start_batch agent actions s)
  unfolding start_batch run_batch
  start_batch-Short [] s k h = h
  start_batch-Short (a ∷ actions) s k h = finish_batch-Short (a ∷ actions) _ _ k h

  pub execute_tool_batch-Batched :
      (actions : List (Action Args)) (s : State agent)
      → Batched (admitted agent actions s.tool_steps) s (execute_tool_batch agent actions s)
  unfolding execute_tool_batch
  execute_tool_batch-Batched actions s = start_batch-Batched _ s

  -- No batch takes more steps than are left.
  pub execute_tool_batch-Short :
      (actions : List (Action Args)) (s : State agent)
      → Short (max_steps - s.tool_steps) (execute_tool_batch agent actions s)
  unfolding execute_tool_batch admitted
  execute_tool_batch-Short actions s =
      start_batch-Short _ s _
        (omega (arith, length-take (max_steps - s.tool_steps) (sort_by_index actions)))
