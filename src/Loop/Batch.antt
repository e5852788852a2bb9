-- ===== src/Loop/Batch.antt =====
-- `_execute_tool_batch`, with `_can_run_in_parallel` and `_run_actions`.
use moss_code.Base.{
  ℕ, ◌-◌, Bool, not, ◌&&◌, List, [], ◌∷◌, if◌then◌else◌, ltb, leb, length, take, all, elem,
}
use moss_code.Task.{record_tool_call, record_tool}
use moss_code.Executor.Runtime.{ToolExecutionResult}
use moss_code.Parser.{Action}
use moss_code.Loop.World.{
  Agent, State, traced, progressed, recorded, remembered, noted, outcome, Flow, done, interrupted,
  act, write_task_state, write_checkpoint,
}
use moss_code.Loop.Notices.{record_instruction_notices, check_stall, check_plan_pressure}

module _ {Args : Type 0} where
  -- `sorted(actions, key=lambda action: action.index)`, which is stable.
  unfoldable pub insert_by_index : Action Args → List (Action Args) → List (Action Args)
  insert_by_index a [] = a ∷ []
  insert_by_index a (b ∷ bs) =
      let later = insert_by_index a bs in if leb a.index b.index then a ∷ b ∷ bs else b ∷ later

  unfoldable pub sort_by_index : List (Action Args) → List (Action Args)
  unfolding insert_by_index
  sort_by_index [] = []
  sort_by_index (a ∷ actions) = insert_by_index a (sort_by_index actions)

module _ (agent : Agent) where
  open agent use {W, Args, Item, max_steps}

  unfoldable pub can_run_in_parallel : List (Action Args) → Bool
  can_run_in_parallel actions =
      not (ltb (length actions) 2)
      && agent.parallel_tools
      && all (λ a. agent.is_read_only_tool a.name) actions

  -- A result with those that follow; what is broken off ends the rest.
  unfoldable pub join_results :
      Flow ToolExecutionResult × W
      → Flow (List ToolExecutionResult) × W
      → Flow (List ToolExecutionResult) × W
  join_results (interrupted reason, w1) rest = (interrupted reason, w1)
  join_results (done result, w1) (interrupted reason, w2) = (interrupted reason, w2)
  join_results (done result, w1) (done results, w2) = (done (result ∷ results), w2)

  -- `_run_actions`: the results in the order of the actions, in a pool or not; a pool of read-only tools is
  -- taken to act like one call after the other.
  unfoldable pub run_actions : Bool → List (Action Args) → W → Flow (List ToolExecutionResult) × W
  unfolding join_results
  run_actions parallel [] w = (done [], w)
  run_actions parallel (a ∷ actions) w =
      let first = agent.execute_tool parallel a w in
      join_results first (run_actions parallel actions first.1)

  -- The calls before the batch runs.
  unfoldable pub announce : List (Action Args) → State agent → State agent
  unfolding act
  announce [] s = s
  announce (a ∷ actions) s =
      announce actions
        (act agent (progressed "tool") (record s { task = record_tool_call Item a.name s.task }))

  unfoldable pub note_anchor : Action Args → State agent → State agent
  unfolding act
  note_anchor a s =
      let (missed, w) = agent.note_anchor_outcome (agent.arg_path a.args) s.world in
      let t = record s { world = w } in
      if elem a.name ("read_file" ∷ "write_file" ∷ "edit_file" ∷ [])
      then (if missed then act agent (traced "anchor_miss") t else t)
      else s

  -- What follows one result: the step counts, and its entry goes into the history.
  unfoldable pub record_result : Action Args → ToolExecutionResult → State agent → State agent
  unfolding act
  record_result a result s =
      let s1 = record s { task = record_tool Item a.name s.task } in
      let s2 = act agent (progressed "tool_result") (
        act agent (outcome a.name a.args result.metadata) (
          act agent (noted a.name result.metadata)
            (act agent (remembered a.name a.args result.content) s1))) in
      act agent
        (recorded
          (record { role = "tool"; name = a.name; content = result.content; call_id = a.call_id }))
        s2

  -- The notices that the step led to.
  unfoldable pub after_result : Action Args → State agent → State agent
  unfolding note_anchor record_instruction_notices
  after_result a s = record_instruction_notices agent (note_anchor a s)

  unfoldable pub settle : Action Args → ToolExecutionResult → State agent → State agent
  unfolding act record_result after_result write_task_state write_checkpoint
  settle a result s = write_checkpoint agent "tool_executed" (
      act agent (traced "tool_executed")
        (write_task_state agent (after_result a (record_result a result s))))

  unfoldable pub settle_all :
      List (Action Args) → List ToolExecutionResult → State agent → State agent
  settle_all [] results s = s
  settle_all (a ∷ actions) [] s = s
  settle_all (a ∷ actions) (r ∷ results) s = settle_all actions results (settle a r s)

  -- The batch that runs: in the order of the indices, and no more than the steps that are left.
  unfoldable pub admitted : List (Action Args) → ℕ → List (Action Args)
  unfolding sort_by_index
  admitted actions tool_steps = take (max_steps - tool_steps) (sort_by_index actions)

  -- What follows the results of a batch.
  unfoldable pub finish_batch :
      List (Action Args) → Flow (List ToolExecutionResult) → State agent → Flow ℕ × State agent
  unfolding act settle_all check_stall check_plan_pressure
  finish_batch actions (interrupted reason) s = (interrupted reason, s)
  finish_batch actions (done results) s = (
    done (length actions),
    check_plan_pressure agent (
        check_stall agent
          (act agent (traced "tools_batch_finished") (settle_all actions results s))),
  )

  unfoldable pub run_batch : List (Action Args) → State agent → Flow ℕ × State agent
  unfolding act announce run_actions finish_batch
  run_batch actions s =
      let parallel = can_run_in_parallel actions in
      let s1 = announce actions (act agent (traced "tools_batch_started") s) in
      let (r, w) = run_actions parallel actions s1.world in
      finish_batch actions r (record s1 { world = w })

  unfoldable pub start_batch : List (Action Args) → State agent → Flow ℕ × State agent
  unfolding run_batch
  start_batch [] s = (done 0, s)
  start_batch (a ∷ actions) s = run_batch (a ∷ actions) s

  unfoldable pub execute_tool_batch : List (Action Args) → State agent → Flow ℕ × State agent
  unfolding admitted start_batch
  execute_tool_batch actions s = start_batch (admitted actions s.tool_steps) s
