-- ===== src/Loop/World.antt =====
-- What the loop uses of the agent, its own state, and the calls by which it acts on the world: the
-- session, the files of the run, the user's terminal and the model.
use moss_code.Base.{ℕ, String, Bool, Option, List, ◌∷◌}
use moss_code.Budget.{Floats, RunBudget}
use moss_code.Stall.{StallSignal, Kind}
use moss_code.Task.{TaskState}
use moss_code.Executor.Runtime.{Metadata, ToolExecutionResult}
use moss_code.Parser.{Action}

-- An entry of the history.
pub record Entry : Type 0 where
  pub role : String
  pub name : String
  pub content : String
  pub call_id : String

-- A call of the agent that returns nothing the loop uses.
pub data Effect (Args : Type 0) : Type 0 where
  -- A method without arguments, or one whose arguments only go to a file.
  called : String → Effect Args
  -- `emit_trace` and `emit_progress`, by the name of the event
  traced : String → Effect Args
  progressed : String → Effect Args
  recorded : Entry → Effect Args
  -- `write_task_state`, with the status and the stop reason that it writes
  wrote_state : String → String → Effect Args
  -- `create_checkpoint`, by its trigger
  checkpointed : String → Effect Args
  -- `write_report`, with the status, the stop reason and the answer that it writes
  reported : String → String → String → Effect Args
  -- `release_run`
  released : Effect Args
  hooked : String → Effect Args
  promoted : String → Effect Args
  -- What a tool call leaves: the memory, the process note and the outcome for the stall detection
  remembered : String → Args → String → Effect Args
  noted : String → Metadata → Effect Args
  outcome : String → Args → Metadata → Effect Args

pub data Notice : Type 0 where
  instruction_loaded : String → String → String → Notice
  instruction_conflict : Notice

pub record Pressure : Type 0 where
  pub step_id : String
  pub title : String
  pub spent_steps : ℕ

-- What `build_context_result` returns.
pub record Bundle : Type 0 where
  pub text : String
  pub sendable : Bool
  pub overflow_reason : String
  pub overflow_detail : String
  pub resume_status : String
  -- `budget_reductions` names sections, and names the history
  pub has_reductions : Bool
  pub reduces_history : Bool
  -- `context_utilization` is above 0.8
  pub is_crowded : Bool
  pub native : Bool

-- What a tool outcome tells `_needs_verification`.
pub record ToolOutcome : Type 0 where
  pub workspace_changed : Bool
  pub verification : Bool

-- A call that may be broken off by the user, or by a signal.
pub data Flow {ℓ} (A : Type ℓ) : Type ℓ where
  done : A → Flow A
  interrupted : String → Flow A

-- A call of the model: an answer with the tokens it reports, or the message of an exception.
pub data Completed (Raw : Type 0) : Type 0 where
  answered : Raw → Option ℕ → Option ℕ → Completed Raw
  failed : String → Completed Raw

pub record Agent : Type 1 where
  pub W : Type 0
  pub Args : Type 0
  pub Item : Type 0
  pub Raw : Type 0
  pub fl : Floats
  pub max_steps : ℕ
  pub compaction_off : Bool
  pub parallel_tools : Bool
  pub verify_before_final : Bool
  pub has_shell : Bool
  -- `int(max_steps * 0.8)`
  pub four_fifths : ℕ → ℕ
  pub new_run_budget : RunBudget fl
  pub apply : Effect Args → W → W
  pub new_run_id : W → String
  pub new_task_id : W → String
  pub now : W → String
  pub resume_status : W → String
  pub new_checkpoint_id : W → String
  -- `time.monotonic() - run_started_at`
  pub elapsed : W → fl.F
  pub build_context_result : String → W → Bundle × W
  -- Whether the context was compacted.
  pub compact_context : String → W → Bool × W
  -- The text with the pointer that replaces a request.
  pub offload_request : String → W → Option String × W
  -- The model, with or without tools.
  pub complete : Bundle → Bool → W → Flow (Completed Raw) × W
  -- Whether the cache capability of the client changed.
  pub probe : W → Bool × W
  -- The output where it is a text, else the empty text; and `str` of it.
  pub raw_text : Raw → String
  pub raw_str : Raw → String
  pub redact_text : String → String
  pub parse_model_actions : Bool → Raw → List (Action Args)
  pub estimate_tokens : String → ℕ
  pub price_for_usage : ℕ → ℕ → Option fl.F
  -- Whether the tool is known and not risky.
  pub is_read_only_tool : String → Bool
  pub execute_tool : Bool → Action Args → W → Flow ToolExecutionResult × W
  pub arg_path : Args → String
  pub note_anchor_outcome : String → W → Bool × W
  pub drain_instruction_notices : W → List Notice × W
  pub stall_events : W → List ToolOutcome
  pub detect_stall : W → Option StallSignal
  pub stall_notice : StallSignal → String
  pub check_plan_pressure : W → Option Pressure

module _ (agent : Agent) where
  open agent use {W, Args, Item, fl, apply}

  -- The log holds the calls of the run, the last one first.
  pub record State : Type 0 where
    pub world : W
    pub log : List (Effect Args)
    pub task : TaskState Item
    pub budget : RunBudget fl
    pub tool_steps : ℕ
    pub attempts : ℕ
    pub prompt_message : String
    pub history_reduction_streak : ℕ
    pub converge_notice_sent : Bool
    pub stall_notices_sent : List Kind

  unfoldable pub act : Effect Args → State → State
  act e s = record s { world = apply e s.world; log = e ∷ s.log }

  unfoldable pub note : String → String → State → State
  unfolding act
  note role content s =
      act (recorded (record { role = role; name = ""; content = content; call_id = "" })) s

  unfoldable pub write_task_state : State → State
  unfolding act
  write_task_state s = act (wrote_state s.task.status s.task.stop_reason) s

  -- `create_checkpoint` leaves its id in the state of the run.
  unfoldable pub create_checkpoint : String → State → State
  unfolding act
  create_checkpoint trigger s =
      let id = agent.new_checkpoint_id s.world in
      let t = act (checkpointed trigger) s in
      record t { task = record t.task { checkpoint_id = id } }

  -- A checkpoint with its trace event.
  unfoldable pub trace_checkpoint : String → State → State
  unfolding act create_checkpoint
  trace_checkpoint trigger s = act (traced "checkpoint_created") (create_checkpoint trigger s)

  -- The same with the state written in between.
  unfoldable pub write_checkpoint : String → State → State
  unfolding act create_checkpoint write_task_state
  write_checkpoint trigger s =
      act (traced "checkpoint_created") (write_task_state (create_checkpoint trigger s))
