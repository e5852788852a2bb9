-- ===== src/Loop/Runs.antt =====
-- How the actions of a batch run, one behind the other.
use moss_code.Base.{◌≡◌, refl, String, Bool, List, [], ◌∷◌}
use moss_code.Parser.{Action}
use moss_code.Executor.Runtime.{ToolExecutionResult}
use moss_code.Loop.World.{Agent, Flow, done, interrupted}
use moss_code.Loop.Batch.{run_actions, join_results}

module _ (agent : Agent) where
  open agent use {W, Args}

  -- What the actions make of the world, one behind the other: the first one runs first, in the world that the
  -- batch begins in, each next one in the world that the one before leaves, and one that is broken off
  -- is the last one.
  pub data Execution (parallel : Bool)
      : List (Action Args) → W → Flow (List ToolExecutionResult) → W → Type 0 where
    none_left : {w : W} → Execution parallel [] w (done []) w
    step :
        {a : Action Args} {actions : List (Action Args)} {w w1 w2 : W}
        {result : ToolExecutionResult} {results : List ToolExecutionResult}
        → agent.execute_tool parallel a w ≡ (done result, w1)
        → Execution parallel actions w1 (done results) w2
        → Execution parallel (a ∷ actions) w (done (result ∷ results)) w2
    broken_here :
        {a : Action Args} {actions : List (Action Args)} {w w1 : W} {reason : String}
        → agent.execute_tool parallel a w ≡ (interrupted reason, w1)
        → Execution parallel (a ∷ actions) w (interrupted reason) w1
    broken_later :
        {a : Action Args} {actions : List (Action Args)} {w w1 w2 : W}
        {result : ToolExecutionResult} {reason : String}
        → agent.execute_tool parallel a w ≡ (done result, w1)
        → Execution parallel actions w1 (interrupted reason) w2
        → Execution parallel (a ∷ actions) w (interrupted reason) w2

  joined-Execution :
      (parallel : Bool) (a : Action Args) (actions : List (Action Args)) (w : W)
      (first : Flow ToolExecutionResult × W) (rest : Flow (List ToolExecutionResult) × W)
      → agent.execute_tool parallel a w ≡ first
      → Execution parallel actions first.1 rest.0 rest.1
      → Execution parallel
          (a ∷ actions)
          w
          (join_results agent first rest).0
          (join_results agent first rest).1
  unfolding join_results
  joined-Execution parallel a actions w (interrupted reason, w1) rest e h = broken_here e
  joined-Execution parallel a actions w (done result, w1) (interrupted reason, w2) e h =
      broken_later e h
  joined-Execution parallel a actions w (done result, w1) (done results, w2) e h = step e h

  pub run_actions-Execution :
      (parallel : Bool) (actions : List (Action Args)) (w : W)
      → Execution parallel actions w
          (run_actions agent parallel actions w).0
          (run_actions agent parallel actions w).1
  unfolding run_actions
  run_actions-Execution parallel [] w = none_left
  run_actions-Execution parallel (a ∷ actions) w =
      joined-Execution parallel a actions w (agent.execute_tool parallel a w) _ refl
        (run_actions-Execution parallel actions _)
