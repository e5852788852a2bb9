-- ===== src/Executor.antt =====
-- moss/execution/executor.py: one tool call, from its guards to its receipt.
pub mod Runtime
pub mod Texts
pub mod Guards
pub mod Run
pub mod Refuse
pub mod Receipts
mod Tests
use moss_code.Base.{Option, none, some, String, Bool}
use moss_code.Shell.Command.{ShellLib}
use moss_code.Executor.Runtime.{Agent, State, ToolExecutionResult}
use moss_code.Executor.Guards.{Guarded, refused, cleared, guards}
use moss_code.Executor.Run.{run_cleared}

module _ (W Args : Type 0) (fnmatch : String → String → Bool) (lib : ShellLib)
    (agent : Agent W Args) where
  -- `ToolExecutor.execute` without deferred side effects.
  unfoldable pub execute : String → Args → State W → ToolExecutionResult × State W
  execute name args s = elim (guards W Args fnmatch lib agent name args s) [
    | refused result s' ↦ (result, s')
    | cleared tool receipt s' ↦ run_cleared W Args fnmatch lib agent name args tool receipt s'
  ]
