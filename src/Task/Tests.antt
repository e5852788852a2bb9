-- ===== src/Task/Tests.antt =====
-- A run of the state, and the theorems of this folder at it. The items of a plan are texts.
use moss_code.Base.{ℕ, ◌≡◌, refl, String, Bool, false, Option, none, some, List}
use moss_code.Task.{
  TaskState, Value, text, number, flag, items, Convert, create, record_attempt, record_tool,
  finish_success, to_dict, from_dict,
}
use moss_code.Task.Form.{normal, from_dict-to_dict}
use moss_code.Task.Stops.{done, more, tool, finish, IsConsistent, Steps-IsConsistent}

abbrev str_of : Value String → String
str_of (text s) = s
str_of _ = "?"

abbrev int_of : Value String → Option ℕ
int_of (number n) = some n
int_of _ = none

abbrev bool_of : Value String → Bool
bool_of (flag b) = b
bool_of _ = false

abbrev list_of : Value String → Option (List String)
list_of (items xs) = some xs
list_of _ = none

abbrev sample : Convert String
sample = record {
  str = str_of;
  int = int_of;
  bool = bool_of;
  list = list_of;
  str-text = λ s. refl;
  int-number = λ n. refl;
  bool-flag = λ b. refl;
  list-items = λ xs. refl;
}

abbrev started : TaskState String
unfolding create
started = create String "task_1" "fix the test" "run_1" "2026-01-01"

abbrev finished : TaskState String
unfolding finish_success record_tool record_attempt
finished =
    finish_success String "fixed" (record_tool String "run_shell" (record_attempt String started))

finished_counts :
    (finished.attempts ≡ 1) × (finished.tool_steps ≡ 1) × (finished.status ≡ "completed")
unfolding finished started record_attempt record_tool finish_success create
finished_counts = (refl, refl, refl)

from_dict-to_dict_example :
    from_dict String sample (to_dict String finished) ≡ some (normal String sample finished)
from_dict-to_dict_example = from_dict-to_dict String sample finished

Steps-IsConsistent_example : IsConsistent String (
    finish_success String "fixed"
      (record_tool String "run_shell" (create String "task_1" "fix the test" "run_1" "2026-01-01")))
Steps-IsConsistent_example =
    Steps-IsConsistent String "task_1" "fix the test" "run_1" "2026-01-01"
      (finish_success String "fixed" (
        record_tool String "run_shell"
          (create String "task_1" "fix the test" "run_1" "2026-01-01")))
      (more (more done (tool "run_shell")) (finish "fixed"))
