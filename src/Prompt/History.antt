-- ===== src/Prompt/History.antt =====
-- moss/context/manager.py and moss/context/history.py: the section of the prompt that shows the history.
-- str.splitlines, str.lower, the arguments of a tool and the memory's summaries of files are parameters; the
-- counters for the report are left out.
use Prim.Native.String.{String}
use moss_code.Base.{
  ℕ, zero, suc, ◌+◌, ◌-◌, Bool, true, false, ◌&&◌, Option, none, some, List, [], ◌∷◌, ◌++◌,
  if◌then◌else◌, leb, ltb, concat, join, truthy, same, elem, strip, contains, any, filter, take,
  length, map,
}
use moss_code.Prompt.{Entry, tool_result_open_tag, clip_with}

pub record Reader (Args : Type 0) : Type 0 where
  pub measure : String → ℕ
  pub dumps : Args → String
  pub path_of : Args → String
  pub command_of : Args → String
  pub splitlines : String → List String
  pub lower : String → String
  pub file_summary : String → String

-- A rendered entry of the history.
pub record Shown : Type 0 where
  pub recent : Bool
  pub lines : List String

abbrev pub shell_signal_keywords : List String
shell_signal_keywords =
    "exit_code" ∷ "error" ∷ "err:" ∷ "fail" ∷ "failed" ∷ "failure" ∷ "traceback" ∷ "exception"
    ∷ "fatal" ∷ "no such" ∷ "not found" ∷ "cannot" ∷ "denied" ∷ "assert" ∷ []

abbrev pub or_lines : List String → List String → List String
or_lines [] lines = lines
or_lines (s ∷ ss) lines = s ∷ ss

abbrev pub transcript : List String → String
transcript lines = join "\n" ("Transcript:" ∷ lines)

abbrev pub max : ℕ → ℕ → ℕ
max m n = if leb m n then n else m

module _ (Args : Type 0) (r : Reader Args) where
  -- `shell_summary`
  abbrev pub summary_of_lines : List String → String
  summary_of_lines [] = "(empty)"
  summary_of_lines (line ∷ lines) =
      let signals =
        filter (λ l. any (λ k. contains k (r.lower l)) shell_signal_keywords) (line ∷ lines) in
      join " | " (take 3 (or_lines signals (line ∷ lines)))

  unfoldable pub shell_summary : String → String
  unfolding strip contains
  shell_summary content = summary_of_lines (filter truthy (map strip (r.splitlines content)))

  abbrev pub clip : String → ℕ → String → String
  clip = clip_with r.measure

  unfoldable pub render_history_item : Entry Args → ℕ → List String
  unfolding tool_result_open_tag clip_with
  render_history_item item limit =
      if same item.role "tool"
      then tool_result_open_tag Args r.dumps item
        ∷ clip item.content (max 20 limit) (if same item.name "run_shell" then "middle" else "head")
        ∷ "</tool_result>"
        ∷ []
      else concat ("[" ∷ item.role ∷ "] " ∷ clip item.content limit "head" ∷ []) ∷ []

  -- `_raw_history_text`
  abbrev pub raw_lines : Entry Args → List String
  raw_lines item =
      if same item.role "tool"
      then tool_result_open_tag Args r.dumps item ∷ item.content ∷ "</tool_result>" ∷ []
      else concat ("[" ∷ item.role ∷ "] " ∷ item.content ∷ []) ∷ []

  abbrev pub lines_of : (Entry Args → List String) → List (Entry Args) → List String
  lines_of render [] = []
  lines_of render (item ∷ items) = render item ++ lines_of render items

  unfoldable pub raw_history_text : List (Entry Args) → String
  raw_history_text [] = "Transcript:\n- empty"
  raw_history_text (item ∷ items) = transcript (lines_of raw_lines (item ∷ items))

  -- `_full_fidelity_history`
  unfoldable pub full_fidelity_history : List (Entry Args) → ℕ → Option String
  unfolding render_history_item
  full_fidelity_history history budget =
      let rendered = transcript (lines_of (λ item. render_history_item item budget) history) in
      if ltb budget (r.measure rendered) then none else some rendered

  abbrev pub first_line : List String → String
  first_line [] = ""
  first_line (line ∷ lines) = line

  abbrev pub command_or : String → String
  command_or command = if truthy command then command else "shell"

  -- `_summarize_old_tool_item`
  unfoldable pub summarize_old_tool_item : Entry Args → String
  unfolding shell_summary strip render_history_item
  summarize_old_tool_item item =
      if same item.name "run_shell"
      then concat
          (command_or (strip (r.command_of item.args)) ∷ " -> " ∷ shell_summary item.content ∷ [])
      else first_line (render_history_item item 60)

  abbrev pub old : List String → Shown
  old lines = record { recent = false; lines = lines }

  -- One entry before the recent ones, and the paths whose reading has been shown.
  unfoldable pub old_entry : Entry Args → List String → List Shown × List String
  unfolding strip summarize_old_tool_item
  old_entry item seen =
      let path = strip (r.path_of item.args) in
      let summary = r.file_summary path in
      let summarized = old (summarize_old_tool_item item ∷ []) ∷ [] in
      if same item.role "tool" && same item.name "read_file"
      then if elem path seen then ([], seen) else (
        if truthy summary
            then old (concat (path ∷ " -> " ∷ summary ∷ []) ∷ []) ∷ []
            else summarized,
        path ∷ seen,
      )
      else if same item.role "tool"
      then (summarized, seen)
      else (old (render_history_item item 60) ∷ [], seen)

  -- `_compressed_history_entries`: so many old entries, then the recent ones.
  unfoldable pub compressed_history_entries : ℕ → List (Entry Args) → List String → List Shown
  unfolding old_entry
  compressed_history_entries old_count [] seen = []
  compressed_history_entries zero (item ∷ history) seen =
      record { recent = true; lines = render_history_item item 900 }
      ∷ compressed_history_entries zero history seen
  compressed_history_entries (suc old_count) (item ∷ history) seen =
      let (shown, later) = old_entry item seen in
      shown ++ compressed_history_entries old_count history later

  abbrev pub clip_lines : ℕ → List String → List String
  clip_lines limit lines = map (λ line. clip line limit "head") lines

  -- What is left of the budget beside the lines that are shown.
  abbrev pub measured : List String → ℕ
  measured [] = 0
  measured (line ∷ lines) = r.measure line + 1 + measured lines

  abbrev pub shorter_lines : ℕ → Shown → List String → List String
  shorter_lines budget e kept =
      if e.recent
      then clip_lines (max 20 (budget - r.measure "Transcript:" - measured kept - 1)) e.lines
      else clip_lines 20 e.lines

  -- An entry is shown whole, or cut, or not at all.
  unfoldable pub add_entry : ℕ → Shown → List String → List String
  unfolding clip_with
  add_entry budget e kept =
      if leb (r.measure (transcript (e.lines ++ kept))) budget
      then e.lines ++ kept
      else if leb (r.measure (transcript (shorter_lines budget e kept ++ kept))) budget
      then shorter_lines budget e kept ++ kept
      else kept

  -- `for entry in reversed(history_entries)`: the last one first.
  unfoldable pub add_entries : ℕ → List Shown → List String
  unfolding add_entry
  add_entries budget [] = []
  add_entries budget (e ∷ entries) = add_entry budget e (add_entries budget entries)

  unfoldable pub fit_or_clip : List (Entry Args) → ℕ → String → String
  unfolding clip_with raw_history_text
  fit_or_clip history budget rendered =
      if ltb budget (r.measure rendered) && ltb 0 budget
      then clip (raw_history_text history) budget "tail"
      else rendered

  unfoldable pub compressed_history : List (Entry Args) → ℕ → String
  unfolding add_entries fit_or_clip compressed_history_entries
  compressed_history history budget =
      fit_or_clip history budget (
        transcript
          (add_entries budget (compressed_history_entries (length history - 6) history [])))

  abbrev pub full_or : Option String → String → String
  full_or none rendered = rendered
  full_or (some full) rendered = full

  -- `_render_history_section`, of the entries that are not pending.
  unfoldable pub render_history_section : List (Entry Args) → ℕ → String
  unfolding full_fidelity_history compressed_history
  render_history_section [] budget = "Transcript:\n- empty"
  render_history_section (item ∷ history) budget =
      full_or (full_fidelity_history (item ∷ history) budget)
        (compressed_history (item ∷ history) budget)
