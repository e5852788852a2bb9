-- ===== src/Compact.antt =====
-- moss/context/compaction.py: which part of the history is compacted, and what its summary says.
-- The items of the history carry what the compaction reads of them.
pub mod Steps
pub mod Extract
pub mod Model
pub mod Closure
pub mod Evidence
mod Tests
use Prim.Native.String
use moss_code.Base.{
  ℕ, zero, suc, ◌+◌, ◌-◌, String, Bool, true, false, not, ◌&&◌, ◌||◌, Option, none, some, List, [],
  ◌∷◌, ◌++◌, if◌then◌else◌, length, map, join, concat, decimal, truthy, elem, ◌==◌,
}
use moss_code.Tokens.{count_chars, clip_to_budget}
use moss_code.Compact.Steps.{Item, Step, execution_steps, compactable_steps, entries, tool_entries}
use moss_code.Compact.Extract.{
  Event, PlanStep, Finding, Extraction, Reader, covered_events, extract_rule,
}
use moss_code.Compact.Model.{AuxClient, extract_model}

pub record Artifact : Type 0 where
  pub id : String
  pub run_id : String
  pub covered_seq_start : ℕ
  pub covered_seq_end : ℕ
  pub method : String
  pub created_at : String
  pub raw_path : String
  pub before_tokens : ℕ
  pub after_tokens : ℕ
  pub covered_history_count : ℕ
  pub kept_history_count : ℕ
  pub content : Extraction

-- `"- Goals: " + " | ".join(…)`, if there are any.
abbrev pub section : String → List String → List String
section title [] = []
section title (x ∷ xs) = String.◌++◌ title (join " | " (x ∷ xs)) ∷ []

abbrev pub plan_text : PlanStep → String
plan_text p = concat (p.id ∷ " " ∷ p.title ∷ " [" ∷ p.status ∷ "]" ∷ [])

unfoldable pub render_lines : Artifact → List String
unfolding decimal
render_lines a =
    concat (
      "Context summary (compacted "
      ∷ decimal a.covered_history_count
      ∷ " earlier entries, events "
      ∷ decimal a.covered_seq_start
      ∷ "-"
      ∷ decimal a.covered_seq_end
      ∷ ", method="
      ∷ a.method
      ∷ "):"
      ∷ [])
    ∷ ((if truthy a.raw_path
          then concat (
              "- Full transcript kept at " ∷ a.raw_path ∷ "; read it with read_artifact(\""
              ∷ a.raw_path ∷ "\", start, end)." ∷ [])
            ∷ []
          else [])
        ++ (section "- Goals: " a.content.goals
            ++ (section "- Completed: " a.content.completed
                ++ (section "- Excluded (already ruled out, do not retry): " a.content.excluded
                    ++ (map (λ f. concat ("- Finding: " ∷ f.text ∷ " [" ∷ f.evidence ∷ "]" ∷ []))
                          a.content.findings
                        ++ (section "- Open questions: " a.content.open_questions
                            ++ section "- Plan: " (map plan_text a.content.plan)))))))

-- Cut to the budget in characters; the search behind `clip_to_budget` ends (Tokens.Clip).
unfoldable pub render_compaction : ℕ → Artifact → String
unfolding render_lines clip_to_budget
render_compaction budget a =
    elim (clip_to_budget count_chars (join "\n" (render_lines a)) budget "head" "...") [
      | none ↦ ""
      | some text ↦ text
    ]

-- What a call of `compact` is given besides the history and the trace.
pub record Request : Type 0 where
  pub use_model : Bool
  pub budget : ℕ
  pub aux_client : Option AuxClient
  pub run_id : String
  pub raw_path : String
  pub keep_recent : ℕ
  pub measure : String → ℕ
  pub created_at : String
  pub artifact_id : List Item → String → String

-- The method that is used, and what it extracts.
abbrev pub or_rule : Extraction → Option Extraction → String × Extraction
or_rule rule none = ("rule", rule)
or_rule rule (some e) = ("model", e)

unfoldable pub extract_by : Option AuxClient → Extraction → List Item → ℕ → String × Extraction
unfolding extract_model
extract_by none rule covered budget = ("rule", rule)
extract_by (some client) rule covered budget =
    or_rule rule (extract_model client rule covered budget)

unfoldable pub extract : Reader → Request → List Item → List Event → String × Extraction
unfolding extract_rule extract_by
extract reader q covered events =
    let rule = extract_rule reader covered events in
    if q.use_model then extract_by q.aux_client rule covered q.budget else ("rule", rule)

unfoldable pub sum_measures : (String → ℕ) → List Item → ℕ
sum_measures measure [] = 0
sum_measures measure (i ∷ items) = measure i.content + sum_measures measure items

-- The artifact before its own tokens are measured.
unfoldable pub build_artifact : Reader → Request → List Step → List Step → List Event → Artifact
unfolding entries tool_entries covered_events extract sum_measures
build_artifact reader q compacted kept trace =
    let (events, seq_start, seq_end) = covered_events trace (length (tool_entries compacted)) in
    let (method, content) = extract reader q (entries compacted) events in
    record {
      id = q.artifact_id (entries compacted) method;
      run_id = q.run_id;
      covered_seq_start = seq_start;
      covered_seq_end = seq_end;
      method = method;
      created_at = q.created_at;
      raw_path = q.raw_path;
      before_tokens = sum_measures q.measure (entries compacted);
      after_tokens = 0;
      covered_history_count = length (entries compacted);
      kept_history_count = length (entries kept);
      content = content;
    }

abbrev pub is_empty : List Item → Bool
is_empty [] = true
is_empty (i ∷ items) = false

unfoldable pub compact : Reader → Request → List Item → List Event → Option Artifact × List Item
unfolding execution_steps compactable_steps entries build_artifact render_compaction
compact reader q history trace =
    let (compacted, kept) = compactable_steps q.keep_recent (execution_steps history) in
    let a = build_artifact reader q compacted kept trace in
    if is_empty (entries compacted)
    then (none, history)
    else (some (record a { after_tokens = q.measure (render_compaction q.budget a) }), entries kept)
