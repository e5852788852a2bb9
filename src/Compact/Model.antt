-- ===== src/Compact/Model.antt =====
-- `extract_model`: the same summary from a second model, checked against the one by rule.
-- The request to the model with its JSON is a parameter; an answer that cannot be read is none.
use moss_code.Base.{
  ℕ, String, Bool, Option, none, some, List, ◌&&◌, if◌then◌else◌, filter, map, elem, truthy, strip,
}
use moss_code.Compact.Steps.{Item}
use moss_code.Compact.Extract.{Finding, Extraction, or_else}

-- The JSON object of an answer, its members as texts.
pub record Payload : Type 0 where
  -- Whether a finding or an entry has another shape, so that reading it raises.
  pub is_malformed : Bool
  pub goals : List String
  pub completed : List String
  pub excluded : List String
  pub findings : List Finding
  pub open_questions : List String

-- `complete` and `_parse_json_object`: nothing if the call raises or the answer is no JSON object.
pub record AuxClient : Type 0 where
  pub complete : Extraction → List Item → ℕ → Option Payload

abbrev pub nonblank : List String → List String
unfolding strip
nonblank texts = filter (λ t. truthy (strip t)) texts

-- The findings whose evidence the rules have seen, and the entries that they have completed.
unfoldable pub allowed_findings : List Finding → List Finding → List Finding
unfolding strip
allowed_findings baseline findings =
    filter (λ f. truthy (strip f.text) && elem f.evidence (map (λ b. b.evidence) baseline)) findings

unfoldable pub allowed_completed : List String → List String → List String
allowed_completed baseline completed = filter (λ c. elem c baseline) completed

unfoldable pub checked : Extraction → Payload → Option Extraction
unfolding allowed_findings allowed_completed
checked baseline p =
    if p.is_malformed
    then none
    else some record {
      goals = or_else (nonblank p.goals) baseline.goals;
      completed = allowed_completed baseline.completed p.completed;
      excluded = or_else (nonblank p.excluded) baseline.excluded;
      findings = or_else (allowed_findings baseline.findings p.findings) baseline.findings;
      open_questions = or_else (nonblank p.open_questions) baseline.open_questions;
      plan = baseline.plan;
    }

unfoldable pub extract_model : AuxClient → Extraction → List Item → ℕ → Option Extraction
unfolding checked
extract_model client baseline covered budget = elim (client.complete baseline covered budget) [
  | none ↦ none
  | some payload ↦ checked baseline payload
]
