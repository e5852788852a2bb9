-- ===== src/Compact/Tests.antt =====
-- A short history, its compaction, and the theorems of this folder at it.
use moss_code.Base.{ap, ◌≡◌, refl, String, true, false, none, some, List, [], ◌∷◌, here}
use moss_code.Compact.Steps.{Item, Step, execution_steps, compactable_steps}
use moss_code.Compact.Extract.{Event, Reader, Extraction}
use moss_code.Compact.{Artifact, Request, compact}
use moss_code.Compact.Closure.{Cuts, compact-Cuts}
use moss_code.Compact.Evidence.{Reports, compact-completed}

abbrev reader : Reader
reader = record {
  is_error_line = λ line. false;
  splitlines = λ text. text ∷ [];
  summarize_read = λ text. text;
}

abbrev user : String → Item
user text = record { role = "user"; name = ""; content = text; native_tool_call = false }

abbrev call : String → Item
call name = record { role = "assistant"; name = name; content = ""; native_tool_call = true }

abbrev result : String → Item
result name = record { role = "tool"; name = name; content = "ok"; native_tool_call = false }

abbrev sample_history : List Item
sample_history =
    user "Fix it."
    ∷ call "write_file"
    ∷ result "write_file"
    ∷ call "read_file"
    ∷ result "read_file"
    ∷ []

abbrev wrote : Event
wrote = record {
  event = "tool_executed";
  sequence = 4;
  name = some "write_file";
  path = "a.py";
  command = "";
  pattern = "";
  start = 1;
  tool_status = "ok";
  tool_error_code = "";
  affected_paths = "a.py" ∷ [];
  result = "";
  kind = "";
  detail = "";
  steps = [];
}

abbrev sample_trace : List Event
sample_trace = wrote ∷ []

abbrev request : Request
request = record {
  use_model = false;
  budget = 400;
  aux_client = none;
  run_id = "run";
  raw_path = "";
  keep_recent = 1;
  measure = λ text. 1;
  created_at = "now";
  artifact_id = λ items method. "id";
}

abbrev extracted : Extraction
extracted = record {
  goals = "Fix it." ∷ [];
  completed = "write_file a.py -> changed a.py" ∷ [];
  excluded = [];
  findings = [];
  open_questions = [];
  plan = [];
}

abbrev sample_artifact : Artifact
sample_artifact = record {
  id = "id";
  run_id = "run";
  covered_seq_start = 4;
  covered_seq_end = 4;
  method = "rule";
  created_at = "now";
  raw_path = "";
  before_tokens = 3;
  after_tokens = 1;
  covered_history_count = 3;
  kept_history_count = 2;
  content = extracted;
}

sample_compact :
    compact reader request sample_history sample_trace
    ≡ (some sample_artifact, call "read_file" ∷ result "read_file" ∷ [])
unfolding compact
sample_compact = refl

-- Two calls in one batch: the first result takes both calls into its step, so the cut may leave the
-- second result in what is kept, and its call in what is compacted.
batch_is_split :
    compactable_steps 1
      (execution_steps (call "grep" ∷ call "read_file" ∷ result "grep" ∷ result "read_file" ∷ []))
    ≡ ((call "grep" ∷ call "read_file" ∷ result "grep" ∷ []) ∷ [], (result "read_file" ∷ []) ∷ [])
unfolding compactable_steps execution_steps
batch_is_split = refl

compact-Cuts_example : Cuts sample_history (compact reader request sample_history sample_trace)
compact-Cuts_example = compact-Cuts reader request sample_history sample_trace

abbrev two_steps : List Step
two_steps = (call "grep" ∷ []) ∷ (result "grep" ∷ []) ∷ []

compact-completed_example : Reports sample_trace "write_file a.py -> changed a.py"
compact-completed_example =
    compact-completed reader request sample_history sample_trace sample_artifact
      "write_file a.py -> changed a.py" (ap (λ r. r.0) sample_compact) (here refl)
