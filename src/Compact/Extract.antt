-- ===== src/Compact/Extract.antt =====
-- `_covered_events` and `extract_rule`: what the trace says about the compacted part of the history.
-- The regular expression of an error line, `splitlines` and the summary of a file that was read are parameters.
use moss_code.Base.{
  ℕ, String, Bool, true, false, ◌&&◌, ◌||◌, Option, none, some, List, [], ◌∷◌, ◌++◌, if◌then◌else◌,
  take, filter, map, join, concat, decimal, truthy, elem, same, strip, leb, ◌==◌,
}
use moss_code.Tokens.{clip}
use moss_code.Compact.Steps.{Item}

pub record PlanStep : Type 0 where
  pub id : String
  pub title : String
  pub status : String

pub record Finding : Type 0 where
  pub text : String
  pub evidence : String

-- An event of the trace, each field read with its default.
pub record Event : Type 0 where
  pub event : String
  pub sequence : ℕ
  pub name : Option String
  pub path : String
  pub command : String
  pub pattern : String
  pub start : ℕ
  pub tool_status : String
  pub tool_error_code : String
  pub affected_paths : List String
  pub result : String
  pub kind : String
  pub detail : String
  pub steps : List PlanStep

pub record Extraction : Type 0 where
  pub goals : List String
  pub completed : List String
  pub excluded : List String
  pub findings : List Finding
  pub open_questions : List String
  pub plan : List PlanStep

pub record Reader : Type 0 where
  pub is_error_line : String → Bool
  pub splitlines : String → List String
  pub summarize_read : String → String

abbrev pub name_or : String → Option String → String
name_or default none = default
name_or default (some name) = name

abbrev pub first_truthy : String → String → String → String
first_truthy a b c = if truthy a then a else if truthy b then b else c

-- `_event_action`
unfoldable pub event_action : Event → String
unfolding strip
event_action e =
    strip (concat (name_or "tool" e.name ∷ " " ∷ first_truthy e.path e.command e.pattern ∷ []))

unfoldable pub last_sequence : List Event → ℕ
last_sequence [] = 0
last_sequence (e ∷ []) = e.sequence
last_sequence (e ∷ f ∷ events) = last_sequence (f ∷ events)

abbrev pub first_sequence : List Event → ℕ
first_sequence [] = 0
first_sequence (e ∷ events) = e.sequence

-- The events up to the last covered tool, and the first and last sequence number.
unfoldable pub events_up_to : List Event → List Event → List Event × ℕ × ℕ
unfolding last_sequence
events_up_to events [] = ([], 0, 0)
events_up_to events (t ∷ tools) =
    let last = last_sequence (t ∷ tools) in
    let covered = filter (λ e. leb e.sequence last) events in
    (covered, first_sequence covered, last)

unfoldable pub covered_events : List Event → ℕ → List Event × ℕ × ℕ
unfolding events_up_to
covered_events events count =
    events_up_to events (take count (filter (λ e. same e.event "tool_executed") events))

-- `signal or lines`
abbrev pub or_else {ℓ} : {A : Type ℓ} → List A → List A → List A
or_else [] ys = ys
or_else (x ∷ xs) ys = x ∷ xs

unfoldable pub error_lines : Reader → String → List String
unfolding strip
error_lines reader text =
    let lines = map strip (filter (λ l. truthy (strip l)) (reader.splitlines text)) in
    let signal = filter reader.is_error_line lines in take 2 (or_else signal lines)

-- `if x not in xs: xs.append(y)`
abbrev pub add_new : String → String → List String → List String
add_new x y xs = if elem x xs then xs else xs ++ (y ∷ [])

-- `EXCLUDING_ERROR_CODES` and `WRITE_TOOLS`
abbrev pub excluding_codes : List String
excluding_codes =
    "approval_denied" ∷ "capability_denied" ∷ "command_denied" ∷ "tool_not_allowed" ∷ []

abbrev pub write_tools : List String
write_tools = "write_file" ∷ "edit_file" ∷ "run_shell" ∷ []

unfoldable pub completed_entry : Event → String
unfolding event_action
completed_entry e = elim e.affected_paths [
  | [] ↦ event_action e
  | p ∷ ps ↦ concat (event_action e ∷ " -> changed " ∷ join ", " (p ∷ ps) ∷ [])
]

unfoldable pub partial_note : Event → String
unfolding event_action
partial_note e = concat (
    event_action e
    ∷ " -> partial_success ("
    ∷ (if truthy e.tool_error_code then e.tool_error_code else "partially applied")
    ∷ ")"
    ∷ [])

unfoldable pub event_evidence : Event → String
unfolding decimal
event_evidence e = concat ("event:" ∷ decimal e.sequence ∷ [])

-- The goals: the texts of the user.
unfoldable pub add_goal : Item → Extraction → Extraction
unfolding strip clip
add_goal i x =
    if same i.role "user" && truthy (strip i.content)
    then record x { goals = add_new (strip i.content) (clip (strip i.content) 200 "head") x.goals }
    else x

unfoldable pub add_goals : List Item → Extraction → Extraction
unfolding add_goal
add_goals [] x = x
add_goals (i ∷ items) x = add_goals items (add_goal i x)

abbrev pub add_finding : String → String → Extraction → Extraction
unfolding clip
add_finding text evidence x = record x {
  findings = x.findings ++ (record { text = clip text 200 "head"; evidence = evidence } ∷ []);
}

unfoldable pub add_failures : Event → List String → Extraction → Extraction
unfolding add_finding event_action event_evidence
add_failures e [] x = x
add_failures e (l ∷ lines) x =
    add_failures e lines
      (add_finding (concat (event_action e ∷ " failed: " ∷ l ∷ [])) (event_evidence e) x)

unfoldable pub add_read : Reader → Event → Extraction → Extraction
unfolding add_finding decimal strip
add_read reader e x =
    let path = strip e.path in
    let summary = reader.summarize_read e.result in
    if truthy path && truthy summary
    then add_finding (concat (path ∷ ": " ∷ summary ∷ []))
        (concat (path ∷ ":" ∷ decimal (if e.start == 0 then 1 else e.start) ∷ [])) x
    else x

-- What a tool event adds, and whether an approach was refused.
unfoldable pub add_tool : Reader → Event → Extraction × Bool → Extraction × Bool
unfolding event_action completed_entry partial_note event_evidence add_finding add_failures
    error_lines add_read
add_tool reader e (x, denied) =
    if elem e.tool_error_code excluding_codes
    then (let entry = concat (event_action e ∷ " -> " ∷ e.tool_error_code ∷ []) in
        (record x { excluded = add_new entry entry x.excluded }, true))
    else if same e.tool_status "ok" && elem (name_or "" e.name) write_tools
    then (
      record x { completed = add_new (completed_entry e) (completed_entry e) x.completed },
      denied,
    )
    else if same e.tool_status "partial_success"
    then (
      add_finding (partial_note e) (event_evidence e) (record x {
        open_questions = add_new (partial_note e) (partial_note e) x.open_questions;
      }),
      denied,
    )
    else if same e.tool_status "error" || truthy e.tool_error_code
    then (add_failures e (error_lines reader e.result) x, denied)
    else if same (name_or "" e.name) "read_file"
    then (add_read reader e x, denied)
    else (x, denied)

unfoldable pub add_event : Reader → Event → Extraction × Bool → Extraction × Bool
unfolding add_tool strip clip
add_event reader e (x, denied) =
    let question = strip (concat ("stalled (" ∷ e.kind ∷ "): " ∷ e.detail ∷ [])) in
    if same e.event "plan_updated"
    then (record x { plan = e.steps }, denied)
    else if same e.event "stall_detected"
    then (
      record x { open_questions = add_new question (clip question 200 "head") x.open_questions },
      denied,
    )
    else if same e.event "tool_executed"
    then add_tool reader e (x, denied)
    else (x, denied)

unfoldable pub add_events : Reader → List Event → Extraction × Bool → Extraction × Bool
unfolding add_event
add_events reader [] r = r
add_events reader (e ∷ events) r = add_events reader events (add_event reader e r)

unfoldable pub add_open_steps : List PlanStep → Extraction → Extraction
add_open_steps [] x = x
add_open_steps (p ∷ steps) x =
    let question = concat ("plan step " ∷ p.id ∷ " not done: " ∷ p.title ∷ []) in
    add_open_steps steps (
      if same p.status "done"
      then x
      else record x { open_questions = add_new question question x.open_questions })

unfoldable pub add_refusals : Bool → Extraction → Extraction
add_refusals false x = x
add_refusals true x = record x {
  open_questions =
      x.open_questions
      ++ ("some approaches were refused; pick a different one instead of retrying them" ∷ []);
}

abbrev pub nothing : Extraction
nothing = record {
  goals = [];
  completed = [];
  excluded = [];
  findings = [];
  open_questions = [];
  plan = [];
}

unfoldable pub extract_rule : Reader → List Item → List Event → Extraction
unfolding add_goals add_events add_open_steps add_refusals
extract_rule reader items events =
    let r = add_events reader events (add_goals items nothing, false) in
    add_refusals r.1 (add_open_steps r.0.plan r.0)
