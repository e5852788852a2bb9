-- ===== src/Ledger.antt =====
-- moss/runs/ledger.py: the intents and receipts of a run, and what becomes of an intent without a receipt.
-- JSON with SHA-256 is a parameter, and so are the ids and the files.
pub mod Pending
pub mod Verdicts
mod Tests
use moss_code.Base.{
  ℕ, ◌+◌, ◌≡◌, String, Bool, true, false, not, ◌&&◌, ◌||◌, Option, none, some, List, [], ◌∷◌, ◌++◌,
  map, ◌==◌, if◌then◌else◌, same, truthy, concat, elem, filter, Dict, lookup, update, get_or_else,
}

pub data OutcomeStatus : Type 0 where
  already_applied replayable pending_unknown : OutcomeStatus

pub data Reason : Type 0 where
  non_idempotent_tool no_recorded_fingerprint path_unresolvable : Reason
  target_content_present unchanged_since_intent third_party_change : Reason

-- `expected_sha` holds `none` for a file that was not there.
pub record Intent : Type 0 where
  pub action_id : String
  pub call_id : String
  pub tool : String
  pub args_digest : String
  pub idempotency_key : String
  pub capabilities : List String
  pub risk : String
  pub expected_sha : Dict (Option String)
  pub intended_sha : Option String
  pub approval_receipt_id : String
  pub idempotent : Bool

pub record Receipt : Type 0 where
  pub action_id : String
  pub idempotency_key : String
  pub tool : String
  pub status : String
  pub affected_paths : List String
  pub after_sha : Dict (Option String)
  pub duration_ms : ℕ

-- An event of the trace.
pub data Event : Type 0 where
  intent : Intent → Event
  receipt : Receipt → Event
  other : Event

pub record Outcome : Type 0 where
  pub action_id : String
  pub tool : String
  pub idempotency_key : String
  pub paths : List String
  pub status : OutcomeStatus
  pub reason : Reason

-- The file tools, whose effect the arguments determine.
unfoldable pub idempotent_tools : List String
idempotent_tools = "write_file" ∷ "edit_file" ∷ []

unfoldable pub build_receipt : Intent → String → List String → Dict (Option String) → ℕ → Receipt
build_receipt i status affected_paths after_sha duration_ms = record {
  action_id = i.action_id;
  idempotency_key = i.idempotency_key;
  tool = i.tool;
  status = status;
  affected_paths = affected_paths;
  after_sha = after_sha;
  duration_ms = duration_ms;
}

-- The ids with a receipt.
unfoldable pub receipt_ids : List Event → List String
receipt_ids [] = []
receipt_ids (receipt r ∷ events) = r.action_id ∷ receipt_ids events
receipt_ids (intent i ∷ events) = receipt_ids events
receipt_ids (other ∷ events) = receipt_ids events

-- The first intent of each id, in order; an intent without an id is left out.
unfoldable pub first_intents : List String → List Event → List Intent
first_intents seen [] = []
first_intents seen (intent i ∷ events) =
    let skipped = first_intents seen events in
    let kept = first_intents (i.action_id ∷ seen) events in
    if truthy i.action_id && not (elem i.action_id seen) then i ∷ kept else skipped
first_intents seen (receipt r ∷ events) = first_intents seen events
first_intents seen (other ∷ events) = first_intents seen events

unfoldable pub pair_actions : List Event → List String × List Intent
pair_actions events =
    let receipts = receipt_ids events in
    (receipts, filter (λ i. not (elem i.action_id receipts)) (first_intents [] events))

abbrev pub same_sha : Option String → Option String → Bool
same_sha none none = true
same_sha none (some b) = false
same_sha (some a) none = false
same_sha (some a) (some b) = same a b

-- What a path resolves to now: nothing, if resolving raises, or the fingerprint of the file.
pub data Current : Type 0 where
  unresolvable : Current
  found : Option String → Current

-- The loop over the fingerprints that the intent recorded.
unfoldable pub classify_paths :
    (String → Current) → String → List (String × Option String) → OutcomeStatus × Reason
classify_paths current target [] = (pending_unknown, third_party_change)
classify_paths current target ((rel_path, before) ∷ rest) =
    let later = classify_paths current target rest in
    elim (current rel_path) [
      | unresolvable ↦ (pending_unknown, path_unresolvable)
      | found now ↦
          if same_sha now (some target)
          then (already_applied, target_content_present)
          else if same_sha now before
          then (replayable, unchanged_since_intent)
          else later
    ]

abbrev pub text_or_empty : Option String → String
text_or_empty none = ""
text_or_empty (some s) = s

abbrev pub no_paths : List (String × Option String) → Bool
no_paths [] = true
no_paths (p ∷ ps) = false

unfoldable pub verdict : (String → Current) → Intent → OutcomeStatus × Reason
verdict current i =
    let target = text_or_empty i.intended_sha in
    if not i.idempotent
    then (pending_unknown, non_idempotent_tool)
    else if no_paths i.expected_sha || not (truthy target)
    then (pending_unknown, no_recorded_fingerprint)
    else classify_paths current target i.expected_sha

module _ (sorted : List String → List String) where
  -- `_classify`
  unfoldable pub classify : (String → Current) → Intent → Outcome
  unfolding verdict
  classify current i =
      let (status, reason) = verdict current i in
      record {
        action_id = i.action_id;
        tool = i.tool;
        idempotency_key = i.idempotency_key;
        paths = sorted (map (λ e. e.0) i.expected_sha);
        status = status;
        reason = reason;
      }

  unfoldable pub reconcile : (String → Current) → List Event → List Outcome
  unfolding pair_actions
  reconcile current events = map (classify current) (pair_actions events).1

module _ (Args : Type 0) (json_text : Args → String) (sha256 : String → String) where
  unfoldable pub args_digest : Args → String
  args_digest args = concat ("sha256:" ∷ sha256 (json_text args) ∷ [])

  unfoldable pub idempotency_key : String → String → String
  idempotency_key previous digest =
      concat ("sha256:" ∷ sha256 (concat (previous ∷ "|" ∷ digest ∷ [])) ∷ [])

  -- What the arguments hold, the text of the file that they name (`none` when it cannot be read), and
  -- `text.count` and `text.replace(…, 1)`.
  pub record Files : Type 0 where
    pub arg : String → Args → String
    pub read_text : String → Option String
    pub count : String → String → ℕ
    pub replace_once : String → String → String → String

  abbrev sha256_text : String → String
  sha256_text text = concat ("sha256:" ∷ sha256 text ∷ [])

  abbrev is_one : ℕ → Bool
  is_one n = n == 1

  unfoldable pub intended_sha : Files → String → Args → Option String
  intended_sha f name args =
      let old_text = f.arg "old_text" args in
      if same name "write_file"
      then some (sha256_text (f.arg "content" args))
      else if same name "edit_file"
      then elim (f.read_text (f.arg "path" args)) [
        | none ↦ none
        | some text ↦
            if truthy old_text && is_one (f.count text old_text)
            then some (sha256_text (f.replace_once text old_text (f.arg "new_text" args)))
            else none
      ]
      else none

  unfoldable pub build_intent :
      Files
      → String
      → String
      → Args
      → List String
      → String
      → String
      → Dict (Option String)
      → String
      → String
      → Intent
  unfolding idempotent_tools
  build_intent f new_id name args capabilities risk call_id expected_sha approval previous =
      record {
        action_id = new_id;
        call_id = call_id;
        tool = name;
        args_digest = args_digest args;
        idempotency_key = idempotency_key previous (args_digest args);
        capabilities = capabilities;
        risk = risk;
        expected_sha = expected_sha;
        intended_sha = intended_sha f name args;
        approval_receipt_id = approval;
        idempotent = elem name idempotent_tools;
      }
