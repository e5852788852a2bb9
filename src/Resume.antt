-- ===== src/Resume.antt =====
-- moss/runs/checkpoint.py: what is still true of the last checkpoint when a session is resumed.
-- The values of the runtime's identity, their comparison and their text, and the freshness of a file are
-- parameters.
pub mod Valid
mod Tests
use Prim.Native.Nat.{Ordering}
use Prim.Native.String
use moss_code.Base.{
  is_none, text_leb, ℕ, String, Bool, true, false, not, ◌&&◌, ◌||◌, Option, none, some, List, [],
  ◌∷◌, ◌++◌, if◌then◌else◌, leb, length, same, truthy, elem, strip, starts_with, Dict, lookup,
}

abbrev pub runtime_identity_keys : List String
runtime_identity_keys =
    "cwd" ∷ "model" ∷ "model_client" ∷ "approval_policy" ∷ "read_only" ∷ "max_steps"
    ∷ "max_new_tokens" ∷ "feature_flags" ∷ "shell_env_allowlist" ∷ "workspace_fingerprint"
    ∷ "tool_signature" ∷ "prompt_version" ∷ []

pub data Status : Type 0 where
  no_checkpoint full_valid partial_stale workspace_mismatch schema_mismatch : Status

pub record KeyFile : Type 0 where
  pub path : String
  pub freshness : Option String

abbrev pub same_freshness : Option String → Option String → Bool
same_freshness none none = true
same_freshness none (some t) = false
same_freshness (some s) none = false
same_freshness (some s) (some t) = same s t

unfoldable pub insert_text : String → List String → List String
insert_text s [] = s ∷ []
insert_text s (t ∷ ts) =
    let later = insert_text s ts in if text_leb s t then s ∷ t ∷ ts else t ∷ later

-- `mismatch_fields.sort()`
unfoldable pub sort_texts : List String → List String
unfolding insert_text
sort_texts [] = []
sort_texts (s ∷ ss) = insert_text s (sort_texts ss)

abbrev pub status_of : List String → List String → Status
status_of stale fields =
    if not (is_none stale)
    then partial_stale
    else if not (is_none fields)
    then workspace_mismatch
    else full_valid

abbrev pub max : ℕ → ℕ → ℕ
max m n = if leb m n then n else m

abbrev pub kept_count : Status → ℕ → ℕ
kept_count partial_stale n = n
kept_count _ n = 0

module _ (file_freshness : String → Option String) where
  abbrev pub is_changed : KeyFile → Bool
  is_changed f =
      truthy (strip f.path) && not (same_freshness f.freshness (file_freshness (strip f.path)))

  unfoldable pub add_stale : List KeyFile → List String → List String
  unfolding strip
  add_stale [] stale = stale
  add_stale (f ∷ files) stale = add_stale files (
      if is_changed f && not (elem (strip f.path) stale)
      then stale ++ (strip f.path ∷ [])
      else stale)

module _ (Value Run : Type 0) (eq : Value → Value → Bool) (text : Value → String) where
  pub record Checkpoint : Type 0 where
    pub schema_version : String
    pub key_files : List KeyFile
    pub runtime_identity : Dict Value

  -- What the session holds of the resume before.
  pub record Previous : Type 0 where
    pub interrupted_runs : List Run
    pub stale_summary_invalidations : ℕ

  pub record ResumeState : Type 0 where
    pub status : Status
    pub stale_paths : List String
    pub runtime_identity_mismatch_fields : List String
    pub stale_summary_invalidations : ℕ
    pub interrupted_runs : List Run

  abbrev pub fingerprint_text : Option Value → String
  fingerprint_text none = ""
  fingerprint_text (some v) = text v

  -- `_stale_fingerprint_version`
  unfoldable pub stale_fingerprint_version : Checkpoint → Bool
  unfolding lookup
  stale_fingerprint_version c =
      let saved = fingerprint_text (lookup "workspace_fingerprint" c.runtime_identity) in
      truthy saved && not (starts_with saved "ws-v2:")

  unfoldable pub wrong_schema : Checkpoint → Bool
  unfolding stale_fingerprint_version
  wrong_schema c = not (same c.schema_version "phase1-v1") || stale_fingerprint_version c

  module _ (file_freshness : String → Option String) where
    -- A key that was not saved is not compared.
    abbrev pub differs : Option Value → Value → Bool
    differs none now = false
    differs (some saved) now = not (eq saved now)

    unfoldable pub mismatches : Dict Value → (String → Value) → List String → List String
    unfolding lookup
    mismatches saved now [] = []
    mismatches saved now (key ∷ keys) =
        let rest = mismatches saved now keys in
        if differs (lookup key saved) (now key) then key ∷ rest else rest

    abbrev pub saved_identity : Dict Value → Dict Value → Dict Value
    saved_identity [] session_identity = session_identity
    saved_identity (entry ∷ identity) session_identity = entry ∷ identity

    -- The status, the stale paths and the fields that do not match.
    unfoldable pub judge :
        Option Checkpoint
        → Dict Value
        → (String → Value)
        → List String
        → Status × List String × List String
    unfolding wrong_schema add_stale mismatches sort_texts
    judge none session_identity now invalidated = (no_checkpoint, invalidated, [])
    judge (some c) session_identity now invalidated =
        let stale = add_stale file_freshness c.key_files invalidated in
        let fields = sort_texts (
          mismatches (saved_identity c.runtime_identity session_identity) now
            runtime_identity_keys) in
        if wrong_schema c
        then (schema_mismatch, invalidated, [])
        else (status_of stale fields, stale, fields)

    abbrev pub runs_or : List Run → List Run → List Run
    runs_or [] before = before
    runs_or (r ∷ runs) before = r ∷ runs

    -- `evaluate_resume_state`, after `invalidate_stale_memory` has told its paths. The identity that the
    -- session keeps afterwards is `now`.
    unfoldable pub evaluate_resume_state :
        Option Checkpoint
        → Previous
        → List Run
        → Dict Value
        → (String → Value)
        → List String
        → ResumeState
    unfolding judge
    evaluate_resume_state checkpoint previous interrupted session_identity now invalidated =
        let (status, stale, fields) = judge checkpoint session_identity now invalidated in
        record {
          status = status;
          stale_paths = stale;
          runtime_identity_mismatch_fields = fields;
          stale_summary_invalidations =
              max (length invalidated) (kept_count status previous.stale_summary_invalidations);
          interrupted_runs = runs_or interrupted previous.interrupted_runs;
        }
