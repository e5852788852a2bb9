-- ===== src/Resume/Tests.antt =====
-- A checkpoint whose file is unchanged, one whose file is gone, and the theorem of this folder at the first.
use moss_code.Base.{◌≡◌, refl, String, Option, none, some, [], ◌∷◌, same, Dict, if◌then◌else◌}
use moss_code.Resume.{Checkpoint, Previous, partial_stale, evaluate_resume_state}
use moss_code.Resume.Valid.{Valid, evaluate_resume_state-Valid}

abbrev fresh : String → Option String
fresh p = if same p "a.py" then some "7f" else none

abbrev gone : String → Option String
gone p = none

abbrev identity : Dict String
identity = ("model", "m1") ∷ ("workspace_fingerprint", "ws-v2:12") ∷ []

abbrev now : String → String
now key = if same key "model" then "m1" else "ws-v2:12"

abbrev checkpoint : Checkpoint String String same (λ v. v)
checkpoint = record {
  schema_version = "phase1-v1";
  key_files = record { path = " a.py"; freshness = some "7f" } ∷ [];
  runtime_identity = identity;
}

abbrev previous : Previous String String same (λ v. v)
previous = record { interrupted_runs = []; stale_summary_invalidations = 2 }

evaluate_resume_state-Valid_example :
    Valid String String same (λ v. v) fresh (some checkpoint) [] now []
unfolding evaluate_resume_state
evaluate_resume_state-Valid_example =
    evaluate_resume_state-Valid String String same (λ v. v) fresh (some checkpoint) previous [] []
      now [] refl

a_lost_file_is_stale :
    evaluate_resume_state String String same (λ v. v) gone (some checkpoint) previous [] [] now []
    ≡ record {
      status = partial_stale;
      stale_paths = "a.py" ∷ [];
      runtime_identity_mismatch_fields = [];
      stale_summary_invalidations = 2;
      interrupted_runs = [];
    }
unfolding evaluate_resume_state
a_lost_file_is_stale = refl
