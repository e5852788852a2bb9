-- ===== src/Memory/Tests.antt =====
-- A log with a fact of the user, and the theorems of this folder at it.
use moss_code.Base.{
  same, strip, Option, if◌then◌else◌, ◌≡◌, refl, String, true, false, none, some, List, [], ◌∷◌,
  arith,
}
use Prim.Native.String
use moss_code.Memory.{
  value_error, MemoryRecord, SourceRef, TrustLevel, user, model, tool, active, tombstone,
  superseded, needs_review, Surroundings, done, key_error, append_many, with_status, get,
}
use moss_code.Memory.Edits.{Change, update_record, delete}
use moss_code.Memory.Conflicts.{append_resolving_conflicts}
use moss_code.Memory.View.{Refines, append_many-Refines}
use moss_code.Memory.Log.{serialize, read_events}
use moss_code.Memory.Changes.{Forgets, delete-Forgets}
use moss_code.Memory.Revise.{Revised, update_record-Revised}
use moss_code.Memory.Fresh.{any_differs, refresh_freshness, Refreshes, refresh_freshness-Refreshes}
use moss_code.Memory.Trust.{Keeps, append_resolving_conflicts-Keeps}

abbrev surroundings : Surroundings
surroundings = record {
  digest = λ i. i.text;
  sorted_set = λ tags. tags;
  subject_for = λ text. "tests";
  texts_conflict = λ a b. true;
  is_later = λ a b. false;
  within_an_hour = λ a b. true;
  compact_threshold = 1;
}

abbrev source : SourceRef
source = record {
  run_id = "run_1";
  event_seq = some 3;
  path = none;
  line_start = none;
  line_end = none;
  content_sha = none;
}

abbrev fact : TrustLevel → String → MemoryRecord
fact trust text = record {
  id = text;
  scope = "project";
  scope_key = "k";
  topic = "key-decisions";
  subject = "tests";
  text = text;
  tags = [];
  trust = trust;
  source_refs = source ∷ [];
  created_at = "2026";
  observed_at = "2026";
  status = active;
  supersedes = [];
  legacy = false;
}

abbrev log : List MemoryRecord
log = fact user "tests use pytest" ∷ []

append_many-Refines_example :
    Refines surroundings
      (fact tool "tests use nose" ∷ [])
      log
      (append_many surroundings (fact tool "tests use nose" ∷ []) log)
append_many-Refines_example = append_many-Refines surroundings (fact tool "tests use nose" ∷ []) log

delete-Forgets_example :
    Forgets surroundings "tests use pytest" log
      (some (fact user "tests use pytest"))
      (delete surroundings "tests use pytest" log)
delete-Forgets_example = delete-Forgets surroundings "tests use pytest" log

append_resolving_conflicts-Keeps_example :
    Keeps surroundings
      (fact user "tests use pytest")
      (append_resolving_conflicts surroundings (fact model "tests use nose") log)
append_resolving_conflicts-Keeps_example =
    append_resolving_conflicts-Keeps surroundings (fact user "tests use pytest")
      (fact model "tests use nose") log refl (omega arith)

abbrev change : Change
change = record {
  now = "2027";
  new_text = " tests use nose ";
  new_observed_at = "";
  new_source_refs = none;
  new_trust = some model;
}

update_record-Revised_example :
    Revised surroundings change "tests use pytest" log
      (some (fact user "tests use pytest"))
      (update_record surroundings change "tests use pytest" log)
update_record-Revised_example = update_record-Revised surroundings change "tests use pytest" log

-- The new record is made of the stripped text, and takes the old one's sources.
updated_gives_two_records :
    update_record surroundings change "tests use pytest" log
    ≡ done (
      record (fact model "tests use nose") {
        created_at = "2027";
        observed_at = "2027";
        supersedes = "tests use pytest" ∷ [];
      },
      with_status superseded (fact user "tests use pytest")
          ∷ record (fact model "tests use nose") {
            created_at = "2027";
            observed_at = "2027";
            supersedes = "tests use pytest" ∷ [];
          }
          ∷ [],
    )
unfolding update_record strip
updated_gives_two_records = refl

abbrev sourced : MemoryRecord
sourced = record (fact user "tests use pytest") {
  source_refs = record source { path = some "pyproject.toml"; content_sha = some "one" } ∷ [];
}

abbrev sha_of : String → String
sha_of path = if same path "pyproject.toml" then "two" else ""

refresh_freshness-Refreshes_example :
    Refreshes surroundings sha_of
      (sourced ∷ [])
      (refresh_freshness surroundings (some sha_of) (sourced ∷ []))
refresh_freshness-Refreshes_example = refresh_freshness-Refreshes surroundings sha_of (sourced ∷ [])

changed_file_is_reviewed :
    refresh_freshness surroundings (some sha_of) (sourced ∷ [])
    ≡ done (with_status needs_review sourced ∷ [], with_status needs_review sourced ∷ [])
unfolding refresh_freshness any_differs
changed_file_is_reviewed = refl

same_file_is_fresh :
    refresh_freshness surroundings (some (λ path. "one")) (sourced ∷ []) ≡ done ([], sourced ∷ [])
unfolding refresh_freshness any_differs
same_file_is_fresh = refl

unknown_is_an_error : delete surroundings "no such id" log ≡ key_error "no such id"
unfolding delete get
unknown_is_an_error = refl

compacted_on_the_way :
    delete surroundings "tests use pytest" log
    ≡ done (
      with_status tombstone (fact user "tests use pytest"),
      with_status tombstone (fact user "tests use pytest") ∷ [],
    )
unfolding delete get
compacted_on_the_way = refl

abbrev line_of : MemoryRecord → String
line_of r = r.text

abbrev fact_of : String → Option MemoryRecord
fact_of line = if same line "tests use pytest" then some (fact user "tests use pytest") else none

-- A text with the separator U+2028, which JSON may leave as it is, is cut in two, and the log cannot be read.
separator_breaks_the_log :
    read_events
      (λ line. if same line "a\u{2028}b" then some (fact user "a") else none)
      (serialize (λ r. "a\u{2028}b") (fact user "a" ∷ fact user "a" ∷ []))
    ≡ value_error "a"
unfolding read_events serialize
separator_breaks_the_log = refl
