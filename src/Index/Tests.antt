-- ===== src/Index/Tests.antt =====
-- An index of three runs, and the theorems of this folder at it.
use moss_code.Base.{
  ℕ, ◌≡◌, refl, String, Bool, true, Option, none, some, List, [], ◌∷◌, In, here, if◌then◌else◌,
  same,
}
use mathlib.Core.List.{Perm}
use moss_code.Index.Newest.{IsNewestFirst}
use moss_code.Index.{
  newest_first, Entry, fold_record, merge, is_kept, is_recent, is_young, expired_from,
  expired_run_ids, entries, fold_records, Parsed, positive, not_positive, malformed,
  retention_limits, limit_of,
}
use moss_code.Index.Keep.{IsExpiredIn, expired_run_ids-IsExpired}
use moss_code.Base.{strip, lookup, get_or_else}

abbrev entry : String → Option Bool → Entry
entry run_id pinned = record {
  run_id = run_id;
  started_at = some "t";
  status = none;
  stop_reason = none;
  task_summary = none;
  cost_usd = none;
  pinned = pinned;
}

abbrev runs : List Entry
runs = entry "c" none ∷ entry "b" (some true) ∷ entry "a" none ∷ []

abbrev at_zero : String → Option ℕ
at_zero text = some 0

expired_run : expired_run_ids at_zero (some 1) (some 1) [] 90000000000 runs ≡ "a" ∷ []
unfolding expired_run_ids expired_from is_kept is_recent is_young newest_first
expired_run = refl

archived_a : In "a" (expired_run_ids at_zero (some 1) (some 1) [] 90000000000 runs)
unfolding expired_run_ids expired_from is_kept is_recent is_young newest_first
archived_a = here refl

expired_run_ids-IsExpired_example :
    Perm (newest_first runs) runs
    × IsNewestFirst (newest_first runs)
    × IsExpiredIn at_zero (some 1) (some 1) [] 90000000000 0 (newest_first runs) "a"
expired_run_ids-IsExpired_example =
    expired_run_ids-IsExpired at_zero (some 1) (some 1) [] 90000000000 runs "a" archived_a

-- The later start comes first, and entries that started together keep their order.
sorted_run :
    newest_first (
      entry "a" none
      ∷ record (entry "b" none) { started_at = some "u" }
      ∷ record (entry "c" none) { started_at = none }
      ∷ entry "d" none
      ∷ [])
    ≡ record (entry "b" none) { started_at = some "u" }
      ∷ entry "a" none
      ∷ entry "d" none
      ∷ record (entry "c" none) { started_at = none }
      ∷ []
unfolding newest_first
sorted_run = refl

folded_run :
    entries (entry "a" none ∷ entry "" none ∷ entry "b" none ∷ entry "a" (some true) ∷ [])
    ≡ entry "a" (some true) ∷ entry "b" none ∷ []
unfolding entries fold_records fold_record merge
folded_run = refl

abbrev seven_or_none : String → Parsed
seven_or_none text =
    if same text "7" then positive 7 else if same text "0" then not_positive else malformed

limits_run :
    retention_limits seven_or_none
      (("MOSS_RUN_RETENTION_COUNT", " 7") ∷ ("MOSS_RUN_RETENTION_DAYS", "0") ∷ [])
    ≡ (some 7, none)
unfolding retention_limits limit_of strip lookup get_or_else
limits_run = refl
