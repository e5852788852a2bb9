-- ===== src/Stall/Tests.antt =====
-- Runs of the stall detection, and the theorems of this folder at concrete calls.
use moss_code.Base.{◌<◌, ◌≡◌, refl, ◌↔◌, String, true, false, none, some, [], ◌∷◌}
use moss_code.Stall.{
  Signature, Event, repeat_exact, ran_again, error_storm, failing, detect_repeat_exact, tally, bump,
  first_repeated, detect_error_storm, storm_from, is_repeated_call, last_n, signature,
}
use moss_code.Stall.Repeat.{count, detect_repeat_exact-none_iff}

abbrev reading : Signature
reading = ("read_file", "a1")

abbrev listing : Signature
listing = ("list_files", "b2")

repeat_run :
    detect_repeat_exact (reading ∷ listing ∷ reading ∷ reading ∷ [])
    ≡ some record { kind = repeat_exact; detail = ran_again "read_file" 3; window = 4 }
unfolding detect_repeat_exact tally bump first_repeated
repeat_run = refl

detect_repeat_exact-none_iff_example :
    (detect_repeat_exact (reading ∷ listing ∷ reading ∷ []) ≡ none)
    ↔ ((s : Signature) → count s (reading ∷ listing ∷ reading ∷ []) < 3)
detect_repeat_exact-none_iff_example =
    detect_repeat_exact-none_iff (reading ∷ listing ∷ reading ∷ [])

storm_run :
    detect_error_storm ("x" ∷ "tool_failed" ∷ "tool_failed" ∷ "tool_failed" ∷ [])
    ≡ some record { kind = error_storm; detail = failing "tool_failed" 3; window = 4 }
unfolding detect_error_storm storm_from
storm_run = refl

abbrev same_text : String → String
same_text s = s

abbrev event : String → Event String same_text same_text
event args = record {
  role = none;
  name = "read_file";
  args = args;
  workspace_changed = false;
  tool_error_code = "";
}

repeated_run :
    is_repeated_call String same_text same_text
      (event "a" ∷ event "b" ∷ event "b" ∷ [])
      "read_file"
      "b"
    ≡ true
unfolding is_repeated_call signature last_n
repeated_run = refl
