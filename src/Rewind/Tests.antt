-- ===== src/Rewind/Tests.antt =====
-- Two steps on one file, their rewind, and the theorems of this folder at it.
use moss_code.Base.{
  ◌≡◌, refl, String, Bool, true, false, Option, none, some, [], ◌∷◌, if◌then◌else◌, same,
}
use moss_code.Rewind.{UndoEntry, Manifest, Files, Store, targets_of, rewind, Session}
use moss_code.Rewind.Spared.{Untouched, rewind-Untouched, rewind-restores}
use moss_code.Rewind.Undo.{Accounts, rewind-Accounts}

abbrev step : String → UndoEntry
step id = record { run_id = "run_1"; action_id = id; history_length = 1; checkpoint_id = "c_1" }

abbrev wrote : Bool → Option String → Manifest
wrote existed sha = record {
  restorable = true;
  tool = "write_file";
  git_object = "";
  paths = "a.txt" ∷ [];
  existed = λ p. existed;
  sha_after = λ p. sha;
}

-- The first step makes the file, the second writes it again.
abbrev store : Store
store = record {
  read_undo = λ e.
      some (wrote (same e.action_id "2") (some (if same e.action_id "2" then "new" else "old")));
  undo_file_text = λ e p. some "old";
  sha = λ text. text;
}

-- The record of a step that left no file, or whose fingerprint was not taken.
abbrev bare_store : Store
bare_store = record {
  read_undo = λ e. some (wrote false none);
  undo_file_text = λ e p. none;
  sha = λ text. text;
}

abbrev disk : String → Files
disk text p = if same p "a.txt" then some text else none

abbrev session : Session String String String
session = record {
  undo = step "1" ∷ step "2" ∷ [];
  history = "Fix it." ∷ "Done." ∷ [];
  memory = "later";
  current_id = "c_2";
  items =
      ("c_1", record { memory = some "before"; plan = "first" })
      ∷ ("c_2", record { memory = some "later"; plan = "second" })
      ∷ [];
  current_plan = "second";
}

one_step_goes_back :
    (rewind String String String store 1 false (disk "new") session).files "a.txt" ≡ some "old"
unfolding rewind
one_step_goes_back = refl

rewind-Untouched_example :
    Untouched String String String
      (disk "mine")
      session
      (rewind String String String store 1 false (disk "mine") session)
unfolding targets_of
rewind-Untouched_example =
    rewind-Untouched String String String store 1 (disk "mine") session "a.txt" "new" refl refl

rewind-restores_example :
    (rewind String String String store 2 true (disk "mine") session).files "a.txt" ≡ none
unfolding targets_of
rewind-restores_example = rewind-restores String String String store 2 (disk "mine") session "a.txt"

rewind-Accounts_example :
    Accounts String String String
      (step "2" ∷ [])
      session.undo
      (rewind String String String store 1 true (disk "mine") session)
unfolding targets_of
rewind-Accounts_example = rewind-Accounts String String String store 1 true (disk "mine") session

session_goes_back :
    (rewind String String String store 2 false (disk "new") session).session ≡ record {
      undo = [];
      history = "Fix it." ∷ [];
      memory = "before";
      current_id = "c_1";
      items = ("c_1", record { memory = some "before"; plan = "first" }) ∷ [];
      current_plan = "first";
    }
unfolding rewind
session_goes_back = refl

-- A file that appears after a step without a fingerprint is deleted without a question.
unrecorded_is_deleted :
    (rewind String String String bare_store 1 false (disk "mine") session).files "a.txt" ≡ none
unfolding rewind
unrecorded_is_deleted = refl
