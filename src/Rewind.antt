-- ===== src/Rewind.antt =====
-- moss/runs/rewind.py: the files and the session go back to before the last steps.
-- The store of undo records and the fingerprint of a content are parameters; so are the items of the
-- history, the memory and the plan. A file that is there can be deleted and written. The list of what was
-- restored, which only goes into the report, is left out.
pub mod Files
pub mod Latest
pub mod Spared
pub mod Undo
mod Tests
use Prim.Native.Nat.{Ordering}
use Prim.Native.String
use moss_code.Base.{
  is_none, text_leb, ℕ, zero, suc, ◌+◌, ◌-◌, String, Bool, true, false, not, ◌&&◌, Option, none,
  some, List, [], ◌∷◌, ◌++◌, if◌then◌else◌, ltb, length, take, drop, same, Dict, lookup, update,
  truthy,
}

-- An entry of `session["undo"]`.
pub record UndoEntry : Type 0 where
  pub run_id : String
  pub action_id : String
  pub history_length : ℕ
  pub checkpoint_id : String

-- `sha_after` has nothing for a path that is missing or held null.
pub record Manifest : Type 0 where
  pub restorable : Bool
  pub tool : String
  pub git_object : String
  pub paths : List String
  pub existed : String → Bool
  pub sha_after : String → Option String

pub record Conflict : Type 0 where
  pub action_id : String
  pub path : String
  pub reason : String
  pub tool : String
  pub git_object : String

abbrev pub Files : Type 0
Files = String → Option String

pub record Store : Type 0 where
  pub read_undo : UndoEntry → Option Manifest
  pub undo_file_text : UndoEntry → String → Option String
  pub sha : String → String

-- The last fingerprint of each path in the window, with its action.
abbrev pub Latest : Type 0
Latest = Dict (String × String)

-- `entries[-max(1, steps):]`
unfoldable pub targets_of : ℕ → List UndoEntry → List UndoEntry
targets_of steps entries = drop (length entries - (if ltb steps 1 then 1 else steps)) entries

unfoldable pub note_paths : String → Manifest → List String → Latest → Latest
unfolding update
note_paths action_id m [] latest = latest
note_paths action_id m (p ∷ paths) latest =
    note_paths action_id m paths
      (elim (m.sha_after p) [ none ↦ latest | some sha ↦ update p (action_id, sha) latest ])

abbrev pub missing_record : UndoEntry → Conflict
missing_record e = record {
  action_id = e.action_id;
  path = "";
  reason = "undo_record_missing";
  tool = "";
  git_object = "";
}

abbrev pub not_restorable : UndoEntry → Manifest → Conflict
not_restorable e m = record {
  action_id = e.action_id;
  path = "";
  reason = "not_restorable";
  tool = m.tool;
  git_object = m.git_object;
}

unfoldable pub check_record :
    UndoEntry → Option Manifest → List Conflict × Latest → List Conflict × Latest
unfolding note_paths
check_record e none (conflicts, latest) = (conflicts ++ (missing_record e ∷ []), latest)
check_record e (some m) (conflicts, latest) =
    if m.restorable
    then (conflicts, note_paths e.action_id m m.paths latest)
    else (conflicts ++ (not_restorable e m ∷ []), latest)

-- `sorted(latest_after.items())`, whose keys differ.
unfoldable pub insert_path : String × (String × String) → Latest → Latest
insert_path (p, v) [] = (p, v) ∷ []
insert_path (p, v) ((q, w) ∷ latest) =
    let later = insert_path (p, v) latest in
    if text_leb p q then (p, v) ∷ (q, w) ∷ latest else (q, w) ∷ later

unfoldable pub sort_paths : Latest → Latest
unfolding insert_path
sort_paths [] = []
sort_paths ((p, v) ∷ latest) = insert_path (p, v) (sort_paths latest)

module _ (store : Store) where
  abbrev pub file_sha : Files → String → Option String
  file_sha files p = elim (files p) [ none ↦ none | some text ↦ some (store.sha text) ]

  abbrev pub has_sha : Option String → String → Bool
  has_sha none recorded = false
  has_sha (some sha) recorded = same sha recorded

  unfoldable pub changed_since : Files → Latest → List Conflict
  changed_since files [] = []
  changed_since files ((p, (action_id, recorded)) ∷ latest) =
      let rest = changed_since files latest in
      if has_sha (file_sha files p) recorded
      then rest
      else record {
        action_id = action_id;
        path = p;
        reason = "changed_since_run";
        tool = "";
        git_object = "";
      }
        ∷ rest

  unfoldable pub check_records : List UndoEntry → List Conflict × Latest → List Conflict × Latest
  unfolding check_record
  check_records [] r = r
  check_records (e ∷ entries) r = check_records entries (check_record e (store.read_undo e) r)

  -- `plan_rewind`
  unfoldable pub plan_rewind : ℕ → List UndoEntry → Files → List UndoEntry × List Conflict
  unfolding targets_of check_records sort_paths changed_since
  plan_rewind steps undo files =
      let targets = targets_of steps undo in
      let (conflicts, latest) = check_records targets ([], []) in
      (targets, conflicts ++ changed_since files (sort_paths latest))

  abbrev pub set_file : Files → String → Option String → Files
  set_file files p content q = if same p q then content else files q

  -- What a record gives a path back: nothing, if the file was not there before.
  unfoldable pub restore_path : UndoEntry → Manifest → String → Files → Files
  restore_path e m p files =
      if not (m.existed p) then set_file files p none else elim (store.undo_file_text e p) [
        | none ↦ files
        | some text ↦ set_file files p (some text)
      ]

  unfoldable pub restore_paths : UndoEntry → Manifest → List String → Files → Files
  unfolding restore_path
  restore_paths e m [] files = files
  restore_paths e m (p ∷ paths) files = restore_paths e m paths (restore_path e m p files)

  unfoldable pub restore_entry : UndoEntry → Option Manifest → Files → Files
  unfolding restore_paths
  restore_entry e none files = files
  restore_entry e (some m) files = restore_paths e m m.paths files

  -- `for entry in reversed(targets)`: the last one first.
  unfoldable pub restore_all : List UndoEntry → Files → Files
  unfolding restore_entry
  restore_all [] files = files
  restore_all (e ∷ entries) files = restore_entry e (store.read_undo e) (restore_all entries files)

pub data Status : Type 0 where
  rewound nothing_to_do needs_confirmation : Status

-- The session, over its items, its memories and its plans.
module _ (Item Memory Plan : Type 0) where
  pub record Checkpoint : Type 0 where
    pub memory : Option Memory
    pub plan : Plan

  pub record Session : Type 0 where
    pub undo : List UndoEntry
    pub history : List Item
    pub memory : Memory
    pub current_id : String
    pub items : Dict Checkpoint
    pub current_plan : Plan

  -- The checkpoints up to one, in their order.
  unfoldable pub up_to : String → Dict Checkpoint → Dict Checkpoint
  up_to id [] = []
  up_to id ((k, c) ∷ items) =
      let rest = up_to id items in if same k id then (k, c) ∷ [] else (k, c) ∷ rest

  unfoldable pub to_checkpoint : String → Option Checkpoint → Session → Session
  unfolding up_to
  to_checkpoint id none s = s
  to_checkpoint id (some c) s = record s {
    memory = elim c.memory [ none ↦ s.memory | some m ↦ m ];
    current_id = id;
    items = up_to id s.items;
    current_plan = c.plan;
  }

  -- `_rewind_session`
  unfoldable pub rewind_session : UndoEntry → Session → Session
  unfolding to_checkpoint lookup
  rewind_session e s =
      let t = record s { history = take e.history_length s.history } in
      to_checkpoint e.checkpoint_id (lookup e.checkpoint_id s.items) t

  pub record Outcome : Type 0 where
    pub status : Status
    pub conflicts : List Conflict
    pub files : Files
    pub session : Session

  unfoldable pub rewind_targets : Store → List UndoEntry → List Conflict → Files → Session → Outcome
  unfolding restore_all rewind_session
  rewind_targets store [] conflicts files s = record {
    status = nothing_to_do;
    conflicts = [];
    files = files;
    session = s;
  }
  rewind_targets store (oldest ∷ entries) conflicts files s =
      let t = rewind_session oldest s in
      record {
        status = rewound;
        conflicts = conflicts;
        files = restore_all store (oldest ∷ entries) files;
        session = record t { undo = take (length t.undo - length (oldest ∷ entries)) t.undo };
      }

  -- `rewind`
  unfoldable pub rewind : Store → ℕ → Bool → Files → Session → Outcome
  unfolding plan_rewind rewind_targets
  rewind store steps force files s =
      let (targets, conflicts) = plan_rewind store steps s.undo files in
      if not (is_none targets) && (not (is_none conflicts) && not force)
      then record { status = needs_confirmation; conflicts = conflicts; files = files; session = s }
      else rewind_targets store targets conflicts files s
