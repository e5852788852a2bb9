-- ===== src/Rewind/Spared.antt =====
-- What a rewind does to the files: not forced, it spares those that were changed after the steps.
use moss_code.Base.{
  is_none, ℕ, ◌≡◌, refl, String, true, false, not, ◌&&◌, some, List, [], ◌∷◌, if◌then◌else◌,
}
use moss_code.Rewind.{
  UndoEntry, Conflict, Files, Store, targets_of, has_sha, file_sha, plan_rewind, Session, Outcome,
  rewind_targets, rewind, needs_confirmation,
}
use moss_code.Rewind.Files.{first_before, restore_all-at}
use moss_code.Rewind.Latest.{last_recorded, plan_rewind-finds}

module _ (Item Memory Plan : Type 0) where
  -- Neither the files nor the session are touched.
  abbrev pub Untouched : Files → Session Item Memory Plan → Outcome Item Memory Plan → Type 0
  Untouched files s o = (o.files ≡ files) × (o.session ≡ s)

  unforced :
      (store : Store) (targets : List UndoEntry) (conflicts : List Conflict) (files : Files)
      (s : Session Item Memory Plan)
      → is_none conflicts ≡ false
      → Untouched files s (
          if not (is_none targets) && (not (is_none conflicts) && not false)
          then record {
            status = needs_confirmation;
            conflicts = conflicts;
            files = files;
            session = s;
          }
          else rewind_targets Item Memory Plan store targets conflicts files s)
  unfolding rewind_targets
  unforced store targets [] files s h = cc
  unforced store [] (c ∷ conflicts) files s h = (refl, refl)
  unforced store (e ∷ targets) (c ∷ conflicts) files s h = (refl, refl)

  -- A rewind that is not forced touches nothing, neither a file nor the session, when some path's content
  -- differs from the last fingerprint that the undone records give of it.
  pub rewind-Untouched :
      (store : Store) (steps : ℕ) (files : Files) (s : Session Item Memory Plan) (p sha : String)
      → last_recorded store (targets_of steps s.undo) p ≡ some sha
      → has_sha store (file_sha store files p) sha ≡ false
      → Untouched files s (rewind Item Memory Plan store steps false files s)
  unfolding rewind
  rewind-Untouched store steps files s p sha e f =
      unforced store (plan_rewind store steps s.undo files).0
        (plan_rewind store steps s.undo files).1 files s
        (plan_rewind-finds store steps s.undo files p sha e f)

  targets-restored :
      (store : Store) (targets : List UndoEntry) (conflicts : List Conflict) (files : Files)
      (s : Session Item Memory Plan) (p : String)
      → (rewind_targets Item Memory Plan store targets conflicts files s).files p
        ≡ first_before store targets p (files p)
  unfolding rewind_targets
  targets-restored store [] conflicts files s p = refl
  targets-restored store (e ∷ targets) conflicts files s p =
      restore_all-at store (e ∷ targets) files p

  forced :
      (store : Store) (targets : List UndoEntry) (conflicts : List Conflict) (files : Files)
      (s : Session Item Memory Plan) (p : String)
      → ((if not (is_none targets) && (not (is_none conflicts) && not true)
            then record {
              status = needs_confirmation;
              conflicts = conflicts;
              files = files;
              session = s;
            }
            else rewind_targets Item Memory Plan store targets conflicts files s).files
          p)
        ≡ first_before store targets p (files p)
  forced store [] conflicts files s p = targets-restored store [] conflicts files s p
  forced store (e ∷ targets) [] files s p = targets-restored store (e ∷ targets) [] files s p
  forced store (e ∷ targets) (c ∷ conflicts) files s p =
      targets-restored store (e ∷ targets) (c ∷ conflicts) files s p

  -- A forced rewind leaves in every file what the earliest of the undone records that can tell says that
  -- the file held before its step, whatever the later records say, and leaves the other files as they are.
  pub rewind-restores :
      (store : Store) (steps : ℕ) (files : Files) (s : Session Item Memory Plan) (p : String)
      → (rewind Item Memory Plan store steps true files s).files p
        ≡ first_before store (targets_of steps s.undo) p (files p)
  unfolding rewind
  rewind-restores store steps files s p =
      forced store (plan_rewind store steps s.undo files).0 (plan_rewind store steps s.undo files).1
        files s p
