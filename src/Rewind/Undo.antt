-- ===== src/Rewind/Undo.antt =====
-- The undo records that a rewind uses up.
use moss_code.Base.{
  is_none, ℕ, ◌≡◌, refl, sym, ap, ◌∙◌, String, Bool, not, ◌&&◌, Option, none, some, List, [], ◌∷◌,
  ◌++◌, arith, if◌then◌else◌, if-elim, lookup, inl, inr, ◌⊎◌, ◌-◌, take, drop, length, ltb,
  take-append-drop, length-drop,
}
use moss_code.Rewind.{
  UndoEntry, Conflict, Files, Store, targets_of, plan_rewind, Session, Outcome, rewind_targets,
  rewind, rewind_session, to_checkpoint, needs_confirmation, rewind_session, to_checkpoint,
  Checkpoint,
}

append_nil : (u : List UndoEntry) → u ++ [] ≡ u
append_nil [] = refl
append_nil (x ∷ u) = ap (λ (r : List UndoEntry). x ∷ r) (append_nil u)

before_end :
    (n : ℕ) (u d : List UndoEntry)
    → drop n u ≡ d
    → (if is_none d then u else take (length u - length d) u) ++ d ≡ u
before_end n u [] e = append_nil u
before_end n u (x ∷ d) e =
    ap (λ (r : List UndoEntry). take (length u - length (x ∷ d)) u ++ r) (sym e)
    ∙ ap (λ (k : ℕ). take k u ++ drop n u) back
    ∙ take-append-drop n u
  where
    back : length u - length (x ∷ d) ≡ n
    back = omega (arith, length-drop n u, ap (λ (l : List UndoEntry). length l) e)

module _ (Item Memory Plan : Type 0) where
  to_checkpoint-undo :
      (id : String) (o : Option (Checkpoint Item Memory Plan)) (s : Session Item Memory Plan)
      → (to_checkpoint Item Memory Plan id o s).undo ≡ s.undo
  unfolding to_checkpoint
  to_checkpoint-undo id none s = refl
  to_checkpoint-undo id (some c) s = refl

  rewind_session-undo :
      (e : UndoEntry) (s : Session Item Memory Plan)
      → (rewind_session Item Memory Plan e s).undo ≡ s.undo
  unfolding rewind_session
  rewind_session-undo e s =
      to_checkpoint-undo e.checkpoint_id (lookup e.checkpoint_id s.items)
        (record s { history = take e.history_length s.history })

  targets-undo :
      (store : Store) (targets : List UndoEntry) (conflicts : List Conflict) (files : Files)
      (s : Session Item Memory Plan)
      → (rewind_targets Item Memory Plan store targets conflicts files s).session.undo
        ≡ (if is_none targets then s.undo else take (length s.undo - length targets) s.undo)
  unfolding rewind_targets
  targets-undo store [] conflicts files s = refl
  targets-undo store (e ∷ targets) conflicts files s =
      ap (λ (u : List UndoEntry). take (length u - length (e ∷ targets)) u)
        (rewind_session-undo e s)

  -- The records that stay, followed by those of the undone steps, are the old list; all of them stay when
  -- the rewind stops to ask.
  abbrev pub Accounts : List UndoEntry → List UndoEntry → Outcome Item Memory Plan → Type 0
  Accounts targets undo o =
      ((o.status ≡ needs_confirmation) × (o.session.undo ≡ undo))
      ⊎ (o.session.undo ++ targets ≡ undo)

  targets-Accounts :
      (store : Store) (n : ℕ) (conflicts : List Conflict) (files : Files)
      (s : Session Item Memory Plan)
      → Accounts
          (drop n s.undo)
          s.undo
          (rewind_targets Item Memory Plan store (drop n s.undo) conflicts files s)
  targets-Accounts store n conflicts files s = inr (
      ap (λ (u : List UndoEntry). u ++ drop n s.undo)
        (targets-undo store (drop n s.undo) conflicts files s)
      ∙ before_end n s.undo (drop n s.undo) refl)

  -- A rewind takes exactly the records of the steps that it undoes off the end of the list of undo
  -- records: those that stay, followed by the undone ones, are the old list. When it stops to ask, all of
  -- them stay.
  pub rewind-Accounts :
      (store : Store) (steps : ℕ) (force : Bool) (files : Files) (s : Session Item Memory Plan)
      → Accounts
          (targets_of steps s.undo)
          s.undo
          (rewind Item Memory Plan store steps force files s)
  unfolding rewind plan_rewind targets_of
  rewind-Accounts store steps force files s =
      if-elim (λ (o : Outcome Item Memory Plan). Accounts (targets_of steps s.undo) s.undo o)
        (not (is_none (targets_of steps s.undo))
          && (not (is_none (plan_rewind store steps s.undo files).1) && not force))
        (inl (refl, refl))
        (targets-Accounts store (length s.undo - (if ltb steps 1 then 1 else steps))
          (plan_rewind store steps s.undo files).1 files s)
