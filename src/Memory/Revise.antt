-- ===== src/Memory/Revise.antt =====
-- moss/memory/store.py: the update of a memory, what it changes and when it is refused.
use moss_code.Base.{
  ◌≡◌, refl, ◌∙◌, subst, String, Bool, true, false, not, ◌&&◌, Option, none, some, List, [], ◌∷◌,
  if-cases, same, strip, truthy, elem,
}
use moss_code.Memory.{
  MemoryRecord, memory_scopes, is_active, active, superseded, Outcome, done, value_error, key_error,
  Surroundings, then_do, get, is_durable, all_durable, make_record, with_status,
}
use moss_code.Memory.Edits.{Change, revision, store_revision, update_found, update_record}
use moss_code.Memory.View.{view, Refines, append_many-Refines, get-view}
use moss_code.Memory.Changes.{same_self}

-- Whether a record may be made of these contents and be stored for good.
abbrev pub is_admissible : MemoryRecord → Bool
is_admissible r =
    elem r.scope memory_scopes
    && ((truthy (strip r.topic) && truthy (strip r.text)) && is_durable r)

both_of : (a b : Bool) → (a && (b && true)) ≡ false → (a && b) ≡ false
both_of true true h = h
both_of true false h = refl
both_of false b h = refl

refused :
    (e t a b : Bool)
    → not e ≡ false
    → t ≡ true
    → (a && (b && true)) ≡ false
    → ((e && (t && a)) && b) ≡ false
refused true t a b p q h = rw q (both_of a b h)
refused false t a b p q h = refl

no_scope : (e t b : Bool) → not e ≡ true → ((e && t) && b) ≡ false
no_scope false t b h = refl
no_scope true t b h = cc

no_text : (e t a b : Bool) → t ≡ false → ((e && (t && a)) && b) ≡ false
no_text true t a b h = rw h refl
no_text false t a b h = refl

module _ (s : Surroundings) where
  abbrev pub Revised :
      Change
      → String
      → List MemoryRecord
      → Option MemoryRecord
      → Outcome (MemoryRecord × List MemoryRecord)
      → Type 0
  Revised c id log none o = o ≡ key_error id
  Revised c id log (some old) (done (new, after)) =
      (is_active old.status ≡ true)
      × (new.status ≡ active)
      × (new.supersedes ≡ old.id ∷ [])
      × (view after old.id ≡ some (with_status superseded old))
      × (same old.id new.id ≡ false → view after new.id ≡ some new)
      × ((other : String)
          → same old.id other ≡ false
          → same new.id other ≡ false
          → view after other ≡ view log other)
  Revised c id log (some old) (value_error e) =
      (is_active old.status ≡ true) × ((is_admissible (revision c old) && is_durable old) ≡ false)
  Revised c id log (some old) (key_error e) = (is_active old.status ≡ false) × (e ≡ id)

  stored-Revised :
      (c : Change) (id : String) (old new : MemoryRecord) (log : List MemoryRecord)
      (o : Outcome (List MemoryRecord))
      → is_active old.status ≡ true
      → new.status ≡ active
      → new.supersedes ≡ old.id ∷ []
      → (all_durable (new ∷ old ∷ []) ≡ false
          → (is_admissible (revision c old) && is_durable old) ≡ false)
      → Refines s (new ∷ with_status superseded old ∷ []) log o
      → Revised c id log (some old) (then_do o (λ after. done (new, after)))
  stored-Revised c id old new log (done after) on is_now of_old why (durable, adds) = (
    on,
    is_now,
    of_old,
    adds old.id ∙ rw (same_self old.id) refl,
    λ apart. adds new.id ∙ rw (apart, same_self new.id) refl,
    λ other first second. adds other ∙ rw (first, second) refl,
  )
  stored-Revised c id old new log (value_error e) on is_now of_old why h = (on, why h)
  stored-Revised c id old new log (key_error e) on is_now of_old why h = absurd h

  made-Revised :
      (c : Change) (id : String) (old : MemoryRecord) (log : List MemoryRecord)
      → is_active old.status ≡ true
      → Revised c id log
          (some old)
          (then_do (make_record s (revision c old)) (store_revision s old log))
  unfolding make_record revision
  made-Revised c id old log on =
      if-cases
        (λ (o : Outcome MemoryRecord).
          Revised c id log (some old) (then_do o (store_revision s old log)))
        (not (elem old.scope memory_scopes))
        (λ off. (on, no_scope (elem old.scope memory_scopes) _ (is_durable old) off))
        (λ scoped.
          if-cases
            (λ (o : Outcome MemoryRecord).
              Revised c id log (some old) (then_do o (store_revision s old log)))
            (truthy (strip old.topic) && truthy (strip (revision c old).text))
            (λ full.
              stored-Revised c id old _ log _ on refl refl
                (refused (elem old.scope memory_scopes) _ _ (is_durable old) scoped full)
                (append_many-Refines s _ log))
            (λ empty. (on, no_text (elem old.scope memory_scopes) _ _ (is_durable old) empty)))

  found-Revised :
      (c : Change) (id : String) (o : Option MemoryRecord) (log : List MemoryRecord)
      → Revised c id log o (update_found s c id o log)
  unfolding make_record revision
  found-Revised c id none log = refl
  found-Revised c id (some old) log =
      if-cases (Revised c id log (some old)) (is_active old.status) (made-Revised c id old log)
        (λ off. (off, refl))

  -- Updating an id fails, as an unknown memory, exactly when the log has no active record of it. Otherwise it
  -- adds an active record that names the old one as superseded, marks the old one so under its own id,
  -- and changes the record of no third id; it is refused only where the new contents make no record, or where
  -- the new or the old record may not be in the durable memory.
  pub update_record-Revised :
      (c : Change) (id : String) (log : List MemoryRecord)
      → Revised c id log (view log id) (update_record s c id log)
  unfolding update_record
  update_record-Revised c id log =
      subst (λ (o : Option MemoryRecord). Revised c id log o (update_record s c id log))
        (get-view id log) (found-Revised c id (get id log) log)
