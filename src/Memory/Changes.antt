-- ===== src/Memory/Changes.antt =====
-- Forgetting a memory: what changes, and when it is refused.
use moss_code.Base.{
  ◌≡◌, refl, ◌∙◌, subst, String, Bool, true, false, ◌&&◌, Option, none, some, List, [], ◌∷◌, same,
  eq_iff,
}
use moss_code.Memory.{
  MemoryRecord, tombstone, Outcome, done, value_error, key_error, Surroundings, get, is_durable,
  giving, with_status,
}
use moss_code.Memory.Edits.{delete_found, delete}
use moss_code.Memory.View.{view, Refines, append_many-Refines, get-view}

pub same_self : (s : String) → same s s ≡ true
same_self s = (eq_iff s s).1 refl

both_and : (b : Bool) → (b && true) ≡ false → b ≡ false
both_and true h = h
both_and false h = refl

module _ (s : Surroundings) where
  -- What becomes of forgetting an id, from what the log has for it: nothing there is an error; a record is
  -- buried under its id, and nothing else changes, unless it may not be in the durable memory at all.
  abbrev pub Forgets :
      String
      → List MemoryRecord
      → Option MemoryRecord
      → Outcome (MemoryRecord × List MemoryRecord)
      → Type 0
  Forgets id log none o = o ≡ key_error id
  Forgets id log (some old) (done (t, after)) =
      (t ≡ with_status tombstone old)
      × (view after old.id ≡ some t)
      × ((other : String) → same old.id other ≡ false → view after other ≡ view log other)
  Forgets id log (some old) (value_error e) = is_durable old ≡ false
  Forgets id log (some old) (key_error e) = ⊥

  buried :
      (id : String) (old : MemoryRecord) (log : List MemoryRecord) (o : Outcome (List MemoryRecord))
      → Refines s (with_status tombstone old ∷ []) log o
      → Forgets id log (some old) (giving s (with_status tombstone old) o)
  buried id old log (done after) (durable, adds) = (
    refl,
    adds old.id ∙ rw (same_self old.id) refl,
    λ other differs. adds other ∙ rw differs refl,
  )
  buried id old log (value_error e) h = both_and (is_durable old) h
  buried id old log (key_error e) h = h

  found-Forgets :
      (id : String) (o : Option MemoryRecord) (log : List MemoryRecord)
      → Forgets id log o (delete_found s id o log)
  found-Forgets id none log = refl
  found-Forgets id (some old) log =
      buried id old log _ (append_many-Refines s (with_status tombstone old ∷ []) log)

  -- Forgetting an id fails, as an unknown memory, exactly when the log has no record of it. Otherwise it
  -- leaves a tombstone under the record's id and changes the record of no other id; it is refused only for a record
  -- that may not be in the durable memory.
  pub delete-Forgets :
      (id : String) (log : List MemoryRecord) → Forgets id log (view log id) (delete s id log)
  unfolding delete
  delete-Forgets id log =
      subst (λ (o : Option MemoryRecord). Forgets id log o (delete s id log)) (get-view id log)
        (found-Forgets id (get id log) log)
