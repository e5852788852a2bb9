-- ===== src/Memory/Edits.antt =====
-- moss/memory/store.py: forgetting and updating a memory.
use moss_code.Base.{String, Option, none, some, List, [], ◌∷◌, if◌then◌else◌, truthy, strip}
use moss_code.Memory.{
  MemoryRecord, SourceRef, TrustLevel, active, superseded, tombstone, Outcome, key_error, then_do,
  Surroundings, is_active, get, with_status, make_record, append_many, append, giving,
}

-- `update` at some time: the text, and what is given for the observation ("" for nothing), for the sources
-- and for the trust.
pub record Change : Type 0 where
  pub now : String
  pub new_text : String
  pub new_observed_at : String
  pub new_source_refs : Option (List SourceRef)
  pub new_trust : Option TrustLevel

abbrev pub or_old {ℓ} : {A : Type ℓ} → Option A → A → A
or_old none old = old
or_old (some new) old = new

unfoldable pub revision : Change → MemoryRecord → MemoryRecord
unfolding strip
revision c old = record old {
  text = strip c.new_text;
  trust = or_old c.new_trust old.trust;
  source_refs = or_old c.new_source_refs old.source_refs;
  created_at = c.now;
  observed_at = if truthy c.new_observed_at then c.new_observed_at else c.now;
  status = active;
  supersedes = old.id ∷ [];
}

module _ (s : Surroundings) where
  -- `delete`
  abbrev pub delete_found :
      String → Option MemoryRecord → List MemoryRecord → Outcome (MemoryRecord × List MemoryRecord)
  delete_found id none log = key_error id
  delete_found id (some old) log =
      giving s (with_status tombstone old) (append s (with_status tombstone old) log)

  unfoldable pub delete : String → List MemoryRecord → Outcome (MemoryRecord × List MemoryRecord)
  unfolding get append_many
  delete id log = delete_found id (get id log) log

  abbrev pub store_revision :
      MemoryRecord → List MemoryRecord → MemoryRecord → Outcome (MemoryRecord × List MemoryRecord)
  store_revision old log new =
      giving s new (append_many s (new ∷ with_status superseded old ∷ []) log)

  abbrev pub update_found :
      Change
      → String
      → Option MemoryRecord
      → List MemoryRecord
      → Outcome (MemoryRecord × List MemoryRecord)
  update_found c id none log = key_error id
  update_found c id (some old) log =
      if is_active old.status
      then then_do (make_record s (revision c old)) (store_revision old log)
      else key_error id

  unfoldable pub update_record :
      Change → String → List MemoryRecord → Outcome (MemoryRecord × List MemoryRecord)
  unfolding get append_many make_record revision
  update_record c id log = update_found c id (get id log) log
