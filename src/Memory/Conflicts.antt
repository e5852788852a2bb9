-- ===== src/Memory/Conflicts.antt =====
-- moss/memory/store.py: adding a fact beside those on its subject.
use Prim.Native.Nat.{Ordering}
use Prim.Native.String
use moss_code.Base.{
  String, Bool, true, false, not, ◌&&◌, ◌||◌, List, [], ◌∷◌, if◌then◌else◌, ltb, ◌==◌, filter, same,
}
use moss_code.Memory.{
  MemoryRecord, superseded, needs_review, Outcome, then_do, Surroundings, trust_rank,
  active_records, with_status, make_record, append_many, append, giving,
}

module _ (s : Surroundings) where
  -- `append_resolving_conflicts`
  abbrev pub is_peer : MemoryRecord → MemoryRecord → Bool
  is_peer r old =
      same old.scope r.scope
      && (same old.scope_key r.scope_key
          && (same old.topic r.topic && same (s.subject_for old.subject) r.subject))

  abbrev pub text_lt : String → String → Bool
  text_lt a b = elim (String.compare a b) [ Ordering.lt ↦ true | _ ↦ false ]

  -- Whether the second one's key, the time and then the text of its creation, is above the first one's.
  abbrev pub is_newer : MemoryRecord → MemoryRecord → Bool
  is_newer a b =
      s.is_later b.observed_at a.observed_at
      || (not (s.is_later a.observed_at b.observed_at) && text_lt a.created_at b.created_at)

  unfoldable pub newest : MemoryRecord → List MemoryRecord → MemoryRecord
  newest r [] = r
  newest r (q ∷ qs) = newest (if is_newer r q then q else r) qs

  abbrev pub is_contradiction : MemoryRecord → MemoryRecord → Bool
  is_contradiction old r =
      (trust_rank r.trust == trust_rank old.trust)
      && (s.within_an_hour r.observed_at old.observed_at && s.texts_conflict old.text r.text)

  abbrev pub wins : MemoryRecord → MemoryRecord → Bool
  wins old r =
      ltb (trust_rank old.trust) (trust_rank r.trust)
      || ((trust_rank r.trust == trust_rank old.trust) && s.is_later r.observed_at old.observed_at)

  unfoldable pub resolve :
      MemoryRecord → MemoryRecord → List MemoryRecord → Outcome (MemoryRecord × List MemoryRecord)
  unfolding append_many make_record
  resolve old r log =
      if is_contradiction old r
      then giving s (with_status needs_review r)
          (append_many s (with_status needs_review old ∷ with_status needs_review r ∷ []) log)
      else if wins old r
      then then_do (make_record s (record r { supersedes = old.id ∷ [] }))
          (λ new. giving s new (append_many s (new ∷ with_status superseded old ∷ []) log))
      else giving s (with_status superseded r) (append s (with_status superseded r) log)

  abbrev pub against_peers :
      List MemoryRecord
      → MemoryRecord
      → List MemoryRecord
      → Outcome (MemoryRecord × List MemoryRecord)
  against_peers [] r log = giving s r (append s r log)
  against_peers (q ∷ qs) r log = resolve (newest q qs) r log

  unfoldable pub append_resolving_conflicts :
      MemoryRecord → List MemoryRecord → Outcome (MemoryRecord × List MemoryRecord)
  unfolding make_record resolve newest active_records
  append_resolving_conflicts r log =
      then_do (make_record s (record r { subject = s.subject_for r.text }))
        (λ t. against_peers (filter (is_peer t) (active_records log)) t log)
