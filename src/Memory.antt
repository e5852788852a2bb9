-- ===== src/Memory.antt =====
-- moss/memory/records.py and moss/memory/store.py: the durable memory, a log of immutable records.
-- The log is the list of records in records.jsonl. The digest of an identity, the sorted set of tags, the
-- subject of a text, the conflict of two texts and the order of two times are parameters; the confidence,
-- and the Markdown that is made from the log, are left out.
pub mod View
pub mod Edits
pub mod Conflicts
pub mod Changes
pub mod Revise
pub mod Fresh
pub mod Log
pub mod Torn
pub mod Trust
mod Tests
use moss_code.Base.{
  is_none, ℕ, String, Bool, true, false, not, ◌&&◌, ◌||◌, Option, none, some, List, [], ◌∷◌, ◌++◌,
  if◌then◌else◌, ltb, ◌==◌, length, map, filter, find, same, elem, truthy, strip, Dict, lookup,
  update,
}

pub data TrustLevel : Type 0 where
  tool model user : TrustLevel

pub data Status : Type 0 where
  active superseded needs_review tombstone : Status

pub record SourceRef : Type 0 where
  pub run_id : String
  pub event_seq : Option ℕ
  pub path : Option String
  pub line_start : Option ℕ
  pub line_end : Option ℕ
  pub content_sha : Option String

pub record MemoryRecord : Type 0 where
  pub id : String
  pub scope : String
  pub scope_key : String
  pub topic : String
  pub subject : String
  pub text : String
  pub tags : List String
  pub trust : TrustLevel
  pub source_refs : List SourceRef
  pub created_at : String
  pub observed_at : String
  pub status : Status
  pub supersedes : List String
  pub legacy : Bool

-- What the digest of a record is made of.
pub record Identity : Type 0 where
  pub scope : String
  pub scope_key : String
  pub topic : String
  pub subject : String
  pub text : String
  pub tags : List String
  pub trust : TrustLevel
  pub source_refs : List SourceRef
  pub observed_at : String
  pub supersedes : List String

pub data Outcome {ℓ} (A : Type ℓ) : Type ℓ where
  done : A → Outcome A
  value_error key_error : String → Outcome A

abbrev pub then_do {ℓ κ} : {A : Type ℓ} {B : Type κ} → Outcome A → (A → Outcome B) → Outcome B
then_do (done a) f = f a
then_do (value_error e) f = value_error e
then_do (key_error e) f = key_error e

-- What the store uses of its surroundings.
pub record Surroundings : Type 0 where
  pub digest : Identity → String
  pub sorted_set : List String → List String
  pub subject_for : String → String
  pub texts_conflict : String → String → Bool
  pub is_later : String → String → Bool
  pub within_an_hour : String → String → Bool
  pub compact_threshold : ℕ

-- `MEMORY_SCOPES`
abbrev pub memory_scopes : List String
memory_scopes = "global" ∷ "project" ∷ "path" ∷ "session" ∷ []

-- `_TRUST_RANK`
abbrev pub trust_rank : TrustLevel → ℕ
trust_rank tool = 0
trust_rank model = 1
trust_rank user = 2

abbrev pub is_active : Status → Bool
is_active active = true
is_active _ = false

abbrev pub is_recallable : Status → Bool
is_recallable active = true
is_recallable needs_review = true
is_recallable _ = false

abbrev pub is_tool : TrustLevel → Bool
is_tool tool = true
is_tool _ = false

-- `all_records`: the last record of each id, where its first one stood.
unfoldable pub latest_from : Dict MemoryRecord → List MemoryRecord → Dict MemoryRecord
unfolding update
latest_from latest [] = latest
latest_from latest (r ∷ log) = latest_from (update r.id r latest) log

abbrev pub values : Dict MemoryRecord → List MemoryRecord
values [] = []
values ((k, r) ∷ d) = r ∷ values d

unfoldable pub all_records : List MemoryRecord → List MemoryRecord
unfolding latest_from
all_records log = values (latest_from [] log)

unfoldable pub active_records : List MemoryRecord → List MemoryRecord
unfolding all_records
active_records log = filter (λ r. is_active r.status) (all_records log)

unfoldable pub recallable_records : List MemoryRecord → List MemoryRecord
unfolding all_records
recallable_records log = filter (λ r. is_recallable r.status) (all_records log)

-- `get`
unfoldable pub get : String → List MemoryRecord → Option MemoryRecord
unfolding all_records
get id log = find (λ r. same r.id id) (all_records log)

-- `_validate_durable_record`
abbrev pub is_durable : MemoryRecord → Bool
is_durable r = not (is_tool r.trust) && (r.legacy || not (is_none r.source_refs))

abbrev pub with_status : Status → MemoryRecord → MemoryRecord
with_status status r = record r { status = status }

abbrev pub all_durable : List MemoryRecord → Bool
all_durable [] = true
all_durable (r ∷ records) = is_durable r && all_durable records

module _ (s : Surroundings) where
  abbrev pub identity : MemoryRecord → Identity
  identity r = record {
    scope = r.scope;
    scope_key = r.scope_key;
    topic = r.topic;
    subject = r.subject;
    text = r.text;
    tags = r.tags;
    trust = r.trust;
    source_refs = r.source_refs;
    observed_at = r.observed_at;
    supersedes = r.supersedes;
  }

  -- `make_record`: the given record with its texts stripped, its tags sorted and its id computed.
  abbrev pub stripped : MemoryRecord → MemoryRecord
  stripped r = record r {
    topic = strip r.topic;
    subject = strip r.subject;
    text = strip r.text;
    tags = s.sorted_set (filter truthy (map strip r.tags));
  }

  unfoldable pub make_record : MemoryRecord → Outcome MemoryRecord
  unfolding strip
  make_record r =
      let t = stripped r in
      if not (elem t.scope memory_scopes)
      then value_error "invalid memory scope"
      else if truthy t.topic && truthy t.text
      then done (record t { id = s.digest (identity t) })
      else value_error "memory topic and text must not be empty"

  -- `compact`
  unfoldable pub compact : List MemoryRecord → List MemoryRecord
  unfolding all_records
  compact log = all_records log

  unfoldable pub persist : List MemoryRecord → List MemoryRecord
  unfolding compact
  persist log = if ltb s.compact_threshold (length log) then compact log else log

  unfoldable pub append_many : List MemoryRecord → List MemoryRecord → Outcome (List MemoryRecord)
  unfolding persist
  append_many [] log = done log
  append_many (r ∷ records) log =
      if all_durable (r ∷ records)
      then done (persist (log ++ (r ∷ records)))
      else value_error "not a durable record"

  abbrev pub append : MemoryRecord → List MemoryRecord → Outcome (List MemoryRecord)
  append r log = append_many (r ∷ []) log

  abbrev pub giving :
      MemoryRecord → Outcome (List MemoryRecord) → Outcome (MemoryRecord × List MemoryRecord)
  giving r o = then_do o (λ log. done (r, log))
