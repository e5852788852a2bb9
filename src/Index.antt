-- ===== src/Index.antt =====
-- moss/runs/index.py: the entries of the run index, and which runs are old enough to be archived.
-- A time is a number of microseconds; the parser of dates and `int` are parameters.
pub mod Newest
pub mod Keep
mod Tests
use Prim.Native.Char.{code}
use Prim.Native.String
use moss_code.Base.{
  ℕ, suc, ◌-◌, ◌*◌, ◌≡◌, String, Bool, true, false, not, ◌&&◌, ◌||◌, Option, none, some, List, [],
  ◌∷◌, ltb, leb, ◌==◌, if◌then◌else◌, same, truthy, elem, strip, Dict, lookup, update, get_or_else,
}

-- The fields of an entry, each of which a record may lack.
pub record Entry : Type 0 where
  pub run_id : String
  pub started_at : Option String
  pub status : Option String
  pub stop_reason : Option String
  pub task_summary : Option String
  pub cost_usd : Option String
  pub pinned : Option Bool

abbrev newer {ℓ} : {A : Type ℓ} → Option A → Option A → Option A
newer old none = old
newer old (some v) = some v

-- `merged.update(record)`: the fields that the record has win.
unfoldable pub merge : Entry → Entry → Entry
merge old new = record {
  run_id = new.run_id;
  started_at = newer old.started_at new.started_at;
  status = newer old.status new.status;
  stop_reason = newer old.stop_reason new.stop_reason;
  task_summary = newer old.task_summary new.task_summary;
  cost_usd = newer old.cost_usd new.cost_usd;
  pinned = newer old.pinned new.pinned;
}

-- The fold of `entries`: one entry for each run, in the order of the first record.
unfoldable pub fold_record : Entry → List Entry → List Entry
fold_record r [] = r ∷ []
fold_record r (e ∷ es) =
    let rest = fold_record r es in if same e.run_id r.run_id then merge e r ∷ es else e ∷ rest

unfoldable pub fold_records : List Entry → List Entry → List Entry
fold_records folded [] = folded
fold_records folded (r ∷ rs) =
    fold_records (if truthy r.run_id then fold_record r folded else folded) rs

-- `str(item.get("started_at", ""))`
abbrev pub started_key : Entry → String
started_key e = elim e.started_at [ none ↦ "" | some text ↦ text ]

-- `s <= t` on texts, by their characters.
unfoldable pub is_at_most : String → String → Bool
is_at_most String.[] t = true
is_at_most (String.◌∷◌ c s) String.[] = false
is_at_most (String.◌∷◌ c s) (String.◌∷◌ d t) =
    ltb (code c) (code d) || ((code c == code d) && is_at_most s t)

-- `sorted(…, key=…, reverse=True)`, which leaves entries that started together in their order.
unfoldable pub insert_newest : Entry → List Entry → List Entry
unfolding is_at_most
insert_newest e [] = e ∷ []
insert_newest e (d ∷ es) =
    let later = insert_newest e es in
    if is_at_most (started_key d) (started_key e) then e ∷ d ∷ es else d ∷ later

unfoldable pub newest_first : List Entry → List Entry
unfolding insert_newest
newest_first [] = []
newest_first (e ∷ es) = insert_newest e (newest_first es)

unfoldable pub entries : List Entry → List Entry
unfolding fold_records newest_first
entries raw = newest_first (fold_records [] raw)

-- `get`
unfoldable pub get : String → List Entry → Option Entry
get run_id [] = none
get run_id (e ∷ es) = if same e.run_id run_id then some e else get run_id es

-- An integer that a text holds: not positive, or its value.
pub data Parsed : Type 0 where
  malformed not_positive : Parsed
  positive : ℕ → Parsed

-- `_int` of `retention_limits`; `none` means that this limit is off.
unfoldable pub limit_of : (String → Parsed) → Dict String → String → ℕ → Option ℕ
unfolding strip get_or_else
limit_of int env name default =
    let raw = strip (get_or_else env name "") in
    if not (truthy raw)
    then some default
    else elim (int raw) [ malformed ↦ some default | not_positive ↦ none | positive n ↦ some n ]

unfoldable pub retention_limits : (String → Parsed) → Dict String → Option ℕ × Option ℕ
retention_limits int env =
    (limit_of int env "MOSS_RUN_RETENTION_COUNT" 200, limit_of int env "MOSS_RUN_RETENTION_DAYS" 30)

abbrev is_pinned : Option Bool → Bool
is_pinned none = false
is_pinned (some b) = b

module _ (parse : String → Option ℕ) (keep_count keep_days : Option ℕ) (protected : List String)
    (now : ℕ) where
  -- `keep_count is None or position < keep_count`
  unfoldable pub is_recent : ℕ → Bool
  is_recent position = elim keep_count [ none ↦ true | some n ↦ ltb position n ]

  -- `now - started <= timedelta(days=keep_days)`
  abbrev started_since : Option ℕ → Bool
  started_since none = false
  started_since (some started) = elim keep_days [
    | none ↦ false
    | some days ↦ leb (now - started) (days * 86400000000)
  ]

  abbrev parse_time : Option String → Option ℕ
  parse_time none = none
  parse_time (some text) = parse text

  unfoldable pub is_young : Entry → Bool
  is_young e = started_since (parse_time e.started_at)

  unfoldable pub is_kept : ℕ → Entry → Bool
  unfolding is_recent is_young
  is_kept position e =
      not (truthy e.run_id)
      || elem e.run_id protected
      || is_pinned e.pinned
      || is_recent position
      || is_young e

  -- The loop over the sorted entries, from a position on.
  unfoldable pub expired_from : ℕ → List Entry → List String
  expired_from position [] = []
  expired_from position (e ∷ es) =
      let rest = expired_from (suc position) es in
      if is_kept position e then rest else e.run_id ∷ rest

  unfoldable pub expired_run_ids : List Entry → List String
  unfolding newest_first expired_from
  expired_run_ids es = expired_from 0 (newest_first es)
