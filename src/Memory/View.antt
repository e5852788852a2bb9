-- ===== src/Memory/View.antt =====
-- The log as a map from ids to records: what each operation does to it.
use moss_code.Base.{
  ◌≡◌, refl, sym, ap, ◌∙◌, String, Bool, true, false, Option, none, some, List, [], ◌∷◌, ◌++◌,
  if◌then◌else◌, if-elim, if-cases, find, same, Dict, lookup, update, lookup-update, same_comm,
  eq_iff, length, ltb, In, here, there,
}
use moss_code.Memory.{
  MemoryRecord, Outcome, done, value_error, key_error, Surroundings, latest_from, values,
  all_records, get, compact, persist, append_many, all_durable,
}

abbrev pub or_else : Option MemoryRecord → Option MemoryRecord → Option MemoryRecord
or_else none o = o
or_else (some r) o = some r

-- The abstract view of a log: the last record with an id.
abbrev pub view : List MemoryRecord → String → Option MemoryRecord
view [] id = none
view (r ∷ log) id = or_else (view log id) (if same r.id id then some r else none)

-- Every record stands once, under its own id.
abbrev pub Keyed : Dict MemoryRecord → Type 0
Keyed [] = Unit
Keyed ((k, r) ∷ d) = (r.id ≡ k) × (lookup k d ≡ none) × Keyed d

or_else_assoc : (a b c : Option MemoryRecord) → or_else a (or_else b c) ≡ or_else (or_else a b) c
or_else_assoc none b c = refl
or_else_assoc (some r) b c = refl

pub or_else-none : (o : Option MemoryRecord) → or_else o none ≡ o
or_else-none none = refl
or_else-none (some r) = refl

or_else_if :
    (v l : Option MemoryRecord) (r : MemoryRecord) (b : Bool)
    → or_else v (if b then some r else l) ≡ or_else (or_else v (if b then some r else none)) l
or_else_if none l r true = refl
or_else_if none l r false = refl
or_else_if (some q) l r b = refl

first_is_only :
    (l : Option MemoryRecord) (r : MemoryRecord) (b : Bool)
    → (b ≡ true → l ≡ none)
    → or_else l (if b then some r else none) ≡ (if b then some r else l)
first_is_only l r true h = rw (h refl) refl
first_is_only l r false h = or_else-none l

view-append :
    (log more : List MemoryRecord) (id : String)
    → view (log ++ more) id ≡ or_else (view more id) (view log id)
view-append [] more id = sym (or_else-none (view more id))
view-append (r ∷ log) more id =
    ap (λ (o : Option MemoryRecord). or_else o (if same r.id id then some r else none))
      (view-append log more id)
    ∙ sym (or_else_assoc (view more id) (view log id) (if same r.id id then some r else none))

pub lookup-latest_from :
    (d : Dict MemoryRecord) (log : List MemoryRecord) (id : String)
    → lookup id (latest_from d log) ≡ or_else (view log id) (lookup id d)
unfolding latest_from
lookup-latest_from d [] id = refl
lookup-latest_from d (r ∷ log) id =
    lookup-latest_from (update r.id r d) log id
    ∙ ap (λ (o : Option MemoryRecord). or_else (view log id) o) (lookup-update r.id id r d)
    ∙ or_else_if (view log id) (lookup id d) r (same r.id id)

update-Keyed : (r : MemoryRecord) (d : Dict MemoryRecord) → Keyed d → Keyed (update r.id r d)
unfolding update lookup
update-Keyed r [] h = (refl, refl, tt)
update-Keyed r ((k, q) ∷ d) (own, new, h) =
    if-cases Keyed (same k r.id) (λ on. (sym ((eq_iff k r.id).0 on), new, h))
      (λ off. (own, absent off, update-Keyed r d h))
  where
    absent : same k r.id ≡ false → lookup k (update r.id r d) ≡ none
    absent off = lookup-update r.id k r d ∙ rw (same_comm r.id k, off) new

pub latest_from-Keyed :
    (d : Dict MemoryRecord) (log : List MemoryRecord) → Keyed d → Keyed (latest_from d log)
unfolding latest_from
latest_from-Keyed d [] h = h
latest_from-Keyed d (r ∷ log) h = latest_from-Keyed (update r.id r d) log (update-Keyed r d h)

view-values : (d : Dict MemoryRecord) (id : String) → Keyed d → view (values d) id ≡ lookup id d
unfolding lookup
view-values [] id h = refl
view-values ((k, r) ∷ d) id (own, new, h) =
    ap (λ (o : Option MemoryRecord). or_else o (if same r.id id then some r else none))
      (view-values d id h)
    ∙ ap (λ (x : String). or_else (lookup id d) (if same x id then some r else none)) own
    ∙ first_is_only (lookup id d) r (same k id)
        (λ on. ap (λ (x : String). lookup x d) (sym ((eq_iff k id).0 on)) ∙ new)

find-values :
    (d : Dict MemoryRecord) (id : String)
    → Keyed d
    → find (λ r. same r.id id) (values d) ≡ lookup id d
unfolding lookup
find-values [] id h = refl
find-values ((k, r) ∷ d) id (own, new, h) =
    ap (λ (o : Option MemoryRecord). if same r.id id then some r else o) (find-values d id h)
    ∙ ap (λ (x : String). if same x id then some r else lookup id d) own

-- `get` reads the view.
pub get-view : (id : String) (log : List MemoryRecord) → get id log ≡ view log id
unfolding get all_records lookup
get-view id log =
    find-values (latest_from [] log) id (latest_from-Keyed [] log tt)
    ∙ lookup-latest_from [] log id
    ∙ or_else-none (view log id)

view-all_records : (log : List MemoryRecord) (id : String) → view (all_records log) id ≡ view log id
unfolding all_records lookup
view-all_records log id =
    view-values (latest_from [] log) id (latest_from-Keyed [] log tt)
    ∙ lookup-latest_from [] log id
    ∙ or_else-none (view log id)

clash : {r : MemoryRecord} → none ≡ some r → ⊥
clash e = cc

lookup-In :
    (d : Dict MemoryRecord) (r : MemoryRecord) → Keyed d → In r (values d) → lookup r.id d ≡ some r
unfolding lookup
lookup-In [] r h i = elim i [ ]
lookup-In ((k, q) ∷ d) r (own, new, h) (here e) =
    rw ((eq_iff k r.id).1 (sym own ∙ ap (λ (x : MemoryRecord). x.id) (sym e)))
      (ap (λ (x : MemoryRecord). some x) (sym e))
lookup-In ((k, q) ∷ d) r (own, new, h) (there i) =
    if-cases (λ (o : Option MemoryRecord). o ≡ some r) (same k r.id)
      (λ on. absurd (
        clash
          (sym new ∙ ap (λ (x : String). lookup x d) ((eq_iff k r.id).0 on) ∙ lookup-In d r h i)))
      (λ off. lookup-In d r h i)

-- A record that is among all the records is what the view has for its id.
pub In-view :
    (log : List MemoryRecord) (r : MemoryRecord) → In r (all_records log) → view log r.id ≡ some r
unfolding all_records lookup
In-view log r i =
    sym (lookup-latest_from [] log r.id ∙ or_else-none (view log r.id))
    ∙ lookup-In (latest_from [] log) r (latest_from-Keyed [] log tt) i

module _ (s : Surroundings) where
  view-persist : (log : List MemoryRecord) (id : String) → view (persist s log) id ≡ view log id
  unfolding persist compact
  view-persist log id =
      if-elim (λ (l : List MemoryRecord). view l id ≡ view log id)
        (ltb s.compact_threshold (length log)) (view-all_records log id) refl

  -- What an operation makes of the view: the given records come before what was there.
  abbrev pub Adds : List MemoryRecord → List MemoryRecord → List MemoryRecord → Type 0
  Adds records log after = (id : String) → view after id ≡ or_else (view records id) (view log id)

  -- An outcome that is refused for these records, or that adds them.
  abbrev pub Refines : List MemoryRecord → List MemoryRecord → Outcome (List MemoryRecord) → Type 0
  Refines records log (done after) = (all_durable records ≡ true) × Adds records log after
  Refines records log (value_error e) = all_durable records ≡ false
  Refines records log (key_error e) = ⊥

  -- Appending refines the update of a map from ids to records: it is refused exactly when a record comes
  -- from a tool, or has no sources and is not an old one; otherwise each id has the last of the new
  -- records with it, or what it had, whether or not the log was compacted on the way.
  pub append_many-Refines :
      (records log : List MemoryRecord) → Refines records log (append_many s records log)
  unfolding append_many
  append_many-Refines [] log = (refl, λ id. refl)
  append_many-Refines (r ∷ records) log =
      if-cases (Refines (r ∷ records) log) (all_durable (r ∷ records))
        (λ on.
          (on, λ id. view-persist (log ++ (r ∷ records)) id ∙ view-append log (r ∷ records) id))
        (λ off. off)
