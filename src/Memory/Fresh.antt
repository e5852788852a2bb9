-- ===== src/Memory/Fresh.antt =====
-- moss/memory/store.py: the memories whose sources changed are put up for review.
-- The content of a file of the workspace is a parameter: its digest, the empty text for what is no file in it.
use moss_code.Base.{
  ◌≡◌, refl, sym, ap, ◌∙◌, String, Bool, true, false, not, ◌&&◌, ◌||◌, Option, none, some, List, [],
  ◌∷◌, if◌then◌else◌, Bool-cases, inl, inr, same, truthy, Dict, lookup, eq_iff, filter,
}
use moss_code.Memory.{
  MemoryRecord, SourceRef, is_active, needs_review, with_status, Outcome, done, value_error,
  key_error, Surroundings, then_do, latest_from, values, all_records, active_records, all_durable,
  append_many,
}
use moss_code.Memory.View.{
  view, or_else, or_else-none, Keyed, latest_from-Keyed, lookup-latest_from, Refines,
  append_many-Refines,
}

-- Whether a source names a file, with its digest, that has another digest now.
abbrev pub differs : (String → String) → Option String → Option String → Bool
differs sha_of (some path) (some content_sha) =
    truthy path && (truthy content_sha && not (same (sha_of path) content_sha))
differs sha_of _ _ = false

unfoldable pub any_differs : (String → String) → List SourceRef → Bool
any_differs sha_of [] = false
any_differs sha_of (source ∷ sources) =
    differs sha_of source.path source.content_sha || any_differs sha_of sources

unfoldable pub stale_of : (String → String) → List MemoryRecord → List MemoryRecord
unfolding any_differs
stale_of sha_of [] = []
stale_of sha_of (r ∷ records) =
    if any_differs sha_of r.source_refs
    then with_status needs_review r ∷ stale_of sha_of records
    else stale_of sha_of records

module _ (s : Surroundings) where
  -- `refresh_freshness`
  abbrev pub store_stale :
      List MemoryRecord → List MemoryRecord → Outcome (List MemoryRecord × List MemoryRecord)
  store_stale [] log = done ([], log)
  store_stale (r ∷ stale) log =
      then_do (append_many s (r ∷ stale) log) (λ after. done (r ∷ stale, after))

  unfoldable pub refresh_freshness :
      Option (String → String) → List MemoryRecord → Outcome (List MemoryRecord × List MemoryRecord)
  unfolding stale_of active_records append_many
  refresh_freshness none log = done ([], log)
  refresh_freshness (some sha_of) log = store_stale (stale_of sha_of (active_records log)) log

-- The record that a refresh makes of the one that an id has, if it makes one.
abbrev pub put_up : (String → String) → Option MemoryRecord → Option MemoryRecord
put_up sha_of none = none
put_up sha_of (some r) =
    if is_active r.status && any_differs sha_of r.source_refs
    then some (with_status needs_review r)
    else none

or_else-nothing : (o : Option MemoryRecord) (b : Bool) → o ≡ or_else o (if b then none else none)
or_else-nothing o true = sym (or_else-none o)
or_else-nothing o false = sym (or_else-none o)

one_stale :
    (sha_of : String → String) (r : MemoryRecord) (records : List MemoryRecord) (id : String)
    → view (stale_of sha_of (if is_active r.status then r ∷ records else records)) id
      ≡ or_else
          (view (stale_of sha_of records) id)
          (if same r.id id then put_up sha_of (some r) else none)
unfolding stale_of
one_stale sha_of r records id = elim (Bool-cases (is_active r.status)) [
  | inr off ↦ rw off (or_else-nothing _ (same r.id id))
  | inl on ↦ rw on (elim (Bool-cases (any_differs sha_of r.source_refs)) [
    | inl stale ↦ rw stale refl
    | inr fresh ↦ rw fresh (or_else-nothing _ (same r.id id))
  ])
]

put_up_first :
    (sha_of : String → String) (r : MemoryRecord) (l : Option MemoryRecord) (b : Bool)
    → (b ≡ true → l ≡ none)
    → or_else (put_up sha_of l) (if b then put_up sha_of (some r) else none)
      ≡ put_up sha_of (if b then some r else l)
put_up_first sha_of r l true h = rw (h refl) refl
put_up_first sha_of r l false h = or_else-none (put_up sha_of l)

view-stale_of :
    (sha_of : String → String) (d : Dict MemoryRecord) (id : String)
    → Keyed d
    → view (stale_of sha_of (filter (λ r. is_active r.status) (values d))) id
      ≡ put_up sha_of (lookup id d)
unfolding lookup stale_of
view-stale_of sha_of [] id h = refl
view-stale_of sha_of ((k, r) ∷ d) id (own, new, h) =
    one_stale sha_of r (filter (λ r. is_active r.status) (values d)) id
    ∙ ap
        (λ (o : Option MemoryRecord).
          or_else o (if same r.id id then put_up sha_of (some r) else none))
        (view-stale_of sha_of d id h)
    ∙ ap
        (λ (x : String).
          or_else (put_up sha_of (lookup id d))
            (if same x id then put_up sha_of (some r) else none))
        own
    ∙ put_up_first sha_of r (lookup id d) (same k id)
        (λ on. ap (λ (x : String). lookup x d) (sym ((eq_iff k id).0 on)) ∙ new)

view-active :
    (sha_of : String → String) (log : List MemoryRecord) (id : String)
    → view (stale_of sha_of (active_records log)) id ≡ put_up sha_of (view log id)
unfolding active_records all_records lookup
view-active sha_of log id =
    view-stale_of sha_of (latest_from [] log) id (latest_from-Keyed [] log tt)
    ∙ ap (put_up sha_of) (lookup-latest_from [] log id ∙ or_else-none (view log id))

module _ (s : Surroundings) where
  -- The view after a refresh, or a refusal that names the stale records as the reason.
  abbrev pub Refreshes :
      (String → String)
      → List MemoryRecord
      → Outcome (List MemoryRecord × List MemoryRecord)
      → Type 0
  Refreshes sha_of log (done (stale, after)) =
      (id : String)
      → (view stale id ≡ put_up sha_of (view log id))
        × (view after id ≡ or_else (put_up sha_of (view log id)) (view log id))
  Refreshes sha_of log (value_error e) = all_durable (stale_of sha_of (active_records log)) ≡ false
  Refreshes sha_of log (key_error e) = ⊥

  stored-Refreshes :
      (sha_of : String → String) (stale log : List MemoryRecord) (o : Outcome (List MemoryRecord))
      → stale ≡ stale_of sha_of (active_records log)
      → Refines s stale log o
      → Refreshes sha_of log (then_do o (λ after. done (stale, after)))
  stored-Refreshes sha_of stale log (done after) e (durable, adds) = λ id.
      let known = ap (λ (l : List MemoryRecord). view l id) e ∙ view-active sha_of log id in
      (known, adds id ∙ ap (λ (o : Option MemoryRecord). or_else o (view log id)) known)
  stored-Refreshes sha_of stale log (value_error x) e h = ap all_durable (sym e) ∙ h
  stored-Refreshes sha_of stale log (key_error x) e h = h

  store_stale-Refreshes :
      (sha_of : String → String) (stale log : List MemoryRecord)
      → stale ≡ stale_of sha_of (active_records log)
      → Refreshes sha_of log (store_stale s stale log)
  unfolding append_many
  store_stale-Refreshes sha_of [] log e =
      stored-Refreshes sha_of [] log (done log) e (append_many-Refines s [] log)
  store_stale-Refreshes sha_of (r ∷ stale) log e =
      stored-Refreshes sha_of (r ∷ stale) log (append_many s (r ∷ stale) log) e
        (append_many-Refines s (r ∷ stale) log)

  -- A refresh in a workspace changes exactly the active memories with a source whose file has another digest
  -- now, or is no longer there: each of them waits for a review afterwards and is among the stale ones that it
  -- gives back, and what any other id has stays. It is refused only if a stale one may not be in the
  -- durable memory.
  pub refresh_freshness-Refreshes :
      (sha_of : String → String) (log : List MemoryRecord)
      → Refreshes sha_of log (refresh_freshness s (some sha_of) log)
  unfolding refresh_freshness
  refresh_freshness-Refreshes sha_of log =
      store_stale-Refreshes sha_of (stale_of sha_of (active_records log)) log refl
