-- ===== src/Index/Keep.antt =====
-- What the retention keeps, and what the fold of the records gives.
use moss_code.Base.{
  ◌*◌, ◌-◌, ◌<◌, ℕ, suc, ◌+◌, ◌≤◌, ◌≡◌, refl, sym, subst, get_elem?, String, Bool, true, false,
  Option, none, some, List, [], ◌∷◌, arith, eq_iff, if◌then◌else◌, elem, same, truthy, In, here,
  there, inl, inr, ◌⊎◌,
}
use mathlib.Core.List.{Perm}
use moss_code.Index.Newest.{IsNewestFirst, newest_first-perm, newest_first-IsNewestFirst}
use moss_code.Index.{
  newest_first, Entry, merge, fold_record, get, is_kept, is_recent, is_young, is_pinned,
  expired_from, expired_run_ids,
}

module _ (parse : String → Option ℕ) (keep_count keep_days : Option ℕ) (protected : List String)
    (now : ℕ) where
  -- Why an entry may go: it names a run that is neither protected nor pinned nor young, at a position that
  -- is not among the newest.
  pub record IsExpired (position : ℕ) (e : Entry) : Type 0 where
    pub named : truthy e.run_id ≡ true
    pub unprotected : elem e.run_id protected ≡ false
    pub unpinned : is_pinned e.pinned ≡ false
    pub beyond : (n : ℕ) × (keep_count ≡ some n) × (n ≤ position)
    pub old :
        (days : ℕ)
        → keep_days ≡ some days
        → (text : String) → e.started_at ≡ some text
        → (started : ℕ) → parse text ≡ some started
        → days * 86400000000 < now - started

  beyond_count :
      (position : ℕ) (o : Option ℕ)
      → keep_count ≡ o
      → is_recent parse keep_count keep_days protected now position ≡ false
      → (n : ℕ) × (keep_count ≡ some n) × (n ≤ position)
  unfolding is_recent
  beyond_count position none e h = absurd (ground arith)
  beyond_count position (some n) e h = (n, e, ground arith)

  too_old :
      (e : Entry)
      → is_young parse keep_count keep_days protected now e ≡ false
      → (days : ℕ) → keep_days ≡ some days
      → (text : String) → e.started_at ≡ some text
      → (started : ℕ) → parse text ≡ some started
      → days * 86400000000 < now - started
  unfolding is_young
  too_old e h days k text t started p = ground arith

  IsExpired-of_kept :
      (position : ℕ) (e : Entry)
      → is_kept parse keep_count keep_days protected now position e ≡ false
      → IsExpired position e
  unfolding is_kept
  IsExpired-of_kept position e h = record {
    named = ground arith;
    unprotected = ground arith;
    unpinned = ground arith;
    beyond = beyond_count position keep_count refl (ground arith);
    old = too_old e (ground arith);
  }

  -- The run stands at a position of the list, and its entry there has expired.
  abbrev pub IsExpiredIn : ℕ → List Entry → String → Type 0
  IsExpiredIn start es run_id =
      (e : Entry) × (k : ℕ) × (get_elem? es k ≡ some e)
      × (e.run_id ≡ run_id)
      × IsExpired (start + k) e

  IsExpiredIn-later :
      (start : ℕ) (d : Entry) (es : List Entry) (run_id : String)
      → IsExpiredIn (suc start) es run_id
      → IsExpiredIn start (d ∷ es) run_id
  IsExpiredIn-later start d es run_id (e, k, at, same_id, h) =
      (e, suc k, at, same_id, subst (λ p. IsExpired p e) (omega arith) h)

  first_or_later :
      (b : Bool) (run_id first : String) (rest : List String)
      → In run_id (if b then rest else first ∷ rest)
      → ((b ≡ false) × (run_id ≡ first)) ⊎ In run_id rest
  first_or_later true run_id first rest m = inr m
  first_or_later false run_id first rest (here e) = inl (refl, e)
  first_or_later false run_id first rest (there m) = inr m

  expired_from-IsExpired :
      (start : ℕ) (es : List Entry) (run_id : String)
      → In run_id (expired_from parse keep_count keep_days protected now start es)
      → IsExpiredIn start es run_id
  unfolding expired_from
  expired_from-IsExpired start [] run_id m = elim m [ ]
  expired_from-IsExpired start (e ∷ es) run_id m =
      elim (first_or_later (is_kept parse keep_count keep_days protected now start e) run_id
        e.run_id (expired_from parse keep_count keep_days protected now (suc start) es) m) [
          | inl (expired, same_id) ↦ (
            e,
            0,
            refl,
            sym same_id,
            subst (λ p. IsExpired p e) (omega arith) (IsExpired-of_kept start e expired),
          )
          | inr later ↦
              IsExpiredIn-later start e es run_id
                (expired_from-IsExpired (suc start) es run_id later)
        ]

  -- A run is archived only if a number of runs to keep is set and its entry, which names it and is neither
  -- protected nor pinned, stands behind at least so many in the list of all entries from the newest start to
  -- the oldest; and, where also a number of days is set and its start can be read, only if it started longer
  -- ago.
  pub expired_run_ids-IsExpired :
      (es : List Entry) (run_id : String)
      → In run_id (expired_run_ids parse keep_count keep_days protected now es)
      → Perm (newest_first es) es
        × IsNewestFirst (newest_first es)
        × IsExpiredIn 0 (newest_first es) run_id
  unfolding expired_run_ids
  expired_run_ids-IsExpired es run_id m = (
    newest_first-perm es,
    newest_first-IsNewestFirst es,
    expired_from-IsExpired 0 (newest_first es) run_id m,
  )

-- A record changes the entry of its own run only, where its fields win over those of earlier records.
pub get-fold_record :
    (r : Entry) (es : List Entry) (j : String)
    → get j (fold_record r es) ≡ (
        if same r.run_id j
        then some (elim (get j es) [ none ↦ r | some e ↦ merge e r ])
        else get j es)
unfolding get fold_record merge
get-fold_record r [] j = refl
get-fold_record r (e ∷ es) j =
    ground (
      arith,
      get-fold_record r es j,
      eq_iff e.run_id r.run_id,
      eq_iff r.run_id j,
      eq_iff e.run_id j,
    )
