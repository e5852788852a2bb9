-- ===== src/Memory/Trust.antt =====
-- A new fact does not push aside what is trusted more.
use moss_code.Base.{
  ℕ, ◌<◌, ◌≡◌, refl, sym, ap, ◌∙◌, subst, Bool, false, not, ◌&&◌, Option, none, some, List, [], ◌∷◌,
  if-elim, if-cases, same, eq_iff, strip, truthy, elem, arith, Bool-cases, inl, inr, In, here,
  there, filter,
}
use moss_code.Memory.{
  MemoryRecord, TrustLevel, memory_scopes, superseded, needs_review, Outcome, done, value_error,
  key_error, then_do, Surroundings, trust_rank, append_many, giving, with_status, make_record,
  active_records, all_records,
}
use moss_code.Memory.Conflicts.{
  is_peer, newest, is_newer, is_contradiction, wins, resolve, against_peers,
  append_resolving_conflicts,
}
use moss_code.Memory.View.{view, Refines, append_many-Refines, In-view}

behind {ℓ} :
    {A : Type ℓ} (x y : A) (ys xs : List A) → (In x ys → In x xs) → In x (y ∷ ys) → In x (y ∷ xs)
behind x y ys xs f (here e) = here e
behind x y ys xs f (there j) = there (f j)

In-filter_of {ℓ} : {A : Type ℓ} (p : A → Bool) (xs : List A) (x : A) → In x (filter p xs) → In x xs
In-filter_of p [] x i = elim i [ ]
In-filter_of p (y ∷ xs) x i =
    if-cases (λ l. In x l → In x (y ∷ xs)) (p y)
      (λ on. behind x y (filter p xs) xs (In-filter_of p xs x))
      (λ off j. there (In-filter_of p xs x j)) i

rank_of : Option MemoryRecord → ℕ
rank_of none = 0
rank_of (some r) = trust_rank r.trust

same_rank :
    (q old : MemoryRecord) (log : List MemoryRecord)
    → view log q.id ≡ some q
    → view log old.id ≡ some old
    → old.id ≡ q.id
    → trust_rank old.trust ≡ trust_rank q.trust
unfolding rank_of
same_rank q old log a b e = ap rank_of (sym b ∙ ap (view log) e ∙ a)

module _ (s : Surroundings) where
  skip : (x r q : MemoryRecord) (qs : List MemoryRecord) → In x (r ∷ qs) → In x (r ∷ q ∷ qs)
  skip x r q qs (here e) = here e
  skip x r q qs (there i) = there (there i)

  newest-In : (r : MemoryRecord) (qs : List MemoryRecord) → In (newest s r qs) (r ∷ qs)
  unfolding newest
  newest-In r [] = here refl
  newest-In r (q ∷ qs) =
      if-elim (λ (x : MemoryRecord). In (newest s x qs) (r ∷ q ∷ qs)) (is_newer s r q)
        (there (newest-In q qs)) (skip (newest s r qs) r q qs (newest-In r qs))

  HasTrust : TrustLevel → Outcome MemoryRecord → Type 0
  HasTrust trust (done t) = t.trust ≡ trust
  HasTrust trust (value_error e) = Unit
  HasTrust trust (key_error e) = Unit

  make_record-HasTrust : (r : MemoryRecord) → HasTrust r.trust (make_record s r)
  unfolding make_record HasTrust
  make_record-HasTrust r =
      if-elim (HasTrust r.trust) (not (elem r.scope memory_scopes)) tt
        (if-elim (HasTrust r.trust) (truthy (strip r.topic) && truthy (strip r.text)) refl tt)

  -- A record is kept by an outcome whose own record has another id.
  abbrev pub Keeps : MemoryRecord → Outcome (MemoryRecord × List MemoryRecord) → Type 0
  Keeps q (done (t, after)) = same t.id q.id ≡ false → view after q.id ≡ some q
  Keeps q (value_error e) = Unit
  Keeps q (key_error e) = Unit

  one-Keeps :
      (q t : MemoryRecord) (log : List MemoryRecord) (o : Outcome (List MemoryRecord))
      → view log q.id ≡ some q
      → Refines s (t ∷ []) log o
      → Keeps q (giving s t o)
  one-Keeps q t log (done after) there_is (durable, adds) =
      λ differs. adds q.id ∙ rw differs there_is
  one-Keeps q t log (value_error e) there_is h = tt
  one-Keeps q t log (key_error e) there_is h = tt

  two-Keeps :
      (q a b : MemoryRecord) (log : List MemoryRecord) (t : MemoryRecord)
      (o : Outcome (List MemoryRecord))
      → view log q.id ≡ some q
      → (same t.id q.id ≡ false → (same a.id q.id ≡ false) × (same b.id q.id ≡ false))
      → Refines s (a ∷ b ∷ []) log o
      → Keeps q (giving s t o)
  two-Keeps q a b log t (done after) there_is apart (durable, adds) =
      λ differs. let (first, second) = apart differs in adds q.id ∙ rw (second, first) there_is
  two-Keeps q a b log t (value_error e) there_is apart h = tt
  two-Keeps q a b log t (key_error e) there_is apart h = tt

  rewritten-Keeps :
      (q old : MemoryRecord) (log : List MemoryRecord) (o : Outcome MemoryRecord)
      → view log q.id ≡ some q
      → same old.id q.id ≡ false
      → Keeps q (
          then_do o
            (λ new. giving s new (append_many s (new ∷ with_status superseded old ∷ []) log)))
  rewritten-Keeps q old log (done new) there_is apart =
      two-Keeps q new (with_status superseded old) log new _ there_is (λ differs. (differs, apart))
        (append_many-Refines s (new ∷ with_status superseded old ∷ []) log)
  rewritten-Keeps q old log (value_error e) there_is apart = tt
  rewritten-Keeps q old log (key_error e) there_is apart = tt

  -- Two records of the log with different ranks have different ids.
  other_id :
      (q old : MemoryRecord) (log : List MemoryRecord)
      → view log q.id ≡ some q
      → view log old.id ≡ some old
      → trust_rank old.trust < trust_rank q.trust
      → same old.id q.id ≡ false
  other_id q old log a b lower = elim (Bool-cases (same old.id q.id)) [
    | inr off ↦ off
    | inl on ↦
        let e = same_rank q old log a b ((eq_iff old.id q.id).0 on) in
        absurd (omega (arith, lower, e))
  ]

  resolve-Keeps :
      (q old t : MemoryRecord) (log : List MemoryRecord)
      → view log q.id ≡ some q
      → view log old.id ≡ some old
      → trust_rank t.trust < trust_rank q.trust
      → Keeps q (resolve s old t log)
  unfolding resolve
  resolve-Keeps q old t log there_is old_is lower =
      if-cases (Keeps q) (is_contradiction s old t)
        (λ on.
          two-Keeps q (with_status needs_review old) (with_status needs_review t) log
            (with_status needs_review t) _ there_is
            (λ differs. (other_id q old log there_is old_is (ground arith), differs))
            (append_many-Refines s (with_status needs_review old ∷ with_status needs_review t ∷ [])
              log))
        (λ off.
          if-cases (Keeps q) (wins s old t)
            (λ on.
              rewritten-Keeps q old log _ there_is
                (other_id q old log there_is old_is (ground arith)))
            (λ off.
              one-Keeps q (with_status superseded t) log _ there_is
                (append_many-Refines s (with_status superseded t ∷ []) log)))

  against_peers-Keeps :
      (q t : MemoryRecord) (peers log : List MemoryRecord)
      → ((p : MemoryRecord) → In p peers → view log p.id ≡ some p)
      → view log q.id ≡ some q
      → trust_rank t.trust < trust_rank q.trust
      → Keeps q (against_peers s peers t log)
  against_peers-Keeps q t [] log known there_is lower =
      one-Keeps q t log _ there_is (append_many-Refines s (t ∷ []) log)
  against_peers-Keeps q t (p ∷ peers) log known there_is lower =
      resolve-Keeps q (newest s p peers) t log there_is (known _ (newest-In p peers)) lower

  after_rebuild :
      (q r : MemoryRecord) (log : List MemoryRecord) (o : Outcome MemoryRecord)
      → HasTrust r.trust o
      → view log q.id ≡ some q
      → trust_rank r.trust < trust_rank q.trust
      → Keeps q (then_do o (λ t. against_peers s (filter (is_peer s t) (active_records log)) t log))
  unfolding HasTrust active_records
  after_rebuild q r log (done t) trusted there_is lower =
      against_peers-Keeps q t (filter (is_peer s t) (active_records log)) log
        (λ p i. In-view log p (
          In-filter_of _ (all_records log) p (In-filter_of (is_peer s t) (active_records log) p i)))
        there_is (subst (λ (l : TrustLevel). trust_rank l < trust_rank q.trust) (sym trusted) lower)
  after_rebuild q r log (value_error e) trusted there_is lower = tt
  after_rebuild q r log (key_error e) trusted there_is lower = tt

  -- Adding a fact never changes the record of an id that is trusted more than the new fact, unless the
  -- digest of what is added is that very id: in particular, what the model says supersedes nothing that the
  -- user said, whatever the times and whether or not they contradict each other.
  pub append_resolving_conflicts-Keeps :
      (q r : MemoryRecord) (log : List MemoryRecord)
      → view log q.id ≡ some q
      → trust_rank r.trust < trust_rank q.trust
      → Keeps q (append_resolving_conflicts s r log)
  unfolding append_resolving_conflicts
  append_resolving_conflicts-Keeps q r log there_is lower =
      after_rebuild q r log _ (make_record-HasTrust (record r { subject = s.subject_for r.text }))
        there_is lower
