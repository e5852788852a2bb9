-- ===== src/Ledger/Pending.antt =====
-- Which actions are still open.
use moss_code.Base.{
  ◌≡◌, ◌≢◌, refl, subst, String, Bool, true, false, not, List, [], ◌∷◌, arith, eq_iff,
  if◌then◌else◌, elem, filter, In, here, there, inl, inr, ◌⊎◌, ap,
}
use moss_code.Ledger.{
  Intent, Receipt, Event, intent, receipt, other, receipt_ids, first_intents, pair_actions,
}

abbrev id_of : Event → String
id_of (intent i) = i.action_id
id_of (receipt r) = r.action_id
id_of other = ""

In-if {ℓ} :
    {A : Type ℓ} (b : Bool) (x y : A) (kept skipped : List A)
    → In x (if b then y ∷ kept else skipped)
    → ((b ≡ true) × (x ≡ y)) ⊎ (((b ≡ true) × In x kept) ⊎ In x skipped)
In-if true x y kept skipped (here e) = inl (refl, e)
In-if true x y kept skipped (there m) = inr (inl (refl, m))
In-if false x y kept skipped m = inr (inr m)

receipt_ids_complete :
    (events : List Event) (r : Receipt)
    → In (receipt r) events
    → elem r.action_id (receipt_ids events) ≡ true
unfolding receipt_ids
receipt_ids_complete [] r m = elim m [ ]
receipt_ids_complete (receipt q ∷ events) r (here e) =
    let same_id = ap id_of e in ground (arith, eq_iff r.action_id q.action_id, same_id)
receipt_ids_complete (receipt q ∷ events) r (there m) =
    ground (arith, receipt_ids_complete events r m)
receipt_ids_complete (intent i ∷ events) r (here e) = cc
receipt_ids_complete (intent i ∷ events) r (there m) = receipt_ids_complete events r m
receipt_ids_complete (other ∷ events) r (here e) = cc
receipt_ids_complete (other ∷ events) r (there m) = receipt_ids_complete events r m

In-filter {ℓ} :
    {A : Type ℓ} (p : A → Bool) (x : A) (xs : List A) → In x (filter p xs) → In x xs × (p x ≡ true)
In-filter p x [] m = elim m [ ]
In-filter p x (y ∷ xs) m = elim (In-if (p y) x y (filter p xs) (filter p xs) m) [
  | inl (e, same_x) ↦ (here same_x, rw same_x e)
  | inr (inl (e, n)) ↦ let (k, h) = In-filter p x xs n in (there k, h)
  | inr (inr n) ↦ let (k, h) = In-filter p x xs n in (there k, h)
]

first_intents_sound :
    (seen : List String) (events : List Event) (i : Intent)
    → In i (first_intents seen events)
    → In (intent i) events × (elem i.action_id seen ≡ false)
unfolding first_intents
first_intents_sound seen [] i m = elim m [ ]
first_intents_sound seen (intent j ∷ events) i m =
    elim (In-if _ i j (first_intents (j.action_id ∷ seen) events) (first_intents seen events) m) [
      | inl (e, same_i) ↦ (here (ap intent same_i), rw same_i (ground arith))
      | inr (inl (e, n)) ↦
          let (k, h) = first_intents_sound (j.action_id ∷ seen) events i n in
          (there k, ground arith)
      | inr (inr n) ↦ let (k, h) = first_intents_sound seen events i n in (there k, h)
    ]
first_intents_sound seen (receipt r ∷ events) i m =
    let (n, e) = first_intents_sound seen events i m in (there n, e)
first_intents_sound seen (other ∷ events) i m =
    let (n, e) = first_intents_sound seen events i m in (there n, e)

receipted :
    (events : List Event) (i : Intent) (r : Receipt)
    → In (receipt r) events
    → r.action_id ≡ i.action_id
    → not (elem i.action_id (receipt_ids events)) ≢ true
receipted events i r q e n =
    let found =
      subst (λ id. elem id (receipt_ids events) ≡ true) e (receipt_ids_complete events r q) in
    ground arith

-- An action is pending only if the trace holds its intent and no receipt of it.
pub pair_actions-pending :
    (events : List Event) (i : Intent)
    → In i (pair_actions events).1
    → In (intent i) events × ((r : Receipt) → In (receipt r) events → r.action_id ≢ i.action_id)
unfolding pair_actions
pair_actions-pending events i m =
    let (n, open_still) =
      In-filter (λ j. not (elem j.action_id (receipt_ids events))) i (first_intents [] events) m in
    let (k, h) = first_intents_sound [] events i n in
    (k, λ r q e. receipted events i r q e open_still)
