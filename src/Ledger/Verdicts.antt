-- ===== src/Ledger/Verdicts.antt =====
-- When an open action counts as applied or as safe to run again.
use moss_code.Base.{
  ap, ◌∙◌, ◌≡◌, refl, inl, inr, String, true, false, not, ◌||◌, Option, none, some, List, [], ◌∷◌,
  arith, eq_iff, truthy, In, here, there, Bool-cases,
}
use moss_code.Ledger.{
  OutcomeStatus, already_applied, replayable, pending_unknown, Intent, Current, unresolvable, found,
  classify_paths, verdict, same_sha, no_paths, text_or_empty,
}

-- What a status says of the files as they are now.
abbrev pub IsBacked :
    (String → Current) → String → List (String × Option String) → OutcomeStatus → Type 0
IsBacked current target paths already_applied =
    (p : String × Option String) × In p paths × (current p.0 ≡ found (some target))
IsBacked current target paths replayable =
    (p : String × Option String) × In p paths × (current p.0 ≡ found p.1)
IsBacked current target paths pending_unknown = Unit

same_sha-eq : (a b : Option String) → same_sha a b ≡ true → a ≡ b
same_sha-eq none none h = refl
same_sha-eq none (some b) h = cc
same_sha-eq (some a) none h = cc
same_sha-eq (some a) (some b) h = ground (arith, eq_iff a b)

IsBacked-later :
    (current : String → Current) (target : String) (p : String × Option String)
    (paths : List (String × Option String)) (status : OutcomeStatus)
    → IsBacked current target paths status
    → IsBacked current target (p ∷ paths) status
IsBacked-later current target p paths already_applied (q, m, e) = (q, there m, e)
IsBacked-later current target p paths replayable (q, m, e) = (q, there m, e)
IsBacked-later current target p paths pending_unknown h = tt

compared-IsBacked :
    (current : String → Current) (target : String) (p : String) (before now : Option String)
    (rest : List (String × Option String))
    → current p ≡ found now
    → IsBacked current target rest (classify_paths current target rest).0
    → IsBacked current target
        ((p, before) ∷ rest)
        (classify_paths current target ((p, before) ∷ rest)).0
unfolding classify_paths
compared-IsBacked current target p before now rest e h =
    elim (Bool-cases (same_sha now (some target))) [
      | inl t ↦
          rw (classify_paths, e, t)
            ((p, before), here refl, e ∙ ap found (same_sha-eq now (some target) t))
      | inr t ↦ elim (Bool-cases (same_sha now before)) [
        | inl b ↦
            rw (classify_paths, e, t, b)
              ((p, before), here refl, e ∙ ap found (same_sha-eq now before b))
        | inr b ↦
            rw (classify_paths, e, t, b)
              (IsBacked-later current target (p, before) rest (classify_paths current target rest).0
                h)
      ]
    ]

looked_at-IsBacked :
    (current : String → Current) (target p : String) (before : Option String)
    (rest : List (String × Option String)) (now : Current)
    → current p ≡ now
    → IsBacked current target rest (classify_paths current target rest).0
    → IsBacked current target
        ((p, before) ∷ rest)
        (classify_paths current target ((p, before) ∷ rest)).0
unfolding classify_paths
looked_at-IsBacked current target p before rest unresolvable e h = rw (classify_paths, e) tt
looked_at-IsBacked current target p before rest (found now) e h =
    compared-IsBacked current target p before now rest e h

classify_paths-IsBacked :
    (current : String → Current) (target : String) (paths : List (String × Option String))
    → IsBacked current target paths (classify_paths current target paths).0
unfolding classify_paths
classify_paths-IsBacked current target [] = tt
classify_paths-IsBacked current target ((p, before) ∷ rest) =
    looked_at-IsBacked current target p before rest (current p) refl
      (classify_paths-IsBacked current target rest)

-- The verdict on an intent without a receipt is safe: it is never but `pending_unknown` for a tool that
-- is not idempotent; `already_applied` means that a file of the intent now holds the intended content,
-- and `replayable` that a file of the intent is now as it was before.
pub verdict-IsBacked :
    (current : String → Current) (i : Intent)
    → ((i.idempotent ≡ false) → (verdict current i).0 ≡ pending_unknown)
      × IsBacked current (text_or_empty i.intended_sha) i.expected_sha (verdict current i).0
unfolding verdict
verdict-IsBacked current i = elim (Bool-cases i.idempotent) [
  | inr n ↦ rw (verdict, n) (λ h. refl, tt)
  | inl y ↦
      elim (Bool-cases (no_paths i.expected_sha || not (truthy (text_or_empty i.intended_sha)))) [
        | inl e ↦ rw (verdict, y, e) (λ h. cc, tt)
        | inr e ↦
            rw (verdict, y, e)
              (
                λ h. cc,
                classify_paths-IsBacked current (text_or_empty i.intended_sha) i.expected_sha,
              )
      ]
]
