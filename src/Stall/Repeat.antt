-- ===== src/Stall/Repeat.antt =====
-- When the same call is reported as repeated.
use moss_code.Base.{
  ℕ, ◌+◌, ◌≤◌, ◌<◌, ◌≡◌, refl, ◌↔◌, inl, inr, Bool-cases, true, Option, none, some, List, [], ◌∷◌,
  arith, eq_iff, if◌then◌else◌, All,
}
use moss_code.Stall.{Signature, same_call, bump, tally, first_repeated, detect_repeat_exact}

-- How often a call stands in the list.
unfoldable pub count : Signature → List Signature → ℕ
count s [] = 0
count s (t ∷ ts) = (if same_call t s then 1 else 0) + count s ts

-- What the counts say of a call.
abbrev amount : Signature → List (Signature × ℕ) → ℕ
amount s [] = 0
amount s ((t, n) ∷ counts) = if same_call t s then n else amount s counts

amount-bump :
    (s t : Signature) (counts : List (Signature × ℕ))
    → amount s (bump t counts) ≡ amount s counts + (if same_call t s then 1 else 0)
unfolding bump
amount-bump s t [] = ground arith
amount-bump (s, a) (t, b) (((u, c), n) ∷ counts) = ground (
  arith,
  amount-bump (s, a) (t, b) counts,
  eq_iff u s,
  eq_iff c a,
  eq_iff u t,
  eq_iff c b,
  eq_iff t s,
  eq_iff b a,
)

amount-tally :
    (s : Signature) (ss : List Signature) (counts : List (Signature × ℕ))
    → amount s (tally ss counts) ≡ amount s counts + count s ss
unfolding tally count
amount-tally s [] counts = omega arith
amount-tally s (t ∷ ss) counts =
    omega (arith, amount-tally s ss (bump t counts), amount-bump s t counts)

amount-small :
    (s : Signature) (counts : List (Signature × ℕ))
    → first_repeated counts ≡ none
    → amount s counts < 3
unfolding first_repeated
amount-small s [] h = omega arith
amount-small s ((t, n) ∷ counts) h = ground (arith, amount-small s counts)

-- Every number in the counts is at most `bound` of its call.
abbrev IsBounded : (Signature → ℕ) → List (Signature × ℕ) → Type 0
IsBounded bound counts = All (λ e. e.1 ≤ bound e.0) counts

IsBounded-mono :
    (bound more : Signature → ℕ) (counts : List (Signature × ℕ))
    → ((t : Signature) → bound t ≤ more t)
    → IsBounded bound counts
    → IsBounded more counts
IsBounded-mono bound more [] le b = tt
IsBounded-mono bound more ((t, n) ∷ counts) le (b, bs) =
    (omega (arith, le t, b), IsBounded-mono bound more counts le bs)

pub same_call_refl : (s : Signature) → same_call s s ≡ true
same_call_refl (n, a) = ground (arith, eq_iff n n, eq_iff a a)

same_call_sym : (s t : Signature) → same_call s t ≡ true → same_call t s ≡ true
same_call_sym (n, a) (m, b) h = ground (arith, eq_iff n m, eq_iff a b, eq_iff m n, eq_iff b a)

IsBounded-bump :
    (s : Signature) (bound more : Signature → ℕ) (counts : List (Signature × ℕ))
    → ((t : Signature) → bound t + (if same_call s t then 1 else 0) ≤ more t)
    → IsBounded bound counts
    → IsBounded more (bump s counts)
unfolding bump
IsBounded-bump s bound more [] le b = (ground (arith, le s, same_call_refl s), tt)
IsBounded-bump s bound more ((t, n) ∷ counts) le (b, bs) = elim (Bool-cases (same_call t s)) [
  | inl e ↦ rw e (
    ground (arith, le t, same_call_sym t s),
    IsBounded-mono bound more counts (λ u. omega (arith, le u)) bs,
  )
  | inr e ↦ rw e (omega (arith, le t, b), IsBounded-bump s bound more counts le bs)
]

IsBounded-tally :
    (ss : List Signature) (bound more : Signature → ℕ) (counts : List (Signature × ℕ))
    → ((t : Signature) → bound t + count t ss ≤ more t)
    → IsBounded bound counts
    → IsBounded more (tally ss counts)
unfolding tally count
IsBounded-tally [] bound more counts le b =
    IsBounded-mono bound more counts (λ t. omega (arith, le t)) b
IsBounded-tally (s ∷ ss) bound more counts le b =
    IsBounded-tally ss (λ t. bound t + (if same_call s t then 1 else 0)) more (bump s counts)
      (λ t. omega (arith, le t))
      (IsBounded-bump s bound (λ t. bound t + (if same_call s t then 1 else 0)) counts
        (λ t. omega arith) b)

first_repeated-bound :
    (bound : Signature → ℕ) (counts : List (Signature × ℕ)) (e : Signature × ℕ)
    → first_repeated counts ≡ some e
    → IsBounded bound counts
    → 3 ≤ bound e.0
unfolding first_repeated
first_repeated-bound bound [] e h b = cc
first_repeated-bound bound ((t, m) ∷ counts) e h (b, bs) =
    ground (arith, first_repeated-bound bound counts e)

repeat_cases :
    (ss : List Signature) (found : Option (Signature × ℕ))
    → first_repeated (tally ss []) ≡ found
    → (detect_repeat_exact ss ≡ none) ↔ ((s : Signature) → count s ss < 3)
unfolding detect_repeat_exact
repeat_cases ss none e =
    rw (detect_repeat_exact, e)
      (λ h s. omega (arith, amount-small s (tally ss []) e, amount-tally s ss []), λ h. refl)
repeat_cases ss (some ((name, digest), n)) e =
    let often =
      first_repeated-bound (λ s. count s ss) (tally ss []) ((name, digest), n) e
        (IsBounded-tally ss (λ t. 0) (λ s. count s ss) [] (λ t. omega arith) tt) in
    rw (detect_repeat_exact, e) (λ h. cc, λ h. absurd (omega (arith, often, h (name, digest))))

-- No call is reported as repeated exactly if each call stands less than three times in the window.
pub detect_repeat_exact-none_iff :
    (ss : List Signature) → (detect_repeat_exact ss ≡ none) ↔ ((s : Signature) → count s ss < 3)
detect_repeat_exact-none_iff ss = repeat_cases ss (first_repeated (tally ss [])) refl
