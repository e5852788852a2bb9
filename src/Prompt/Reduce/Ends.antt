-- ===== src/Prompt/Reduce/Ends.antt =====
-- The reduction ends, and only gives up when every section of its order is at its floor.
use moss_code.Base.{
  ℕ, zero, suc, ◌-◌, ◌≤◌, ◌<◌, ◌≡◌, refl, sym, ap, ◌∙◌, subst, true, Option, none, some, List, [],
  ◌∷◌, arith, if◌then◌else◌, if-cases, ltb, ◌==◌, ==_iff, inl, inr, ◌⊎◌, Option-cases, In, here,
  there,
}
use moss_code.Prompt.History.{Reader}
use moss_code.Prompt.Sections.{
  Section, prefix, history, memory, relevant_memory, constraints, current_request, Budgets,
  Material,
}
use moss_code.Prompt.Reduce.{
  Manager, place, set_budget, Built, show, reduced_budget, or_later, first_reduction,
  next_reduction, reduce, total_of, min,
}

set_budget-total :
    (Args : Type 0) (r : Reader Args) (m : Manager) (material : Material Args) (b : Budgets)
    (s : Section) (n : ℕ)
    → n < b s
    → total_of Args r m material (set_budget b s n) < total_of Args r m material b
unfolding set_budget
set_budget-total Args r m material b prefix n h = omega (arith, h)
set_budget-total Args r m material b history n h = omega (arith, h)
set_budget-total Args r m material b memory n h = omega (arith, h)
set_budget-total Args r m material b relevant_memory n h = omega (arith, h)
set_budget-total Args r m material b constraints n h = omega (arith, h)
set_budget-total Args r m material b current_request n h = omega (arith, h)

section_at : ℕ → Section
section_at n =
    if n == 0
    then prefix
    else if n == 1
    then history
    else if n == 2
    then memory
    else if n == 3
    then relevant_memory
    else if n == 4
    then constraints
    else current_request

section_at-place : (s : Section) → section_at (place s) ≡ s
unfolding section_at
section_at-place prefix = refl
section_at-place history = refl
section_at-place memory = refl
section_at-place relevant_memory = refl
section_at-place constraints = refl
section_at-place current_request = refl

same_place : (s t : Section) → (place t == place s) ≡ true → t ≡ s
same_place s t e =
    sym (section_at-place t) ∙ ap section_at ((==_iff (place t) (place s)).0 e) ∙ section_at-place s

-- A budget is changed to one below it, and not below a floor under it.
set_budget-between :
    (floor b : Budgets) (s : Section) (n : ℕ) (t : Section)
    → n < b s
    → floor s ≤ n
    → (set_budget b s n t ≤ b t) × (min (floor t) (b t) ≤ set_budget b s n t)
unfolding set_budget
set_budget-between floor b s n t h k =
    if-cases (λ (x : ℕ). (x ≤ b t) × (min (floor t) (b t) ≤ x)) (place t == place s)
      (λ on. changed (same_place s t on)) (λ off. (omega arith, ground arith))
  where
    changed : t ≡ s → (n ≤ b t) × (min (floor t) (b t) ≤ n)
    changed e = rw e (omega (arith, h), ground (arith, h, k))

same_step :
    (s t : Section) (n k : ℕ)
    → ◌≡◌ {A = Option (Section × ℕ)} (some (t, k)) (some (s, n))
    → ◌≡◌ {A = Section × ℕ} (t, k) (s, n)
same_step s t n k e = cc

module _ (Args : Type 0) (r : Reader Args) (m : Manager) (material : Material Args) where
  -- A step lowers a budget, to no less than its floor.
  record Lowers (b : Built) (s : Section) (n : ℕ) : Type 0 where
    pub lower : n < b.budgets s
    pub floored : m.section_floors s ≤ n

  reduced_budget-Lowers :
      (b : Built) (overflow : ℕ) (s : Section) (n : ℕ)
      → reduced_budget Args r m material b overflow s ≡ some n
      → Lowers b s n
  unfolding reduced_budget
  reduced_budget-Lowers b overflow s n e = record { lower = ground arith; floored = ground arith }

  or_later-Lowers :
      (b : Built) (t : Section) (o : Option ℕ) (later : Option (Section × ℕ)) (s : Section) (n : ℕ)
      → ((k : ℕ) → o ≡ some k → Lowers b t k)
      → (later ≡ some (s, n) → Lowers b s n)
      → or_later Args r m material t o later ≡ some (s, n)
      → Lowers b s n
  or_later-Lowers b t none later s n f g e = g e
  or_later-Lowers b t (some k) later s n f g e =
      subst (λ (p : Section × ℕ). Lowers b p.0 p.1) (same_step s t n k e) (f k refl)

  first_reduction-Lowers :
      (b : Built) (overflow : ℕ) (order : List Section) (s : Section) (n : ℕ)
      → first_reduction Args r m material b overflow order ≡ some (s, n)
      → Lowers b s n
  unfolding first_reduction
  first_reduction-Lowers b overflow [] s n e = cc
  first_reduction-Lowers b overflow (t ∷ order) s n e =
      or_later-Lowers b t _ _ s n (reduced_budget-Lowers b overflow t)
        (first_reduction-Lowers b overflow order s n) e

  -- A section that cannot be reduced although the prompt is too long, and that keeps to its budget, is at
  -- its floor.
  pub reduced_budget-at_floor :
      (b : Built) (overflow : ℕ) (s : Section)
      → 0 < overflow
      → r.measure (b.rendered s) ≤ b.budgets s
      → reduced_budget Args r m material b overflow s ≡ none
      → (b.budgets s ≤ m.section_floors s) ⊎ (r.measure (b.rendered s) ≤ m.section_floors s)
  unfolding reduced_budget
  reduced_budget-at_floor b overflow s h w e = ground arith

  or_later-none :
      (t : Section) (o : Option ℕ) (later : Option (Section × ℕ))
      → or_later Args r m material t o later ≡ none
      → (o ≡ none) × (later ≡ none)
  or_later-none t none later e = (refl, e)
  or_later-none t (some k) later e = cc

  pub first_reduction-none :
      (b : Built) (overflow : ℕ) (order : List Section)
      → first_reduction Args r m material b overflow order ≡ none
      → (s : Section) → In s order
      → reduced_budget Args r m material b overflow s ≡ none
  unfolding first_reduction
  first_reduction-none b overflow [] e s i = elim i [ ]
  first_reduction-none b overflow (t ∷ order) e s (here q) =
      ap (λ (u : Section). reduced_budget Args r m material b overflow u) q
      ∙ (or_later-none t (reduced_budget Args r m material b overflow t)
          (first_reduction Args r m material b overflow order) e).0
  first_reduction-none b overflow (t ∷ order) e s (there i) =
      first_reduction-none b overflow order
        (or_later-none t (reduced_budget Args r m material b overflow t)
          (first_reduction Args r m material b overflow order) e).1
        s i

  next_reduction-Lowers :
      (budgets : Budgets) (s : Section) (n : ℕ)
      → next_reduction Args r m material budgets ≡ some (s, n)
      → (n < budgets s) × (m.section_floors s ≤ n)
  unfolding next_reduction
  next_reduction-Lowers budgets s n e =
      if-cases
        (λ (o : Option (Section × ℕ)). o ≡ some (s, n) → (n < budgets s) × (m.section_floors s ≤ n))
        (ltb m.total_budget (r.measure (show Args r m material budgets).prompt))
        {x = first_reduction Args r m material (show Args r m material budgets)
          (r.measure (show Args r m material budgets).prompt - m.total_budget) m.reduction_order}
        {y = none}
        (λ over f.
          let l =
            first_reduction-Lowers (show Args r m material budgets) _ m.reduction_order s n f in
          (l.lower, l.floored))
        (λ fits f. cc) e

  -- What a reduction ends with, from some budgets.
  pub record Ended (budgets : Budgets) (b : Built) : Type 0 where
    pub shown : b ≡ show Args r m material b.budgets
    pub bounded :
        (s : Section)
        → (b.budgets s ≤ budgets s) × (min (m.section_floors s) (budgets s) ≤ b.budgets s)
    pub stuck : next_reduction Args r m material b.budgets ≡ none

  abbrev pub Ends : Budgets → Option Built → Type 0
  Ends budgets o = (b : Built) × (o ≡ some b) × Ended budgets b

  between_trans :
      (budgets : Budgets) (s : Section) (n : ℕ) (b : Built)
      → n < budgets s
      → m.section_floors s ≤ n
      → Ended (set_budget budgets s n) b
      → Ended budgets b
  between_trans budgets s n b h k e = record {
    shown = e.shown;
    bounded = λ t.
        let (low, high) = e.bounded t in
        let (lower, higher) = set_budget-between m.section_floors budgets s n t h k in
        (omega (arith, low, lower), ground (arith, high, higher, lower));
    stuck = e.stuck;
  }

  reduce-stops :
      (fuel : ℕ) (budgets : Budgets)
      → next_reduction Args r m material budgets ≡ none
      → reduce Args r m material (suc fuel) budgets ≡ some (show Args r m material budgets)
  unfolding reduce
  reduce-stops fuel budgets e = rw (e, reduce) refl

  reduce-goes_on :
      (fuel : ℕ) (budgets : Budgets) (s : Section) (n : ℕ)
      → next_reduction Args r m material budgets ≡ some (s, n)
      → reduce Args r m material (suc fuel) budgets
        ≡ reduce Args r m material fuel (set_budget budgets s n)
  unfolding reduce
  reduce-goes_on fuel budgets s n e = rw (e, reduce) refl

  unchanged : (budgets : Budgets) (s : Section) → min (m.section_floors s) (budgets s) ≤ budgets s
  unchanged budgets s = ground arith

  pub reduce-Ends :
      (fuel : ℕ) (budgets : Budgets)
      → total_of Args r m material budgets < fuel
      → Ends budgets (reduce Args r m material fuel budgets)
  reduce-Ends zero budgets h = absurd (omega arith)
  reduce-Ends (suc fuel) budgets h =
      elim (Option-cases (next_reduction Args r m material budgets)) [
        | inl e ↦ (
          show Args r m material budgets,
          reduce-stops fuel budgets e,
          record { shown = refl; bounded = λ s. (omega arith, unchanged budgets s); stuck = e },
        )
        | inr ((s, n), e) ↦
            let (lower, floored) = next_reduction-Lowers budgets s n e in
            let (b, f, ended) =
              reduce-Ends fuel (set_budget budgets s n)
                (omega (arith, h, set_budget-total Args r m material budgets s n lower)) in
            (
              b,
              reduce-goes_on fuel budgets s n e ∙ f,
              between_trans budgets s n b lower floored ended,
            )
      ]
