-- ===== src/Budget/Reports.antt =====
-- What the soft check reports over a run, and what consumption adds up to.
use moss_code.Base.{
  ℕ, ◌+◌, ◌≡◌, ◌≢◌, refl, false, String, Option, none, some, List, [], ◌∷◌, arith, elem, All,
}
use moss_code.Budget.{
  Floats, RunBudget, Consumption, Entry, pairs, first_soft, soft_exceeded, consume, add_usd, mark,
}

-- None of the names stands in the list.
abbrev pub Fresh : List String → List String → Type 0
Fresh seen names = All (λ name. elem name seen ≡ false) names

-- No name stands twice in the list.
abbrev pub Distinct : List String → Type 0
Distinct [] = Unit
Distinct (n ∷ names) = Fresh (n ∷ []) names × Distinct names

Fresh-cons :
    (name : String) (seen names : List String)
    → Fresh (name ∷ seen) names
    → Fresh (name ∷ []) names × Fresh seen names
Fresh-cons name seen [] f = (tt, tt)
Fresh-cons name seen (n ∷ names) (f, fs) =
    let (news, rest) = Fresh-cons name seen names fs in ((ground arith, news), (ground arith, rest))

module _ (fl : Floats) where
  first_soft-new :
      (reported : List String) (es : List (Entry fl)) (name : String)
      → first_soft fl reported es ≡ some name
      → elem name reported ≡ false
  unfolding first_soft
  first_soft-new reported [] name h = cc
  first_soft-new reported (e ∷ es) name h = ground (arith, first_soft-new reported es name)

  -- A report is news: the dimension was not reported before, it is remembered, and the amounts and the
  -- limits stay what they were.
  pub soft_exceeded-once :
      (b : RunBudget fl) (name : String)
      → (soft_exceeded fl b).0 ≡ some name
      → (elem name b.soft_reported ≡ false)
        × ((soft_exceeded fl b).1.soft_reported ≡ name ∷ b.soft_reported)
        × (pairs fl (soft_exceeded fl b).1 ≡ pairs fl b)
  unfolding soft_exceeded pairs
  soft_exceeded-once b name h =
      rw h (first_soft-new b.soft_reported (pairs fl b) name h, refl, refl)

  -- The rounds of a run: each consumes, and then makes the soft check; the reports, in order.
  unfoldable pub soft_reports : RunBudget fl → List (Consumption fl) → List String
  soft_reports b [] = []
  soft_reports b (c ∷ cs) =
      let (found, b') = soft_exceeded fl (consume fl b c) in
      elim found [ none ↦ soft_reports b' cs | some name ↦ name ∷ soft_reports b' cs ]

  step-Distinct :
      (b : RunBudget fl) (found : Option String) (later : List String)
      → first_soft fl b.soft_reported (pairs fl b) ≡ found
      → Distinct later × Fresh (mark fl found b).soft_reported later
      → let names : List String = elim found [ none ↦ later | some name ↦ name ∷ later ] in
        Distinct names × Fresh b.soft_reported names
  step-Distinct b none later e h = h
  step-Distinct b (some name) later e (d, f) =
      let (news, rest) = Fresh-cons name b.soft_reported later f in
      ((news, d), (first_soft-new b.soft_reported (pairs fl b) name e, rest))

  -- Over any run, no dimension is reported twice, nor one that was reported before the run.
  pub soft_reports-Distinct :
      (b : RunBudget fl) (cs : List (Consumption fl))
      → Distinct (soft_reports b cs) × Fresh b.soft_reported (soft_reports b cs)
  unfolding soft_reports soft_exceeded consume
  soft_reports-Distinct b [] = (tt, tt)
  soft_reports-Distinct b (c ∷ cs) =
      step-Distinct (consume fl b c) (soft_exceeded fl (consume fl b c)).0
        (soft_reports (soft_exceeded fl (consume fl b c)).1 cs) refl
        (soft_reports-Distinct (soft_exceeded fl (consume fl b c)).1 cs)

  consume_counts :
      (b : RunBudget fl) (c : Consumption fl)
      → ((consume fl b c).steps ≡ b.steps + c.steps)
        × ((consume fl b c).input_tokens ≡ b.input_tokens + c.input_tokens)
        × ((consume fl b c).output_tokens ≡ b.output_tokens + c.output_tokens)
  unfolding consume
  consume_counts b c = (refl, refl, refl)

  add_usd-known : (u x : Option fl.F) → u ≢ none → add_usd fl u x ≢ none
  unfolding add_usd
  add_usd-known none none h = h
  add_usd-known none (some x) h = absurd (h refl)
  add_usd-known (some u) none h = h
  add_usd-known (some u) (some x) h = cc

  add_usd-unknown : (u x : Option fl.F) → u ≡ none → x ≡ none → add_usd fl u x ≡ none
  unfolding add_usd
  add_usd-unknown none none h g = refl
  add_usd-unknown none (some x) h g = cc
  add_usd-unknown (some u) x h g = cc

  consume_known :
      (b : RunBudget fl) (c : Consumption fl) → b.usd ≢ none → (consume fl b c).usd ≢ none
  unfolding consume
  consume_known b c h = add_usd-known b.usd c.usd h

  consume_unknown :
      (b : RunBudget fl) (c : Consumption fl)
      → b.usd ≡ none
      → c.usd ≡ none
      → (consume fl b c).usd ≡ none
  unfolding consume
  consume_unknown b c h g = add_usd-unknown b.usd c.usd h g

  -- The budget after a run of consumptions.
  unfoldable pub consume_all : RunBudget fl → List (Consumption fl) → RunBudget fl
  consume_all b [] = b
  consume_all b (c ∷ cs) = consume_all (consume fl b c) cs

  unfoldable pub total : (Consumption fl → ℕ) → List (Consumption fl) → ℕ
  total amount [] = 0
  total amount (c ∷ cs) = amount c + total amount cs

  -- Steps and tokens add up, the limits stay, an amount of dollars that is known stays known, and it
  -- stays unknown as long as no consumption names one: unknown is never taken for 0.
  pub consume_all-totals :
      (b : RunBudget fl) (cs : List (Consumption fl))
      → ((consume_all b cs).steps ≡ b.steps + total (λ c. c.steps) cs)
        × ((consume_all b cs).input_tokens ≡ b.input_tokens + total (λ c. c.input_tokens) cs)
        × ((consume_all b cs).output_tokens ≡ b.output_tokens + total (λ c. c.output_tokens) cs)
        × (b.usd ≢ none → (consume_all b cs).usd ≢ none)
        × (b.usd ≡ none → All (λ c. c.usd ≡ none) cs → (consume_all b cs).usd ≡ none)
  unfolding consume_all total
  consume_all-totals b [] =
      (omega arith, omega arith, omega arith, λ known. known, λ unknown h. unknown)
  consume_all-totals b (c ∷ cs) =
      let (steps, input, output, known, unknown) = consume_all-totals (consume fl b c) cs in
      (
        omega (arith, consume_counts b c),
        omega (arith, consume_counts b c),
        omega (arith, consume_counts b c),
        λ h. known (consume_known b c h),
        λ h (g, gs). unknown (consume_unknown b c h g) gs,
      )
