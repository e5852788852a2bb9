-- ===== src/Prompt/Reduce/Gate.antt =====
-- What a prompt that was built under the budgets is like, and what it means when it may not be sent.
use moss_code.Base.{
  ℕ, suc, ◌-◌, ◌≤◌, ◌<◌, ◌≡◌, ◌≢◌, refl, sym, ap, ◌∙◌, subst, Bool, true, false, Option, none, some,
  arith, if◌then◌else◌, leb, ltb, inl, inr, ◌⊎◌, In, Bool-cases, leb→le,
}
use moss_code.Prompt.History.{Reader}
use moss_code.Prompt.Sections.{Section, history, current_request, Budgets, Material, render_section}
use moss_code.Prompt.Sections.Fits.{render_section-Within}
use moss_code.Prompt.Reduce.{
  Manager, Built, show, first_reduction, reduced_budget, next_reduction, total_of,
  phase_adjusted_budgets, build, overflow_reason, prompt_too_large, min,
}
use moss_code.Prompt.Reduce.Ends.{Ended, reduce-Ends, reduced_budget-at_floor, first_reduction-none}

taken : (b : Bool) (x y : Option (Section × ℕ)) → b ≡ true → (if b then x else y) ≡ none → x ≡ none
taken true x y h e = e
taken false x y h e = cc

over_by : (a b : ℕ) → ltb a b ≡ true → 0 < b - a
over_by a b h = ground arith

module _ (Args : Type 0) (r : Reader Args) (m : Manager) (material : Material Args) where
  -- Nothing is left to take from a section.
  abbrev pub AtFloor : Built → Section → Type 0
  AtFloor b s = (b.budgets s ≤ m.section_floors s) ⊎ (r.measure (b.rendered s) ≤ m.section_floors s)

  -- A prompt that is ready for the decision whether it is sent.
  pub record Settled (budgets : Budgets) (b : Built) : Type 0 where
    pub whole_request : b.rendered current_request ≡ material.texts current_request
    pub bounded :
        (s : Section)
        → (b.budgets s ≤ budgets s) × (min (m.section_floors s) (budgets s) ≤ b.budgets s)
    pub let_through :
        overflow_reason Args r m material b ≡ none → r.measure b.prompt ≤ m.total_budget
    pub refused :
        overflow_reason Args r m material b ≡ some prompt_too_large
        → (s : Section) → s ≢ current_request
        → In s m.reduction_order
        → AtFloor b s

  prompt_fits :
      (b : Built) → overflow_reason Args r m material b ≡ none → r.measure b.prompt ≤ m.total_budget
  unfolding overflow_reason
  prompt_fits b e = ground arith

  prompt_is_over :
      (b : Built)
      → overflow_reason Args r m material b ≡ some prompt_too_large
      → ltb m.total_budget (r.measure b.prompt) ≡ true
  unfolding overflow_reason
  prompt_is_over b e = ground arith

  nothing_reducible :
      (budgets : Budgets)
      → ltb m.total_budget (r.measure (show Args r m material budgets).prompt) ≡ true
      → next_reduction Args r m material budgets ≡ none
      → first_reduction Args r m material
          (show Args r m material budgets)
          (r.measure (show Args r m material budgets).prompt - m.total_budget)
          m.reduction_order
        ≡ none
  unfolding next_reduction
  nothing_reducible budgets h e =
      taken (ltb m.total_budget (r.measure (show Args r m material budgets).prompt)) _ none h e

  room :
      (budgets : Budgets) (s : Section)
      → r.measure "Transcript:\n- empty" ≤ m.section_floors history
      → leb (budgets s) (m.section_floors s) ≡ false
      → s ≡ history
      → (0 < budgets s) × (r.measure "Transcript:\n- empty" ≤ budgets s)
  room budgets s short high q =
      let same : m.section_floors s ≡ m.section_floors history =
        ap (λ (t : Section). m.section_floors t) q in
      (ground arith, ground arith)

  at_floor :
      r.measure "" ≡ 0
      → r.measure "Transcript:\n- empty" ≤ m.section_floors history
      → (budgets : Budgets) (overflow : ℕ) (s : Section) → 0 < overflow
      → s ≢ current_request
      → reduced_budget Args r m material (show Args r m material budgets) overflow s ≡ none
      → AtFloor (show Args r m material budgets) s
  at_floor empty short budgets overflow s h n e =
      elim (Bool-cases (leb (budgets s) (m.section_floors s))) [
        | inl low ↦ inl (leb→le _ _ low)
        | inr high ↦
            reduced_budget-at_floor Args r m material (show Args r m material budgets) overflow s h
              (render_section-Within Args r empty material budgets s n (room budgets s short high))
              e
      ]

  request_shown :
      (budgets : Budgets)
      → render_section Args r material budgets current_request ≡ material.texts current_request
  unfolding render_section
  request_shown budgets = refl

  Ended-Settled :
      r.measure "" ≡ 0
      → r.measure "Transcript:\n- empty" ≤ m.section_floors history
      → (budgets : Budgets) (b : Built) → Ended Args r m material budgets b
      → Settled budgets b
  Ended-Settled empty short budgets b e = record {
    whole_request =
        ap (λ (c : Built). c.rendered current_request) e.shown ∙ request_shown b.budgets;
    bounded = e.bounded;
    let_through = prompt_fits b;
    refused = λ f s n i.
        subst (λ (c : Built). AtFloor c s) (sym e.shown)
          (at_floor empty short b.budgets _ s (over_by _ _ (over f)) n (
            first_reduction-none Args r m material (show Args r m material b.budgets) _
              m.reduction_order (nothing_reducible b.budgets (over f) e.stuck) s i));
  }
    where
      over :
          overflow_reason Args r m material b ≡ some prompt_too_large
          → ltb m.total_budget (r.measure (show Args r m material b.budgets).prompt) ≡ true
      over f =
          ap (λ (c : Built). ltb m.total_budget (r.measure c.prompt)) (sym e.shown)
          ∙ prompt_is_over b f

  -- When the empty text measures nothing and the note of an empty history is within the history's floor, the
  -- reduction ends. The current request is shown whole, every budget lies between its floor and its
  -- start (or stays at a start below the floor), and the gate lets only prompts within the total budget
  -- pass. A prompt is refused as too large only when every section that may be reduced has its budget or its text
  -- down at its floor.
  pub build-Settled :
      r.measure "" ≡ 0
      → r.measure "Transcript:\n- empty" ≤ m.section_floors history
      → (editing : Bool)
      → (b : Built) × (build Args r m material true editing ≡ some b)
        × Settled (phase_adjusted_budgets m editing) b
  unfolding build
  build-Settled empty short editing =
      let budgets = phase_adjusted_budgets m editing in
      let (b, f, ended) =
        reduce-Ends Args r m material (suc (total_of Args r m material budgets)) budgets
          (omega arith) in
      (b, f, Ended-Settled empty short budgets b ended)
