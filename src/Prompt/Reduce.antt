-- ===== src/Prompt/Reduce.antt =====
-- moss/context/manager.py: budgets that shrink until the prompt fits, and whether it may be sent.
-- The budgets of the sections and the shift between the phases, which the source computes with floats, are
-- parameters.
pub mod Ends
pub mod Gate
mod Tests
use Prim.Native.String.{String}
use moss_code.Base.{
  ℕ, zero, suc, ◌+◌, ◌-◌, ◌/◌, Bool, true, false, not, ◌&&◌, Option, none, some, List, [], ◌∷◌,
  if◌then◌else◌, leb, ltb, ◌==◌,
}
use moss_code.Prompt.History.{Reader, max}
use moss_code.Prompt.Sections.{
  Section, prefix, history, memory, relevant_memory, constraints, current_request, Budgets,
  Material, render_section, render_whole, assemble_prompt,
}

pub record Manager : Type 0 where
  pub total_budget : ℕ
  pub section_budgets : Budgets
  pub section_floors : Budgets
  pub reduction_order : List Section
  pub phase_shift : ℕ

abbrev pub place : Section → ℕ
place prefix = 0
place history = 1
place memory = 2
place relevant_memory = 3
place constraints = 4
place current_request = 5

unfoldable pub set_budget : Budgets → Section → ℕ → Budgets
set_budget budgets s n t = if place t == place s then n else budgets t

abbrev pub min : ℕ → ℕ → ℕ
min m n = if leb m n then m else n

-- `_phase_adjusted_budgets`: while editing, a part of the history's budget goes to two other sections.
abbrev pub moved : Budgets → ℕ → Budgets
moved budgets shift history = budgets history - shift
moved budgets shift relevant_memory = budgets relevant_memory + shift / 2
moved budgets shift constraints = budgets constraints + (shift - shift / 2)
moved budgets shift s = budgets s

unfoldable pub phase_adjusted_budgets : Manager → Bool → Budgets
phase_adjusted_budgets m false = m.section_budgets
phase_adjusted_budgets m true =
    moved m.section_budgets
      (min m.phase_shift (m.section_budgets history - m.section_floors history))

pub record Built : Type 0 where
  pub budgets : Budgets
  pub rendered : Section → String
  pub prompt : String

pub data OverflowReason : Type 0 where
  request_too_large prompt_too_large : OverflowReason

module _ (Args : Type 0) (r : Reader Args) (m : Manager) (material : Material Args) where
  abbrev pub show : Budgets → Built
  show budgets = record {
    budgets = budgets;
    rendered = render_section Args r material budgets;
    prompt = assemble_prompt (render_section Args r material budgets);
  }

  -- What a section's budget becomes, when it can be reduced.
  unfoldable pub reduced_budget : Built → ℕ → Section → Option ℕ
  reduced_budget b overflow s =
      let floor = m.section_floors s in
      let size = r.measure (b.rendered s) in
      let new = max floor (size - overflow) in
      if not (leb (b.budgets s) floor) && (not (leb size floor) && not (leb (b.budgets s) new))
      then some new
      else none

  abbrev pub or_later : Section → Option ℕ → Option (Section × ℕ) → Option (Section × ℕ)
  or_later s none later = later
  or_later s (some n) later = some (s, n)

  -- The first section of the order that can be reduced.
  unfoldable pub first_reduction : Built → ℕ → List Section → Option (Section × ℕ)
  unfolding reduced_budget
  first_reduction b overflow [] = none
  first_reduction b overflow (s ∷ order) =
      or_later s (reduced_budget b overflow s) (first_reduction b overflow order)

  unfoldable pub next_reduction : Budgets → Option (Section × ℕ)
  unfolding first_reduction
  next_reduction budgets =
      let b = show budgets in
      if ltb m.total_budget (r.measure b.prompt)
      then first_reduction b (r.measure b.prompt - m.total_budget) m.reduction_order
      else none

  -- The loop; `none` when it does not end in its fuel.
  unfoldable pub reduce : ℕ → Budgets → Option Built
  unfolding next_reduction set_budget
  reduce zero budgets = none
  reduce (suc fuel) budgets = elim (next_reduction budgets) [
    | none ↦ some (show budgets)
    | some (s, n) ↦ reduce fuel (set_budget budgets s n)
  ]

  abbrev pub total_of : Budgets → ℕ
  total_of b =
      b prefix + b history + b memory + b relevant_memory + b constraints + b current_request

  abbrev pub built_whole : Built
  built_whole = record {
    budgets = m.section_budgets;
    rendered = render_whole Args r material;
    prompt = assemble_prompt (render_whole Args r material);
  }

  -- `build`, with the reduction or without it.
  unfoldable pub build : Bool → Bool → Option Built
  unfolding reduce phase_adjusted_budgets render_whole
  build context_reduction editing =
      let budgets = phase_adjusted_budgets m editing in
      if context_reduction then reduce (suc (total_of budgets)) budgets else some built_whole

  -- `build_result`: why the prompt may not be sent, if it may not.
  unfoldable pub overflow_reason : Built → Option OverflowReason
  overflow_reason b =
      if ltb m.total_budget (r.measure (b.rendered current_request))
      then some request_too_large
      else if ltb m.total_budget (r.measure b.prompt)
      then some prompt_too_large
      else none
