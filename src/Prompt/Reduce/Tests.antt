-- ===== src/Prompt/Reduce/Tests.antt =====
-- A small prompt over its budget, and the theorem of this folder at it.
use Prim.Native.String.{String}
use moss_code.Base.{ℕ, ◌≤◌, ◌≡◌, refl, true, false, Option, none, some, [], ◌∷◌, arith}
use moss_code.Tokens.{count_chars}
use moss_code.Prompt.History.{Reader}
use moss_code.Prompt.Sections.{
  Section, prefix, memory, current_request, Material, default_reduction_order, assemble_prompt,
  render_section,
}
use moss_code.Prompt.Reduce.{
  Manager, Built, build, overflow_reason, phase_adjusted_budgets, prompt_too_large, OverflowReason,
}
use moss_code.Prompt.Sections.Fits.{render_section-Within}
use moss_code.Prompt.Reduce.Gate.{Settled, build-Settled}

abbrev reader : Reader String
reader = record {
  measure = count_chars;
  dumps = λ a. a;
  path_of = λ a. a;
  command_of = λ a. a;
  splitlines = λ t. t ∷ [];
  lower = λ t. t;
  file_summary = λ p. "";
}

abbrev text_of : Section → String
text_of prefix = "Be brief, be kind, and answer in one line."
text_of memory = "Memory: nothing."
text_of current_request = "Fix it."
text_of s = ""

abbrev material : Material String
material = record { texts = text_of; entries = []; notes = []; anchors = [] }

abbrev manager : ℕ → Manager
manager total = record {
  total_budget = total;
  section_budgets = λ s. 60;
  section_floors = λ s. 20;
  reduction_order = default_reduction_order;
  phase_shift = 4;
}

abbrev reason : ℕ → Option OverflowReason
reason total = elim (build String reader (manager total) material true false) [
  | none ↦ none
  | some b ↦ overflow_reason String reader (manager total) material b
]

admitted_when_it_fits : reason 400 ≡ none
unfolding build overflow_reason count_chars assemble_prompt render_section
admitted_when_it_fits = refl

refused_when_it_cannot_fit : reason 30 ≡ some prompt_too_large
unfolding build overflow_reason count_chars assemble_prompt render_section
refused_when_it_cannot_fit = refl

build-Settled_example :
    (b : Built) × (build String reader (manager 120) material true false ≡ some b)
    × Settled String reader (manager 120) material (phase_adjusted_budgets (manager 120) false) b
unfolding count_chars
build-Settled_example = build-Settled String reader (manager 120) material refl (omega arith) false

render_section-Within_example :
    count_chars (render_section String reader material (λ s. 20) prefix) ≤ 20
unfolding count_chars
render_section-Within_example =
    render_section-Within String reader refl material (λ s. 20) prefix (λ e. cc) (λ e. cc)
