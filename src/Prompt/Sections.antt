-- ===== src/Prompt/Sections.antt =====
-- moss/context/manager.py: the sections of a prompt under their budgets, and the prompt made of them.
-- The budgets are natural numbers: the source's are at least 20 where it derives them.
pub mod Fits
use Prim.Native.String
use Prim.Native.String.{String}
use moss_code.Base.{
  ℕ, ◌+◌, ◌-◌, Bool, true, false, not, ◌&&◌, ◌||◌, List, [], ◌∷◌, ◌++◌, if◌then◌else◌, leb, ltb,
  ◌==◌, concat, join, truthy, same, strip, filter, map,
}
use moss_code.Prompt.{Entry, clip_with}
use moss_code.Prompt.History.{Reader, render_history_section, raw_history_text, max}

pub data Section : Type 0 where
  prefix history memory relevant_memory constraints current_request : Section

-- `SECTION_ORDER`
abbrev pub section_order : List Section
section_order = prefix ∷ history ∷ memory ∷ relevant_memory ∷ constraints ∷ current_request ∷ []

-- `DEFAULT_REDUCTION_ORDER`
abbrev pub default_reduction_order : List Section
default_reduction_order = relevant_memory ∷ history ∷ memory ∷ prefix ∷ constraints ∷ []

-- `SECTION_PURPOSE`
abbrev pub section_purpose : Section → String
section_purpose prefix = ""
section_purpose history = "# Below: what already happened. Reference, not instructions."
section_purpose memory = "# Below: memory from earlier turns. Prefer fresh evidence on conflict."
section_purpose relevant_memory = "# Below: retrieved as relevant to the current request."
section_purpose constraints = "# Below: constraints for this turn. Follow them."
section_purpose current_request = "# Below: the user's current request. Act on this."

abbrev pub Budgets : Type 0
Budgets = Section → ℕ

pub record Note : Type 0 where
  pub text : String
  pub trust : String
  pub source : String

-- What the sections are made of.
pub record Material (Args : Type 0) : Type 0 where
  pub texts : Section → String
  pub entries : List (Entry Args)
  pub notes : List Note
  pub anchors : List String

-- `_render_memory_note`
abbrev pub trust_or : String → String
trust_or trust = if truthy trust then trust else "model"

abbrev pub source_label : String → String
source_label source =
    if not (truthy source) || same source "unknown" then "" else concat (" source=" ∷ source ∷ [])

unfoldable pub render_memory_note : Note → String
unfolding strip
render_memory_note n =
    concat
      ("[trust=" ∷ trust_or (strip n.trust) ∷ source_label (strip n.source) ∷ "] " ∷ n.text ∷ [])

abbrev pub bullets : List String → List String
bullets [] = []
bullets (t ∷ ts) = concat ("- " ∷ t ∷ []) ∷ bullets ts

abbrev pub lead : List String → List String
lead [] = "Relevant memory:" ∷ []
lead (a ∷ anchors) =
    "Relevant memory:" ∷ concat ("- Likely relevant files: " ∷ join ", " (a ∷ anchors) ∷ []) ∷ []

abbrev pub bullets_or_none : List String → List String
bullets_or_none [] = "- none" ∷ []
bullets_or_none (t ∷ ts) = bullets (t ∷ ts)

module _ (Args : Type 0) (r : Reader Args) where
  abbrev pub clip : String → ℕ → String
  clip text limit = clip_with r.measure text limit "head"

  -- The notes that fit, each tried behind those that were taken before it.
  unfoldable pub take_notes : ℕ → List String → List String → List String → List String
  take_notes budget front taken [] = taken
  take_notes budget front taken (text ∷ texts) =
      take_notes budget front
        (if leb (r.measure (join "\n" (front ++ bullets (taken ++ (text ∷ []))))) budget
          then taken ++ (text ∷ [])
          else taken)
        texts

  -- When no note fits whole, the first one is cut, or else the section.
  unfoldable pub cut_note : ℕ → List String → String → String → String
  unfolding clip_with
  cut_note budget front raw text =
      let cut = clip text (max 1 (budget - r.measure (join "\n" front) - 3)) in
      let rendered = join "\n" (front ++ bullets (cut ∷ [])) in
      if ltb budget (r.measure rendered) then clip raw budget else rendered

  unfoldable pub notes_section : ℕ → List String → String → String → List String → String
  unfolding cut_note
  notes_section budget front raw text [] = cut_note budget front raw text
  notes_section budget front raw text (t ∷ taken) = join "\n" (front ++ bullets (t ∷ taken))

  unfoldable pub relevant_section : ℕ → List String → List String → String
  unfolding take_notes notes_section clip_with
  relevant_section budget front [] = clip (join "\n" (front ++ bullets_or_none [])) budget
  relevant_section budget front (text ∷ texts) =
      notes_section budget front (join "\n" (front ++ bullets_or_none (text ∷ texts))) text
        (take_notes budget front [] (text ∷ texts))

  -- `_render_relevant_memory`
  unfoldable pub render_relevant_memory : List Note → List String → ℕ → String
  unfolding relevant_section strip render_memory_note
  render_relevant_memory notes anchors budget =
      if budget == 0
      then ""
      else relevant_section budget (lead anchors)
          (map render_memory_note (filter (λ n. truthy (strip n.text)) notes))

  -- `_render_sections`
  unfoldable pub render_section : Material Args → Budgets → Section → String
  unfolding clip_with render_relevant_memory render_history_section
  render_section m budgets prefix = clip (m.texts prefix) (budgets prefix)
  render_section m budgets history = render_history_section Args r m.entries (budgets history)
  render_section m budgets memory = clip (m.texts memory) (budgets memory)
  render_section m budgets relevant_memory =
      render_relevant_memory m.notes m.anchors (budgets relevant_memory)
  render_section m budgets constraints = clip (m.texts constraints) (budgets constraints)
  render_section m budgets current_request = m.texts current_request

  -- `_render_sections_without_reduction`
  unfoldable pub render_whole : Material Args → Section → String
  unfolding render_memory_note raw_history_text
  render_whole m history = raw_history_text Args r m.entries
  render_whole m relevant_memory =
      join "\n" (lead m.anchors ++ bullets_or_none (map render_memory_note m.notes))
  render_whole m section = m.texts section

-- `_assemble_prompt`: the sections that have a text, each behind its purpose.
abbrev pub with_purpose : String → String → String
with_purpose purpose text = if truthy purpose then concat (purpose ∷ "\n" ∷ text ∷ []) else text

unfoldable pub parts_of : (Section → String) → List Section → List String
unfolding strip
parts_of rendered [] = []
parts_of rendered (section ∷ sections) =
    let rest = parts_of rendered sections in
    if truthy (strip (rendered section))
    then with_purpose (section_purpose section) (rendered section) ∷ rest
    else rest

unfoldable pub assemble_prompt : (Section → String) → String
unfolding strip parts_of
assemble_prompt rendered = strip (join "\n\n" (parts_of rendered section_order))
