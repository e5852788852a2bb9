-- ===== src/Prompt/Sections/Fits.antt =====
-- Sections keep to their budgets.
use Prim.Native.String.{String}
use moss_code.Base.{
  ℕ, ◌≤◌, ◌<◌, ◌≡◌, ◌≢◌, refl, false, ◌&&◌, Option, none, some, List, [], ◌∷◌, ◌++◌, map, arith,
  if◌then◌else◌, if-elim, if-cases, leb, ltb, leb→le, ◌==◌, truthy, strip, filter, join, inl, inr,
  ◌⊎◌,
}
use moss_code.Tokens.{clip_to_budget}
use moss_code.Tokens.Clip.{clip_to_budget-Fits}
use moss_code.Prompt.{Entry, clip_with, cut_or}
use moss_code.Prompt.History.{
  Reader, full_fidelity_history, full_or, fit_or_clip, compressed_history, render_history_section,
  transcript, lines_of, render_history_item,
}
use moss_code.Prompt.Sections.{
  Section, prefix, history, memory, relevant_memory, constraints, current_request, Budgets,
  Material, Note, cut_note, notes_section, relevant_section, render_relevant_memory,
  render_memory_note, render_section, take_notes, bullets, lead,
}

ltb-no : (a b : ℕ) → ltb a b ≡ false → b ≤ a
ltb-no a b h = ground arith

module _ (Args : Type 0) (r : Reader Args) (empty : r.measure "" ≡ 0) where
  -- What measures at most a limit.
  abbrev Within : ℕ → String → Type 0
  Within limit text = r.measure text ≤ limit

  cut-Within :
      (text : String) (limit : ℕ) (o : Option String)
      → (s : String) × (o ≡ some s) × Within limit s
      → Within limit (cut_or text o)
  cut-Within text limit o (s, e, h) = rw e h

  pub clip_with-Within :
      (text : String) (limit : ℕ) (keep : String)
      → Within limit (clip_with r.measure text limit keep)
  unfolding clip_with
  clip_with-Within text limit keep =
      cut-Within text limit (clip_to_budget r.measure text limit keep "...")
        (clip_to_budget-Fits r.measure empty text limit keep "...")

  cut_note-Within :
      (budget : ℕ) (front : List String) (raw text : String)
      → Within budget (cut_note Args r budget front raw text)
  unfolding cut_note
  cut_note-Within budget front raw text =
      if-cases (Within budget) _ (λ over. clip_with-Within raw budget "head")
        (λ fits. ltb-no _ _ fits)

  -- Notes that were taken fit, when there are any.
  abbrev Good : ℕ → List String → List String → Type 0
  Good budget front taken = (taken ≡ []) ⊎ Within budget (join "\n" (front ++ bullets taken))

  take_notes-Good :
      (budget : ℕ) (front taken texts : List String)
      → Good budget front taken
      → Good budget front (take_notes Args r budget front taken texts)
  unfolding take_notes
  take_notes-Good budget front taken [] h = h
  take_notes-Good budget front taken (x ∷ texts) h =
      take_notes-Good budget front
        (if leb (r.measure (join "\n" (front ++ bullets (taken ++ (x ∷ []))))) budget
          then taken ++ (x ∷ [])
          else taken)
        texts
        (if-cases (Good budget front)
          (leb (r.measure (join "\n" (front ++ bullets (taken ++ (x ∷ []))))) budget)
          {x = taken ++ (x ∷ [])} {y = taken} (λ fits. inr (leb→le _ _ fits)) (λ over. h))

  notes_section-Within :
      (budget : ℕ) (front : List String) (raw text : String) (taken : List String)
      → Good budget front taken
      → Within budget (notes_section Args r budget front raw text taken)
  unfolding notes_section
  notes_section-Within budget front raw text [] h = cut_note-Within budget front raw text
  notes_section-Within budget front raw text (t ∷ taken) (inl e) = absurd cc
  notes_section-Within budget front raw text (t ∷ taken) (inr h) = h

  relevant_section-Within :
      (budget : ℕ) (front texts : List String)
      → Within budget (relevant_section Args r budget front texts)
  unfolding relevant_section
  relevant_section-Within budget front [] = clip_with-Within _ budget "head"
  relevant_section-Within budget front (text ∷ texts) =
      notes_section-Within budget front _ text _
        (take_notes-Good budget front [] (text ∷ texts) (inl refl))

  render_relevant_memory-Within :
      (notes : List Note) (anchors : List String) (budget : ℕ)
      → Within budget (render_relevant_memory Args r notes anchors budget)
  unfolding render_relevant_memory
  render_relevant_memory-Within notes anchors budget =
      if-elim (Within budget) (budget == 0) (omega (arith, empty)) (
        relevant_section-Within budget (lead anchors)
          (map render_memory_note (filter (λ (n : Note). truthy (strip n.text)) notes)))

  full_fidelity-Within :
      (entries : List (Entry Args)) (budget : ℕ) (other : String)
      → Within budget other
      → Within budget (full_or Args r (full_fidelity_history Args r entries budget) other)
  unfolding full_fidelity_history
  full_fidelity-Within entries budget other h =
      if-cases (λ (o : Option String). Within budget (full_or Args r o other))
        (ltb budget (
          r.measure (
            transcript (lines_of Args r (λ item. render_history_item Args r item budget) entries))))
        {x = none}
        {y = some
          (transcript (lines_of Args r (λ item. render_history_item Args r item budget) entries))}
        (λ over. h) (λ fits. ltb-no _ _ fits)

  fit_or_clip-Within :
      (entries : List (Entry Args)) (budget : ℕ) (rendered : String)
      → 0 < budget
      → Within budget (fit_or_clip Args r entries budget rendered)
  unfolding fit_or_clip
  fit_or_clip-Within entries budget rendered h =
      if-cases (Within budget) (ltb budget (r.measure rendered) && ltb 0 budget)
        (λ over. clip_with-Within _ budget "tail") (λ fits. ground arith)

  pub render_history_section-Within :
      (entries : List (Entry Args)) (budget : ℕ)
      → 0 < budget
      → Within budget "Transcript:\n- empty"
      → Within budget (render_history_section Args r entries budget)
  unfolding render_history_section compressed_history
  render_history_section-Within [] budget h short = short
  render_history_section-Within (item ∷ entries) budget h short =
      full_fidelity-Within (item ∷ entries) budget _
        (fit_or_clip-Within (item ∷ entries) budget _ h)

  -- When the empty text measures nothing, every section but the current request keeps to its budget, the
  -- history if its budget is not 0 and has room for the note that it is empty.
  pub render_section-Within :
      (m : Material Args) (budgets : Budgets) (s : Section)
      → s ≢ current_request
      → (s ≡ history → (0 < budgets s) × Within (budgets s) "Transcript:\n- empty")
      → Within (budgets s) (render_section Args r m budgets s)
  unfolding render_section
  render_section-Within m budgets prefix n h = clip_with-Within _ _ "head"
  render_section-Within m budgets history n h =
      let (more, short) = h refl in render_history_section-Within m.entries _ more short
  render_section-Within m budgets memory n h = clip_with-Within _ _ "head"
  render_section-Within m budgets relevant_memory n h =
      render_relevant_memory-Within m.notes m.anchors _
  render_section-Within m budgets constraints n h = clip_with-Within _ _ "head"
  render_section-Within m budgets current_request n h = absurd (n refl)
