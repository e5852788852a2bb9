-- ===== src/Compact/Steps.antt =====
-- `execution_steps`, `step_is_complete` and `compactable_steps`: the history in steps, and those to compact.
-- The index of an item, which nothing reads, is left out of the steps.
use moss_code.Base.{
  ℕ, zero, suc, ◌-◌, String, Bool, true, false, not, ◌&&◌, ◌||◌, none, some, List, [], ◌∷◌, ◌++◌,
  if◌then◌else◌, length, take, drop, any, filter, get_elem?, same,
}

pub record Item : Type 0 where
  pub role : String
  pub name : String
  pub content : String
  pub native_tool_call : Bool

abbrev pub Step : Type 0
Step = List Item

-- `if pending: steps.append(pending)`
unfoldable pub close_pending : List Step → Step → List Step
close_pending steps [] = steps
close_pending steps (i ∷ pending) = steps ++ ((i ∷ pending) ∷ [])

-- `steps[-1].append(item)`
unfoldable pub append_to_last : List Step → Item → List Step
append_to_last [] item = []
append_to_last (s ∷ []) item = (s ++ (item ∷ [])) ∷ []
append_to_last (s ∷ t ∷ steps) item = s ∷ append_to_last (t ∷ steps) item

abbrev pub is_nil {ℓ} : {A : Type ℓ} → List A → Bool
is_nil [] = true
is_nil (x ∷ xs) = false

-- One round of the loop on the steps and the pending calls.
unfoldable pub add_item : List Step → Step → Item → List Step × Step
unfolding close_pending append_to_last
add_item steps pending item =
    if same item.role "assistant" && item.native_tool_call
    then (steps, pending ++ (item ∷ []))
    else if same item.role "tool"
    then (steps ++ ((pending ++ (item ∷ [])) ∷ []), [])
    else if same item.role "system" && (not (is_nil steps) && is_nil pending)
    then (append_to_last steps item, pending)
    else (close_pending steps pending ++ ((item ∷ []) ∷ []), [])

unfoldable pub steps_from : List Step → Step → List Item → List Step
unfolding close_pending add_item
steps_from steps pending [] = close_pending steps pending
steps_from steps pending (item ∷ history) =
    let r = add_item steps pending item in steps_from r.0 r.1 history

unfoldable pub execution_steps : List Item → List Step
unfolding steps_from
execution_steps history = steps_from [] [] history

-- No call, or a result.
unfoldable pub step_is_complete : Step → Bool
step_is_complete step =
    not (any (λ i. i.native_tool_call) step) || any (λ i. same i.role "tool") step

-- `not step_is_complete(steps[k])`; the position is always one of the list.
abbrev pub is_open_at : List Step → ℕ → Bool
unfolding step_is_complete
is_open_at steps k = elim (get_elem? steps k) [
  | none ↦ false
  | some step ↦ not (step_is_complete step)
]

-- The loop that moves the cut back.
unfoldable pub retreat : List Step → ℕ → ℕ
unfolding is_open_at
retreat steps zero = zero
retreat steps (suc k) =
    let earlier = retreat steps k in if is_open_at steps k then earlier else suc k

unfoldable pub cut_of : ℕ → List Step → ℕ
unfolding retreat
cut_of keep_recent steps = retreat steps (length steps - keep_recent)

unfoldable pub compactable_steps : ℕ → List Step → List Step × List Step
unfolding cut_of
compactable_steps keep_recent steps =
    (take (cut_of keep_recent steps) steps, drop (cut_of keep_recent steps) steps)

unfoldable pub entries : List Step → List Item
entries [] = []
entries (s ∷ steps) = s ++ entries steps

unfoldable pub tool_entries : List Step → List Item
unfolding entries
tool_entries steps = filter (λ i. same i.role "tool") (entries steps)
