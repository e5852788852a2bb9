-- ===== src/Compact/Closure.antt =====
-- Nothing of the history is lost or torn: what is compacted and what is kept make it up.
use mathlib.Core.List.{append_assoc, append-nil}
use moss_code.Base.{
  subst, ℕ, zero, suc, ◌-◌, ◌≤◌, ◌<◌, ◌≡◌, refl, sym, ap, ◌∙◌, Bool, true, false, not, ◌&&◌, Option,
  none, some, List, [], ◌∷◌, ◌++◌, arith, length, take, drop, take-append-drop, length-take,
  Bool-cases, inl, inr, same, &&-eq-true,
}
use moss_code.Compact.Steps.{
  Item, Step, close_pending, append_to_last, is_nil, add_item, steps_from, execution_steps,
  step_is_complete, is_open_at, retreat, cut_of, compactable_steps, entries,
}
use moss_code.Compact.{render_compaction, Artifact, Request, build_artifact, is_empty, compact}
use moss_code.Compact.Extract.{Reader, Event}

entries-append : (xs ys : List Step) → entries (xs ++ ys) ≡ entries xs ++ entries ys
unfolding entries
entries-append [] ys = refl
entries-append (s ∷ xs) ys =
    rw (entries-append xs ys) (sym (append_assoc s (entries xs) (entries ys)))

entries-one : (step : Step) → entries (step ∷ []) ≡ step
unfolding entries
entries-one step = append-nil step

entries-last :
    (steps : List Step) (step : Step) → entries (steps ++ (step ∷ [])) ≡ entries steps ++ step
entries-last steps step =
    entries-append steps (step ∷ []) ∙ ap (λ s. entries steps ++ s) (entries-one step)

entries-close_pending :
    (steps : List Step) (pending : Step)
    → entries (close_pending steps pending) ≡ entries steps ++ pending
unfolding close_pending
entries-close_pending steps [] = sym (append-nil (entries steps))
entries-close_pending steps (i ∷ pending) = entries-last steps (i ∷ pending)

entries-append_to_last :
    (steps : List Step) (item : Item)
    → is_nil steps ≡ false
    → entries (append_to_last steps item) ≡ entries steps ++ (item ∷ [])
unfolding append_to_last entries
entries-append_to_last [] item h = absurd (cc)
entries-append_to_last (s ∷ []) item h = simp (append-nil)
entries-append_to_last (s ∷ t ∷ steps) item h =
    rw (entries-append_to_last (t ∷ steps) item refl) (sym (append_assoc s _ _))

-- What the loop holds of the history: its steps, and the pending calls behind them.
abbrev held : List Step × Step → List Item
held r = entries r.0 ++ r.1

nil-of_is_nil : (s : Step) → is_nil s ≡ true → s ≡ []
nil-of_is_nil [] h = refl
nil-of_is_nil (i ∷ s) h = absurd (cc)

append_to_last-held :
    (steps : List Step) (pending : Step) (item : Item)
    → (not (is_nil steps) && is_nil pending) ≡ true
    → held (append_to_last steps item, pending) ≡ (entries steps ++ pending) ++ (item ∷ [])
append_to_last-held steps [] item h =
    append-nil (entries (append_to_last steps item))
    ∙ entries-append_to_last steps item (ground arith)
    ∙ ap (λ l. l ++ (item ∷ [])) (sym (append-nil (entries steps)))
append_to_last-held steps (i ∷ pending) item h = absurd (ground arith)

add_item-held :
    (steps : List Step) (pending : Step) (item : Item)
    → held (add_item steps pending item) ≡ (entries steps ++ pending) ++ (item ∷ [])
unfolding add_item
add_item-held steps pending item =
    elim (Bool-cases (same item.role "assistant" && item.native_tool_call)) [
      | inl e ↦ rw (e, add_item) (sym (append_assoc (entries steps) pending (item ∷ [])))
      | inr e ↦ elim (Bool-cases (same item.role "tool")) [
        | inl f ↦
            simp (e, f)
              (append-nil _
                ∙ entries-last steps (pending ++ (item ∷ []))
                ∙ sym (append_assoc (entries steps) pending (item ∷ [])))
        | inr f ↦
            elim (Bool-cases (same item.role "system" && (not (is_nil steps) && is_nil pending))) [
              | inl g ↦ simp (e, f, g) (append_to_last-held steps pending item (&&-eq-true _ _ g).1)
              | inr g ↦
                  simp (e, f, g)
                    (append-nil _
                      ∙ entries-last (close_pending steps pending) (item ∷ [])
                      ∙ ap (λ l. l ++ (item ∷ [])) (entries-close_pending steps pending))
            ]
      ]
    ]

entries-steps_from :
    (steps : List Step) (pending : Step) (history : List Item)
    → entries (steps_from steps pending history) ≡ (entries steps ++ pending) ++ history
unfolding steps_from
entries-steps_from steps pending [] =
    entries-close_pending steps pending ∙ sym (append-nil (entries steps ++ pending))
entries-steps_from steps pending (item ∷ history) =
    let r = add_item steps pending item in
    entries-steps_from r.0 r.1 history
    ∙ ap (λ l. l ++ history) (add_item-held steps pending item)
    ∙ append_assoc (entries steps ++ pending) (item ∷ []) history

-- The steps hold the history, in order.
pub entries-execution_steps : (history : List Item) → entries (execution_steps history) ≡ history
unfolding execution_steps
entries-execution_steps history = unfold entries in entries-steps_from [] [] history

-- What a call of `compact` does to the history: nothing, or it cuts as many items off the front as the
-- artifact says.
abbrev pub Cuts : List Item → Option Artifact × List Item → Type 0
Cuts history (none, rest) = rest ≡ history
Cuts history (some a, rest) =
    (take a.covered_history_count history ++ rest ≡ history)
    × (length rest ≡ a.kept_history_count)
    × (0 < a.covered_history_count)

take-length-append : {A : Type 0} (xs ys : List A) → take (length xs) (xs ++ ys) ≡ xs
take-length-append [] ys = refl
take-length-append (x ∷ xs) ys = ap (λ l. x ∷ l) (take-length-append xs ys)

length-pos : (items : List Item) → is_empty items ≡ false → 0 < length items
length-pos [] h = absurd (cc)
length-pos (i ∷ items) h = omega arith

parts-eq :
    (keep : ℕ) (steps : List Step)
    → entries (compactable_steps keep steps).0 ++ entries (compactable_steps keep steps).1
      ≡ entries steps
unfolding compactable_steps
parts-eq keep steps =
    sym (entries-append (take (cut_of keep steps) steps) (drop (cut_of keep steps) steps))
    ∙ ap entries (take-append-drop (cut_of keep steps) steps)

cut-Cuts :
    (a : Artifact) (covered kept history : List Item)
    → a.covered_history_count ≡ length covered
    → a.kept_history_count ≡ length kept
    → is_empty covered ≡ false
    → covered ++ kept ≡ history
    → Cuts history (some a, kept)
cut-Cuts a covered kept history c k e whole = (
  rw c (
      subst (λ h. take (length covered) h ++ kept ≡ h) whole
        (ap (λ l. l ++ kept) (take-length-append covered kept))),
  sym k,
  rw c (length-pos covered e),
)

-- `compact` loses nothing: either it returns the whole history, or the items that its artifact counts as
-- covered, which are some and are the first ones of the history, make up the history together with those
-- that it returns, of which the artifact holds the number.
pub compact-Cuts :
    (reader : Reader) (q : Request) (history : List Item) (trace : List Event)
    → Cuts history (compact reader q history trace)
unfolding compact build_artifact
compact-Cuts reader q history trace =
    let p = compactable_steps q.keep_recent (execution_steps history) in
    let a = build_artifact reader q p.0 p.1 trace in
    let b = record a { after_tokens = q.measure (render_compaction q.budget a) } in
    elim (Bool-cases (is_empty (entries p.0))) [
      | inl e ↦ simp (e) refl
      | inr e ↦ simp (e) (
          cut-Cuts b (entries p.0) (entries p.1) history refl refl e
            (parts-eq q.keep_recent (execution_steps history) ∙ entries-execution_steps history))
    ]

-- The last step that is compacted, if there is one, has a result for a call.
abbrev pub EndsWhole : List Step → Type 0
EndsWhole [] = Unit
EndsWhole (s ∷ []) = step_is_complete s ≡ true
EndsWhole (s ∷ t ∷ steps) = EndsWhole (t ∷ steps)

not-eq_false : (b : Bool) → not b ≡ false → b ≡ true
not-eq_false true h = refl
not-eq_false false h = cc

take-EndsWhole :
    (k : ℕ) (steps : List Step)
    → k < length steps
    → is_open_at steps k ≡ false
    → EndsWhole (take (suc k) steps)
unfolding step_is_complete
take-EndsWhole k [] lt h = absurd (omega arith)
take-EndsWhole zero (s ∷ steps) lt h = not-eq_false _ h
take-EndsWhole (suc k) (s ∷ []) lt h = absurd (omega arith)
take-EndsWhole (suc k) (s ∷ t ∷ steps) lt h = take-EndsWhole k (t ∷ steps) (omega arith) h

retreat-EndsWhole :
    (steps : List Step) (k : ℕ) → k ≤ length steps → EndsWhole (take (retreat steps k) steps)
unfolding retreat
retreat-EndsWhole steps zero le = tt
retreat-EndsWhole steps (suc k) le = elim (Bool-cases (is_open_at steps k)) [
  | inl e ↦ rw (e, retreat) (retreat-EndsWhole steps k (omega arith))
  | inr e ↦ rw (e, retreat) (take-EndsWhole k steps (omega arith) e)
]

retreat-le : (steps : List Step) (k : ℕ) → retreat steps k ≤ k
unfolding retreat
retreat-le steps zero = omega arith
retreat-le steps (suc k) = ground (arith, retreat-le steps k)

-- The steps are cut in two: at least the last `keep_recent` of them are kept, or all if there are no more,
-- and the last step that is compacted is complete.
pub compactable_steps-EndsWhole :
    (keep_recent : ℕ) (steps : List Step)
    → let (compacted, kept) = compactable_steps keep_recent steps in
      (compacted ++ kept ≡ steps)
      × (length compacted ≤ length steps - keep_recent)
      × EndsWhole compacted
unfolding compactable_steps cut_of
compactable_steps-EndsWhole keep_recent steps =
    let k = length steps - keep_recent in
    let cut = retreat steps k in
    (
      take-append-drop cut steps,
      omega (arith, length-take cut steps, retreat-le steps k),
      retreat-EndsWhole steps k (omega arith),
    )
