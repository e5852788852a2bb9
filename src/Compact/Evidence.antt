-- ===== src/Compact/Evidence.antt =====
-- What the summary calls completed, a tool of the compacted part has done in full.
use moss_code.Base.{
  if-cases, truthy, ℕ, ◌≡◌, refl, sym, ap, ◌∙◌, subst, String, Bool, true, false, ◌&&◌, ◌||◌,
  Option, none, some, List, [], ◌∷◌, arith, length, filter, elem, same, In, here, there,
  In-append-cases, Bool-cases, inl, inr, ◌⊎◌, &&-eq-true, if-elim, leb, Option-cases, eq_iff,
}
use moss_code.Compact.Steps.{Item, execution_steps, compactable_steps, entries, tool_entries}
use moss_code.Compact.Extract.{
  Event, Extraction, Reader, PlanStep, name_or, add_new, excluding_codes, write_tools,
  completed_entry, add_goal, add_goals, add_failures, add_read, error_lines, add_tool, add_event,
  add_events, add_open_steps, add_refusals, nothing, extract_rule, events_up_to, covered_events,
  last_sequence,
}
use moss_code.Compact.Model.{AuxClient, Payload, allowed_completed, checked, extract_model}
use moss_code.Compact.{
  Artifact, Request, or_rule, extract_by, extract, build_artifact, compact, is_empty,
}

-- A tool event that stands for work that is done: it succeeded, it changes the workspace, and it was not
-- refused.
pub record IsDone (e : Event) : Type 0 where
  pub is_tool : e.event ≡ "tool_executed"
  pub is_ok : e.tool_status ≡ "ok"
  pub writes : elem (name_or "" e.name) write_tools ≡ true
  pub not_refused : elem e.tool_error_code excluding_codes ≡ false

-- An entry that reports such an event.
abbrev pub Reports : List Event → String → Type 0
Reports events entry = (e : Event) × In e events × IsDone e × (entry ≡ completed_entry e)

In-add_new : (t x y : String) (xs : List String) → In t (add_new x y xs) → In t xs ⊎ (t ≡ y)
In-add_new t x y xs =
    if-elim (λ l. In t l → In t xs ⊎ (t ≡ y)) (elem x xs) inl
      (λ m. elim (In-append-cases xs (y ∷ []) m) [
        | inl l ↦ inl l
        | inr (here h) ↦ inr h
        | inr (there r) ↦ elim r [ ]
      ])

add_failures-completed :
    (e : Event) (lines : List String) (x : Extraction)
    → (add_failures e lines x).completed ≡ x.completed
unfolding add_failures
add_failures-completed e [] x = refl
add_failures-completed e (l ∷ lines) x = add_failures-completed e lines _

add_read-completed :
    (reader : Reader) (e : Event) (x : Extraction) → (add_read reader e x).completed ≡ x.completed
unfolding add_read
add_read-completed reader e x = if-elim (λ (r : Extraction). r.completed ≡ x.completed) _ refl refl

-- What an entry of a later summary is: one of the earlier summary, or the report of the event.
abbrev Grows : Event → Extraction → Extraction × Bool → Type 0
Grows e x r =
    (t : String)
    → In t r.0.completed
    → In t x.completed
      ⊎ ((e.tool_status ≡ "ok")
          × (elem (name_or "" e.name) write_tools ≡ true)
          × (elem e.tool_error_code excluding_codes ≡ false)
          × (t ≡ completed_entry e))

same-eq : (s t : String) → same s t ≡ true → s ≡ t
same-eq s t h = (eq_iff s t).0 h

add_tool-Grows :
    (reader : Reader) (e : Event) (x : Extraction) (denied : Bool)
    → Grows e x (add_tool reader e (x, denied))
unfolding add_tool
add_tool-Grows reader e x denied =
    if-cases (Grows e x) (elem e.tool_error_code excluding_codes) (λ h t m. inl m)
      (λ fine.
        if-cases (Grows e x) (same e.tool_status "ok" && elem (name_or "" e.name) write_tools)
          (λ h t m.
            let both = &&-eq-true _ _ h in
            elim (In-add_new t _ _ x.completed m) [
              | inl l ↦ inl l
              | inr k ↦ inr (same-eq _ _ both.0, both.1, fine, k)
            ])
          (λ h.
            if-elim (Grows e x) (same e.tool_status "partial_success") (λ t m. inl m)
              (if-elim (Grows e x) (same e.tool_status "error" || truthy e.tool_error_code)
                (λ t m. inl (
                  subst (λ l. In t l) (add_failures-completed e (error_lines reader e.result) x) m))
                (if-elim (Grows e x) (same (name_or "" e.name) "read_file")
                  (λ t m. inl (subst (λ l. In t l) (add_read-completed reader e x) m))
                  (λ t m. inl m)))))

add_event-Reports :
    (reader : Reader) (e : Event) (x : Extraction) (denied : Bool) (t : String)
    → In t (add_event reader e (x, denied)).0.completed
    → In t x.completed ⊎ (IsDone e × (t ≡ completed_entry e))
unfolding add_event
add_event-Reports reader e x denied t =
    let P = λ (r : Extraction × Bool).
      In t r.0.completed → In t x.completed ⊎ (IsDone e × (t ≡ completed_entry e)) in
    if-elim P (same e.event "plan_updated") inl (
      if-elim P (same e.event "stall_detected") inl (
        if-cases P (same e.event "tool_executed")
          (λ h m. elim (add_tool-Grows reader e x denied t m) [
            | inl l ↦ inl l
            | inr g ↦ inr (
              record { is_tool = same-eq _ _ h; is_ok = g.0; writes = g.1; not_refused = g.2 },
              g.3,
            )
          ])
          (λ h. inl)))

Reports-there :
    {e : Event} {events : List Event} {t : String} → Reports events t → Reports (e ∷ events) t
Reports-there (f, m, d, h) = (f, there m, d, h)

add_events-Reports :
    (reader : Reader) (events : List Event) (r : Extraction × Bool) (t : String)
    → In t (add_events reader events r).0.completed
    → In t r.0.completed ⊎ Reports events t
unfolding add_events
add_events-Reports reader [] r t m = inl m
add_events-Reports reader (e ∷ events) (x, denied) t m =
    elim (add_events-Reports reader events (add_event reader e (x, denied)) t m) [
      | inr h ↦ inr (Reports-there h)
      | inl l ↦ elim (add_event-Reports reader e x denied t l) [
        | inl k ↦ inl k
        | inr k ↦ inr (e, here refl, k.0, k.1)
      ]
    ]

add_goals-completed :
    (items : List Item) (x : Extraction) → (add_goals items x).completed ≡ x.completed
unfolding add_goals add_goal
add_goals-completed [] x = refl
add_goals-completed (i ∷ items) x =
    add_goals-completed items _
    ∙ if-elim (λ (r : Extraction). r.completed ≡ x.completed) _ refl refl

add_open_steps-completed :
    (steps : List PlanStep) (x : Extraction) → (add_open_steps steps x).completed ≡ x.completed
unfolding add_open_steps
add_open_steps-completed [] x = refl
add_open_steps-completed (p ∷ steps) x =
    add_open_steps-completed steps _
    ∙ if-elim (λ (r : Extraction). r.completed ≡ x.completed) _ refl refl

add_refusals-completed :
    (denied : Bool) (x : Extraction) → (add_refusals denied x).completed ≡ x.completed
unfolding add_refusals
add_refusals-completed true x = refl
add_refusals-completed false x = refl

extract_rule-Reports :
    (reader : Reader) (items : List Item) (events : List Event) (t : String)
    → In t (extract_rule reader items events).completed
    → Reports events t
unfolding extract_rule
extract_rule-Reports reader items events t m =
    let r = add_events reader events (add_goals items nothing, false) in
    let same_list =
      add_refusals-completed r.1 (add_open_steps r.0.plan r.0)
      ∙ add_open_steps-completed r.0.plan r.0 in
    elim (add_events-Reports reader events (add_goals items nothing, false) t
      (subst (λ l. In t l) same_list m)) [
        | inr h ↦ h
        | inl l ↦ elim (subst (λ l. In t l) (add_goals-completed items nothing) l) [ ]
      ]

In-of_elem : (t : String) (xs : List String) → elem t xs ≡ true → In t xs
In-of_elem t [] h = absurd (cc)
In-of_elem t (x ∷ xs) h = elim (Bool-cases (same t x)) [
  | inl e ↦ here (same-eq t x e)
  | inr e ↦ there (In-of_elem t xs (ground arith))
]

In-cons-cases : {A : Type 0} (a x : A) (xs : List A) → In a (x ∷ xs) → (a ≡ x) ⊎ In a xs
In-cons-cases a x xs (here h) = inl h
In-cons-cases a x xs (there m) = inr m

In-filter :
    {A : Type 0} (p : A → Bool) (a : A) (xs : List A) → In a (filter p xs) → In a xs × (p a ≡ true)
In-filter p a [] = λ m. elim m [ ]
In-filter {A} p a (x ∷ xs) =
    let ih = In-filter p a xs in
    if-cases (λ (l : List A). In a l → In a (x ∷ xs) × (p a ≡ true)) (p x)
      (λ h m. elim (In-cons-cases a x (filter p xs) m) [
        | inl k ↦ (here k, subst (λ b. p b ≡ true) (sym k) h)
        | inr k ↦ (there (ih k).0, (ih k).1)
      ])
      (λ h m. (there (ih m).0, (ih m).1))

-- The model completes nothing that the rules have not.
abbrev Within : Extraction → Option Extraction → Type 0
Within rule none = Unit
Within rule (some x) = (t : String) → In t x.completed → In t rule.completed

checked-Within : (rule : Extraction) (p : Payload) → Within rule (checked rule p)
unfolding checked allowed_completed
checked-Within rule p =
    if-elim (Within rule) p.is_malformed tt (λ t m.
      In-of_elem t rule.completed (In-filter (λ c. elem c rule.completed) t p.completed m).1)

extract_model-Within :
    (client : AuxClient) (rule : Extraction) (covered : List Item) (budget : ℕ)
    → Within rule (extract_model client rule covered budget)
unfolding extract_model
extract_model-Within client rule covered budget =
    elim (Option-cases (client.complete rule covered budget)) [
      | inl e ↦ rw (e, extract_model) tt
      | inr (p, e) ↦ rw (e, extract_model) (checked-Within rule p)
    ]

or_rule-Within :
    (rule : Extraction) (o : Option Extraction) (t : String)
    → Within rule o
    → In t (or_rule rule o).1.completed
    → In t rule.completed
or_rule-Within rule none t h m = m
or_rule-Within rule (some x) t h m = h t m

extract_by-Within :
    (client : Option AuxClient) (rule : Extraction) (covered : List Item) (budget : ℕ) (t : String)
    → In t (extract_by client rule covered budget).1.completed
    → In t rule.completed
unfolding extract_by
extract_by-Within none rule covered budget t m = m
extract_by-Within (some client) rule covered budget t m =
    or_rule-Within rule _ t (extract_model-Within client rule covered budget) m

extract-Reports :
    (reader : Reader) (q : Request) (covered : List Item) (events : List Event) (t : String)
    → In t (extract reader q covered events).1.completed
    → Reports events t
unfolding extract
extract-Reports reader q covered events t =
    let rule = extract_rule reader covered events in
    let by_rule = extract_rule-Reports reader covered events t in
    if-elim (λ (r : String × Extraction). In t r.1.completed → Reports events t) q.use_model
      (λ m. by_rule (extract_by-Within q.aux_client rule covered q.budget t m)) by_rule

events_up_to-In :
    (events tools : List Event) (e : Event) → In e (events_up_to events tools).0 → In e events
unfolding events_up_to
events_up_to-In events [] e m = elim m [ ]
events_up_to-In events (t ∷ tools) e m =
    (In-filter (λ (f : Event). leb f.sequence (last_sequence (t ∷ tools))) e events m).0

covered_events-Reports :
    (trace : List Event) (count : ℕ) (t : String)
    → Reports (covered_events trace count).0 t
    → Reports trace t
unfolding covered_events
covered_events-Reports trace count t (e, m, d, h) = (e, events_up_to-In trace _ e m, d, h)

abbrev completed_of : Option Artifact → List String
completed_of none = []
completed_of (some a) = a.content.completed

compact-Reports :
    (reader : Reader) (q : Request) (history : List Item) (trace : List Event) (t : String)
    → In t (completed_of (compact reader q history trace).0)
    → Reports trace t
unfolding compact build_artifact
compact-Reports reader q history trace t =
    let p = compactable_steps q.keep_recent (execution_steps history) in
    let count = length (tool_entries p.0) in
    if-elim (λ (r : Option Artifact × List Item). In t (completed_of r.0) → Reports trace t)
      (is_empty (entries p.0)) (λ m. elim m [ ])
      (λ m.
        covered_events-Reports trace count t
          (extract-Reports reader q (entries p.0) (covered_events trace count).0 t m))

-- Whatever method wrote a summary, each of its completed entries reports an event of the trace: a tool
-- that changes the workspace, ended with the status `ok`, and was not refused. So no partial success and
-- no failure is told as done, and a model can add no entry of its own.
pub compact-completed :
    (reader : Reader) (q : Request) (history : List Item) (trace : List Event) (a : Artifact)
    (entry : String)
    → (compact reader q history trace).0 ≡ some a
    → In entry a.content.completed
    → Reports trace entry
compact-completed reader q history trace a entry e m =
    compact-Reports reader q history trace entry
      (subst (λ l. In entry l) (sym (ap completed_of e)) m)
