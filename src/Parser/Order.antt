-- ===== src/Parser/Order.antt =====
-- The loop runs the tools of an output in the order in which the model names them.
use moss_code.Base.{
  subst, ◌⊎◌, ℕ, ◌+◌, ◌≤◌, ◌≡◌, refl, sym, ap, Bool, true, false, List, [], ◌∷◌, ◌++◌, arith,
  if-elim, if-cases, filter, All, leb, inl, inr,
}
use moss_code.Parser.{Action, is_tool, is_final, truncate_after_final}
use moss_code.Parser.Output.{Lib, Raw, parse_model_actions}
use moss_code.Parser.Sound.{IsNumbered, parse_model_actions-IsNumbered}
use moss_code.Loop.Batch.{insert_by_index, sort_by_index}

module _ {Args : Type 0} where
  abbrev From : ℕ → List (Action Args) → Type 0
  From k actions = All (λ a. k ≤ a.index) actions

  From-mono : (j k : ℕ) (actions : List (Action Args)) → j ≤ k → From k actions → From j actions
  From-mono j k [] le h = tt
  From-mono j k (a ∷ actions) le h = (omega arith, From-mono j k actions le h.1)

  insert-first :
      (a : Action Args) (actions : List (Action Args))
      → From a.index actions
      → insert_by_index a actions ≡ a ∷ actions
  unfolding insert_by_index
  insert-first a [] h = refl
  insert-first a (b ∷ bs) h =
      if-cases (λ l. l ≡ a ∷ b ∷ bs) (leb a.index b.index) (λ e. refl) (λ e. absurd (ground arith))

  -- The actions of an output that pass a test are sorted, and not below the first place.
  tools-sorted :
      (p : Action Args → Bool) (k : ℕ) (actions : List (Action Args))
      → IsNumbered k actions
      → From k (filter p actions) × (sort_by_index (filter p actions) ≡ filter p actions)
  unfolding sort_by_index
  tools-sorted p k [] h = (tt, refl)
  tools-sorted p k (a ∷ actions) h =
      let ih = tools-sorted p (k + 1) actions h.1 in
      let rest = filter p actions in
      let at = h.0.at in
      if-elim (λ l. From k l × (sort_by_index l ≡ l)) (p a)
        (
          (omega arith, From-mono k (k + 1) rest (omega arith) ih.0),
          rw ih.1 (insert-first a rest (From-mono a.index (k + 1) rest (omega arith) ih.0)),
        )
        (From-mono k (k + 1) rest (omega arith) ih.0, ih.1)

  -- No action but the last one is a final answer, and the last one is, unless there is none.
  abbrev pub EndsFinal : List (Action Args) → List (Action Args) → Type 0
  EndsFinal [] dropped = dropped ≡ []
  EndsFinal (a ∷ []) dropped = (is_final a.kind ≡ true) ⊎ (dropped ≡ [])
  EndsFinal (a ∷ b ∷ kept) dropped = (is_final a.kind ≡ false) × EndsFinal (b ∷ kept) dropped

  EndsFinal-cons :
      (a : Action Args) (kept dropped : List (Action Args))
      → is_final a.kind ≡ false
      → EndsFinal kept dropped
      → EndsFinal (a ∷ kept) dropped
  EndsFinal-cons a [] dropped h e = inr e
  EndsFinal-cons a (b ∷ kept) dropped h e = (h, e)

  truncate_after_final-EndsFinal :
      (actions : List (Action Args))
      → EndsFinal (truncate_after_final actions).0 (truncate_after_final actions).1
        × ((truncate_after_final actions).0 ++ (truncate_after_final actions).1 ≡ actions)
  unfolding truncate_after_final
  truncate_after_final-EndsFinal [] = (refl, refl)
  truncate_after_final-EndsFinal (a ∷ actions) =
      let ih = truncate_after_final-EndsFinal actions in
      let r = truncate_after_final actions in
      if-cases
        (λ (q : List (Action Args) × List (Action Args)).
          EndsFinal q.0 q.1 × (q.0 ++ q.1 ≡ a ∷ actions))
        (is_final a.kind) (λ h. (inl h, refl))
        (λ h. (EndsFinal-cons a r.0 r.1 h ih.0, ap (λ l. a ∷ l) ih.1))

  IsNumbered-left :
      (k : ℕ) (kept dropped : List (Action Args))
      → IsNumbered k (kept ++ dropped)
      → IsNumbered k kept
  IsNumbered-left k [] dropped h = tt
  IsNumbered-left k (a ∷ kept) dropped h = (h.0, IsNumbered-left (k + 1) kept dropped h.1)

  IsNumbered-prefix :
      (k : ℕ) (kept dropped actions : List (Action Args))
      → kept ++ dropped ≡ actions
      → IsNumbered k actions
      → IsNumbered k kept
  IsNumbered-prefix k kept dropped actions e h =
      IsNumbered-left k kept dropped (subst (IsNumbered k) (sym e) h)

module _ {Args : Type 0} (lib : Lib Args) where
  -- Of the actions of an output, the loop keeps those up to the first final answer, which is the last one
  -- that it keeps, and the tools among them run in the order in which they stand in the output: sorting
  -- them by their indices changes nothing.
  pub parse_model_actions_order :
      (native_protocol : Bool) (raw : Raw Args)
      → let actions = parse_model_actions lib native_protocol raw in
        let (kept, dropped) = truncate_after_final actions in
        EndsFinal kept dropped
        × (kept ++ dropped ≡ actions)
        × (sort_by_index (filter (λ a. is_tool a.kind) kept) ≡ filter (λ a. is_tool a.kind) kept)
  parse_model_actions_order native_protocol raw =
      let actions = parse_model_actions lib native_protocol raw in
      let whole = truncate_after_final-EndsFinal actions in
      let r = truncate_after_final actions in
      let numbered = (parse_model_actions-IsNumbered lib native_protocol raw).0 in
      (
        whole.0,
        whole.1,
        (tools-sorted (λ a. is_tool a.kind) 0 r.0
            (IsNumbered-prefix 0 r.0 r.1 actions whole.1 numbered)).1,
      )
