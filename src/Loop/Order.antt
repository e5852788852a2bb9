-- ===== src/Loop/Order.antt =====
-- The order in which a batch runs and its results are recorded.
use moss_code.Base.{
  if-elim, leb→le, ℕ, ◌-◌, ◌≤◌, List, [], ◌∷◌, ◌++◌, arith, drop, take-append-drop, leb, Bool-cases,
  inl, inr, All,
}
use mathlib.Core.List.{Perm}
use mathlib.Core.List.Perm
use moss_code.Parser.{Action}
use moss_code.Loop.World.{Agent, State}
use moss_code.Loop.Batch.{insert_by_index, sort_by_index, admitted, execute_tool_batch}
use moss_code.Loop.Steps.{Batched, Short, execute_tool_batch-Batched, execute_tool_batch-Short}

module _ {Args : Type 0} where
  -- Each index is at most those behind it.
  abbrev pub IsSorted : List (Action Args) → Type 0
  IsSorted [] = Unit
  IsSorted (a ∷ actions) = All (λ b. a.index ≤ b.index) actions × IsSorted actions

  insert_by_index-All :
      (k : ℕ) (a : Action Args) (actions : List (Action Args))
      → k ≤ a.index
      → All (λ b. k ≤ b.index) actions
      → All (λ b. k ≤ b.index) (insert_by_index a actions)
  unfolding insert_by_index
  insert_by_index-All k a [] h hs = (h, tt)
  insert_by_index-All k a (b ∷ bs) h hs =
      if-elim (All (λ (c : Action Args). k ≤ c.index)) (leb a.index b.index) (h, hs)
        (hs.0, insert_by_index-All k a bs h hs.1)

  All-mono :
      (j k : ℕ) (actions : List (Action Args))
      → j ≤ k
      → All (λ b. k ≤ b.index) actions
      → All (λ b. j ≤ b.index) actions
  All-mono j k [] le h = tt
  All-mono j k (b ∷ bs) le h = (omega arith, All-mono j k bs le h.1)

  insert_by_index-IsSorted :
      (a : Action Args) (actions : List (Action Args))
      → IsSorted actions
      → IsSorted (insert_by_index a actions)
  unfolding insert_by_index
  insert_by_index-IsSorted a [] h = (tt, tt)
  insert_by_index-IsSorted a (b ∷ bs) h = elim (Bool-cases (leb a.index b.index)) [
    | inl e ↦
        let le = leb→le _ _ e in
        rw (e, insert_by_index) ((le, All-mono a.index b.index bs le h.0), h)
    | inr e ↦
        rw (e, insert_by_index)
          (insert_by_index-All b.index a bs (ground arith) h.0, insert_by_index-IsSorted a bs h.1)
  ]

  insert_by_index-perm :
      (a : Action Args) (actions : List (Action Args))
      → Perm (insert_by_index a actions) (a ∷ actions)
  unfolding insert_by_index
  insert_by_index-perm a [] = Perm.refl _
  insert_by_index-perm a (b ∷ bs) =
      if-elim (λ (l : List (Action Args)). Perm l (a ∷ b ∷ bs)) (leb a.index b.index) (Perm.refl _)
        (Perm.trans (Perm.cons b (insert_by_index-perm a bs)) (Perm.swap a b bs))

  sort_by_index-IsSorted : (actions : List (Action Args)) → IsSorted (sort_by_index actions)
  unfolding sort_by_index
  sort_by_index-IsSorted [] = tt
  sort_by_index-IsSorted (a ∷ actions) =
      insert_by_index-IsSorted a _ (sort_by_index-IsSorted actions)

  sort_by_index-perm : (actions : List (Action Args)) → Perm (sort_by_index actions) actions
  unfolding sort_by_index
  sort_by_index-perm [] = Perm.refl _
  sort_by_index-perm (a ∷ actions) =
      Perm.trans (insert_by_index-perm a _) (Perm.cons a (sort_by_index-perm actions))

module _ (agent : Agent) where
  open agent use {Args, max_steps}

  -- Of the actions of a batch, in any order, as many run as steps are left, and those that do not run have
  -- the larger indices. They run by their indices, one behind the other, each in the world that the one before
  -- leaves (a pool being taken to act like that). When none is broken off, each counts as a step, and the
  -- history gets an entry for each, in that order, with the name and the id of the call and the content of
  -- its result; when one is, those behind it do not run, no step is counted and no result recorded.
  pub execute_tool_batch_order :
      (actions : List (Action Args)) (s : State agent)
      → let batch = admitted agent actions s.tool_steps in
        let rest = drop (max_steps - s.tool_steps) (sort_by_index actions) in
        Perm (batch ++ rest) actions
        × IsSorted (batch ++ rest)
        × Batched agent batch s (execute_tool_batch agent actions s)
        × Short agent (max_steps - s.tool_steps) (execute_tool_batch agent actions s)
  unfolding admitted
  execute_tool_batch_order actions s =
      let left = max_steps - s.tool_steps in
      let whole = take-append-drop left (sort_by_index actions) in
      (
        rw whole (sort_by_index-perm actions),
        rw whole (sort_by_index-IsSorted actions),
        execute_tool_batch-Batched agent actions s,
        execute_tool_batch-Short agent actions s,
      )
