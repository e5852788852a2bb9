-- ===== src/Task/Form.antt =====
-- The dict of a state reads back as the state.
use moss_code.Base.{◌≡◌, none, some, [], lookup}
use moss_code.Task.{TaskState, Convert, to_dict, from_dict}

module _ (Item : Type 0) (c : Convert Item) where
  -- What comes back: no plan becomes the empty plan.
  unfoldable pub normal : TaskState Item → TaskState Item
  normal s = record s { plan = some (elim s.plan [ none ↦ [] | some xs ↦ xs ]) }

  -- Reading the dict that was written gives the state back, in every field, but that no plan comes back as
  -- the empty plan; no conversion raises.
  pub from_dict-to_dict : (s : TaskState Item) → from_dict Item c (to_dict Item s) ≡ some (normal s)
  unfolding from_dict to_dict normal lookup
  from_dict-to_dict s = simp (c.int-number, c.list-items, c.str-text, c.bool-flag)
