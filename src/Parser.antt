-- ===== src/Parser.antt =====
-- moss/agent/output_parser.py: the actions of one output of the model.
pub mod Blocks
pub mod Output
pub mod Sound
pub mod Order
mod Tests
use moss_code.Base.{ℕ, String, Bool, true, false, List, [], ◌∷◌, if◌then◌else◌}

pub data ActionKind : Type 0 where
  tool final retry : ActionKind

abbrev pub is_tool : ActionKind → Bool
is_tool tool = true
is_tool final = false
is_tool retry = false

abbrev pub is_final : ActionKind → Bool
is_final tool = false
is_final final = true
is_final retry = false

abbrev pub is_retry : ActionKind → Bool
is_retry tool = false
is_retry final = false
is_retry retry = true

pub record Action (Args : Type 0) : Type 0 where
  pub kind : ActionKind
  pub index : ℕ
  pub name : String
  pub args : Args
  pub text : String
  pub call_id : String

-- What stands up to the first final answer, and what stands behind it.
unfoldable pub truncate_after_final :
    {Args : Type 0} → List (Action Args) → List (Action Args) × List (Action Args)
truncate_after_final [] = ([], [])
truncate_after_final (a ∷ actions) =
    let (kept, dropped) = truncate_after_final actions in
    if is_final a.kind then (a ∷ [], actions) else (a ∷ kept, dropped)
