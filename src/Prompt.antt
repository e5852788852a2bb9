-- ===== src/Prompt.antt =====
-- moss/context/manager.py: what of the history goes into a request, and how.
-- The arguments of a call and their JSON are parameters, and so is the measure of a text.
pub mod Native
pub mod History
pub mod Sections
pub mod Reduce
use Prim.Native.String
use Prim.Native.String.{String}
use moss_code.Base.{
  ℕ, ◌-◌, Bool, true, false, not, ◌&&◌, ◌||◌, Option, none, some, List, [], ◌∷◌, ◌++◌,
  if◌then◌else◌, concat, join, truthy, same, decimal, filter,
}
use moss_code.Tokens.{clip_to_budget}

-- An item of the history, with what this module reads of it.
pub record Entry (Args : Type 0) : Type 0 where
  pub role : String
  pub name : String
  pub content : String
  pub args : Args
  pub call_id : String
  pub native_tool_call : Bool
  pub pending : Bool
  pub artifact : String
  pub artifact_lines : ℕ

pub record Block : Type 0 where
  pub text : String
  pub kind : String
  pub source : String
  pub trust : String
  pub call_id : String

pub record Message : Type 0 where
  pub role : String
  pub blocks : List Block
  pub call_id : Option String

-- `_clip`; the cut always ends.
abbrev pub cut_or : String → Option String → String
cut_or text none = text
cut_or text (some cut) = cut

unfoldable pub clip_with : (String → ℕ) → String → ℕ → String → String
unfolding clip_to_budget
clip_with measure text limit keep = cut_or text (clip_to_budget measure text limit keep "...")

module _ (Args : Type 0) (dumps : Args → String) where
  -- `tool_result_open_tag`
  abbrev pub artifact_attributes : Entry Args → List String
  artifact_attributes item =
      if truthy item.artifact
      then concat ("artifact=\"" ∷ item.artifact ∷ "\"" ∷ [])
        ∷ concat ("lines=\"" ∷ decimal item.artifact_lines ∷ "\"" ∷ [])
        ∷ []
      else []

  unfoldable pub tool_result_open_tag : Entry Args → String
  unfolding decimal
  tool_result_open_tag item = concat (
      "<tool_result "
      ∷ join " " (
          "untrusted=\"true\""
          ∷ concat ("source=\"" ∷ item.name ∷ "\"" ∷ [])
          ∷ concat ("args=" ∷ dumps item.args ∷ [])
          ∷ artifact_attributes item)
      ∷ ">"
      ∷ [])

  -- `_history_entries`
  abbrev pub history_entries : List (Entry Args) → List (Entry Args)
  history_entries history = filter (λ item. not item.pending) history
