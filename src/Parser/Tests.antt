-- ===== src/Parser/Tests.antt =====
-- Outputs of a model, and the theorems of this folder at them.
use Prim.Native.String.{String}
use moss_code.Base.{
  ℕ, ◌<◌, ◌≡◌, refl, true, false, [], ◌∷◌, ◌++◌, length, filter, map, same, if◌then◌else◌, Dict,
}
use moss_code.Parser.{retry, Action, is_tool, truncate_after_final}
use moss_code.Parser.Blocks.{
  find_blocks, tool_block, final_block, find_text, find_close, front, find_tool,
}
use moss_code.Parser.Output.{
  Lib, Loaded, invalid, object, dict, plain, listed, native, no_dict, parse_model_actions,
  block_actions, tag_args, native_loop,
}
use moss_code.Parser.Sound.{IsNumbered, parse_model_actions-IsNumbered}
use moss_code.Parser.Order.{EndsFinal, parse_model_actions_order}
use moss_code.Loop.Batch.{sort_by_index}

abbrev loads : String → Loaded (Dict String)
loads body = if same body "{A}" then object " grep " (dict []) "" else invalid

abbrev attrs : String → Dict String
attrs shown =
    if same shown " name=\"x\" call_id=\"7\"" then ("name", "x") ∷ ("call_id", "7") ∷ [] else []

abbrev lib : Lib (Dict String)
lib = record {
  loads = loads;
  parse_attrs = attrs;
  no_args = [];
  of_texts = λ texts. texts;
  str_of = λ items. "";
}

abbrev two_calls : String
two_calls =
    "First <tool>{A}</tool> then <tool name=\"x\" call_id=\"7\">b</tool><final> Done </final>"

blocks_of_two :
    find_blocks 0 two_calls
    ≡ tool_block "" "{A}" "<tool>{A}</tool>"
      ∷ tool_block " name=\"x\" call_id=\"7\"" "b" "<tool name=\"x\" call_id=\"7\">b</tool>"
      ∷ final_block " Done "
      ∷ []
unfolding find_blocks find_text find_close front
blocks_of_two = refl

abbrev shown : Action (Dict String) → ℕ × String × Dict String × String × String
shown a = (a.index, a.name, a.args, a.call_id, a.text)

-- A batch strips the name of a JSON call and takes the call id out of the arguments of a tag.
actions_of_two :
    map shown (parse_model_actions lib false (plain two_calls))
    ≡ (0, "grep", [], "", "") ∷ (1, "x", [], "7", "") ∷ (2, "", [], "", "Done") ∷ []
unfolding parse_model_actions find_text find_close front tag_args block_actions find_blocks
actions_of_two = refl

-- A call that stands alone keeps its call id among its arguments.
single_keeps_call_id :
    map shown (parse_model_actions lib false (plain "<tool name=\"x\" call_id=\"7\">b</tool>"))
    ≡ (0, "x", ("call_id", "7") ∷ [], "", "") ∷ []
unfolding parse_model_actions find_text find_close front tag_args find_blocks find_tool
single_keeps_call_id = refl

-- One malformed item makes the whole native answer a retry.
native_malformed :
    map
      (λ a. a.kind)
      (parse_model_actions lib true (listed (native "tool" "grep" (dict []) "1" "" ∷ no_dict ∷ [])))
    ≡ retry ∷ []
unfolding parse_model_actions native_loop
native_malformed = refl

parse_model_actions-IsNumbered_example :
    IsNumbered 0 (parse_model_actions lib false (plain two_calls))
    × (0 < length (parse_model_actions lib false (plain two_calls)))
parse_model_actions-IsNumbered_example = parse_model_actions-IsNumbered lib false (plain two_calls)

parse_model_actions_order_example :
    let actions = parse_model_actions lib false (plain two_calls) in
    let (kept, dropped) = truncate_after_final actions in
    EndsFinal kept dropped
    × (kept ++ dropped ≡ actions)
    × (sort_by_index (filter (λ a. is_tool a.kind) kept) ≡ filter (λ a. is_tool a.kind) kept)
parse_model_actions_order_example = parse_model_actions_order lib false (plain two_calls)
