-- ===== src/Parser/Output.antt =====
-- `parse_model_actions`: an output of the model as actions, in its text and its native form.
-- `json.loads` and the pattern of the attributes of a tag are parameters.
use Prim.Native.String.{String}
use moss_code.Base.{
  ◌⊎◌, inl, inr, ℕ, ◌+◌, Bool, true, false, not, ◌&&◌, Option, none, some, List, [], ◌∷◌,
  if◌then◌else◌, same, truthy, strip, rstrip, lstrip, concat, Dict, lookup, update,
}
use moss_code.Parser.{ActionKind, tool, final, retry, Action}
use moss_code.Parser.Blocks.{
  Block, tool_block, final_block, find_blocks, find_tool, extract, extract_raw, has_text,
  comes_first,
}

-- The value of `args` in a JSON object.
pub data ArgsValue (Args : Type 0) : Type 0 where
  missing : ArgsValue Args
  null : ArgsValue Args
  dict : Args → ArgsValue Args
  other : ArgsValue Args

pub data Loaded (Args : Type 0) : Type 0 where
  invalid : Loaded Args
  no_object : Loaded Args
  -- `str` of the name and of the call id, which are empty when missing
  object : String → ArgsValue Args → String → Loaded Args

pub data NativeItem (Args : Type 0) : Type 0 where
  no_dict : NativeItem Args
  -- The type, the name, the arguments, the call id and the text.
  native : String → String → ArgsValue Args → String → String → NativeItem Args

-- What a client returns: a text, or the items of a native answer.
pub data Raw (Args : Type 0) : Type 0 where
  plain : String → Raw Args
  listed : List (NativeItem Args) → Raw Args

pub record Lib (Args : Type 0) : Type 0 where
  pub loads : String → Loaded Args
  pub parse_attrs : String → Dict String
  pub no_args : Args
  pub of_texts : Dict String → Args
  -- `str` of an answer that is no text
  pub str_of : List (NativeItem Args) → String

-- `retry_notice(problem)`, where no problem is the empty text.
abbrev pub notice_parts : String → List String
notice_parts problem =
    (if truthy problem then problem else "model returned malformed tool output")
    ∷ ". Reply with a valid <tool> call or a non-empty <final> answer. For multi-line files, prefer <tool name=\"write_file\" path=\"file.py\"><content>...</content></tool>."
    ∷ []

unfoldable pub retry_notice : String → String
retry_notice problem = concat ("Runtime notice: " ∷ notice_parts problem)

abbrev pub remove : String → Dict String → Dict String
remove key [] = []
remove key ((k, v) ∷ d) = let rest = remove key d in if same k key then rest else (k, v) ∷ rest

abbrev pub value_or_empty : String → Dict String → String
unfolding lookup
value_or_empty key d = elim (lookup key d) [ none ↦ "" | some v ↦ v ]

abbrev pub has_key : String → Dict String → Bool
unfolding lookup
has_key key d = elim (lookup key d) [ none ↦ false | some v ↦ true ]

-- The tags of a body that become arguments.
unfoldable pub tag_args : List String → String → Dict String → Dict String
unfolding has_text extract_raw update
tag_args [] body args = args
tag_args (key ∷ keys) body args = tag_args keys body (
    if has_text (concat ("<" ∷ key ∷ ">" ∷ [])) body
    then update key (extract_raw body key) args
    else args)

module _ {Args : Type 0} (lib : Lib Args) where
  abbrev pub make : ActionKind → ℕ → String → Args → String → String → Action Args
  make kind index name args text call_id = record {
    kind = kind;
    index = index;
    name = name;
    args = args;
    text = text;
    call_id = call_id;
  }

  abbrev pub retry_action : ℕ → String → Action Args
  retry_action index problem = make retry index "" lib.no_args (retry_notice problem) ""

  abbrev pub tool_action : ℕ → String → Args → String → Action Args
  tool_action index name args call_id = make tool index name args "" call_id

  abbrev pub final_action : ℕ → String → Action Args
  final_action index text = make final index "" lib.no_args text ""

  abbrev pub body_args : String → String → Dict String → Dict String
  unfolding tag_args lookup strip update
  body_args name body attrs =
      let args =
        tag_args
          ("content" ∷ "old_text" ∷ "new_text" ∷ "command" ∷ "task" ∷ "pattern" ∷ "path" ∷ []) body
          attrs in
      let shown = rstrip 10 (lstrip 10 body) in
      let written =
        if same name "write_file" && (not (has_key "content" args) && truthy shown)
        then update "content" shown args
        else args in
      if same name "delegate" && (not (has_key "task" written) && truthy shown)
      then update "task" (strip shown) written
      else written

  -- `parse_xml_tool` of a block, by its attributes and its body.
  unfoldable pub xml_tool : String → String → Option (String × Dict String)
  unfolding strip body_args lookup
  xml_tool attrs_text body =
      let attrs = lib.parse_attrs attrs_text in
      let name = strip (value_or_empty "name" attrs) in
      if truthy name then some (name, body_args name body (remove "name" attrs)) else none

  -- The object of a JSON call: `strip_name` in a batch, where the name is stripped.
  unfoldable pub json_tool : ℕ → Bool → Loaded Args → Action Args
  unfolding strip
  json_tool index strip_name invalid = retry_action index "model returned malformed tool JSON"
  json_tool index strip_name no_object = retry_action index "tool payload must be a JSON object"
  json_tool index strip_name (object name args call_id) =
      let shown = if strip_name then strip name else name in
      let found : Action Args = elim args [
        | missing ↦ tool_action index shown lib.no_args call_id
        | null ↦ tool_action index shown lib.no_args call_id
        | dict d ↦ tool_action index shown d call_id
        | other ↦ retry_action index ""
      ] in
      if truthy (strip name)
      then found
      else retry_action index "tool payload is missing a tool name"

  -- The call id of a batch is taken out of the arguments.
  unfoldable pub xml_action : ℕ → Option (String × Dict String) → Action Args
  unfolding lookup
  xml_action index none = retry_action index ""
  xml_action index (some (name, args)) =
      tool_action index name (lib.of_texts (remove "call_id" args)) (value_or_empty "call_id" args)

  -- `_tool_action`, and the final answers of a batch.
  unfoldable pub block_action : ℕ → Block → Action Args
  unfolding strip json_tool xml_tool xml_action
  block_action index (tool_block attrs body whole) =
      if truthy (strip attrs)
      then xml_action index (xml_tool attrs body)
      else json_tool index true (lib.loads (strip body))
  block_action index (final_block text) =
      if truthy (strip text)
      then final_action index (strip text)
      else retry_action index "model returned an empty <final> answer"

  unfoldable pub block_actions : ℕ → List Block → List (Action Args)
  unfolding block_action
  block_actions index [] = []
  block_actions index (b ∷ blocks) = block_action index b ∷ block_actions (index + 1) blocks

  -- `parse_xml_tool` of a text, by its first block of a tool.
  unfoldable pub first_xml_tool : Option Block → Option (String × Dict String)
  unfolding xml_tool
  first_xml_tool (some (tool_block attrs body whole)) = xml_tool attrs body
  first_xml_tool _ = none

  -- `_single_action` of an XML call, whose arguments stay as they are.
  unfoldable pub single_xml : Option (String × Dict String) → Action Args
  single_xml none = retry_action 0 ""
  single_xml (some (name, args)) = tool_action 0 name (lib.of_texts args) ""

  -- `parse_model_output` with `_single_action`.
  unfoldable pub single_action : String → Action Args
  unfolding comes_first json_tool extract find_tool first_xml_tool single_xml has_text strip
  single_action raw =
      if comes_first "<tool>" "<final>" raw
      then json_tool 0 false (lib.loads (extract raw "tool"))
      else if comes_first "<tool" "<final>" raw
      then single_xml (first_xml_tool (find_tool raw))
      else if has_text "<final>" raw
      then (if truthy (strip (extract raw "final"))
          then final_action 0 (strip (extract raw "final"))
          else retry_action 0 "model returned an empty <final> answer")
      else if truthy (strip raw)
      then final_action 0 (strip raw)
      else retry_action 0 "model returned an empty response"

  -- A text with two blocks or more is a batch.
  unfoldable pub text_actions : String → List Block → List (Action Args)
  unfolding single_action block_actions
  text_actions raw (b ∷ c ∷ blocks) = block_actions 0 (b ∷ c ∷ blocks)
  text_actions raw blocks = single_action raw ∷ []

  abbrev pub dict_of : ArgsValue Args → Option Args
  dict_of missing = some lib.no_args
  dict_of null = none
  dict_of (dict d) = some d
  dict_of other = none

  -- An item of a native answer; `none` for one that makes the whole answer malformed.
  unfoldable pub native_tool : ℕ → String → Option Args → String → Option (Action Args)
  unfolding strip
  native_tool index name none call_id = none
  native_tool index name (some args) call_id =
      if truthy (strip name) then some (tool_action index (strip name) args call_id) else none

  unfoldable pub native_action : ℕ → NativeItem Args → Option (Action Args)
  unfolding strip native_tool
  native_action index no_dict = none
  native_action index (native kind name args call_id shown) =
      if same kind "tool"
      then native_tool index name (dict_of args) call_id
      else if same kind "final"
      then some (
          if truthy (strip shown)
          then final_action index (strip shown)
          else retry_action index "provider returned empty native text")
      else some (retry_action index "unknown native output block")

  -- What is said of an item that makes the answer malformed.
  abbrev pub problem_of : NativeItem Args → String
  problem_of no_dict = "provider returned malformed native output"
  problem_of (native kind name args call_id shown) = "provider returned malformed native tool call"

  abbrev pub with_action :
      Option (Action Args)
      → Action Args
      → List (Action Args) ⊎ Action Args
      → List (Action Args) ⊎ Action Args
  with_action none problem rest = inr problem
  with_action (some a) problem (inl actions) = inl (a ∷ actions)
  with_action (some a) problem (inr other_problem) = inr other_problem

  -- The actions, or the retry for the first malformed item, which is returned alone.
  unfoldable pub native_loop : ℕ → List (NativeItem Args) → List (Action Args) ⊎ Action Args
  unfolding native_action
  native_loop index [] = inl []
  native_loop index (i ∷ items) =
      with_action (native_action index i) (retry_action 0 (problem_of i))
        (native_loop (index + 1) items)

  unfoldable pub native_result : List (Action Args) ⊎ Action Args → List (Action Args)
  native_result (inl []) = retry_action 0 "provider returned empty native output" ∷ []
  native_result (inl (a ∷ actions)) = a ∷ actions
  native_result (inr problem) = problem ∷ []

  -- `_parse_native_actions`: a text is one item that is no dict.
  unfoldable pub native_actions : Raw Args → List (Action Args)
  unfolding native_loop native_result
  native_actions (plain raw) = native_result (native_loop 0 (no_dict ∷ []))
  native_actions (listed items) = native_result (native_loop 0 items)

  abbrev pub raw_str : Raw Args → String
  raw_str (plain raw) = raw
  raw_str (listed items) = lib.str_of items

  unfoldable pub parse_model_actions : Bool → Raw Args → List (Action Args)
  unfolding native_actions find_blocks text_actions
  parse_model_actions native_protocol raw =
      if native_protocol
      then native_actions raw
      else text_actions (raw_str raw) (find_blocks 0 (raw_str raw))
