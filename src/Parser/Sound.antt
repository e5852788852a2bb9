-- ===== src/Parser/Sound.antt =====
-- What the rest of the program may rely on in the actions of an output.
use Prim.Native.String.{String}
use moss_code.Base.{
  ℕ, ◌+◌, ◌<◌, ◌≡◌, refl, ◌⊎◌, inl, inr, Bool, true, false, Option, none, some, List, [], ◌∷◌,
  arith, if-elim, if-cases, length, truthy, strip, truthy-concat, same, Dict,
}
use moss_code.Parser.{tool, final, retry, Action}
use moss_code.Parser.Blocks.{
  Block, tool_block, final_block, find_blocks, find_tool, extract, has_text, comes_first,
}
use moss_code.Parser.Output.{
  Lib, Loaded, invalid, no_object, object, ArgsValue, missing, null, dict, other, NativeItem,
  no_dict, native, Raw, plain, listed, notice_parts, retry_notice, retry_action, tool_action,
  final_action, xml_tool, json_tool, xml_action, block_action, block_actions, first_xml_tool,
  single_xml, single_action, text_actions, native_tool, native_action, problem_of, with_action,
  native_loop, native_result, native_actions, raw_str, parse_model_actions, value_or_empty,
}

module _ {Args : Type 0} where
  -- The name of a tool, and the text of another action.
  abbrev pub said : Action Args → String
  said a = elim a.kind [ tool ↦ a.name | final ↦ a.text | retry ↦ a.text ]

  -- An action at its place in the output, with something to do.
  pub record IsAt (k : ℕ) (a : Action Args) : Type 0 where
    pub at : a.index ≡ k
    pub filled : truthy (said a) ≡ true

  -- The actions are numbered by their places, from `k` on.
  abbrev pub IsNumbered : ℕ → List (Action Args) → Type 0
  IsNumbered k [] = Unit
  IsNumbered k (a ∷ actions) = IsAt k a × IsNumbered (k + 1) actions

strip-truthy : (s : String) → truthy (strip s) ≡ true → truthy s ≡ true
unfolding strip
strip-truthy String.[] h = h
strip-truthy (String.◌∷◌ c s) h = refl

retry_notice-truthy : (problem : String) → truthy (retry_notice problem) ≡ true
unfolding retry_notice
retry_notice-truthy problem = truthy-concat "Runtime notice: " (notice_parts problem) refl

module _ {Args : Type 0} (lib : Lib Args) where
  retry-IsAt : (k : ℕ) (problem : String) → IsAt k (retry_action lib k problem)
  retry-IsAt k problem = record { at = refl; filled = retry_notice-truthy problem }

  tool-IsAt :
      (k : ℕ) (name : String) (args : Args) (call_id : String)
      → truthy name ≡ true
      → IsAt k (tool_action lib k name args call_id)
  tool-IsAt k name args call_id h = record { at = refl; filled = h }

  final-IsAt : (k : ℕ) (text : String) → truthy text ≡ true → IsAt k (final_action lib k text)
  final-IsAt k text h = record { at = refl; filled = h }

  by_args :
      (k : ℕ) (name : String) (args : ArgsValue Args) (call_id : String)
      → truthy name ≡ true
      → IsAt k (elim args [
        | missing ↦ tool_action lib k name lib.no_args call_id
        | null ↦ tool_action lib k name lib.no_args call_id
        | dict d ↦ tool_action lib k name d call_id
        | other ↦ retry_action lib k ""
      ])
  by_args k name missing call_id h = tool-IsAt k name lib.no_args call_id h
  by_args k name null call_id h = tool-IsAt k name lib.no_args call_id h
  by_args k name (dict d) call_id h = tool-IsAt k name d call_id h
  by_args k name other call_id h = retry-IsAt k ""

  json_tool-IsAt :
      (k : ℕ) (in_batch : Bool) (loaded : Loaded Args) → IsAt k (json_tool lib k in_batch loaded)
  unfolding json_tool
  json_tool-IsAt k in_batch invalid = retry-IsAt k _
  json_tool-IsAt k in_batch no_object = retry-IsAt k _
  json_tool-IsAt k in_batch (object name args call_id) =
      if-cases (IsAt k) (truthy (strip name))
        (λ h.
          let shown = if-elim (λ s. truthy s ≡ true) in_batch h (strip-truthy name h) in
          by_args k _ args call_id shown)
        (λ h. retry-IsAt k _)

  abbrev Named : Option (String × Dict String) → Type 0
  Named none = Unit
  Named (some (name, args)) = truthy name ≡ true

  xml_tool-Named : (attrs body : String) → Named (xml_tool lib attrs body)
  unfolding xml_tool
  xml_tool-Named attrs body =
      if-cases Named (truthy (strip (value_or_empty "name" (lib.parse_attrs attrs)))) (λ h. h)
        (λ h. tt)

  xml_action-IsAt :
      (k : ℕ) (o : Option (String × Dict String)) → Named o → IsAt k (xml_action lib k o)
  unfolding xml_action
  xml_action-IsAt k none h = retry-IsAt k ""
  xml_action-IsAt k (some (name, args)) h = tool-IsAt k name _ _ h

  single_xml-IsAt : (o : Option (String × Dict String)) → Named o → IsAt 0 (single_xml lib o)
  unfolding single_xml
  single_xml-IsAt none h = retry-IsAt 0 ""
  single_xml-IsAt (some (name, args)) h = tool-IsAt 0 name _ "" h

  first_xml_tool-Named : (o : Option Block) → Named (first_xml_tool lib o)
  unfolding first_xml_tool
  first_xml_tool-Named (some (tool_block attrs body all)) = xml_tool-Named attrs body
  first_xml_tool-Named (some (final_block text)) = tt
  first_xml_tool-Named none = tt

  block_action-IsAt : (k : ℕ) (b : Block) → IsAt k (block_action lib k b)
  unfolding block_action
  block_action-IsAt k (tool_block attrs body all) =
      if-elim (IsAt k) (truthy (strip attrs)) (xml_action-IsAt k _ (xml_tool-Named attrs body))
        (json_tool-IsAt k true (lib.loads (strip body)))
  block_action-IsAt k (final_block text) =
      if-cases (IsAt k) (truthy (strip text)) (λ h. final-IsAt k (strip text) h)
        (λ h. retry-IsAt k "model returned an empty <final> answer")

  block_actions-IsNumbered :
      (k : ℕ) (blocks : List Block) → IsNumbered k (block_actions lib k blocks)
  unfolding block_actions
  block_actions-IsNumbered k [] = tt
  block_actions-IsNumbered k (b ∷ blocks) =
      (block_action-IsAt k b, block_actions-IsNumbered (k + 1) blocks)

  single_action-IsAt : (raw : String) → IsAt 0 (single_action lib raw)
  unfolding single_action
  single_action-IsAt raw =
      if-elim (IsAt 0) (comes_first "<tool>" "<final>" raw)
        (json_tool-IsAt 0 false (lib.loads (extract raw "tool")))
        (if-elim (IsAt 0) (comes_first "<tool" "<final>" raw)
          (single_xml-IsAt (first_xml_tool lib (find_tool raw))
            (first_xml_tool-Named (find_tool raw)))
          (if-elim (IsAt 0) (has_text "<final>" raw)
            (if-cases (IsAt 0) (truthy (strip (extract raw "final")))
              (λ h. final-IsAt 0 (strip (extract raw "final")) h)
              (λ h. retry-IsAt 0 "model returned an empty <final> answer"))
            (if-cases (IsAt 0) (truthy (strip raw)) (λ h. final-IsAt 0 (strip raw) h)
              (λ h. retry-IsAt 0 "model returned an empty response"))))

  text_actions-IsNumbered :
      (raw : String) (blocks : List Block)
      → IsNumbered 0 (text_actions lib raw blocks) × (0 < length (text_actions lib raw blocks))
  unfolding text_actions
  text_actions-IsNumbered raw [] = ((single_action-IsAt raw, tt), omega arith)
  text_actions-IsNumbered raw (b ∷ []) = ((single_action-IsAt raw, tt), omega arith)
  text_actions-IsNumbered raw (b ∷ c ∷ blocks) =
      (block_actions-IsNumbered 0 (b ∷ c ∷ blocks), unfold block_actions in omega arith)

  abbrev MaybeAt : ℕ → Option (Action Args) → Type 0
  MaybeAt k none = Unit
  MaybeAt k (some a) = IsAt k a

  native_tool-MaybeAt :
      (k : ℕ) (name : String) (args : Option Args) (call_id : String)
      → MaybeAt k (native_tool lib k name args call_id)
  unfolding native_tool
  native_tool-MaybeAt k name none call_id = tt
  native_tool-MaybeAt k name (some args) call_id =
      if-cases (MaybeAt k) (truthy (strip name)) (λ h. tool-IsAt k (strip name) args call_id h)
        (λ h. tt)

  native_action-MaybeAt : (k : ℕ) (i : NativeItem Args) → MaybeAt k (native_action lib k i)
  unfolding native_action
  native_action-MaybeAt k no_dict = tt
  native_action-MaybeAt k (native kind name args call_id shown) =
      if-elim (MaybeAt k) (same kind "tool") (native_tool-MaybeAt k name _ call_id) (
        if-elim (MaybeAt k) (same kind "final")
          (if-cases (IsAt k) (truthy (strip shown)) (λ h. final-IsAt k (strip shown) h)
            (λ h. retry-IsAt k "provider returned empty native text"))
          (retry-IsAt k "unknown native output block"))

  abbrev Loops : ℕ → List (Action Args) ⊎ Action Args → Type 0
  Loops k (inl actions) = IsNumbered k actions
  Loops k (inr problem) = IsAt 0 problem

  with_action-Loops :
      (k : ℕ) (o : Option (Action Args)) (problem : Action Args)
      (rest : List (Action Args) ⊎ Action Args)
      → MaybeAt k o
      → IsAt 0 problem
      → Loops (k + 1) rest
      → Loops k (with_action lib o problem rest)
  with_action-Loops k none problem rest h p r = p
  with_action-Loops k (some a) problem (inl actions) h p r = (h, r)
  with_action-Loops k (some a) problem (inr q) h p r = r

  native_loop-Loops : (k : ℕ) (items : List (NativeItem Args)) → Loops k (native_loop lib k items)
  unfolding native_loop
  native_loop-Loops k [] = tt
  native_loop-Loops k (i ∷ items) =
      with_action-Loops k _ _ _ (native_action-MaybeAt k i) (retry-IsAt 0 (problem_of lib i))
        (native_loop-Loops (k + 1) items)

  native_result-IsNumbered :
      (r : List (Action Args) ⊎ Action Args)
      → Loops 0 r
      → IsNumbered 0 (native_result lib r) × (0 < length (native_result lib r))
  unfolding native_result
  native_result-IsNumbered (inl []) h = ((retry-IsAt 0 _, tt), omega arith)
  native_result-IsNumbered (inl (a ∷ actions)) h = (h, omega arith)
  native_result-IsNumbered (inr problem) h = ((h, tt), omega arith)

  native_actions-IsNumbered :
      (raw : Raw Args)
      → IsNumbered 0 (native_actions lib raw) × (0 < length (native_actions lib raw))
  unfolding native_actions
  native_actions-IsNumbered (plain raw) =
      native_result-IsNumbered (native_loop lib 0 (no_dict ∷ []))
        (native_loop-Loops 0 (no_dict ∷ []))
  native_actions-IsNumbered (listed items) =
      native_result-IsNumbered (native_loop lib 0 items) (native_loop-Loops 0 items)

  -- Every output, in either protocol and however malformed, gives at least one action, and the actions are
  -- numbered by their places: each has its place in the list as its index. A tool has a name that is not
  -- empty, and a final answer and a retry a text that is not empty.
  pub parse_model_actions-IsNumbered :
      (native_protocol : Bool) (raw : Raw Args)
      → IsNumbered 0 (parse_model_actions lib native_protocol raw)
        × (0 < length (parse_model_actions lib native_protocol raw))
  unfolding parse_model_actions
  parse_model_actions-IsNumbered native_protocol raw =
      if-elim (λ (l : List (Action Args)). IsNumbered 0 l × (0 < length l)) native_protocol
        (native_actions-IsNumbered raw)
        (text_actions-IsNumbered (raw_str lib raw) (find_blocks 0 (raw_str lib raw)))
