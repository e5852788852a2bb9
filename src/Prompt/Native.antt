-- ===== src/Prompt/Native.antt =====
-- moss/context/manager.py and moss/context/native_history.py: the history as messages of a provider's own
-- tool protocol, where every call must be answered in the next message.
pub mod Balance
mod Tests
use Prim.Native.String
use Prim.Native.String.{String}
use moss_code.Base.{
  ℕ, zero, suc, ◌+◌, Bool, true, false, not, ◌&&◌, ◌||◌, Option, none, some, List, [], ◌∷◌, ◌++◌,
  if◌then◌else◌, concat, truthy, same, ◌==◌, any, get_elem?, length, Dict, lookup,
}
use moss_code.Prompt.{Entry, Block, Message, tool_result_open_tag, history_entries}

abbrev pub missing_tool_result : String
missing_tool_result =
    "(no result recorded for this call: the run stopped before it produced output)"

-- What the loop over the entries keeps: its place and the results that went with their calls.
pub record Walk (Args : Type 0) : Type 0 where
  pub index : ℕ
  pub rest : List (Entry Args)
  pub consumed : List ℕ

module _ (Args : Type 0) (dumps compact_dumps : Args → String)
    (clip : String → ℕ → String → String) where
  abbrev pub is_call : Entry Args → Bool
  is_call item = item.native_tool_call && truthy item.call_id

  abbrev pub is_result : Entry Args → Bool
  is_result item = truthy item.call_id && (same item.role "tool" && not item.native_tool_call)

  -- `result_positions`: the first result of each call.
  unfoldable pub result_position : String → ℕ → List (Entry Args) → Option ℕ
  result_position id index [] = none
  result_position id index (item ∷ entries) =
      let later = result_position id (index + 1) entries in
      if is_result item && same item.call_id id then some index else later

  abbrev pub is_in : ℕ → List ℕ → Bool
  is_in n ns = any (λ m. m == n) ns

  abbrev pub call_block : Entry Args → Block
  call_block item = record {
    text = compact_dumps item.args;
    kind = "tool_call";
    source = item.name;
    trust = "model";
    call_id = item.call_id;
  }

  abbrev pub missing_block : Entry Args → Block
  missing_block item = record {
    text = missing_tool_result;
    kind = "tool_result";
    source = item.name;
    trust = "tool";
    call_id = item.call_id;
  }

  abbrev pub result_block : Entry Args → Entry Args → Block
  result_block item result = record {
    text = clip result.content 900 "head";
    kind = "tool_result";
    source = if truthy result.name then result.name else item.name;
    trust = "tool";
    call_id = item.call_id;
  }

  abbrev pub read_result : Entry Args → ℕ → Option (Entry Args) → List ℕ → Block × List ℕ
  read_result item position none consumed = (missing_block item, consumed)
  read_result item position (some result) consumed = (result_block item result, position ∷ consumed)

  -- The result of one call, and the results that are taken behind it.
  unfoldable pub take_result : List (Entry Args) → Entry Args → Option ℕ → List ℕ → Block × List ℕ
  take_result entries item none consumed = (missing_block item, consumed)
  take_result entries item (some position) consumed =
      if is_in position consumed
      then (missing_block item, consumed)
      else read_result item position (get_elem? entries position) consumed

  unfoldable pub result_blocks :
      List (Entry Args) → List (Entry Args) → List ℕ → List Block × List ℕ
  unfolding take_result result_position
  result_blocks entries [] consumed = ([], consumed)
  result_blocks entries (item ∷ group) consumed =
      let (block, taken) =
        take_result entries item (result_position item.call_id 0 entries) consumed in
      let (blocks, taken_all) = result_blocks entries group taken in (block ∷ blocks, taken_all)

  unfoldable pub call_blocks : List (Entry Args) → List Block
  call_blocks [] = []
  call_blocks (item ∷ group) = call_block item ∷ call_blocks group

  abbrev pub single : List (Entry Args) → Option String
  single (item ∷ []) = some item.call_id
  single _ = none

  -- `native_tool_turn`
  unfoldable pub native_tool_turn :
      List (Entry Args) → List (Entry Args) → List ℕ → List Message × List ℕ
  unfolding call_blocks result_blocks
  native_tool_turn entries group consumed =
      let (results, taken) = result_blocks entries group consumed in
      (
        record { role = "assistant"; blocks = call_blocks group; call_id = single group }
            ∷ record { role = "tool"; blocks = results; call_id = single group }
            ∷ [],
        taken,
      )

  -- The calls at the front of the entries.
  unfoldable pub leading_calls : List (Entry Args) → List (Entry Args) × List (Entry Args)
  leading_calls [] = ([], [])
  leading_calls (item ∷ rest) =
      let (group, after) = leading_calls rest in
      if is_call item then (item ∷ group, after) else ([], item ∷ rest)

  abbrev pub orphan_message : Entry Args → Message
  orphan_message item = record {
    role = "user";
    blocks =
        record {
          text = concat (
              tool_result_open_tag Args dumps item
              ∷ "\n"
              ∷ clip item.content 900 "head"
              ∷ "\n</tool_result>"
              ∷ []);
          kind = "history";
          source = item.name;
          trust = "tool";
          call_id = "";
        }
        ∷ [];
    call_id = none;
  }

  abbrev pub safe_role : String → String
  safe_role role = if same role "user" || same role "assistant" then role else "user"

  abbrev pub text_message : Entry Args → Message
  text_message item = record {
    role = safe_role item.role;
    blocks =
        record {
          text = clip item.content 900 "head";
          kind = "history";
          source = "session";
          trust = if same (safe_role item.role) "user" then "user" else "model";
          call_id = "";
        }
        ∷ [];
    call_id = none;
  }

  -- An entry that is no call: a result that went with its call is left out.
  unfoldable pub entry_messages : ℕ → Entry Args → List ℕ → List Message
  entry_messages index item consumed =
      if same item.role "tool" && truthy item.call_id
      then (if is_in index consumed then [] else orphan_message item ∷ [])
      else text_message item ∷ []

  -- One round of the loop.
  unfoldable pub step : List (Entry Args) → Entry Args → Walk Args → List Message × Walk Args
  unfolding native_tool_turn leading_calls entry_messages
  step entries item w =
      let (group, after) = leading_calls (item ∷ w.rest) in
      let (messages, taken) = native_tool_turn entries group w.consumed in
      if is_call item
      then (messages, record { index = w.index + length group; rest = after; consumed = taken })
      else (entry_messages w.index item w.consumed, record w { index = w.index + 1 })

  abbrev pub append_to : List Message → Option (List Message) → Option (List Message)
  append_to messages none = none
  append_to messages (some later) = some (messages ++ later)

  -- `none` when the loop does not end in its fuel.
  unfoldable pub messages_from :
      List (Entry Args) → ℕ → ℕ → List (Entry Args) → List ℕ → Option (List Message)
  unfolding step
  messages_from entries zero index rest consumed = none
  messages_from entries (suc fuel) index [] consumed = some []
  messages_from entries (suc fuel) index (item ∷ rest) consumed =
      let (messages, w) =
        step entries item (record { index = index; rest = rest; consumed = consumed }) in
      append_to messages (messages_from entries fuel w.index w.rest w.consumed)

  -- `_native_history_messages`
  unfoldable pub native_history_messages : List (Entry Args) → Option (List Message)
  unfolding messages_from
  native_history_messages history =
      let entries = history_entries Args dumps history in
      messages_from entries (suc (length entries)) 0 entries []
