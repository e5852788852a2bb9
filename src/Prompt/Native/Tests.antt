-- ===== src/Prompt/Native/Tests.antt =====
-- A round of two calls of which one has no result, and the theorem of this folder at it.
use Prim.Native.String.{String}
use moss_code.Base.{ℕ, ◌≡◌, refl, Bool, true, false, Option, none, some, List, [], ◌∷◌}
use moss_code.Prompt.{Entry, Message}
use moss_code.Prompt.Native.{native_history_messages}
use moss_code.Prompt.Native.Balance.{Answering, native_history_messages-Answering}

abbrev entry : String → String → Bool → String → Entry String
entry role id is_call content = record {
  role = role;
  name = "read_file";
  content = content;
  args = "{}";
  call_id = id;
  native_tool_call = is_call;
  pending = false;
  artifact = "";
  artifact_lines = 0;
}

-- Two calls, the result of the second, and a result whose call is gone.
abbrev history : List (Entry String)
history =
    entry "user" "" false "Look."
    ∷ entry "assistant" "c1" true ""
    ∷ entry "assistant" "c2" true ""
    ∷ entry "tool" "c2" false "two"
    ∷ entry "tool" "c0" false "old"
    ∷ []

abbrev keep : String → ℕ → String → String
keep text limit side = text

abbrev text_of : Message → List (String × String)
text_of m = elim m.blocks [ [] ↦ [] | b ∷ bs ↦ (b.kind, b.text) ∷ [] ]

abbrev roles : Option (List Message) → List String
roles none = []
roles (some ms) = go ms
  where
    go : List Message → List String
    go [] = []
    go (m ∷ ms) = m.role ∷ go ms

one_turn :
    roles (native_history_messages String (λ a. a) (λ a. a) keep history)
    ≡ "user" ∷ "assistant" ∷ "tool" ∷ "user" ∷ []
unfolding native_history_messages
one_turn = refl

native_history_messages-Answering_example :
    Answering String
      (λ a. a)
      (λ a. a)
      keep
      (("c1" ∷ "c2" ∷ []) ∷ [])
      (native_history_messages String (λ a. a) (λ a. a) keep history)
native_history_messages-Answering_example =
    native_history_messages-Answering String (λ a. a) (λ a. a) keep history
