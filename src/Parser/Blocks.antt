-- ===== src/Parser/Blocks.antt =====
-- The pattern of the blocks, `_BLOCK_RE`, and the searches of moss/agent/output_parser.py in a text.
use Prim.Native.Char.{code}
use Prim.Native.String.{String}
use moss_code.Base.{
  ℕ, zero, suc, ◌+◌, ◌-◌, Bool, true, false, Option, none, some, List, [], ◌∷◌, if◌then◌else◌, ltb,
  ◌==◌, starts_with, concat, strip,
}
use moss_code.Tokens.{count_chars, drop_chars}

-- `text.find(part)`, with the text behind the part; the part is not empty.
unfoldable pub find_text : String → String → Option (ℕ × String)
unfolding count_chars drop_chars
find_text part String.[] = none
find_text part (String.◌∷◌ c s) =
    let later : Option (ℕ × String) = elim (find_text part s) [
      | none ↦ none
      | some (n, rest) ↦ some (n + 1, rest)
    ] in
    if starts_with (String.◌∷◌ c s) part
    then some (0, drop_chars (count_chars part) (String.◌∷◌ c s))
    else later

-- The text in front of a part: `text[:k]`.
unfoldable pub front : ℕ → String → String
front zero s = ""
front (suc k) String.[] = ""
front (suc k) (String.◌∷◌ c s) = String.◌∷◌ c (front k s)

-- `[^>]*` up to the first `>`, and what follows it.
unfoldable pub find_close : String → Option (ℕ × String)
find_close String.[] = none
find_close (String.◌∷◌ c s) =
    let later : Option (ℕ × String) = elim (find_close s) [
      | none ↦ none
      | some (n, rest) ↦ some (n + 1, rest)
    ] in
    if code c == 62 then some (0, s) else later

-- A block: a tool with its attributes, its body and all of its text, or a final answer.
pub data Block : Type 0 where
  tool_block : String → String → String → Block
  final_block : String → Block

-- A match at the front of a text, with its length.
unfoldable pub tool_here : String → Option (Block × ℕ)
unfolding find_text find_close front count_chars drop_chars
tool_here s =
    if starts_with s "<tool"
    then (elim (find_close (drop_chars 5 s)) [
      | none ↦ none
      | some (n, rest) ↦ elim (find_text "</tool>" rest) [
        | none ↦ none
        | some (k, behind) ↦
            let size = 5 + n + 1 + k + 7 in
            some (tool_block (front n (drop_chars 5 s)) (front k rest) (front size s), size)
      ]
    ])
    else none

-- `re.search` for a block of a tool.
unfoldable pub find_tool : String → Option Block
unfolding tool_here
find_tool String.[] = none
find_tool (String.◌∷◌ c s) = elim (tool_here (String.◌∷◌ c s)) [
  | none ↦ find_tool s
  | some (block, size) ↦ some block
]

unfoldable pub final_here : String → Option (Block × ℕ)
unfolding find_text front drop_chars
final_here s =
    if starts_with s "<final>"
    then (elim (find_text "</final>" (drop_chars 7 s)) [
      | none ↦ none
      | some (k, behind) ↦ some (final_block (front k (drop_chars 7 s)), 7 + k + 8)
    ])
    else none

unfoldable pub match_here : String → Option (Block × ℕ)
unfolding tool_here final_here
match_here s = elim (tool_here s) [ none ↦ final_here s | some m ↦ some m ]

-- `_BLOCK_RE.finditer(text)`: the matches from left to right; `skip` characters still belong to the last one.
unfoldable pub find_blocks : ℕ → String → List Block
unfolding match_here
find_blocks skip String.[] = []
find_blocks (suc skip) (String.◌∷◌ c s) = find_blocks skip s
find_blocks zero (String.◌∷◌ c s) = elim (match_here (String.◌∷◌ c s)) [
  | none ↦ find_blocks 0 s
  | some (block, size) ↦ block ∷ find_blocks (size - 1) s
]

-- `_extract_raw`
unfoldable pub extract_raw : String → String → String
unfolding find_text front
extract_raw text tag = elim (find_text (concat ("<" ∷ tag ∷ ">" ∷ [])) text) [
  | none ↦ text
  | some (n, rest) ↦ elim (find_text (concat ("</" ∷ tag ∷ ">" ∷ [])) rest) [
    | none ↦ rest
    | some (k, behind) ↦ front k rest
  ]
]

-- `_extract`, which strips what it finds.
unfoldable pub extract : String → String → String
unfolding find_text front strip
extract text tag = elim (find_text (concat ("<" ∷ tag ∷ ">" ∷ [])) text) [
  | none ↦ text
  | some (n, rest) ↦ elim (find_text (concat ("</" ∷ tag ∷ ">" ∷ [])) rest) [
    | none ↦ strip rest
    | some (k, behind) ↦ strip (front k rest)
  ]
]

-- `part in text`
unfoldable pub has_text : String → String → Bool
unfolding find_text
has_text part text = elim (find_text part text) [ none ↦ false | some r ↦ true ]

-- `part in text and (other not in text or text.find(part) < text.find(other))`
unfoldable pub comes_first : String → String → String → Bool
unfolding find_text
comes_first part other text = elim (find_text part text) [
  | none ↦ false
  | some (n, rest) ↦ elim (find_text other text) [ none ↦ true | some (k, behind) ↦ ltb n k ]
]
