-- ===== src/Shell/Split.antt =====
-- `_split_unquoted_lines` and `split_command_line` of moss/execution/safety/shell.py.
-- `shlex.shlex` in posix mode with `punctuation_chars=True` is the argument `lex`: the tokens of one
-- line, or the message of the `ValueError` that it raises.
use Prim.Native.Char.{Char, code}
use Prim.Native.String
use Prim.Native.String.{String}
use moss_code.Base.{
  is_space, ℕ, Bool, true, false, not, ◌&&◌, ◌||◌, Option, none, some, List, [], ◌∷◌, ◌++◌, ◌==◌,
  if◌then◌else◌, elem, filter,
}

abbrev push : String → Char → String
push s c = String.◌++◌ s (String.◌∷◌ c String.[])

-- The truth value of `line.strip()`.
unfoldable pub has_content : String → Bool
has_content String.[] = false
has_content (String.◌∷◌ c s) = not (is_space (code c)) || has_content s

-- The loop over the characters, with the open quote and the current line.
unfoldable pub split_lines_from : Option ℕ → String → String → List String
split_lines_from quote current String.[] = current ∷ []
split_lines_from (some q) current (String.◌∷◌ c s) =
    split_lines_from (if code c == q then none else some q) (push current c) s
split_lines_from none current (String.◌∷◌ c s) =
    let in_quote = split_lines_from (some (code c)) (push current c) s in
    let next_line = current ∷ split_lines_from none "" s in
    let same_line = split_lines_from none (push current c) s in
    if (code c == 39) || (code c == 34)
    then in_quote
    else if code c == 10
    then next_line
    else same_line

-- `[…] or [""]`
abbrev or_blank : List String → List String
or_blank [] = "" ∷ []
or_blank (l ∷ ls) = l ∷ ls

unfoldable pub split_unquoted_lines : String → List String
unfolding split_lines_from has_content
split_unquoted_lines command = or_blank (filter has_content (split_lines_from none "" command))

-- `set(token) <= {";", "&", "|"}`
abbrev pub only_operators : String → Bool
only_operators String.[] = true
only_operators (String.◌∷◌ c s) =
    ((code c == b';') || (code c == b'&') || (code c == b'|')) && only_operators s

unfoldable pub is_separator : String → Bool
is_separator String.[] = false
is_separator (String.◌∷◌ c s) =
    let token = String.◌∷◌ c s in
    elem token (";" ∷ "&&" ∷ "||" ∷ "|" ∷ "&" ∷ "\n" ∷ ";;" ∷ []) || only_operators token

-- The tokens of a line, or the message of the exception.
pub data Lexed : Type 0 where
  tokens : List String → Lexed
  value_error : String → Lexed

-- The segments that the loop over the tokens appends, with the current one.
unfoldable pub segments_from : List String → List String → List (List String)
segments_from [] [] = []
segments_from (w ∷ ws) [] = (w ∷ ws) ∷ []
segments_from [] (t ∷ ts) =
    let next = segments_from [] ts in
    let longer = segments_from (t ∷ []) ts in if is_separator t then next else longer
segments_from (w ∷ ws) (t ∷ ts) =
    let next = (w ∷ ws) ∷ segments_from [] ts in
    let longer = segments_from (w ∷ ws ++ t ∷ []) ts in if is_separator t then next else longer

module _ (lex : String → Lexed) where
  -- The loop over the lines: a `;` stands behind the tokens of each.
  unfoldable pub lex_lines : List String → Lexed
  lex_lines [] = tokens []
  lex_lines (line ∷ lines) = elim (lex line) [
    | value_error e ↦ value_error e
    | tokens ts ↦ elim (lex_lines lines) [
      | value_error e ↦ value_error e
      | tokens rest ↦ tokens (ts ++ ";" ∷ rest)
    ]
  ]

  unfoldable pub split_tokens : String → Lexed
  unfolding split_unquoted_lines
  split_tokens command = lex_lines (split_unquoted_lines command)

-- What `split_command_line` returns or raises.
pub data Segments : Type 0 where
  segments : List (List String) → Segments
  unparsed : String → Segments

unfoldable pub segments_of : Lexed → Segments
segments_of (tokens ts) = segments (segments_from [] ts)
segments_of (value_error e) = unparsed e

unfoldable pub split_command_line : (String → Lexed) → String → Segments
unfolding segments_of split_tokens
split_command_line lex command = segments_of (split_tokens lex command)
