-- ===== src/Shell/Pattern.antt =====
-- The two regular expressions of moss/execution/safety/shell.py, `_SUBSTITUTION` and `_FORK_BOMB`,
-- as sequences of steps over characters, searched as `re.search` does.
use Prim.Native.Char.{code}
use moss_code.Base.{is_space, ℕ, String, Bool, true, false, not, ◌||◌, List, [], ◌∷◌, ◌==◌}

-- `[…]`, `[…]*` and `[…]?` for a test on the code of a character.
pub data Step : Type 0 where
  one many opt : (ℕ → Bool) → Step

-- Whether the steps match a prefix of the text.
unfoldable pub matches : List Step → String → Bool
matches [] s = true
matches (one p ∷ r) String.[] = false
matches (one p ∷ r) (String.◌∷◌ c s) = elim (p (code c)) [ true ↦ matches r s | false ↦ false ]
matches (many p ∷ r) String.[] = matches r ""
matches (many p ∷ r) (String.◌∷◌ c s) = elim (p (code c)) [
  | true ↦ elim (matches (many p ∷ r) s) [ true ↦ true | false ↦ matches r (String.◌∷◌ c s) ]
  | false ↦ matches r (String.◌∷◌ c s)
]
matches (opt p ∷ r) String.[] = matches r ""
matches (opt p ∷ r) (String.◌∷◌ c s) = elim (matches r (String.◌∷◌ c s)) [
  | true ↦ true
  | false ↦ elim (p (code c)) [ true ↦ matches r s | false ↦ false ]
]

-- Whether the steps match somewhere in the text.
unfoldable pub search_steps : List Step → String → Bool
unfolding matches
search_steps p String.[] = matches p ""
search_steps p (String.◌∷◌ c s) = elim (matches p (String.◌∷◌ c s)) [
  | true ↦ true
  | false ↦ search_steps p s
]

abbrev lit : ℕ → Step
lit k = one (λ c. c == k)

abbrev spaces : Step
spaces = many is_space

-- `.*`: any character but a newline.
abbrev dots : Step
dots = many (λ c. not (c == 10))

-- `\$\(`, a backquote, and `\$\{[^}]*\(`
unfoldable pub substitution : String → Bool
unfolding search_steps
substitution s =
    search_steps (lit b'$' ∷ lit b'(' ∷ []) s
    || search_steps (lit b'`' ∷ []) s
    || search_steps (lit b'$' ∷ lit b'{' ∷ many (λ c. not (c == b'}')) ∷ lit b'(' ∷ []) s

-- `:\s*\(\s*\)\s*\{.*\|.*&.*\}\s*;?\s*:`
unfoldable pub fork_bomb : String → Bool
unfolding search_steps is_space
fork_bomb = search_steps (
    lit b':'
    ∷ spaces
    ∷ lit b'('
    ∷ spaces
    ∷ lit b')'
    ∷ spaces
    ∷ lit b'{'
    ∷ dots
    ∷ lit b'|'
    ∷ dots
    ∷ lit b'&'
    ∷ dots
    ∷ lit b'}'
    ∷ spaces
    ∷ opt (λ c. c == b';')
    ∷ spaces
    ∷ lit b':'
    ∷ [])
