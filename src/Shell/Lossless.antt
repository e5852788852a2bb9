-- ===== src/Shell/Lossless.antt =====
-- The segments of a command are its tokens, cut at the separators.
use Prim.Native.Char.{code}
use Prim.Native.String.{String}
use mathlib.Core.List.{append_assoc, append-nil}
use moss_code.Base.{
  all_of_In, In-of_elem, ℕ, ◌≡◌, refl, ap, ◌∙◌, Bool, true, false, not, ◌&&◌, ◌||◌, ◌==◌, inl, inr,
  List, [], ◌∷◌, ◌++◌, arith, Bool-cases, all, elem, same, sym,
}
use moss_code.Shell.Split.{is_separator, only_operators, segments_from}

-- Whether a character is none of `;`, `&` and `|`.
abbrev is_plain : ℕ → Bool
is_plain c = not ((c == 59) || (c == 38) || (c == 124))

abbrev has_plain : String → Bool
has_plain String.[] = false
has_plain (String.◌∷◌ c s) = is_plain (code c) || has_plain s

-- A word: a token that is empty, or has a character beside `;`, `&` and `|` and is no line feed.
abbrev pub is_word : String → Bool
is_word String.[] = true
is_word (String.◌∷◌ c s) = has_plain (String.◌∷◌ c s) && not (same (String.◌∷◌ c s) "\n")

-- Words are one segment, and no words are none.
abbrev pub whole : List String → List (List String)
whole [] = []
whole (w ∷ ws) = (w ∷ ws) ∷ []

has_plain-not : (s : String) → has_plain s ≡ not (only_operators s)
has_plain-not String.[] = refl
has_plain-not (String.◌∷◌ c s) = ground (arith, has_plain-not s)

abbrev listed : List String
listed = ";" ∷ "&&" ∷ "||" ∷ "|" ∷ "&" ∷ "\n" ∷ ";;" ∷ []

-- The tokens that are listed are no words.
listed-only_operators :
    (t : String) → elem t listed ≡ true → (only_operators t || same t "\n") ≡ true
listed-only_operators t h =
    all_of_In (λ t. only_operators t || same t "\n") listed refl (In-of_elem t listed h)

is_separator-not : (t : String) → is_separator t ≡ not (is_word t)
unfolding is_separator
is_separator-not String.[] = refl
is_separator-not (String.◌∷◌ c s) =
    ground (arith, has_plain-not (String.◌∷◌ c s), listed-only_operators (String.◌∷◌ c s))

-- The rest of a segment that has begun, up to the separator or the end.
begun-cut :
    (c : String) (current ws : List String) (t : String) (rest : List String)
    → all is_word ws ≡ true
    → is_word t ≡ false
    → segments_from (c ∷ current) (ws ++ t ∷ rest) ≡ (c ∷ current ++ ws) ∷ segments_from [] rest
unfolding segments_from
begun-cut c current [] t rest h sep =
    rw (is_separator-not t, sep)
      (ap (λ (l : List String). (c ∷ l) ∷ segments_from [] rest) (sym (append-nil current)))
begun-cut c current (w ∷ ws) t rest h sep = elim (Bool-cases (is_word w)) [
  | inl word ↦
      rw (is_separator-not w, word)
        (begun-cut c (current ++ w ∷ []) ws t rest (ground arith) sep
          ∙ ap (λ (l : List String). (c ∷ l) ∷ segments_from [] rest)
              (append_assoc current (w ∷ []) ws))
  | inr other ↦ absurd (ground arith)
]

begun-whole :
    (c : String) (current ws : List String)
    → all is_word ws ≡ true
    → segments_from (c ∷ current) ws ≡ (c ∷ current ++ ws) ∷ []
unfolding segments_from
begun-whole c current [] h = ap (λ (l : List String). (c ∷ l) ∷ []) (sym (append-nil current))
begun-whole c current (w ∷ ws) h = elim (Bool-cases (is_word w)) [
  | inl word ↦
      rw (is_separator-not w, word)
        (begun-whole c (current ++ w ∷ []) ws (ground arith)
          ∙ ap (λ (l : List String). (c ∷ l) ∷ []) (append_assoc current (w ∷ []) ws))
  | inr other ↦ absurd (ground arith)
]

first_word : (w : String) (ws : List String) → all is_word (w ∷ ws) ≡ true → is_word w ≡ true
first_word w ws h = ground arith

-- A command is cut exactly at its separators, the tokens that are a line feed or consist of `;`, `&` and
-- `|` only: words in front of a separator are one segment, without it, and what follows it is cut by itself;
-- words with no separator behind them are one segment; and where there are no words there is no segment.
pub segments_from-append :
    (ws : List String) (t : String) (rest : List String)
    → all is_word ws ≡ true
    → is_word t ≡ false
    → (segments_from [] (ws ++ t ∷ rest) ≡ whole ws ++ segments_from [] rest)
      × (segments_from [] ws ≡ whole ws)
unfolding segments_from
segments_from-append [] t rest h sep = (rw (is_separator-not t, sep) refl, refl)
segments_from-append (w ∷ ws) t rest h sep =
    let word = first_word w ws h in
    (
      rw (is_separator-not w, word) (begun-cut w [] ws t rest (ground arith) sep),
      rw (is_separator-not w, word) (begun-whole w [] ws (ground arith)),
    )
