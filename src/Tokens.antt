-- ===== src/Tokens.antt =====
-- moss/context/token_budget.py: the estimate of tokens, and texts that are cut to a budget.
-- A text is cut by characters, and `measure` is any function from texts to numbers.
pub mod Estimate
pub mod Clip
mod Tests
use Prim.Native.Char.{Char, code}
use Prim.Native.String
use Prim.Native.String.{String}
use moss_code.Base.{
  ℕ, zero, suc, ◌+◌, ◌-◌, ◌/◌, Bool, true, false, ◌&&◌, Option, none, some, List, [], ◌∷◌, ltb, leb,
  ◌==◌, if◌then◌else◌, any, same, concat, decimal,
}

-- `len(text)`
unfoldable pub count_chars : String → ℕ
count_chars String.[] = 0
count_chars (String.◌∷◌ c s) = suc (count_chars s)

-- `text[:k]`, and `text[k:]`.
unfoldable pub take_chars : ℕ → String → String
take_chars zero s = ""
take_chars (suc k) String.[] = ""
take_chars (suc k) (String.◌∷◌ c s) = String.◌∷◌ c (take_chars k s)

unfoldable pub drop_chars : ℕ → String → String
drop_chars zero s = s
drop_chars (suc k) String.[] = ""
drop_chars (suc k) (String.◌∷◌ c s) = drop_chars k s

-- `text[-k:]`, which is all of the text for 0.
unfoldable pub last_chars : ℕ → String → String
unfolding count_chars drop_chars
last_chars k s = if k == 0 then s else drop_chars (count_chars s - k) s

-- `_CJK_RANGES`
abbrev pub cjk_ranges : List (ℕ × ℕ)
cjk_ranges =
    (0x3000, 0x303f)
    ∷ (0x3040, 0x30ff)
    ∷ (0x3400, 0x4dbf)
    ∷ (0x4e00, 0x9fff)
    ∷ (0xa000, 0xa4cf)
    ∷ (0xac00, 0xd7af)
    ∷ (0xf900, 0xfaff)
    ∷ (0xff00, 0xffef)
    ∷ []

unfoldable pub is_cjk : ℕ → Bool
is_cjk c = any (λ r. leb r.0 c && leb c r.1) cjk_ranges

-- The loop of `estimate_tokens`, with its two counters.
unfoldable pub count_kinds : ℕ → ℕ → String → ℕ × ℕ
unfolding is_cjk
count_kinds cjk other String.[] = (cjk, other)
count_kinds cjk other (String.◌∷◌ c s) =
    count_kinds (if is_cjk (code c) then cjk + 1 else cjk)
      (if is_cjk (code c) then other else other + 1) s

-- `max(1, cjk + latin_tokens)`, four characters to a token.
unfoldable pub tokens_of : ℕ × ℕ → ℕ
tokens_of (cjk, other) = let n = cjk + (other + 4 - 1) / 4 in if ltb n 1 then 1 else n

unfoldable pub estimate_tokens : String → ℕ
unfolding count_kinds tokens_of
estimate_tokens String.[] = 0
estimate_tokens (String.◌∷◌ c s) = tokens_of (count_kinds 0 0 (String.◌∷◌ c s))

-- What `clip_to_budget` makes of a text when it keeps `k` characters of it.
unfoldable pub candidate : String → String → String → ℕ → String
unfolding take_chars last_chars
candidate text marker keep k =
    if k == 0
    then marker
    else if same keep "tail"
    then String.◌++◌ marker (last_chars k text)
    else if same keep "middle"
    then String.◌++◌ (take_chars (k / 2) text)
        (String.◌++◌ marker (if k - k / 2 == 0 then "" else last_chars (k - k / 2) text))
    else String.◌++◌ (take_chars k text) marker

module _ (measure : String → ℕ) where
  -- The loop: `lo` and `hi + 1`, and the best text so far.
  unfoldable pub search : (ℕ → String) → ℕ → ℕ → ℕ → ℕ → String → Option String
  search cand limit zero lo top best = none
  search cand limit (suc fuel) lo top best = elim (ltb lo top) [
    | false ↦ some best
    | true ↦
        let mid = (lo + (top - 1)) / 2 in
        elim (leb (measure (cand mid)) limit) [
          | true ↦ search cand limit fuel (mid + 1) top (cand mid)
          | false ↦ search cand limit fuel lo mid best
        ]
  ]

  -- A marker that leaves no room is dropped.
  unfoldable pub marker_for : ℕ → String → String
  marker_for limit marker = if leb limit (measure marker) then "" else marker

  unfoldable pub search_text : String → ℕ → String → String → Option String
  unfolding count_chars candidate search marker_for
  search_text text limit keep marker =
      let cand = candidate text (marker_for limit marker) keep in
      search cand limit (count_chars text + 2) 0 (count_chars text + 1) (cand 0)

  -- `none` when the loop does not end in its fuel.
  unfoldable pub clip_to_budget : String → ℕ → String → String → Option String
  unfolding search_text
  clip_to_budget text limit keep marker =
      if limit == 0
      then some ""
      else if leb (measure text) limit
      then some text
      else search_text text limit keep marker

-- `clip`
unfoldable pub truncated_note : ℕ → String
unfolding decimal
truncated_note cut = concat ("[truncated " ∷ decimal cut ∷ " chars]" ∷ [])

unfoldable pub clip_long : String → ℕ → String → String
unfolding count_chars take_chars last_chars truncated_note
clip_long text limit keep =
    let shown = truncated_note (count_chars text - limit) in
    if same keep "tail"
    then concat ("..." ∷ shown ∷ "\n" ∷ last_chars limit text ∷ [])
    else if same keep "middle"
    then concat (
        take_chars (limit / 2) text
        ∷ "\n..."
        ∷ shown
        ∷ "...\n"
        ∷ last_chars (limit - limit / 2) text
        ∷ [])
    else concat (take_chars limit text ∷ "\n..." ∷ shown ∷ [])

unfoldable pub clip : String → ℕ → String → String
unfolding clip_long
clip text limit keep = if leb (count_chars text) limit then text else clip_long text limit keep

-- `middle`, behind the replacement of the line ends.
unfoldable pub newlines_to_spaces : String → String
newlines_to_spaces String.[] = ""
newlines_to_spaces (String.◌∷◌ c s) =
    let space : Char = " " in String.◌∷◌ (if code c == 10 then space else c) (newlines_to_spaces s)

unfoldable pub cut_middle : String → ℕ → String
unfolding count_chars take_chars last_chars
cut_middle text limit =
    if leb (count_chars text) limit
    then text
    else if leb limit 3
    then take_chars limit text
    else String.◌++◌ (take_chars ((limit - 3) / 2) text)
        (String.◌++◌ "..." (last_chars (limit - 3 - (limit - 3) / 2) text))

unfoldable pub middle : String → ℕ → String
unfolding newlines_to_spaces cut_middle
middle text limit = cut_middle (newlines_to_spaces text) limit
