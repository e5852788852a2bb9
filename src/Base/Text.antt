-- ===== src/Base/Text.antt =====
-- Python's `str` operations that the sources use, over the native texts.
use Prim.Native.Nat.{Ordering, ℕ, zero, suc, ◌+◌, ◌/◌, ◌%◌}
use Prim.Native.Char.{code}
use Prim.Native.String
use Prim.Native.String.{String}
use mathlib.Core.Bool.{Bool, true, false, not, ◌&&◌, ◌||◌}
use mathlib.Core.List.{List, [], ◌∷◌}
use text.Mathlib.Text.{◌==◌ as str_eq}
use mathlib.Core.Path.{◌≡◌, refl}
use text.Mathlib.TextLemmas.{cons-append}
use moss_code.Base.Tests.{◌==◌, leb, ltb, if◌then◌else◌}
pub use text.Mathlib.Text.{starts_with}

-- `a == b` on texts.
abbrev pub same : String → String → Bool
same = str_eq

-- `a <= b` on texts, by their characters.
abbrev pub text_leb : String → String → Bool
text_leb s t = elim (String.compare s t) [ Ordering.gt ↦ false | _ ↦ true ]

-- The truth value of a text: it is not empty.
abbrev pub truthy : String → Bool
truthy String.[] = false
truthy (String.◌∷◌ c s) = true

-- The parts of an f-string, or `"".join(parts)`.
abbrev pub concat : List String → String
concat [] = ""
concat (s ∷ []) = s
concat (s ∷ ss) = String.◌++◌ s (concat ss)

-- `sep.join(parts)`.
abbrev pub join : String → List String → String
join sep [] = ""
join sep (s ∷ []) = s
join sep (s ∷ ss) = String.◌++◌ s (String.◌++◌ sep (join sep ss))

-- `s in names`.
abbrev pub elem : String → List String → Bool
elem s [] = false
elem s (n ∷ ns) = same s n || elem s ns

-- `c in s` for one character, given by its code.
abbrev pub has_char : ℕ → String → Bool
has_char k String.[] = false
has_char k (String.◌∷◌ c s) = (code c == k) || has_char k s

-- `s.rsplit(c, 1)[-1]`: what follows the last `c`, or all of `s`.
abbrev pub after_last : ℕ → String → String → String
after_last k best String.[] = best
after_last k best (String.◌∷◌ c s) = after_last k (if code c == k then s else best) s

-- `s.rstrip(c)` for one character.
abbrev pub rstrip : ℕ → String → String
rstrip k String.[] = ""
rstrip k (String.◌∷◌ c s) =
    let r = rstrip k s in if (code c == k) && not (truthy r) then "" else String.◌∷◌ c r

-- `s.lstrip(c)` for one character.
abbrev pub lstrip : ℕ → String → String
lstrip k String.[] = ""
lstrip k (String.◌∷◌ c s) = if code c == k then lstrip k s else String.◌∷◌ c s

-- `str.isspace` of one character, which is also what `str.strip` removes and `\s` matches.
unfoldable pub is_space : ℕ → Bool
is_space c =
    (leb 9 c && leb c 13)
    || (leb 28 c && leb c 32)
    || (c == 0x85)
    || (c == 0xa0)
    || (c == 0x1680)
    || (leb 0x2000 c && leb c 0x200a)
    || (c == 0x2028)
    || (c == 0x2029)
    || (c == 0x202f)
    || (c == 0x205f)
    || (c == 0x3000)

-- `part in s`
unfoldable pub contains : String → String → Bool
contains part String.[] = starts_with "" part
contains part (String.◌∷◌ c s) = starts_with (String.◌∷◌ c s) part || contains part s

contains_inside : contains "lo w" "hello world" ≡ true
unfolding contains
contains_inside = refl

contains_not : contains "world!" "hello world" ≡ false
unfolding contains
contains_not = refl

-- `text.strip()`
abbrev lstrip_space : String → String
lstrip_space String.[] = ""
lstrip_space (String.◌∷◌ c s) = if is_space (code c) then lstrip_space s else String.◌∷◌ c s

abbrev rstrip_space : String → String
rstrip_space String.[] = ""
rstrip_space (String.◌∷◌ c s) =
    let rest = rstrip_space s in
    if is_space (code c) && not (truthy rest) then "" else String.◌∷◌ c rest

unfoldable pub strip : String → String
unfolding is_space
strip s = rstrip_space (lstrip_space s)

-- `str(n)`
abbrev digit : ℕ → String
digit n =
    if n == 0
    then "0"
    else if n == 1
    then "1"
    else if n == 2
    then "2"
    else if n == 3
    then "3"
    else if n == 4
    then "4"
    else if n == 5
    then "5"
    else if n == 6
    then "6"
    else if n == 7
    then "7"
    else if n == 8
    then "8"
    else "9"

decimal_from : ℕ → ℕ → String
decimal_from zero n = ""
decimal_from (suc fuel) n =
    let front = decimal_from fuel (n / 10) in
    if ltb n 10 then digit n else String.◌++◌ front (digit (n % 10))

unfoldable pub decimal : ℕ → String
unfolding decimal_from
decimal n = decimal_from (n + 1) n

pub truthy-append : (s t : String) → truthy s ≡ true → truthy (String.◌++◌ s t) ≡ true
truthy-append String.[] t h = cc
truthy-append (String.◌∷◌ c s) t h = rw (cons-append c s t)

pub truthy-concat :
    (s : String) (ss : List String) → truthy s ≡ true → truthy (concat (s ∷ ss)) ≡ true
truthy-concat s [] h = h
truthy-concat s (t ∷ ss) h = truthy-append s _ h

pub truthy-join :
    (sep s : String) (ss : List String) → truthy s ≡ true → truthy (join sep (s ∷ ss)) ≡ true
truthy-join sep s [] h = h
truthy-join sep s (t ∷ ss) h = truthy-append s _ h
