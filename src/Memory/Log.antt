-- ===== src/Memory/Log.antt =====
-- moss/memory/store.py: the text of records.jsonl, and what is read from it.
-- A record's JSON on one line, and what a line holds, are parameters.
use Prim.Native.Char.{Char, code}
use Prim.Native.String
use Prim.Native.String.{String}
use moss_code.Base.{
  ℕ, Bool, true, false, not, ◌&&◌, ◌||◌, Option, none, some, List, [], ◌∷◌, if◌then◌else◌, ◌==◌,
  leb, truthy, strip,
}
use moss_code.Memory.{MemoryRecord, Outcome, done, value_error, then_do}

-- The characters that end a line for `str.splitlines`.
unfoldable pub ends_line : ℕ → Bool
ends_line c =
    (leb 10 c && leb c 13)
    || (leb 28 c && leb c 30)
    || (c == 0x85)
    || (c == 0x2028)
    || (c == 0x2029)

abbrev pub push : Char → List String → List String
push c [] = String.◌∷◌ c "" ∷ []
push c (line ∷ lines) = String.◌∷◌ c line ∷ lines

-- `text.splitlines()`, where `after_return` says that the line feed of a "\r\n" may follow.
unfoldable pub lines_from : Bool → String → List String
unfolding ends_line
lines_from after_return String.[] = []
lines_from after_return (String.◌∷◌ c s) =
    let rest = lines_from (code c == 13) s in
    if after_return && (code c == 10)
    then rest
    else if ends_line (code c)
    then "" ∷ rest
    else push c rest

-- `_serialize`
unfoldable pub serialize : (MemoryRecord → String) → List MemoryRecord → String
serialize dump [] = ""
serialize dump (r ∷ records) = String.◌++◌ (dump r) (String.◌++◌ "\n" (serialize dump records))

abbrev pub all_blank : List String → Bool
all_blank [] = true
all_blank (line ∷ lines) = not (truthy (strip line)) && all_blank lines

-- A line that does not hold a record is skipped when it is the last one that is not blank.
abbrev pub with_record :
    String → Option MemoryRecord → Bool → Outcome (List MemoryRecord) → Outcome (List MemoryRecord)
with_record line (some r) is_last rest = then_do rest (λ records. done (r ∷ records))
with_record line none true rest = rest
with_record line none false rest = value_error line

unfoldable pub read_lines :
    (String → Option MemoryRecord) → List String → Outcome (List MemoryRecord)
unfolding strip
read_lines parse [] = done []
read_lines parse (line ∷ lines) =
    let rest = read_lines parse lines in
    if truthy (strip line) then with_record line (parse line) (all_blank lines) rest else rest

-- `_read_events`
unfoldable pub read_events : (String → Option MemoryRecord) → String → Outcome (List MemoryRecord)
unfolding read_lines lines_from
read_events parse text = read_lines parse (lines_from false text)
