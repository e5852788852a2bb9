-- ===== src/Memory/Torn.antt =====
-- A write that was broken off costs at most the record that it was writing.
use Prim.Native.Char.{Char, code}
use Prim.Native.String
use Prim.Native.String.{String}
use moss_code.Base.{◌≡◌, Bool, true, not, ◌&&◌, Option, some, [], ◌∷◌, truthy, strip}
use moss_code.Memory.{MemoryRecord}
use moss_code.Memory.Log.{ends_line}

-- A text without an end of line.
abbrev pub one_line : String → Bool
one_line String.[] = true
one_line (String.◌∷◌ c s) = not (ends_line (code c)) && one_line s

-- What a line of the file is: it holds this record.
pub record Holds (parse : String → Option MemoryRecord) (line : String) (r : MemoryRecord)
    : Type 0 where
  pub is_one_line : one_line line ≡ true
  pub is_written : truthy (strip line) ≡ true
  pub is_read : parse line ≡ some r
