-- ===== src/Executor/Texts.antt =====
-- Texts of moss/execution/executor.py: the risk of a shell level, and Python's operations on paths.
use Prim.Native.Char.{code}
use moss_code.Base.{String, ◌||◌, if◌then◌else◌, ◌==◌, contains}
use moss_code.Shell.Risk.{RiskLevel, read_only, test, write, network, high, denied}

-- `_SHELL_RISK_LEVELS`
unfoldable pub shell_risk_level : RiskLevel → String
shell_risk_level read_only = "low"
shell_risk_level test = "low"
shell_risk_level write = "medium"
shell_risk_level network = "high"
shell_risk_level high = "high"
shell_risk_level denied = "high"

abbrev pub path_escape : String → String
unfolding contains
path_escape message = if contains "path escapes workspace" message then "path_escape" else ""

-- `raw.replace("\\", "/").lstrip("./")`
abbrev pub slashes : String → String
slashes String.[] = String.[]
slashes (String.◌∷◌ c s) = let rest = slashes s in String.◌∷◌ (if code c == 92 then "/" else c) rest

abbrev pub lstrip_dots : String → String
lstrip_dots String.[] = String.[]
lstrip_dots (String.◌∷◌ c s) =
    if (code c == 46) || (code c == 47) then lstrip_dots s else String.◌∷◌ c s
