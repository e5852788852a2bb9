-- ===== src/Policy/Rules.antt =====
-- `parse_capability_rules` of moss/execution/safety/policy.py.
use Prim.Native.Char.{code}
use Prim.Native.String
use Prim.Native.String.{String}
use moss_code.Base.{
  List, [], ◌∷◌, ◌++◌, map, ◌==◌, filter, truthy, strip, if◌then◌else◌, Dict, update, get_or_else,
}

-- `text.partition("=")`: the parts before and behind the first `=`.
unfoldable pub before_equals : String → String
before_equals String.[] = ""
before_equals (String.◌∷◌ c s) = if code c == b'=' then "" else String.◌∷◌ c (before_equals s)

unfoldable pub behind_equals : String → String
behind_equals String.[] = ""
behind_equals (String.◌∷◌ c s) = if code c == b'=' then s else behind_equals s

-- `patterns.split(",")`, with the part that is being read.
unfoldable pub split_commas : String → String → List String
split_commas part String.[] = part ∷ []
split_commas part (String.◌∷◌ c s) =
    let closed = part ∷ split_commas "" s in
    let longer = split_commas (String.◌++◌ part (String.◌∷◌ c String.[])) s in
    if code c == b',' then closed else longer

abbrev pub or_all : List String → List String
or_all [] = "**" ∷ []
or_all (g ∷ gs) = g ∷ gs

-- The globs of one rule.
unfoldable pub globs_of : String → List String
unfolding split_commas
globs_of patterns = or_all (filter truthy (map strip (split_commas "" patterns)))

-- The capability and the globs of a text.
unfoldable pub rule_of : String → String × List String
unfolding before_equals behind_equals globs_of
rule_of text = (strip (before_equals text), globs_of (behind_equals text))

-- One round of the loop, on the stripped text.
unfoldable pub add_rule : String → Dict (List String) → Dict (List String)
add_rule text rules =
    if truthy text
    then (let (capability, globs) = rule_of text in
        update capability (get_or_else rules capability [] ++ globs) rules)
    else rules

unfoldable pub parse_rules_from : Dict (List String) → List String → Dict (List String)
parse_rules_from rules [] = rules
parse_rules_from rules (value ∷ values) = parse_rules_from (add_rule (strip value) rules) values

unfoldable pub parse_capability_rules : List String → Dict (List String)
parse_capability_rules values = parse_rules_from [] values
