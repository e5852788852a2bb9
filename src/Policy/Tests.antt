-- ===== src/Policy/Tests.antt =====
-- Runs of the policy, and its theorems at concrete calls. The sample matcher is `p*` by prefix.
use moss_code.Base.{
  ◌≡◌, refl, Bool, true, false, String, [], ◌∷◌, ◌++◌, same, starts_with, lookup, update,
  get_or_else, any, ◌&&◌, here, ◌||◌, strip,
}
use moss_code.Policy.{
  Policy, ToolSpec, all_capabilities, default_deny, merge_deny, build, pattern_hits, denied_pattern,
  denied_path, outside_allowlist, check_paths, is_free, check_capabilities, decide,
}
use moss_code.Policy.Sound.{allowed_avoids_denied, allowed_stays_inside}
use moss_code.Policy.Rules.{
  parse_capability_rules, parse_rules_from, add_rule, rule_of, before_equals, behind_equals,
  globs_of,
}
use moss_code.Policy.Build.{deny-build, patterns_for}

abbrev matcher : String → String → Bool
matcher path pattern = same path pattern || (same pattern "src/**" && starts_with path "src/")

abbrev write_spec : ToolSpec
write_spec = record { name = "write_file"; capabilities = "fs_write" ∷ []; risky = true }

-- A policy with the default rules and a scope for writing.
unfoldable scoped : Policy
unfolding build merge_deny default_deny decide check_capabilities check_paths denied_path
    denied_pattern outside_allowlist pattern_hits is_free all_capabilities get_or_else lookup update
scoped = build (("fs_write", "src/**" ∷ []) ∷ []) [] false true

writes_env : (decide matcher scoped write_spec (".env" ∷ [])).allowed ≡ false
unfolding scoped
writes_env = refl

writes_readme : (decide matcher scoped write_spec ("README.md" ∷ [])).allowed ≡ false
unfolding scoped
writes_readme = refl

writes_source : (decide matcher scoped write_spec ("src/a.py" ∷ [])).allowed ≡ true
unfolding scoped
writes_source = refl

parsed_rules :
    parse_capability_rules ("fs_write=src/**, tests/**" ∷ "network" ∷ " " ∷ [])
    ≡ ("fs_write", "src/**" ∷ "tests/**" ∷ []) ∷ ("network", "**" ∷ []) ∷ []
unfolding parse_capability_rules parse_rules_from add_rule rule_of before_equals behind_equals
    globs_of get_or_else update strip
parsed_rules = refl

allowed_avoids_denied_example : pattern_hits matcher "src/a.py" ".git/**" ≡ false
unfolding scoped
allowed_avoids_denied_example =
    allowed_avoids_denied matcher scoped write_spec ("src/a.py" ∷ []) "fs_write" "src/a.py"
      ".git/**" (refl, (refl, (refl, (refl, (refl, (refl, (refl, (refl, tt)))))))) writes_source
      (here refl) refl (here refl) (here refl)

allowed_stays_inside_example :
    any (matcher "src/a.py") (get_or_else scoped.allow "fs_write" []) ≡ true
unfolding scoped
allowed_stays_inside_example =
    allowed_stays_inside matcher scoped write_spec ("src/a.py" ∷ []) "fs_write" "src/a.py"
      (refl, tt) refl writes_source (here refl) refl (here refl)

deny-build_example :
    get_or_else (build [] (("fs_write", "docs/**" ∷ []) ∷ []) false true).deny "fs_write" []
    ≡ get_or_else default_deny "fs_write" []
      ++ patterns_for "fs_write" (("fs_write", "docs/**" ∷ []) ∷ [])
deny-build_example = deny-build [] (("fs_write", "docs/**" ∷ []) ∷ []) false true "fs_write"
