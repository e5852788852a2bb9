-- ===== src/Policy/Build.antt =====
-- The rules that a policy ends up with: `Policy.build` and `parse_capability_rules`.
use mathlib.Core.List.{append_assoc, append-nil}
use moss_code.Base.{
  ◌≡◌, refl, sym, ap, ◌∙◌, inl, inr, Bool, String, List, [], ◌∷◌, ◌++◌, arith, same, truthy, strip,
  subst, if◌then◌else◌, Dict, lookup, update, get_or_else, lookup-update, eq_iff, Bool-cases,
  filter, map,
}
use moss_code.Policy.{default_deny, merge_deny, build}
use moss_code.Policy.Sound.{NoBlank}
use moss_code.Policy.Rules.{
  rule_of, before_equals, behind_equals, split_commas, or_all, globs_of, add_rule, parse_rules_from,
  parse_capability_rules,
}

get_or_else-update :
    (k j : String) (v : List String) (d : Dict (List String))
    → get_or_else (update k v d) j [] ≡ (if same k j then v else get_or_else d j [])
unfolding get_or_else
get_or_else-update k j v d = rw (lookup-update k j v d) (ground arith)

-- What the given rules add for a capability, in order.
unfoldable pub patterns_for : String → Dict (List String) → List String
patterns_for capability [] = []
patterns_for capability ((k, patterns) ∷ rest) =
    let later = patterns_for capability rest in
    if same k capability then patterns ++ later else later

append-merge_deny :
    (capability : String) (merged deny : Dict (List String))
    → get_or_else (merge_deny merged deny) capability []
      ≡ get_or_else merged capability [] ++ patterns_for capability deny
unfolding merge_deny patterns_for
append-merge_deny capability merged [] = sym (append-nil (get_or_else merged capability []))
append-merge_deny capability merged ((k, patterns) ∷ rest) =
    append-merge_deny capability (update k (get_or_else merged k [] ++ patterns) merged) rest
    ∙ rw (get_or_else-update k capability (get_or_else merged k [] ++ patterns) merged)
        (elim (Bool-cases (same k capability)) [
          | inl e ↦ rw e (
              subst
                (λ c.
                  (get_or_else merged k [] ++ patterns) ++ patterns_for capability rest
                  ≡ get_or_else merged c [] ++ (patterns ++ patterns_for capability rest))
                ((eq_iff k capability).0 e)
                (append_assoc (get_or_else merged k []) patterns (patterns_for capability rest)))
          | inr e ↦ rw e
        ])

-- The deny rules of a built policy are, for each capability, the default ones (if they are used),
-- followed by those that were given, in order: no given rule takes a default one away.
pub deny-build :
    (allow deny : Dict (List String)) (read_only use_defaults : Bool) (capability : String)
    → get_or_else (build allow deny read_only use_defaults).deny capability []
      ≡ get_or_else (if use_defaults then default_deny else []) capability []
        ++ patterns_for capability deny
unfolding build
deny-build allow deny read_only use_defaults capability =
    append-merge_deny capability (if use_defaults then default_deny else []) deny

-- The globs that one text names for a capability, and those that a list of texts names, in order: the
-- specification of the parser.
unfoldable pub globs_in : String → String → List String
globs_in capability text =
    if truthy text then (if same (rule_of text).0 capability then (rule_of text).1 else []) else []

unfoldable pub globs_for : String → List String → List String
globs_for capability [] = []
globs_for capability (value ∷ values) =
    globs_in capability (strip value) ++ globs_for capability values

get_or_else-add_rule :
    (capability text : String) (rules : Dict (List String))
    → get_or_else (add_rule text rules) capability []
      ≡ get_or_else rules capability [] ++ globs_in capability text
unfolding add_rule globs_in
get_or_else-add_rule capability text rules = elim (Bool-cases (truthy text)) [
  | inr e ↦ rw e (sym (append-nil (get_or_else rules capability [])))
  | inl e ↦ rw e (
      rw
        (get_or_else-update (rule_of text).0 capability
          (get_or_else rules (rule_of text).0 [] ++ (rule_of text).1) rules)
        (elim (Bool-cases (same (rule_of text).0 capability)) [
          | inl q ↦ rw q (
              ap (λ c. get_or_else rules c [] ++ (rule_of text).1)
                ((eq_iff (rule_of text).0 capability).0 q))
          | inr q ↦ rw q (sym (append-nil (get_or_else rules capability [])))
        ]))
]

parse_from-globs_for :
    (capability : String) (rules : Dict (List String)) (values : List String)
    → get_or_else (parse_rules_from rules values) capability []
      ≡ get_or_else rules capability [] ++ globs_for capability values
unfolding parse_rules_from globs_for
parse_from-globs_for capability rules [] = sym (append-nil (get_or_else rules capability []))
parse_from-globs_for capability rules (value ∷ values) =
    parse_from-globs_for capability (add_rule (strip value) rules) values
    ∙ rw (get_or_else-add_rule capability (strip value) rules) (
        append_assoc (get_or_else rules capability []) (globs_in capability (strip value))
          (globs_for capability values))

-- The parser collects, for each capability, the globs of all texts that name it, in order.
pub parse_rules-eq-globs_for :
    (capability : String) (values : List String)
    → get_or_else (parse_capability_rules values) capability [] ≡ globs_for capability values
unfolding parse_capability_rules get_or_else lookup
parse_rules-eq-globs_for capability values = parse_from-globs_for capability [] values

filter-NoBlank : (globs : List String) → NoBlank (filter truthy globs)
filter-NoBlank [] = tt
filter-NoBlank (g ∷ globs) = elim (Bool-cases (truthy g)) [
  | inl e ↦ rw e (e, filter-NoBlank globs)
  | inr e ↦ rw e (filter-NoBlank globs)
]

or_all-NoBlank : (globs : List String) → NoBlank globs → NoBlank (or_all globs)
or_all-NoBlank [] h = (refl, tt)
or_all-NoBlank (g ∷ globs) h = h

All-append : (xs ys : List String) → NoBlank xs → NoBlank ys → NoBlank (xs ++ ys)
All-append [] ys h k = k
All-append (x ∷ xs) ys (h, hs) k = (h, All-append xs ys hs k)

globs_of-NoBlank : (patterns : String) → NoBlank (globs_of patterns)
unfolding globs_of
globs_of-NoBlank patterns =
    or_all-NoBlank (filter truthy (map strip (split_commas "" patterns)))
      (filter-NoBlank (map strip (split_commas "" patterns)))

globs_in-NoBlank : (capability text : String) → NoBlank (globs_in capability text)
unfolding globs_in rule_of
globs_in-NoBlank capability text = elim (Bool-cases (truthy text)) [
  | inr e ↦ rw e tt
  | inl e ↦ rw e (elim (Bool-cases (same (strip (before_equals text)) capability)) [
    | inr q ↦ rw q tt
    | inl q ↦ rw q (globs_of-NoBlank (behind_equals text))
  ])
]

globs_for-NoBlank :
    (capability : String) (values : List String) → NoBlank (globs_for capability values)
unfolding globs_for
globs_for-NoBlank capability [] = tt
globs_for-NoBlank capability (value ∷ values) =
    All-append (globs_in capability (strip value)) (globs_for capability values)
      (globs_in-NoBlank capability (strip value)) (globs_for-NoBlank capability values)

-- The parser makes no empty pattern, which is what the guarantees of the policy ask of its rules.
pub parse_rules-NoBlank :
    (capability : String) (values : List String)
    → NoBlank (get_or_else (parse_capability_rules values) capability [])
parse_rules-NoBlank capability values =
    rw (parse_rules-eq-globs_for capability values) (globs_for-NoBlank capability values)
