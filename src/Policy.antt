-- ===== src/Policy.antt =====
-- moss/execution/safety/policy.py: capabilities and path scopes.
-- A frozenset of names is the sorted list of its members, and `fnmatch.fnmatch` is an argument.
mod Sound
pub mod Rules
mod Build
mod Tests
use moss_code.Base.{
  String, Bool, true, false, not, ◌&&◌, ◌||◌, Option, none, some, List, [], ◌∷◌, ◌++◌, filter, any,
  same, truthy, concat, join, elem, if◌then◌else◌, Dict, update, get_or_else,
}

-- CAPABILITIES, sorted.
unfoldable pub all_capabilities : List String
all_capabilities = "exec" ∷ "fs_read" ∷ "fs_write" ∷ "memory_write" ∷ "network" ∷ "spawn" ∷ []

-- DEFAULT_DENY
unfoldable pub default_deny : Dict (List String)
default_deny =
    (
      "fs_write",
      ".git/**" ∷ ".git" ∷ ".github/**" ∷ ".github" ∷ ".env" ∷ ".env.*" ∷ ".moss/**" ∷ ".moss" ∷ [],
    )
    ∷ []

pub record PolicyDecision : Type 0 where
  pub allowed : Bool
  pub requires_approval : Bool
  pub reason : String
  pub effects : List String

pub record Policy : Type 0 where
  pub allow : Dict (List String)
  pub deny : Dict (List String)
  pub read_only : Bool

-- The fields of a `ToolSpec` that `decide` reads.
pub record ToolSpec : Type 0 where
  pub name : String
  pub capabilities : List String
  pub risky : Bool

-- The loop of `Policy.build` over the given deny rules.
unfoldable pub merge_deny : Dict (List String) → Dict (List String) → Dict (List String)
merge_deny merged [] = merged
merge_deny merged ((capability, patterns) ∷ rest) =
    merge_deny (update capability (get_or_else merged capability [] ++ patterns) merged) rest

-- `Policy.build`
unfoldable pub build : Dict (List String) → Dict (List String) → Bool → Bool → Policy
build allow deny read_only use_defaults = record {
  allow = allow;
  deny = merge_deny (if use_defaults then default_deny else []) deny;
  read_only = read_only;
}

-- `repr` of a list of plain names.
abbrev quoted : List String → List String
quoted [] = []
quoted (s ∷ ss) = concat ("'" ∷ s ∷ "'" ∷ []) ∷ quoted ss

abbrev repr_list : List String → String
repr_list names = concat ("[" ∷ join ", " (quoted names) ∷ "]" ∷ [])

abbrev refuse : String → PolicyDecision
refuse reason = record { allowed = false; requires_approval = false; reason = reason; effects = [] }

-- `names - others`
abbrev pub minus : List String → List String → List String
minus names others = filter (λ name. not (elem name others)) names

abbrev or_no_path : String → String
or_no_path s = if truthy s then s else "(no path)"

-- Capabilities whose paths are not checked.
unfoldable pub is_free : String → Bool
is_free capability = elem capability ("fs_read" ∷ "memory_write" ∷ [])

abbrev effect : String → List String → String
effect capability paths = concat (capability ∷ ": " ∷ or_no_path (join ", " paths) ∷ [])

-- A refusal, or the effects.
pub data Checked : Type 0 where
  refused : String → Checked
  passed : List String → Checked

abbrev add_effect : String → Checked → Checked
add_effect e (refused reason) = refused reason
add_effect e (passed effects) = passed (e ∷ effects)

abbrev decision : Bool → Checked → PolicyDecision
decision risky (refused reason) = refuse reason
decision risky (passed effects) = record {
  allowed = true;
  requires_approval = risky;
  reason = "";
  effects = effects;
}

abbrev pub is_empty : List String → Bool
is_empty [] = true
is_empty (x ∷ xs) = false

module _ (fnmatch : String → String → Bool) where
  -- The test of one pattern: a match, or the directory that `…/**` names.
  unfoldable pub pattern_hits : String → String → Bool
  pattern_hits rel_path pattern =
      fnmatch rel_path pattern || same (concat (rel_path ∷ "/**" ∷ [])) pattern

  -- `_denied_path` over the patterns of the capability.
  unfoldable pub denied_pattern : String → List String → String
  denied_pattern rel_path [] = ""
  denied_pattern rel_path (pattern ∷ rest) =
      if pattern_hits rel_path pattern then pattern else denied_pattern rel_path rest

  unfoldable pub denied_path : Policy → String → String → String
  denied_path policy capability rel_path =
      denied_pattern rel_path (get_or_else policy.deny capability [])

  unfoldable pub outside_allowlist : Policy → String → String → String
  outside_allowlist policy capability rel_path =
      let patterns = get_or_else policy.allow capability [] in
      if any (fnmatch rel_path) patterns then "" else join "," patterns

  -- The loop of `decide` over the paths, for one capability: the reason of a refusal.
  unfoldable pub check_paths : Policy → String → List String → Option String
  check_paths policy capability [] = none
  check_paths policy capability (rel_path ∷ rest) =
      let pattern = denied_path policy capability rel_path in
      let allowlist = outside_allowlist policy capability rel_path in
      if truthy pattern
      then some
          (concat (capability ∷ " to " ∷ rel_path ∷ " is denied by policy (" ∷ pattern ∷ ")" ∷ []))
      else if truthy allowlist
      then some (
          concat (
            capability ∷ " to " ∷ rel_path ∷ " is outside the allowed scope (" ∷ allowlist ∷ ")"
            ∷ []))
      else check_paths policy capability rest

  -- The loop of `decide` over the capabilities.
  unfoldable pub check_capabilities : Policy → List String → List String → Checked
  check_capabilities policy paths [] = passed []
  check_capabilities policy paths (capability ∷ rest) =
      let later = check_capabilities policy paths rest in
      if is_free capability then later else elim (check_paths policy capability paths) [
        | some reason ↦ refused reason
        | none ↦ add_effect (effect capability paths) later
      ]

  unfoldable pub decide : Policy → ToolSpec → List String → PolicyDecision
  decide policy spec paths =
      if not (is_empty (minus spec.capabilities all_capabilities))
      then refuse (
          concat (
            "tool "
            ∷ spec.name
            ∷ " declares unknown capabilities: "
            ∷ join ", " (minus spec.capabilities all_capabilities)
            ∷ []))
      else if spec.risky && is_empty spec.capabilities
      then refuse (
          concat (
            "tool "
            ∷ spec.name
            ∷ " is marked risky but declares no capabilities; add capabilities from "
            ∷ repr_list all_capabilities
            ∷ " to its ToolSpec"
            ∷ []))
      else if policy.read_only && not (is_empty (minus spec.capabilities ("fs_read" ∷ [])))
      then refuse (
          concat (
            "tool "
            ∷ spec.name
            ∷ " needs "
            ∷ repr_list (minus spec.capabilities ("fs_read" ∷ []))
            ∷ " but this run is read-only"
            ∷ []))
      else decision spec.risky (check_capabilities policy paths spec.capabilities)
