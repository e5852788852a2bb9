-- ===== src/Policy/Sound.antt =====
-- What a positive decision of the policy guarantees, and when the policy decides so.
use Prim.Native.String.{String}
use moss_code.Base.{
  truthy-join, ◌≡◌, refl, inl, inr, Bool, true, false, not, ◌&&◌, none, List, [], ◌∷◌, arith, any,
  all, truthy, join, elem, if◌then◌else◌, get_or_else, In, here, there, All, subst, Bool-cases,
  eq_iff,
}
use moss_code.Policy.{
  Policy, ToolSpec, all_capabilities, minus, is_empty, pattern_hits, denied_pattern, denied_path,
  outside_allowlist, check_paths, is_free, Checked, refused, passed, check_capabilities, decide,
}

-- Rules without empty patterns, which is all that `parse_capability_rules` makes.
abbrev pub NoBlank : List String → Type 0
NoBlank patterns = All (λ pattern. truthy pattern ≡ true) patterns

-- The members that are left when the difference is empty.
minus-empty :
    (names others : List String) {name : String}
    → is_empty (minus names others) ≡ true
    → In name names
    → elem name others ≡ true
minus-empty [] others h m = elim m [ ]
minus-empty (n ∷ names) others {name} h (here e) = rw e (ground arith)
minus-empty (n ∷ names) others {name} h (there m) = elim (Bool-cases (elem n others)) [
  | inl known ↦ minus-empty names others (ground arith) m
  | inr new ↦ absurd (ground arith)
]

minus-all :
    (names others : List String)
    → is_empty (minus names others) ≡ all (λ name. elem name others) names
minus-all [] others = refl
minus-all (n ∷ names) others = ground (arith, minus-all names others)

abbrev is_passed : Checked → Bool
is_passed (refused reason) = false
is_passed (passed effects) = true

module _ (fnmatch : String → String → Bool) where
  inside :
      (path : String) (patterns : List String)
      → NoBlank patterns
      → is_empty patterns ≡ false
      → truthy (if any (fnmatch path) patterns then "" else join "," patterns) ≡ false
      → any (fnmatch path) patterns ≡ true
  inside path [] b filled e = cc
  inside path (p ∷ ps) (b, bs) filled e = ground (arith, truthy-join "," p ps b)

  no_hit :
      (path : String) (patterns : List String) {pattern : String}
      → NoBlank patterns
      → truthy (denied_pattern fnmatch path patterns) ≡ false
      → In pattern patterns
      → pattern_hits fnmatch path pattern ≡ false
  unfolding denied_pattern
  no_hit path [] b h m = elim m [ ]
  no_hit path (p ∷ patterns) b h (here e) = rw e (ground arith)
  no_hit path (p ∷ patterns) (b, bs) h (there m) = elim (Bool-cases (pattern_hits fnmatch path p)) [
    | inl hit ↦ absurd (ground arith)
    | inr miss ↦ no_hit path patterns bs (ground arith) m
  ]

  module _ (policy : Policy) where
    -- No check of the path fails.
    abbrev Clear : String → String → Type 0
    Clear capability path =
        (truthy (denied_path fnmatch policy capability path) ≡ false)
        × (truthy (outside_allowlist fnmatch policy capability path) ≡ false)

    Clear-of_check :
        (capability : String) (paths : List String) {path : String}
        → check_paths fnmatch policy capability paths ≡ none
        → In path paths
        → Clear capability path
    unfolding check_paths
    Clear-of_check capability [] h m = elim m [ ]
    Clear-of_check capability (p ∷ paths) {path} h (here e) = rw e (ground arith)
    Clear-of_check capability (p ∷ paths) h (there m) =
        Clear-of_check capability paths (ground arith) m

    check_of_Clear :
        (capability : String) (paths : List String)
        → ((path : String) → In path paths → Clear capability path)
        → check_paths fnmatch policy capability paths ≡ none
    unfolding check_paths
    check_of_Clear capability [] h = refl
    check_of_Clear capability (p ∷ paths) h =
        ground
          (arith, h p (here refl), check_of_Clear capability paths (λ path m. h path (there m)))

    check_of_passed :
        (paths capabilities : List String) {capability : String}
        → is_passed (check_capabilities fnmatch policy paths capabilities) ≡ true
        → In capability capabilities
        → is_free capability ≡ false
        → check_paths fnmatch policy capability paths ≡ none
    unfolding check_capabilities
    check_of_passed paths [] h m f = elim m [ ]
    check_of_passed paths (c ∷ cs) {capability} h (here e) f =
        rw e (ground (arith, subst (λ x. is_free x ≡ false) e f))
    check_of_passed paths (c ∷ cs) h (there m) f = check_of_passed paths cs (ground arith) m f

    passed_of_checks :
        (paths capabilities : List String)
        → ((capability : String)
            → In capability capabilities
            → is_free capability ≡ false
            → check_paths fnmatch policy capability paths ≡ none)
        → is_passed (check_capabilities fnmatch policy paths capabilities) ≡ true
    unfolding check_capabilities
    passed_of_checks paths [] h = refl
    passed_of_checks paths (c ∷ cs) h = elim (Bool-cases (is_free c)) [
      | inl free ↦ rw free (passed_of_checks paths cs (λ k m. h k (there m)))
      | inr bound ↦
          ground (arith, h c (here refl) bound, passed_of_checks paths cs (λ k m. h k (there m)))
    ]

    module _ (spec : ToolSpec) (paths : List String) where
      abbrev Allowed : Type 0
      Allowed = (decide fnmatch policy spec paths).allowed ≡ true

      decide_passed :
          Allowed → is_passed (check_capabilities fnmatch policy paths spec.capabilities) ≡ true
      unfolding decide
      decide_passed h = ground arith

      -- A call that the policy allows declares known capabilities only, at least one if its tool is
      -- risky, and none but `fs_read` in a read-only run; approval is asked for exactly if it is risky.
      pub allowed_declares :
          Allowed
          → ((capability : String)
              → In capability spec.capabilities
              → elem capability all_capabilities ≡ true)
            × (spec.risky ≡ true → is_empty spec.capabilities ≡ false)
            × (policy.read_only ≡ true
                → (capability : String) → In capability spec.capabilities
                → capability ≡ "fs_read")
            × ((decide fnmatch policy spec paths).requires_approval ≡ spec.risky)
      unfolding decide
      allowed_declares h = (
        λ capability. minus-empty spec.capabilities all_capabilities (ground arith),
        λ risky. ground arith,
        λ reads capability m.
            only_read capability (minus-empty spec.capabilities ("fs_read" ∷ []) (ground arith) m),
        ground arith,
      )
        where
          only_read :
              (capability : String)
              → elem capability ("fs_read" ∷ []) ≡ true
              → capability ≡ "fs_read"
          only_read capability e = ground (arith, eq_iff capability "fs_read")

      -- A call that the policy allows touches no path that a deny rule of one of its capabilities hits,
      -- reading and memory writes apart, where the rules hold no empty pattern.
      pub allowed_avoids_denied :
          (capability path pattern : String)
          → NoBlank (get_or_else policy.deny capability [])
          → Allowed
          → In capability spec.capabilities
          → is_free capability ≡ false
          → In path paths
          → In pattern (get_or_else policy.deny capability [])
          → pattern_hits fnmatch path pattern ≡ false
      unfolding denied_path
      allowed_avoids_denied capability path pattern b h c f m p =
          no_hit path (get_or_else policy.deny capability []) b
            (Clear-of_check capability paths
              (check_of_passed paths spec.capabilities (decide_passed h) c f) m).0
            p

      -- A call that the policy allows stays inside the scope of each of its capabilities that has one,
      -- `fs_read` and `memory_write` apart, which the policy does not check, where the scope holds no empty pattern.
      pub allowed_stays_inside :
          (capability path : String)
          → NoBlank (get_or_else policy.allow capability [])
          → is_empty (get_or_else policy.allow capability []) ≡ false
          → Allowed
          → In capability spec.capabilities
          → is_free capability ≡ false
          → In path paths
          → any (fnmatch path) (get_or_else policy.allow capability []) ≡ true
      unfolding outside_allowlist
      allowed_stays_inside capability path b filled h c f m =
          inside path (get_or_else policy.allow capability []) b filled
            (Clear-of_check capability paths
              (check_of_passed paths spec.capabilities (decide_passed h) c f) m).1

      -- The policy refuses for no other reason: a call whose capabilities are known, fit a read-only
      -- run and are declared if the tool is risky, and whose paths no rule hits, is allowed.
      pub clear_is_allowed :
          all (λ c. elem c all_capabilities) spec.capabilities ≡ true
          → (spec.risky && is_empty spec.capabilities) ≡ false
          → (policy.read_only && not (all (λ c. elem c ("fs_read" ∷ [])) spec.capabilities)) ≡ false
          → ((capability path : String)
              → In capability spec.capabilities
              → is_free capability ≡ false
              → In path paths
              → Clear capability path)
          → Allowed
      unfolding decide
      clear_is_allowed known declared reads clear = ground (
        arith,
        minus-all spec.capabilities all_capabilities,
        minus-all spec.capabilities ("fs_read" ∷ []),
        passed_of_checks paths spec.capabilities
            (λ k m f. check_of_Clear k paths (λ path n. clear k path m f n)),
      )
