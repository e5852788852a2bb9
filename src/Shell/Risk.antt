-- ===== src/Shell/Risk.antt =====
-- Risk levels of moss/execution/safety/shell.py, and the record that a classification returns.
use moss_code.Base.{
  ℕ, ◌≤◌, refl, Bool, true, false, String, List, [], ◌∷◌, arith, ltb, if◌then◌else◌, In, here,
  there,
}

-- The members of RISK_ORDER, from low to high.
pub data RiskLevel : Type 0 where
  read_only test write network high denied : RiskLevel

-- `RISK_ORDER.index(level)`
unfoldable pub rank : RiskLevel → ℕ
rank read_only = 0
rank test = 1
rank write = 2
rank network = 3
rank high = 4
rank denied = 5

pub record ShellRisk : Type 0 where
  pub level : RiskLevel
  pub reasons : List String
  pub argvs : List (List String)
  pub undecidable : Bool

-- The `denied` property of `ShellRisk`.
unfoldable pub is_denied : ShellRisk → Bool
is_denied r = elim (r.level) [ denied ↦ true | _ ↦ false ]

-- The loop of `_max_level`.
unfoldable pub max_level_from : RiskLevel → List RiskLevel → RiskLevel
max_level_from top [] = top
max_level_from top (l ∷ ls) = max_level_from (if ltb (rank top) (rank l) then l else top) ls

unfoldable pub max_level : List RiskLevel → RiskLevel
max_level levels = max_level_from read_only levels

pub le-max_level_from :
    (top : RiskLevel) (ls : List RiskLevel) → rank top ≤ rank (max_level_from top ls)
unfolding max_level_from
le-max_level_from top [] = omega arith
le-max_level_from top (l ∷ ls) =
    ground (arith, le-max_level_from (if ltb (rank top) (rank l) then l else top) ls)

In-le-max_level_from :
    (top l : RiskLevel) (ls : List RiskLevel) → In l ls → rank l ≤ rank (max_level_from top ls)
unfolding max_level_from
In-le-max_level_from top l (k ∷ ls) (here e) =
    ground (arith, le-max_level_from (if ltb (rank top) (rank k) then k else top) ls)
In-le-max_level_from top l (k ∷ ls) (there m) =
    In-le-max_level_from (if ltb (rank top) (rank k) then k else top) l ls m
In-le-max_level_from top l [] m = elim m [ ]

-- A level of the list is at most the maximum.
pub In-le-max_level : (l : RiskLevel) (ls : List RiskLevel) → In l ls → rank l ≤ rank (max_level ls)
unfolding max_level
In-le-max_level l ls m = In-le-max_level_from read_only l ls m

-- Raising to `high` gives at least `high`.
pub high-le-max_level : (l : RiskLevel) → rank high ≤ rank (max_level (l ∷ high ∷ []))
high-le-max_level l = In-le-max_level high (l ∷ high ∷ []) (there (here refl))

pub le-max_level-high : (l : RiskLevel) → rank l ≤ rank (max_level (l ∷ high ∷ []))
le-max_level-high l = In-le-max_level l (l ∷ high ∷ []) (here refl)
