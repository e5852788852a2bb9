-- ===== src/Budget.antt =====
-- moss/agent/budget.py: the budget of one run.
-- Python's floats are a parameter: the seconds and dollars, and the comparisons and products that the
-- budget makes with them.
pub mod Limits
pub mod Reports
mod Tests
use moss_code.Base.{
  ℕ, ◌+◌, ◌≡◌, String, Bool, true, false, not, ◌&&◌, ◌||◌, Option, none, some, List, [], ◌∷◌, ◌++◌,
  leb, ◌==◌, if◌then◌else◌, elem, truthy, concat,
}

pub record Floats : Type 1 where
  pub F : Type 0
  pub zero : F
  pub plus : F → F → F
  -- `a >= b`
  pub ge : F → F → Bool
  pub is_zero : F → Bool
  -- `limit * SOFT_RATIO` for a float and for an int, and `used >= x` for an int `used`
  pub soft : F → F
  pub soft_of_int : ℕ → F
  pub int_ge : ℕ → F → Bool
  -- The product of a limit that is not zero with 0.8 is at most the limit.
  pub soft_below :
      (used limit : F) → is_zero limit ≡ false → ge used limit ≡ true → ge used (soft limit) ≡ true
  pub soft_of_int_below :
      (used limit : ℕ) → leb limit used ≡ true → int_ge used (soft_of_int limit) ≡ true

module _ (fl : Floats) where
  open fl use {F, plus, ge, is_zero, soft, soft_of_int, int_ge}

  pub record RunBudget : Type 0 where
    pub max_steps : ℕ
    pub max_input_tokens : Option ℕ
    pub max_output_tokens : Option ℕ
    pub max_wall_clock_s : Option F
    pub max_usd : Option F
    pub steps : ℕ
    pub input_tokens : ℕ
    pub output_tokens : ℕ
    pub elapsed_s : F
    pub usd : Option F
    pub usage_estimated : Bool
    pub soft_reported : List String

  -- The arguments of `consume`.
  pub record Consumption : Type 0 where
    pub steps : ℕ
    pub input_tokens : ℕ
    pub output_tokens : ℕ
    pub elapsed_s : F
    pub usd : Option F
    pub estimated : Bool

  -- `(self.usd or 0.0) + float(usd)`, where `usd` is given.
  unfoldable pub add_usd : Option F → Option F → Option F
  add_usd known none = known
  add_usd none (some x) = some (plus fl.zero x)
  add_usd (some u) (some x) = some (plus (if is_zero u then fl.zero else u) x)

  unfoldable pub consume : RunBudget → Consumption → RunBudget
  unfolding add_usd
  consume b c = record b {
    steps = b.steps + c.steps;
    input_tokens = b.input_tokens + c.input_tokens;
    output_tokens = b.output_tokens + c.output_tokens;
    elapsed_s = if is_zero c.elapsed_s then b.elapsed_s else c.elapsed_s;
    usd = add_usd b.usd c.usd;
    usage_estimated = c.estimated || b.usage_estimated;
  }

  -- An entry of `_pairs`: an int with an optional int for its limit, or floats.
  pub data Entry : Type 0 where
    counted : String → ℕ → Option ℕ → Entry
    measured : String → Option F → Option F → Entry

  unfoldable pub pairs : RunBudget → List Entry
  pairs b =
      counted "steps" b.steps (some b.max_steps)
      ∷ counted "input_tokens" b.input_tokens b.max_input_tokens
      ∷ counted "output_tokens" b.output_tokens b.max_output_tokens
      ∷ measured "wall_clock_s" (some b.elapsed_s) b.max_wall_clock_s
      ∷ measured "usd" b.usd b.max_usd
      ∷ []

  unfoldable pub name_of : Entry → String
  name_of (counted name used limit) = name
  name_of (measured name used limit) = name

  -- `limit and used is not None and used >= limit`
  unfoldable pub at_hard : Entry → Bool
  at_hard (counted name used none) = false
  at_hard (counted name used (some limit)) = not (limit == 0) && leb limit used
  at_hard (measured name used none) = false
  at_hard (measured name none (some limit)) = false
  at_hard (measured name (some used) (some limit)) = not (is_zero limit) && ge used limit

  -- The same with `used >= limit * SOFT_RATIO`.
  unfoldable pub at_soft : Entry → Bool
  at_soft (counted name used none) = false
  at_soft (counted name used (some limit)) = not (limit == 0) && int_ge used (soft_of_int limit)
  at_soft (measured name used none) = false
  at_soft (measured name none (some limit)) = false
  at_soft (measured name (some used) (some limit)) = not (is_zero limit) && ge used (soft limit)

  unfoldable pub first_hard : List Entry → Option String
  first_hard [] = none
  first_hard (e ∷ es) = if at_hard e then some (name_of e) else first_hard es

  unfoldable pub hard_exceeded : RunBudget → Option String
  hard_exceeded b = first_hard (pairs b)

  unfoldable pub first_soft : List String → List Entry → Option String
  first_soft reported [] = none
  first_soft reported (e ∷ es) =
      if at_soft e && not (elem (name_of e) reported)
      then some (name_of e)
      else first_soft reported es

  abbrev pub mark : Option String → RunBudget → RunBudget
  mark none b = b
  mark (some name) b = record b { soft_reported = name ∷ b.soft_reported }

  -- The dimension that is reported, and the budget that remembers it.
  unfoldable pub soft_exceeded : RunBudget → Option String × RunBudget
  soft_exceeded b = let found = first_soft b.soft_reported (pairs b) in (found, mark found b)

-- `usage_from_metadata`: what the backend reports, or an estimate by `measure`.
unfoldable pub usage_from_metadata :
    Option ℕ → Option ℕ → String → String → Option (String → ℕ) → ℕ × ℕ × Bool
usage_from_metadata (some i) (some o) prompt completion measure = (i, o, false)
usage_from_metadata _ _ prompt completion none = (0, 0, true)
usage_from_metadata _ _ prompt completion (some measure) =
    (measure prompt, measure completion, true)
