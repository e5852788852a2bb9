-- ===== src/Budget/Tests.antt =====
-- A run of the budget, and its theorems at it. The sample floats are thousandths as natural numbers.
use moss_code.Base.{
  ℕ, ◌+◌, ◌*◌, ◌/◌, ◌≡◌, refl, ◌↔◌, true, false, none, some, [], ◌∷◌, arith, leb, ◌==◌,
}
use moss_code.Budget.{
  Floats, RunBudget, Consumption, pairs, consume, hard_exceeded, first_hard, at_hard, soft_exceeded,
  first_soft, at_soft, name_of,
}
use moss_code.Budget.Limits.{IsWithin, hard_exceeded-none_iff}
use moss_code.Budget.Reports.{soft_reports}

soft_law :
    (used limit : ℕ)
    → (limit == 0) ≡ false
    → leb limit used ≡ true
    → leb (limit * 8 / 10) used ≡ true
soft_law used limit z h = ground arith

soft_int_law :
    (used limit : ℕ) → leb limit used ≡ true → leb (limit * 1000 * 8 / 10) (used * 1000) ≡ true
soft_int_law used limit h = ground arith

abbrev thousandths : Floats
thousandths = record {
  F = ℕ;
  zero = 0;
  plus = λ a b. a + b;
  ge = λ a b. leb b a;
  is_zero = λ a. a == 0;
  soft = λ a. a * 8 / 10;
  soft_of_int = λ n. n * 1000 * 8 / 10;
  int_ge = λ n a. leb a (n * 1000);
  soft_below = soft_law;
  soft_of_int_below = soft_int_law;
}

abbrev fresh_budget : RunBudget thousandths
fresh_budget = record {
  max_steps = 0;
  max_input_tokens = some 100;
  max_output_tokens = none;
  max_wall_clock_s = some 5000;
  max_usd = some 20;
  steps = 0;
  input_tokens = 0;
  output_tokens = 0;
  elapsed_s = 0;
  usd = none;
  usage_estimated = false;
  soft_reported = [];
}

abbrev turn : ℕ → ℕ → Consumption thousandths
turn tokens clock = record {
  steps = 1;
  input_tokens = tokens;
  output_tokens = 7;
  elapsed_s = clock;
  usd = none;
  estimated = true;
}

reports_run :
    soft_reports thousandths fresh_budget
      (turn 50 1000 ∷ turn 35 2000 ∷ turn 30 4500 ∷ turn 1 4600 ∷ [])
    ≡ "input_tokens" ∷ "wall_clock_s" ∷ []
unfolding soft_reports soft_exceeded first_soft at_soft consume pairs name_of
reports_run = refl

abbrev used_up : RunBudget thousandths
used_up = record fresh_budget { input_tokens = 120 }

used_up_hard : hard_exceeded thousandths used_up ≡ some "input_tokens"
unfolding hard_exceeded first_hard at_hard pairs name_of
used_up_hard = refl

hard_exceeded-none_iff_example :
    (hard_exceeded thousandths fresh_budget ≡ none) ↔ IsWithin thousandths fresh_budget
hard_exceeded-none_iff_example = hard_exceeded-none_iff thousandths fresh_budget

used_up_soft : (soft_exceeded thousandths used_up).0 ≡ some "input_tokens"
unfolding soft_exceeded first_soft at_soft pairs name_of
used_up_soft = refl
