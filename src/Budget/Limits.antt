-- ===== src/Budget/Limits.antt =====
-- When a limit of the budget is reached.
use moss_code.Base.{
  ℕ, ◌<◌, ◌≡◌, ◌≢◌, refl, ◌↔◌, ◌⊎◌, inl, inr, true, false, String, Option, none, some, List, [],
  ◌∷◌, arith, elem, Bool-cases,
}
use moss_code.Budget.{
  Floats, RunBudget, Entry, counted, measured, pairs, at_hard, at_soft, first_hard, hard_exceeded,
  first_soft, soft_exceeded,
}

-- A count below its limit: there is none, it is 0, or it is not reached.
abbrev pub IsBelow : ℕ → Option ℕ → Type 0
IsBelow used none = Unit
IsBelow used (some limit) = (limit ≡ 0) ⊎ (used < limit)

module _ (fl : Floats) where
  -- The same for floats; an unknown amount is never at its limit.
  abbrev pub IsUnder : Option fl.F → Option fl.F → Type 0
  IsUnder used none = Unit
  IsUnder none (some limit) = Unit
  IsUnder (some used) (some limit) = (fl.is_zero limit ≡ true) ⊎ (fl.ge used limit ≡ false)

  pub record IsWithin (b : RunBudget fl) : Type 0 where
    pub steps : IsBelow b.steps (some b.max_steps)
    pub input_tokens : IsBelow b.input_tokens b.max_input_tokens
    pub output_tokens : IsBelow b.output_tokens b.max_output_tokens
    pub wall_clock_s : IsUnder (some b.elapsed_s) b.max_wall_clock_s
    pub usd : IsUnder b.usd b.max_usd

  first_hard-none :
      (e : Entry fl) (es : List (Entry fl))
      → first_hard fl (e ∷ es) ≡ none
      → (at_hard fl e ≡ false) × (first_hard fl es ≡ none)
  unfolding first_hard
  first_hard-none e es h = ground arith

  IsBelow-iff :
      (name : String) (used : ℕ) (limit : Option ℕ)
      → (at_hard fl (counted name used limit) ≡ false) ↔ IsBelow used limit
  unfolding at_hard
  IsBelow-iff name used none = (λ h. tt, λ h. refl)
  IsBelow-iff name used (some limit) = ground arith

  IsUnder-iff :
      (name : String) (used limit : Option fl.F)
      → (at_hard fl (measured name used limit) ≡ false) ↔ IsUnder used limit
  unfolding at_hard
  IsUnder-iff name used none = (λ h. tt, λ h. refl)
  IsUnder-iff name none (some limit) = (λ h. tt, λ h. refl)
  IsUnder-iff name (some used) (some limit) = ground arith

  IsWithin-of_none : (b : RunBudget fl) → hard_exceeded fl b ≡ none → IsWithin b
  unfolding hard_exceeded pairs
  IsWithin-of_none b h =
      let (steps, r1) = first_hard-none _ _ h in
      let (input, r2) = first_hard-none _ _ r1 in
      let (output, r3) = first_hard-none _ _ r2 in
      let (clock, r4) = first_hard-none _ _ r3 in
      let (usd, r5) = first_hard-none _ _ r4 in
      record {
        steps = (IsBelow-iff "steps" b.steps (some b.max_steps)).0 steps;
        input_tokens = (IsBelow-iff "input_tokens" b.input_tokens b.max_input_tokens).0 input;
        output_tokens = (IsBelow-iff "output_tokens" b.output_tokens b.max_output_tokens).0 output;
        wall_clock_s = (IsUnder-iff "wall_clock_s" (some b.elapsed_s) b.max_wall_clock_s).0 clock;
        usd = (IsUnder-iff "usd" b.usd b.max_usd).0 usd;
      }

  none_of_within : (b : RunBudget fl) → IsWithin b → hard_exceeded fl b ≡ none
  unfolding hard_exceeded pairs first_hard
  none_of_within b w = rw (
    (IsBelow-iff "steps" b.steps (some b.max_steps)).1 w.steps,
    (IsBelow-iff "input_tokens" b.input_tokens b.max_input_tokens).1 w.input_tokens,
    (IsBelow-iff "output_tokens" b.output_tokens b.max_output_tokens).1 w.output_tokens,
    (IsUnder-iff "wall_clock_s" (some b.elapsed_s) b.max_wall_clock_s).1 w.wall_clock_s,
    (IsUnder-iff "usd" b.usd b.max_usd).1 w.usd,
  )

  -- No limit is reported exactly if every dimension is below its own: a limit that is missing or 0 does
  -- not count, and neither does an amount that is not known.
  pub hard_exceeded-none_iff : (b : RunBudget fl) → (hard_exceeded fl b ≡ none) ↔ IsWithin b
  hard_exceeded-none_iff b = (IsWithin-of_none b, none_of_within b)

  soft_of_hard : (e : Entry fl) → at_hard fl e ≡ true → at_soft fl e ≡ true
  unfolding at_hard at_soft
  soft_of_hard (counted name used none) h = cc
  soft_of_hard (counted name used (some limit)) h = ground (arith, fl.soft_of_int_below used limit)
  soft_of_hard (measured name used none) h = cc
  soft_of_hard (measured name none (some limit)) h = cc
  soft_of_hard (measured name (some used) (some limit)) h = ground (arith, fl.soft_below used limit)

  soft_of_first_hard :
      (reported : List String) (es : List (Entry fl)) (name : String)
      → first_hard fl es ≡ some name
      → elem name reported ≡ false
      → first_soft fl reported es ≢ none
  unfolding first_hard first_soft
  soft_of_first_hard reported [] name h n s = cc
  soft_of_first_hard reported (e ∷ es) name h n s =
      ground (arith, soft_of_hard e, soft_of_first_hard reported es name)

  -- A dimension over its limit has been announced: it was reported before, or the soft check reports one
  -- now.
  pub hard_was_announced :
      (b : RunBudget fl) (name : String)
      → hard_exceeded fl b ≡ some name
      → (elem name b.soft_reported ≡ true) ⊎ ((soft_exceeded fl b).0 ≢ none)
  unfolding hard_exceeded soft_exceeded
  hard_was_announced b name h = elim (Bool-cases (elem name b.soft_reported)) [
    | inl old ↦ inl old
    | inr new ↦ inr (soft_of_first_hard b.soft_reported (pairs fl b) name h new)
  ]
