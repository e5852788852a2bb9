-- ===== src/Stall/Storm.antt =====
-- When a failure is reported as repeated.
use moss_code.Base.{
  ℕ, ◌≡◌, refl, ◌↔◌, ◌⊎◌, inr, true, false, Bool, String, none, List, [], ◌∷◌, arith, eq_iff, same,
  ◌&&◌, ◌||◌, truthy, length,
}
use moss_code.Stall.{storm_from, detect_error_storm}

-- The list starts with the same failure three times.
abbrev pub storms_now : List String → Bool
storms_now (a ∷ b ∷ c ∷ codes) = truthy a && same b a && same c a
storms_now _ = false

-- Three events in a row fail with the same code.
unfoldable pub has_storm : List String → Bool
has_storm [] = false
has_storm (a ∷ codes) = storms_now (a ∷ codes) || has_storm codes

storms_now-other :
    (a c : String) (codes : List String)
    → (same c a ≡ false) ⊎ (truthy a ≡ false)
    → storms_now (a ∷ c ∷ codes) ≡ false
storms_now-other a c [] h = refl
storms_now-other a c (d ∷ codes) h = ground arith

storms_now-empty :
    (a : String) (codes : List String) → truthy a ≡ false → storms_now (a ∷ codes) ≡ false
storms_now-empty a [] h = refl
storms_now-empty a (c ∷ codes) h = storms_now-other a c codes (inr h)

abbrev Agrees : ℕ → String → ℕ → List String → List String → Type 0
Agrees size last streak codes all_codes =
    (storm_from size last streak codes ≡ none) ↔ (has_storm all_codes ≡ false)

storm_from-none :
    (size : ℕ) (codes : List String)
    → Agrees size "" 0 codes codes
      × ((a : String)
          → truthy a ≡ true
          → Agrees size a 1 codes (a ∷ codes) × Agrees size a 2 codes (a ∷ a ∷ codes))
unfolding storm_from has_storm
storm_from-none size [] =
    ((λ h. refl, λ h. refl), λ a t. ((λ h. refl, λ h. refl), (λ h. refl, λ h. refl)))
storm_from-none size (c ∷ codes) =
    let (clear, streaks) = storm_from-none size codes in
    (
      ground (arith, streaks c, storms_now-empty c codes, eq_iff c ""),
      λ a t. (
        ground (
          arith,
          clear,
          streaks c,
          streaks a t,
          storms_now-empty c codes,
          storms_now-other a c codes,
          eq_iff c a,
        ),
        ground (
          arith,
          clear,
          streaks c,
          storms_now-empty c codes,
          storms_now-other a c codes,
          eq_iff c a,
          eq_iff a a,
        ),
      ),
    )

-- A failure is reported exactly if three events in a row fail with the same code.
pub detect_error_storm-none_iff :
    (codes : List String) → (detect_error_storm codes ≡ none) ↔ (has_storm codes ≡ false)
unfolding detect_error_storm
detect_error_storm-none_iff codes = (storm_from-none (length codes) codes).0
