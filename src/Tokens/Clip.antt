-- ===== src/Tokens/Clip.antt =====
-- A text that is cut to a budget fits it, and no longer cut of it would.
use Prim.Native.String.{String}
unfoldable use native.Mathlib.Decide.{dec_lt}
use moss_code.Base.{
  ◌≢◌, sym, subst, ◌∙◌, ℕ, zero, suc, ◌+◌, ◌-◌, ◌/◌, ◌≤◌, ◌<◌, ◌≡◌, refl, true, false, Option, none,
  some, arith, ltb, leb, leb→le, ltb→lt, ◌==◌, Bool-cases, inl, inr,
}
use moss_code.Tokens.{candidate, search, marker_for, search_text, clip_to_budget, count_chars}

none-ne-some : {A : Type 0} {a : A} → ◌≡◌ {A = Option A} none (some a) → ⊥
none-ne-some e = cc

some_inj : {A : Type 0} {a b : A} → some a ≡ some b → a ≡ b
some_inj e = cc

module _ (measure : String → ℕ) (cand : ℕ → String) (limit : ℕ) where
  -- One round, at a cut that fits and at one that does not.
  search-fits :
      (fuel lo top : ℕ) (best : String)
      → ltb lo top ≡ true
      → leb (measure (cand ((lo + (top - 1)) / 2))) limit ≡ true
      → search measure cand limit (suc fuel) lo top best
        ≡ search measure cand limit fuel
            ((lo + (top - 1)) / 2 + 1)
            top
            (cand ((lo + (top - 1)) / 2))
  unfolding search
  search-fits fuel lo top best e f = ground arith

  search-fails :
      (fuel lo top : ℕ) (best : String)
      → ltb lo top ≡ true
      → leb (measure (cand ((lo + (top - 1)) / 2))) limit ≡ false
      → search measure cand limit (suc fuel) lo top best
        ≡ search measure cand limit fuel lo ((lo + (top - 1)) / 2) best
  unfolding search
  search-fails fuel lo top best e f = ground arith

  search-ends :
      (fuel lo top : ℕ) (best : String)
      → ltb lo top ≡ false
      → search measure cand limit (suc fuel) lo top best ≡ some best
  unfolding search
  search-ends fuel lo top best e = ground arith

  search-zero : (lo top : ℕ) (best : String) → search measure cand limit zero lo top best ≡ none
  unfolding search
  search-zero lo top best = refl

  -- With fuel for the distance of its bounds, the search ends with a text that fits.
  search-Fits :
      (fuel lo top : ℕ) (best : String)
      → top < fuel + lo
      → lo ≤ top
      → measure best ≤ limit
      → (r : String) × (search measure cand limit fuel lo top best ≡ some r) × (measure r ≤ limit)
  search-Fits zero lo top best enough le h = absurd (omega arith)
  search-Fits (suc fuel) lo top best enough le h = elim (Bool-cases (ltb lo top)) [
    | inr e ↦ (best, search-ends fuel lo top best e, h)
    | inl e ↦
        let lt = ltb→lt _ _ e in
        let mid = (lo + (top - 1)) / 2 in
        elim (Bool-cases (leb (measure (cand mid)) limit)) [
          | inl f ↦
              rw (search-fits fuel lo top best e f) (
                search-Fits fuel (mid + 1) top (cand mid) (omega arith) (omega arith)
                  (leb→le _ _ f))
          | inr f ↦
              rw (search-fails fuel lo top best e f)
                (search-Fits fuel lo mid best (omega arith) (omega arith) h)
        ]
  ]

  -- A cut of `kept` characters, fewer than `n`, that fits, and no longer one below `n` does.
  pub record IsLongest (n : ℕ) (best : String) : Type 0 where
    pub kept : ℕ
    pub within : kept < n
    pub is_cut : best ≡ cand kept
    pub fits : measure best ≤ limit
    pub longest : (k : ℕ) → k < n → measure (cand k) ≤ limit → k ≤ kept

  -- What the search knows between its rounds.
  record Between (n lo top kept : ℕ) (best : String) : Type 0 where
    inside : kept < n
    is_cut : best ≡ cand kept
    fits : measure best ≤ limit
    reached : lo ≤ kept + 1
    longer : (k : ℕ) → k < n → measure (cand k) ≤ limit → k < top

  module _ (n : ℕ) (mono : (j k : ℕ) → j ≤ k → k < n → measure (cand j) ≤ measure (cand k)) where
    -- A cut that fits is shorter than one that does not.
    cut_short :
        (mid k : ℕ)
        → leb (measure (cand mid)) limit ≡ false
        → k < n
        → measure (cand k) ≤ limit
        → k < mid
    cut_short mid k f below fits = elim (dec_lt k mid) [
      | yes lt ↦ lt
      | no ge ↦ let m = mono mid k (omega arith) below in absurd (ground arith)
    ]

    search-IsLongest :
        (fuel lo top kept : ℕ) (best : String)
        → Between n lo top kept best
        → lo ≤ top
        → top ≤ n
        → (r : String) → search measure cand limit fuel lo top best ≡ some r
        → IsLongest n r
    search-IsLongest zero lo top kept best b le within r done =
        absurd (none-ne-some (sym (search-zero lo top best) ∙ done))
    search-IsLongest (suc fuel) lo top kept best b le within r done =
        elim (Bool-cases (ltb lo top)) [
          | inr e ↦
              let same_text : best ≡ r = some_inj (sym (search-ends fuel lo top best e) ∙ done) in
              record {
                kept = kept;
                within = b.inside;
                is_cut = sym same_text ∙ b.is_cut;
                fits = subst (λ (t : String). measure t ≤ limit) same_text b.fits;
                longest = λ k lt fits.
                    let below = b.longer k lt fits in let up = b.reached in ground (arith);
              }
          | inl e ↦
              let lt = ltb→lt _ _ e in
              let mid = (lo + (top - 1)) / 2 in
              elim (Bool-cases (leb (measure (cand mid)) limit)) [
                | inl f ↦
                    search-IsLongest fuel (mid + 1) top mid (cand mid)
                      (record {
                        inside = omega arith;
                        is_cut = refl;
                        fits = leb→le _ _ f;
                        reached = omega arith;
                        longer = b.longer;
                      })
                      (omega arith) within r (sym (search-fits fuel lo top best e f) ∙ done)
                | inr f ↦
                    search-IsLongest fuel lo mid kept best
                      (record {
                        inside = b.inside;
                        is_cut = b.is_cut;
                        fits = b.fits;
                        reached = b.reached;
                        longer = λ k below fits. cut_short mid k f below fits;
                      })
                      (omega arith) (omega arith) r (sym (search-fails fuel lo top best e f) ∙ done)
              ]
        ]

module _ (measure : String → ℕ) (empty : measure "" ≡ 0) (text : String) (limit : ℕ)
    (keep marker : String) where
  abbrev cuts : ℕ → String
  cuts = candidate text (marker_for measure limit marker) keep

  marker_for-Fits : limit ≢ 0 → measure (marker_for measure limit marker) ≤ limit
  unfolding marker_for
  marker_for-Fits h = elim (Bool-cases (leb limit (measure marker))) [
    | inl e ↦ rw (e, marker_for) (omega (arith, empty))
    | inr e ↦ rw (e, marker_for) (ground arith)
  ]

  first-Fits : limit ≢ 0 → measure (cuts 0) ≤ limit
  unfolding candidate
  first-Fits h = marker_for-Fits h

  search_text-Fits :
      limit ≢ 0
      → (r : String) × (search_text measure text limit keep marker ≡ some r) × (measure r ≤ limit)
  unfolding search_text
  search_text-Fits h =
      search-Fits measure cuts limit (count_chars text + 2) 0 (count_chars text + 1) (cuts 0)
        (omega arith) (omega arith) (first-Fits h)

  -- When the empty text measures nothing, `clip_to_budget` ends, and what it returns measures at most the
  -- limit, whichever side it keeps, whatever the marker measures, and whether or not the measure grows
  -- with the text.
  pub clip_to_budget-Fits :
      (r : String) × (clip_to_budget measure text limit keep marker ≡ some r) × (measure r ≤ limit)
  unfolding clip_to_budget
  clip_to_budget-Fits = elim (Bool-cases (limit == 0)) [
    | inl e ↦ rw (e, clip_to_budget) ("", refl, omega (arith, empty))
    | inr e ↦ elim (Bool-cases (leb (measure text) limit)) [
      | inl f ↦ rw (e, clip_to_budget) (rw f (text, refl, leb→le _ _ f))
      | inr f ↦ rw (e, clip_to_budget) (rw f (search_text-Fits (ground arith)))
    ]
  ]

  -- When the empty text measures nothing, cuts that keep more measure no less and the limit is not 0, what
  -- `clip_to_budget` makes of a text over the limit is a cut that fits the limit and keeps no more
  -- characters than the text has, and no cut that keeps more of them fits.
  pub clip_to_budget-IsLongest :
      ((j k : ℕ) → j ≤ k → k < count_chars text + 1 → measure (cuts j) ≤ measure (cuts k))
      → limit ≢ 0
      → limit < measure text
      → (r : String) → clip_to_budget measure text limit keep marker ≡ some r
      → IsLongest measure cuts limit (count_chars text + 1) r
  unfolding clip_to_budget search_text
  clip_to_budget-IsLongest mono some_room long r e =
      search-IsLongest measure cuts limit (count_chars text + 1) mono (count_chars text + 2) 0
        (count_chars text + 1) 0 (cuts 0)
        (record {
          inside = omega arith;
          is_cut = refl;
          fits = first-Fits some_room;
          reached = omega arith;
          longer = λ k below fits. below;
        })
        (omega arith) (omega arith) r (ground arith)
