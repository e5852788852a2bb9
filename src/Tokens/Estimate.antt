-- ===== src/Tokens/Estimate.antt =====
-- What the estimate of tokens says about a text, and about a text put together.
use Prim.Native.Char.{code}
use Prim.Native.String
use Prim.Native.String.{String}
use text.Mathlib.TextLemmas.{cons-append, nil-append}
use moss_code.Base.{
  Bool-cases, inl, inr, ap, ◌<◌, ℕ, ◌+◌, ◌-◌, ◌*◌, ◌/◌, ◌≤◌, ◌≡◌, refl, arith, if◌then◌else◌,
}
use moss_code.Tokens.{count_chars, is_cjk, count_kinds, tokens_of, estimate_tokens}

-- The two counters at the end of the loop, from where it starts.
count_kinds-from :
    (a b : ℕ) (s : String)
    → ((count_kinds a b s).0 ≡ a + (count_kinds 0 0 s).0)
      × ((count_kinds a b s).1 ≡ b + (count_kinds 0 0 s).1)
unfolding count_kinds
count_kinds-from a b String.[] = (omega arith, omega arith)
count_kinds-from a b (String.◌∷◌ x s) = elim (Bool-cases (is_cjk (code x))) [
  | inl e ↦
      let h = count_kinds-from (a + 1) b s in
      let k = count_kinds-from (0 + 1) 0 s in
      rw (e, count_kinds) (omega (arith, h.0, k.0), omega (arith, h.1, k.1))
  | inr e ↦
      let h = count_kinds-from a (b + 1) s in
      let k = count_kinds-from 0 (0 + 1) s in
      rw (e, count_kinds) (omega (arith, h.0, k.0), omega (arith, h.1, k.1))
]

count_kinds-total :
    (a b : ℕ) (s : String) → (count_kinds a b s).0 + (count_kinds a b s).1 ≡ a + b + count_chars s
unfolding count_kinds count_chars
count_kinds-total a b String.[] = omega arith
count_kinds-total a b (String.◌∷◌ x s) = elim (Bool-cases (is_cjk (code x))) [
  | inl e ↦ rw (e, count_kinds) (omega (arith, count_kinds-total (a + 1) b s))
  | inr e ↦ rw (e, count_kinds) (omega (arith, count_kinds-total a (b + 1) s))
]

count_kinds-append :
    (a b : ℕ) (s t : String)
    → count_kinds a b (String.◌++◌ s t) ≡ count_kinds (count_kinds a b s).0 (count_kinds a b s).1 t
unfolding count_kinds
count_kinds-append a b String.[] t = rw (nil-append t)
count_kinds-append a b (String.◌∷◌ x s) t = rw (cons-append x s t) (
    count_kinds-append (if is_cjk (code x) then a + 1 else a) (if is_cjk (code x) then b else b + 1)
      s t)

tokens_of-eq : (p : ℕ × ℕ) → 0 < p.0 + p.1 → tokens_of p ≡ p.0 + (p.1 + 4 - 1) / 4
unfolding tokens_of
tokens_of-eq (cjk, other) h = ground arith

-- `max(1, …)` never does anything.
estimate_tokens-eq :
    (s : String) → estimate_tokens s ≡ (count_kinds 0 0 s).0 + ((count_kinds 0 0 s).1 + 4 - 1) / 4
unfolding estimate_tokens count_kinds
estimate_tokens-eq String.[] = refl
estimate_tokens-eq (String.◌∷◌ x s) =
    tokens_of-eq (count_kinds 0 0 (String.◌∷◌ x s))
      (unfold count_chars in omega (arith, count_kinds-total 0 0 (String.◌∷◌ x s)))

-- The estimate of a text is at most its length and at least a fourth of it, so only the empty text is
-- estimated at 0.
pub estimate_tokens_bounds :
    (s : String) → (estimate_tokens s ≤ count_chars s) × (count_chars s ≤ 4 * estimate_tokens s)
estimate_tokens_bounds s =
    rw (estimate_tokens-eq s)
      (omega (arith, count_kinds-total 0 0 s), omega (arith, count_kinds-total 0 0 s))

-- Two texts estimated apart are never estimated below the text of both, and each not above it: a prompt
-- whose parts keep to their budgets keeps to the sum of them.
pub estimate_tokens-append :
    (s t : String)
    → (estimate_tokens (String.◌++◌ s t) ≤ estimate_tokens s + estimate_tokens t)
      × (estimate_tokens s ≤ estimate_tokens (String.◌++◌ s t))
      × (estimate_tokens t ≤ estimate_tokens (String.◌++◌ s t))
estimate_tokens-append s t =
    let a = count_kinds 0 0 s in
    let shift = count_kinds-from a.0 a.1 t in
    let whole = count_kinds-append 0 0 s t in
    let first = ap (λ (p : ℕ × ℕ). p.0) whole in
    let second = ap (λ (p : ℕ × ℕ). p.1) whole in
    rw (estimate_tokens-eq (String.◌++◌ s t)) (
      rw (estimate_tokens-eq s) (
        rw (estimate_tokens-eq t) (
          omega (arith, shift.0, shift.1, first, second),
          omega (arith, shift.0, shift.1, first, second),
          omega (arith, shift.0, shift.1, first, second),
        )))
