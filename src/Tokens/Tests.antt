-- ===== src/Tokens/Tests.antt =====
-- Texts cut to a budget, and the theorems of this folder at them.
use Prim.Native.String
use Prim.Native.String.{String}
use text.Mathlib.TextLemmas.{cons-append, nil-append}
use moss_code.Base.{ℕ, suc, ◌+◌, ◌≤◌, ◌≡◌, refl, some, arith, zero}
use moss_code.Tokens.{
  count_chars, take_chars, is_cjk, count_kinds, tokens_of, estimate_tokens, candidate, search,
  marker_for, clip_to_budget, clip, cut_middle,
}
use moss_code.Tokens.Clip.{clip_to_budget-Fits, clip_to_budget-IsLongest, IsLongest}

estimate_of_mixed : estimate_tokens "abcde你好" ≡ 4
unfolding estimate_tokens is_cjk count_kinds tokens_of
estimate_of_mixed = refl

clip_keeps_head : clip_to_budget count_chars "abcdefgh" 5 "head" "..." ≡ some "ab..."
unfolding clip_to_budget search count_chars
clip_keeps_head = refl

clip_keeps_middle : clip_to_budget count_chars "abcdefgh" 6 "middle" "..." ≡ some "a...gh"
unfolding clip_to_budget search count_chars
clip_keeps_middle = refl

-- A limit of 0 keeps the whole text, since `text[-0:]` is `text[0:]`.
clip_keeps_all : clip "abc" 0 "tail" ≡ "...[truncated 3 chars]\nabc"
unfolding clip
clip_keeps_all = refl

middle_of_long : cut_middle "abcdefgh" 5 ≡ "a...h"
unfolding cut_middle
middle_of_long = refl

estimate-empty : estimate_tokens "" ≡ 0
unfolding estimate_tokens
estimate-empty = refl

clip_to_budget-Fits_example :
    (r : String) × (clip_to_budget estimate_tokens "a long line of text" 2 "tail" "..." ≡ some r)
    × (estimate_tokens r ≤ 2)
clip_to_budget-Fits_example =
    clip_to_budget-Fits estimate_tokens estimate-empty "a long line of text" 2 "tail" "..."

count_chars-append : (s t : String) → count_chars (String.◌++◌ s t) ≡ count_chars s + count_chars t
unfolding count_chars
count_chars-append String.[] t = rw (nil-append t) (omega arith)
count_chars-append (String.◌∷◌ c s) t =
    rw (cons-append c s t) (omega (arith, count_chars-append s t))

count_chars-take_mono :
    (j k : ℕ) (s : String) → j ≤ k → count_chars (take_chars j s) ≤ count_chars (take_chars k s)
unfolding count_chars take_chars
count_chars-take_mono zero k s h = omega arith
count_chars-take_mono (suc j) zero s h = absurd (omega arith)
count_chars-take_mono (suc j) (suc k) String.[] h = omega arith
count_chars-take_mono (suc j) (suc k) (String.◌∷◌ c s) h =
    omega (arith, count_chars-take_mono j k s (omega arith))

-- Characters grow with what a cut at the end keeps.
candidate-head_mono :
    (text marker : String) (j k : ℕ)
    → j ≤ k
    → count_chars (candidate text marker "head" j) ≤ count_chars (candidate text marker "head" k)
unfolding candidate
candidate-head_mono text marker j k h = ground (
  arith,
  count_chars-append (take_chars j text) marker,
  count_chars-append (take_chars k text) marker,
  count_chars-take_mono j k text,
)

chars-empty : count_chars "" ≡ 0
unfolding count_chars
chars-empty = refl

clip_to_budget-IsLongest_example :
    IsLongest count_chars
      (candidate "abcdefgh" (marker_for count_chars 5 "...") "head")
      5
      (count_chars "abcdefgh" + 1)
      "ab..."
clip_to_budget-IsLongest_example =
    clip_to_budget-IsLongest count_chars chars-empty "abcdefgh" 5 "head" "..."
      (λ j k le below. candidate-head_mono "abcdefgh" (marker_for count_chars 5 "...") j k le)
      (omega arith) (unfold count_chars in omega arith) "ab..." clip_keeps_head
