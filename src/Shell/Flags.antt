-- ===== src/Shell/Flags.antt =====
-- The flags of a recursive or forced delete, and what `str.lower` makes of their letters.
use Prim.Native.Nat.{compare}
use Prim.Native.Char.{Char, code}
use Prim.Native.String
use Prim.Native.String.{String}
use text.Mathlib.TextEquality.{codes_equal, starts_with_iff}
use text.Mathlib.TextBridge.{IsPrefix}
use text.Mathlib.TextPositions.{compare_self, starts_with-append}
use text.Mathlib.TextLemmas.{nil-append, cons-append}
use moss_code.Base.{
  ◌⊎◌, ℕ, ◌+◌, ◌-◌, ◌==◌, has_char, same, if◌then◌else◌, ◌≡◌, refl, sym, ap, ◌∙◌, Bool, true, false,
  ◌&&◌, ◌||◌, inl, inr, arith, elem, starts_with, eq_iff, leb, Bool-cases, subst,
}
use moss_code.Shell.Argv.{letters}

-- A character of the Latin alphabet, and a capital one.
abbrev is_capital : ℕ → Bool
is_capital c = leb 65 c && leb c 90

abbrev is_small : ℕ → Bool
is_small c = leb 97 c && leb c 122

abbrev pub is_latin_word : String → Bool
is_latin_word String.[] = true
is_latin_word (String.◌∷◌ c s) = (is_capital (code c) || is_small (code c)) && is_latin_word s

abbrev pub is_small_word : String → Bool
is_small_word String.[] = true
is_small_word (String.◌∷◌ c s) = is_small (code c) && is_small_word s

-- A text and the same one with small letters for the capital ones.
abbrev pub Lowered : String → String → Type 0
Lowered String.[] String.[] = Unit
Lowered String.[] (String.◌∷◌ d t) = ⊥
Lowered (String.◌∷◌ c s) String.[] = ⊥
Lowered (String.◌∷◌ c s) (String.◌∷◌ d t) =
    (code d ≡ (if is_capital (code c) then code c + 32 else code c)) × Lowered s t

-- Whether a word has a letter of a recursive or forced delete: `r`, `R`, `f` or `F`.
abbrev pub has_delete_letter : String → Bool
has_delete_letter w = (has_char 114 w || has_char 82 w) || (has_char 102 w || has_char 70 w)

-- A flag for a recursive or forced delete: short ones in one word, or a long one.
abbrev pub IsDeleteFlag : String → Type 0
IsDeleteFlag flag =
    ((w : String) × (flag ≡ String.◌∷◌ "-" w)
      × (is_latin_word w ≡ true)
      × (has_delete_letter w ≡ true))
    ⊎ (flag ≡ "--recursive")
    ⊎ (flag ≡ "--force")

char_path : (c d : Char) → code c ≡ code d → c ≡ d
char_path c d e =
    codes_equal c d (ap (λ (n : ℕ). compare (code c) n) (sym e) ∙ compare_self (code c))

pub or_true : (b : Bool) → (b || true) ≡ true
or_true true = refl
or_true false = refl

cons_path : (c d : Char) (s t : String) → code c ≡ code d → s ≡ t → String.◌∷◌ c s ≡ String.◌∷◌ d t
cons_path c d s t e f = rw (char_path c d e, f) refl

pub small-is_latin_word : (s : String) → is_small_word s ≡ true → is_latin_word s ≡ true
small-is_latin_word String.[] h = refl
small-is_latin_word (String.◌∷◌ c s) h = ground (arith, small-is_latin_word s)

pub small_stays : (s t : String) → Lowered s t → is_small_word s ≡ true → t ≡ s
small_stays String.[] String.[] l h = refl
small_stays String.[] (String.◌∷◌ d t) l h = absurd l
small_stays (String.◌∷◌ c s) String.[] l h = absurd l
small_stays (String.◌∷◌ c s) (String.◌∷◌ d t) (e, l) h =
    cons_path d c t s (ground arith) (small_stays s t l (ground arith))

-- The letter with a code, among the letters of a lowered word that has it or its capital.
pub letter-Lowered :
    (k : ℕ) (k_char : Char)
    → code k_char ≡ k
    → is_small k ≡ true
    → (w t : String) → Lowered w t
    → (has_char k w || has_char (k - 32) w) ≡ true
    → elem (String.◌∷◌ k_char String.[]) (letters t) ≡ true
letter-Lowered k k_char e small String.[] t l h = cc
letter-Lowered k k_char e small (String.◌∷◌ c w) String.[] l h = absurd l
letter-Lowered k k_char e small (String.◌∷◌ c w) (String.◌∷◌ d t) (f, l) h =
    elim (Bool-cases (code d == k)) [
      | inl same_code ↦
          let own : d ≡ k_char = char_path d k_char (ground arith) in
          rw own
            (rw ((eq_iff (String.◌∷◌ k_char String.[]) (String.◌∷◌ k_char String.[])).1 refl) refl)
      | inr other ↦
          let rest : elem (String.◌∷◌ k_char String.[]) (letters t) ≡ true =
            letter-Lowered k k_char e small w t l (ground arith) in
          rw rest (or_true (same (String.◌∷◌ k_char String.[]) (String.◌∷◌ d String.[])))
    ]

-- The code of the second character, or 0.
abbrev second_code : String → ℕ
second_code String.[] = 0
second_code (String.◌∷◌ c String.[]) = 0
second_code (String.◌∷◌ c (String.◌∷◌ d s)) = code d

two_dashes : (r : String) → String.◌∷◌ "-" (String.◌∷◌ "-" r) ≡ String.◌++◌ "--" r
two_dashes r = sym (
    cons-append "-" "-" r
    ∙ ap (String.◌∷◌ "-") (cons-append "-" "" r ∙ ap (String.◌∷◌ "-") (nil-append r)))

no_dashes : (w : String) → is_latin_word w ≡ true → IsPrefix "--" (String.◌∷◌ "-" w) → ⊥
no_dashes String.[] latin (r, e) =
    let at : 45 ≡ 0 = ap second_code (two_dashes r ∙ e) in absurd (omega (arith, at))
no_dashes (String.◌∷◌ c s) latin (r, e) =
    let at : 45 ≡ code c = ap second_code (two_dashes r ∙ e) in ground arith

pub not_long : (w : String) → is_latin_word w ≡ true → starts_with (String.◌∷◌ "-" w) "--" ≡ false
not_long w latin = elim (Bool-cases (starts_with (String.◌∷◌ "-" w) "--")) [
  | inr no_prefix ↦ no_prefix
  | inl prefix ↦ absurd (no_dashes w latin ((starts_with_iff (String.◌∷◌ "-" w) "--").0 prefix))
]

pub is_short : (w : String) → starts_with (String.◌∷◌ "-" w) "-" ≡ true
is_short w =
    subst (λ (s : String). starts_with s "-" ≡ true)
      (cons-append "-" "" w ∙ ap (String.◌∷◌ "-") (nil-append w)) (starts_with-append "-" w)
