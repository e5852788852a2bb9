-- ===== src/Shell/Delete.antt =====
-- A recursive or forced `rm` of the root is denied, whatever stands around it.
use Prim.Native.String.{String}
use moss_code.Base.{
  elem_of_In, all_of_In, has_char, ◌≡◌, refl, sym, ap, ◌∙◌, Bool, true, false, not, ◌&&◌, ◌||◌, inl,
  inr, List, [], ◌∷◌, ◌++◌, arith, filter, any, elem, truthy, In, here, there, All, starts_with,
  Bool-cases, subst,
}
use moss_code.Shell.Risk.{denied, ShellRisk}
use moss_code.Shell.Names.{wrappers, privilege_wrappers, undecidable_commands, catastrophic_paths}
use moss_code.Shell.Argv.{
  basename, is_assignment, strip_wrappers, strip_wrappers_from, flags_of, all_flags,
  is_catastrophic_target, is_catastrophic_delete, letters,
}
use moss_code.Shell.Classify.{command_name, classify_stripped, classify_words, classify_argv}
use moss_code.Shell.Flags.{
  is_latin_word, is_small_word, Lowered, has_delete_letter, IsDeleteFlag, small-is_latin_word,
  small_stays, letter-Lowered, or_true, not_long, is_short,
}
use moss_code.Shell.Fuel.{classify_argv_unfold}

-- A word that `_strip_wrappers` skips.
unfoldable pub is_wrapper : String → Bool
is_wrapper w =
    truthy w
    && (is_assignment w || elem (basename w) privilege_wrappers || elem (basename w) wrappers)

-- Every word of the list is skipped.
abbrev pub AllWrappers : List String → Type 0
AllWrappers ws = All (λ w. is_wrapper w ≡ true) ws

strip_wrappers_rm :
    (p : Bool) (args : List String) → (strip_wrappers_from p ("rm" ∷ args)).0 ≡ "rm" ∷ args
unfolding strip_wrappers_from is_assignment basename privilege_wrappers wrappers
strip_wrappers_rm p args = refl

strip-append-rm :
    (p : Bool) (ws args : List String)
    → AllWrappers ws
    → (strip_wrappers_from p (ws ++ "rm" ∷ args)).0 ≡ "rm" ∷ args
unfolding is_wrapper strip_wrappers_from
strip-append-rm p [] args h = strip_wrappers_rm p args
strip-append-rm p (w ∷ ws) args (h, hs) =
    ground (arith, strip-append-rm p ws args hs, strip-append-rm true ws args hs)

filter-append {ℓ} :
    {A : Type ℓ} (p : A → Bool) (xs ys : List A) → filter p (xs ++ ys) ≡ filter p xs ++ filter p ys
filter-append p [] ys = refl
filter-append p (x ∷ xs) ys = ground (arith, filter-append p xs ys)

filter-AllWrappers : (ws : List String) → AllWrappers ws → filter truthy ws ≡ ws
unfolding is_wrapper
filter-AllWrappers [] h = refl
filter-AllWrappers (w ∷ ws) (h, hs) = ground (arith, filter-AllWrappers ws hs)

In-filter {ℓ} :
    {A : Type ℓ} (p : A → Bool) {x : A} (xs : List A) → p x ≡ true → In x xs → In x (filter p xs)
In-filter p [] e m = elim m [ ]
In-filter p {x} (y ∷ xs) e (here q) = rw (ap p (sym q) ∙ e) (here q)
In-filter p {x} (y ∷ xs) e (there m) = elim (Bool-cases (p y)) [
  | inl kept ↦ rw kept (there (In-filter p xs e m))
  | inr gone ↦ rw gone (In-filter p xs e m)
]

any_of_In {ℓ} :
    {A : Type ℓ} (p : A → Bool) {x : A} (xs : List A) → p x ≡ true → In x xs → any p xs ≡ true
any_of_In p [] e m = elim m [ ]
any_of_In p {x} (y ∷ xs) e (here q) = rw (ap p (sym q) ∙ e) refl
any_of_In p {x} (y ∷ xs) e (there m) = ground (arith, any_of_In p xs e m)

elem-append : (x : String) (xs ys : List String) → elem x (xs ++ ys) ≡ (elem x xs || elem x ys)
elem-append x [] ys = refl
elem-append x (y ∷ xs) ys = ground (arith, elem-append x xs ys)

abbrev is_forcing : List String → Bool
is_forcing flags =
    (elem "r" flags || elem "recursive" flags) || (elem "f" flags || elem "force" flags)

is_forcing-append : (xs ys : List String) → is_forcing (xs ++ ys) ≡ (is_forcing xs || is_forcing ys)
is_forcing-append xs ys = ground (
  arith,
  elem-append "r" xs ys,
  elem-append "recursive" xs ys,
  elem-append "f" xs ys,
  elem-append "force" xs ys,
)

-- No catastrophic path is a flag.
path-no-flag : (t : String) → In t catastrophic_paths → not (starts_with t "-") ≡ true
unfolding catastrophic_paths
path-no-flag t m = all_of_In (λ t. not (starts_with t "-")) catastrophic_paths refl m

module _ (lower : String → String)
    (lowers : (s : String) → is_latin_word s ≡ true → Lowered s (lower s)) where
  keeps : (s : String) → is_small_word s ≡ true → lower s ≡ s
  keeps s h = small_stays s (lower s) (lowers s (small-is_latin_word s h)) h

  short-forces :
      (w : String)
      → is_latin_word w ≡ true
      → has_delete_letter w ≡ true
      → is_forcing (letters (lower w)) ≡ true
  short-forces w latin h = elim (Bool-cases (has_char 114 w || has_char 82 w)) [
    | inl r ↦ rw (letter-Lowered 114 "r" refl refl w (lower w) (lowers w latin) r) refl
    | inr no_r ↦
        rw (letter-Lowered 102 "f" refl refl w (lower w) (lowers w latin) (ground arith))
          (or_true (elem "r" (letters (lower w)) || elem "recursive" (letters (lower w))))
  ]

  delete_flag-forces : (flag : String) → IsDeleteFlag flag → is_forcing (flags_of lower flag) ≡ true
  unfolding flags_of
  delete_flag-forces flag (inl (w, e, latin, h)) =
      rw (e, not_long w latin, is_short w) (short-forces w latin h)
  delete_flag-forces flag (inr (inl e)) = rw (e, keeps "recursive" refl)
  delete_flag-forces flag (inr (inr e)) = rw (e, keeps "force" refl)

  args-force :
      (flag : String) (args : List String)
      → IsDeleteFlag flag
      → In flag args
      → is_forcing (all_flags lower args) ≡ true
  unfolding all_flags
  args-force flag [] d m = elim m [ ]
  args-force flag (a ∷ args) d (here e) =
      rw (is_forcing-append (flags_of lower a) (all_flags lower args))
        (ground (arith, delete_flag-forces a (subst (λ (x : String). IsDeleteFlag x) e d)))
  args-force flag (a ∷ args) d (there m) =
      rw (is_forcing-append (flags_of lower a) (all_flags lower args))
        (ground (arith, args-force flag args d m))

  args-catastrophic :
      (flag target : String) (args : List String)
      → IsDeleteFlag flag
      → In flag args
      → In target catastrophic_paths
      → In target args
      → is_catastrophic_delete lower args ≡ true
  unfolding is_catastrophic_delete is_catastrophic_target
  args-catastrophic flag target args d f c t = ground (
    arith,
    args-force flag args d f,
    any_of_In (is_catastrophic_target lower) (filter (λ token. not (starts_with token "-")) args)
        (ground (arith, elem_of_In target catastrophic_paths c))
        (In-filter (λ token. not (starts_with token "-")) args (path-no-flag target c) t),
  )

  stripped_rm :
      (rec : List String → ShellRisk) (argv args : List String) (p : Bool)
      → is_catastrophic_delete lower args ≡ true
      → (classify_stripped lower rec argv ("rm" ∷ args) p).level ≡ denied
  unfolding classify_stripped command_name basename undecidable_commands
  stripped_rm rec argv args p h = rw (keeps "rm" refl, h)

  words_rm :
      (rec : List String → ShellRisk) (ws args : List String)
      → AllWrappers ws
      → is_catastrophic_delete lower args ≡ true
      → (classify_words lower rec (ws ++ "rm" ∷ args)).level ≡ denied
  unfolding classify_words strip_wrappers
  words_rm rec [] args a h =
      rw (strip-append-rm false [] args a) (stripped_rm rec ("rm" ∷ args) args _ h)
  words_rm rec (w ∷ ws) args a h =
      rw (strip-append-rm false (w ∷ ws) args a) (stripped_rm rec (w ∷ ws ++ "rm" ∷ args) args _ h)

  filter_rm :
      (ws args : List String)
      → AllWrappers ws
      → filter truthy (ws ++ "rm" ∷ args) ≡ ws ++ "rm" ∷ filter truthy args
  filter_rm ws args h = rw (filter-append truthy ws ("rm" ∷ args), filter-AllWrappers ws h)

  truthy_path : (t : String) → In t catastrophic_paths → truthy t ≡ true
  unfolding catastrophic_paths
  truthy_path t m = all_of_In truthy catastrophic_paths refl m

  truthy_flag : (t : String) → IsDeleteFlag t → truthy t ≡ true
  truthy_flag t (inl (w, e, latin, h)) = rw e refl
  truthy_flag t (inr (inl e)) = rw e refl
  truthy_flag t (inr (inr e)) = rw e refl

  -- Behind any wrappers and assignments (`sudo`, `env A=1`, …) an `rm` with a flag for a recursive or
  -- forced delete, which is `--recursive`, `--force` or a dash and Latin letters with an r, R, f or F among
  -- them, and with a root or home path of the list among its operands is denied, whatever its other
  -- arguments are. `lower` makes capital Latin letters of a word small and keeps its small ones.
  pub delete-is_denied :
      (ws args : List String) (flag target : String)
      → AllWrappers ws
      → IsDeleteFlag flag
      → In flag args
      → In target catastrophic_paths
      → In target args
      → (classify_argv lower (ws ++ "rm" ∷ args)).level ≡ denied
  delete-is_denied ws args flag target h d f c t =
      rw (classify_argv_unfold lower (ws ++ "rm" ∷ args), filter_rm ws args h)
        (words_rm (classify_argv lower) ws (filter truthy args) h (
          args-catastrophic flag target (filter truthy args) d
            (In-filter truthy args (truthy_flag flag d) f) c
            (In-filter truthy args (truthy_path target c) t)))
