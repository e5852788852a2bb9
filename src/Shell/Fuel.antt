-- ===== src/Shell/Fuel.antt =====
-- The fuel of `classify_fuel`: more than the length of the argv is always enough.
use moss_code.Base.{
  ℕ, zero, suc, ◌≤◌, ◌<◌, ◌≡◌, refl, String, Bool, true, List, [], ◌∷◌, arith, filter, length,
  truthy,
}
use moss_code.Shell.Risk.{ShellRisk}
use moss_code.Shell.Argv.{strip_wrappers, strip_wrappers_from, after_elem}
use moss_code.Shell.Classify.{
  flagless, uv_run, classify_package_manager, grade, command_name, classify_stripped,
  classify_words, classify_fuel, classify_argv,
}

pub length-filter-le {ℓ} :
    {A : Type ℓ} (p : A → Bool) (xs : List A) → length (filter p xs) ≤ length xs
length-filter-le p [] = omega arith
length-filter-le p (x ∷ xs) = ground (arith, length-filter-le p xs)

length-after_elem-le : (name : String) (xs : List String) → length (after_elem name xs) ≤ length xs
unfolding after_elem
length-after_elem-le name [] = omega arith
length-after_elem-le name (x ∷ xs) = ground (arith, length-after_elem-le name xs)

length-strip_wrappers_from-le :
    (p : Bool) (argv : List String) → length (strip_wrappers_from p argv).0 ≤ length argv
unfolding strip_wrappers_from
length-strip_wrappers_from-le p [] = omega arith
length-strip_wrappers_from-le p (x ∷ xs) =
    ground (arith, length-strip_wrappers_from-le p xs, length-strip_wrappers_from-le true xs)

module _ (rec rec' : List String → ShellRisk) where
  uv_run-cong :
      (inner : List String) → rec inner ≡ rec' inner → uv_run rec inner ≡ uv_run rec' inner
  unfolding uv_run
  uv_run-cong [] e = refl
  uv_run-cong (a ∷ more) e = rw e

  package-cong :
      (args : List String) (name : String)
      → rec (flagless (after_elem "run" args)) ≡ rec' (flagless (after_elem "run" args))
      → classify_package_manager rec args name ≡ classify_package_manager rec' args name
  unfolding classify_package_manager
  package-cong args name e = rw (uv_run-cong (flagless (after_elem "run" args)) e)

  grade-cong :
      (args : List String) (name : String)
      → rec (flagless (after_elem "run" args)) ≡ rec' (flagless (after_elem "run" args))
      → grade rec args name ≡ grade rec' args name
  unfolding grade
  grade-cong args name e = rw (package-cong args name e)

  module _ (lower : String → String) where
    stripped-cong :
        (argv stripped : List String) (privileged : Bool)
        → ((inner : List String) → length inner < length stripped → rec inner ≡ rec' inner)
        → classify_stripped lower rec argv stripped privileged
          ≡ classify_stripped lower rec' argv stripped privileged
    unfolding classify_stripped
    stripped-cong argv [] privileged same = refl
    stripped-cong argv (first ∷ args) privileged same = rw (
        grade-cong args (command_name lower first) (
          same _ (
            omega (
              arith,
              length-filter-le _ (after_elem "run" args),
              length-after_elem-le "run" args,
            ))))

    words-cong :
        (ws : List String)
        → ((inner : List String) → length inner < length ws → rec inner ≡ rec' inner)
        → classify_words lower rec ws ≡ classify_words lower rec' ws
    unfolding classify_words strip_wrappers
    words-cong [] same = refl
    words-cong (w ∷ ws) same =
        stripped-cong (w ∷ ws) _ _
          λ inner h. same inner (omega (arith, length-strip_wrappers_from-le _ (w ∷ ws)))

-- Any two amounts of fuel above the length of the argv give the same classification.
fuel_agree :
    (lower : String → String) (f g : ℕ) (argv : List String)
    → length argv < f
    → length argv < g
    → classify_fuel lower f argv ≡ classify_fuel lower g argv
unfolding classify_fuel
fuel_agree lower zero g argv h k = absurd (omega arith)
fuel_agree lower (suc f) zero argv h k = absurd (omega arith)
fuel_agree lower (suc f) (suc g) argv h k =
    words-cong (classify_fuel lower f) (classify_fuel lower g) lower (filter truthy argv) λ inner m.
      fuel_agree lower f g inner (omega (arith, length-filter-le truthy argv))
        (omega (arith, length-filter-le truthy argv))

-- `classify_argv` satisfies the recursive equation of the source: the call behind `uv run` is
-- `classify_argv` itself, so the fuel never runs out.
pub classify_argv_unfold :
    (lower : String → String) (argv : List String)
    → classify_argv lower argv ≡ classify_words lower (classify_argv lower) (filter truthy argv)
unfolding classify_argv classify_fuel
classify_argv_unfold lower argv =
    words-cong (classify_fuel lower (length argv)) (classify_argv lower) lower (filter truthy argv)
      λ inner m.
        fuel_agree lower (length argv) (suc (length inner)) inner
          (omega (arith, length-filter-le truthy argv)) (omega arith)
