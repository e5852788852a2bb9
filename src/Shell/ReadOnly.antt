-- ===== src/Shell/ReadOnly.antt =====
-- Which commands are read-only.
use moss_code.Base.{
  ◌≡◌, ◌≢◌, refl, ◌⊎◌, Bool, true, false, String, List, [], ◌∷◌, arith, any, starts_with, elem,
  filter, truthy, eq_iff, subst,
}
use moss_code.Shell.Risk.{ShellRisk, read_only, rank, high-le-max_level}
use moss_code.Shell.Names.{read_only_commands, git_read_only}
use moss_code.Shell.Argv.{
  Grade, strip_wrappers, strip_wrappers_from, first_operand, classify_git, classify_find,
  classify_interpreter, classify_make, classify_read_only,
}
use moss_code.Shell.Classify.{
  classify_package_manager, grade_plain, grade, graded, command_name, classify_stripped,
  classify_words, classify_argv,
}
use moss_code.Shell.Fuel.{classify_argv_unfold}

-- A `find` with none of the four actions that the grader knows.
abbrev pub IsSearch : List String → Type 0
IsSearch args =
    (elem "-delete" args ≡ false)
    × (elem "-exec" args ≡ false)
    × (elem "-execdir" args ≡ false)
    × (elem "-ok" args ≡ false)

-- What a read-only command is, by its name and its arguments.
abbrev pub IsReader : List String → String → Type 0
IsReader args name =
    ((elem name read_only_commands ≡ true)
      × (name ≡ "sed" → any (λ arg. starts_with arg "-i") args ≡ false))
    ⊎ ((name ≡ "git") × (elem (first_operand args) git_read_only ≡ true))
    ⊎ ((name ≡ "find") × IsSearch args)

git_reader :
    (args : List String)
    → (classify_git args).0 ≡ read_only
    → elem (first_operand args) git_read_only ≡ true
unfolding classify_git
git_reader args h = ground arith

find_reader : (args : List String) → (classify_find args).0 ≡ read_only → IsSearch args
unfolding classify_find
find_reader args h = (ground arith, ground arith, ground arith, ground arith)

interpreter_reader :
    (args : List String) (name : String) → (classify_interpreter args name).0 ≢ read_only
unfolding classify_interpreter
interpreter_reader args name = ground arith

package_reader :
    (rec : List String → ShellRisk) (args : List String) (name : String)
    → name ≢ "uv"
    → (classify_package_manager rec args name).0 ≢ read_only
unfolding classify_package_manager
package_reader rec args name h = ground (arith, eq_iff name "uv")

make_reader : (args : List String) → (classify_make args).0 ≢ read_only
unfolding classify_make
make_reader args = ground arith

plain-IsReader :
    (args : List String) (name : String)
    → (grade_plain args name).0 ≡ read_only
    → (elem name read_only_commands ≡ true)
      × (name ≡ "sed" → any (λ arg. starts_with arg "-i") args ≡ false)
unfolding grade_plain classify_read_only
plain-IsReader args name h =
    (ground (arith, make_reader args), λ e. ground (arith, make_reader args, eq_iff name "sed"))

grade-IsReader :
    (rec : List String → ShellRisk) (args : List String) (name : String)
    → name ≢ "uv"
    → (grade rec args name).0 ≡ read_only
    → IsReader args name
unfolding grade
grade-IsReader rec args name u h = ground (
  arith,
  eq_iff name "git",
  eq_iff name "find",
  git_reader args,
  find_reader args,
  interpreter_reader args name,
  package_reader rec args name u,
  plain-IsReader args name,
)

graded_reader :
    (argv : List String) (p : Bool) (g : Grade)
    → (graded argv p g).level ≡ read_only
    → (g.0 ≡ read_only) × (p ≡ false)
unfolding graded rank
graded_reader argv true (level, reason) h = absurd (ground (arith, high-le-max_level level))
graded_reader argv false (level, reason) h = (h, refl)

module _ (lower : String → String) (rec : List String → ShellRisk) where
  stripped-IsReader :
      (argv : List String) (first : String) (args : List String) (p : Bool)
      → command_name lower first ≢ "uv"
      → (classify_stripped lower rec argv (first ∷ args) p).level ≡ read_only
      → IsReader args (command_name lower first) × (p ≡ false)
  unfolding classify_stripped
  stripped-IsReader argv first args p u h = ground (
    arith,
    graded_reader argv p (grade rec args (command_name lower first)),
    grade-IsReader rec args (command_name lower first) u,
  )

  words-IsReader :
      (ws : List String) (first : String) (args : List String)
      → (strip_wrappers ws).0 ≡ first ∷ args
      → command_name lower first ≢ "uv"
      → (classify_words lower rec ws).level ≡ read_only
      → IsReader args (command_name lower first) × ((strip_wrappers ws).1 ≡ false)
  unfolding classify_words strip_wrappers strip_wrappers_from
  words-IsReader [] first args s u h = cc
  words-IsReader (w ∷ ws) first args s u h = stripped-IsReader (w ∷ ws) first args _ u (
      subst
        (λ l.
          (classify_stripped lower rec (w ∷ ws) l (strip_wrappers (w ∷ ws)).1).level ≡ read_only)
        s h)

-- What is graded read-only runs, without privileges, a command of the read-only list, `sed` only without an
-- argument that begins with `-i`, a git subcommand of its read-only list, or a `find` without `-delete`, `-exec`, `-execdir` and `-ok`. Left
-- out is `uv`, since `uv run` is graded by what it runs.
pub read_only-IsReader :
    (lower : String → String) (argv : List String) (first : String) (args : List String)
    → (strip_wrappers (filter truthy argv)).0 ≡ first ∷ args
    → command_name lower first ≢ "uv"
    → (classify_argv lower argv).level ≡ read_only
    → IsReader args (command_name lower first) × ((strip_wrappers (filter truthy argv)).1 ≡ false)
read_only-IsReader lower argv first args s u h =
    words-IsReader lower (classify_argv lower) (filter truthy argv) first args s u
      (rw (classify_argv_unfold lower argv) at h)
