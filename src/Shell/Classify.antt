-- ===== src/Shell/Classify.antt =====
-- `classify_argv` and `_classify_package_manager` of moss/execution/safety/shell.py.
-- The classification of the command behind `uv run` is a call of `classify_argv` on a shorter argv:
-- the recursion takes fuel, and Shell/Fuel proves that the length of the argv is enough.
use moss_code.Base.{
  ℕ, zero, suc, String, Bool, true, false, not, ◌&&◌, List, [], ◌∷◌, ◌++◌, if◌then◌else◌, elem,
  filter, length, same, truthy, concat, starts_with,
}
use moss_code.Shell.Risk.{ShellRisk, read_only, test, write, network, high, denied, max_level}
use moss_code.Shell.Names.{
  read_only_commands, test_commands, write_commands, network_commands, interpreters,
  package_managers, undecidable_commands,
}
use moss_code.Shell.Argv.{
  Grade, basename, strip_wrappers, first_operand, is_catastrophic_delete, is_root_chmod,
  classify_git, classify_find, after_elem, classify_interpreter, classify_read_only, classify_make,
}

abbrev pub flagless : List String → List String
flagless = filter (λ token. not (starts_with token "-"))

-- The command behind `uv run`; `rec` is the call of `classify_argv`.
unfoldable pub uv_run : (List String → ShellRisk) → List String → Grade
uv_run rec [] = (write, "uv run without a command")
uv_run rec (a ∷ more) = ((rec (a ∷ more)).level, "")

unfoldable pub classify_package_manager : (List String → ShellRisk) → List String → String → Grade
unfolding uv_run
classify_package_manager rec args name =
    let subcommand = first_operand args in
    if same name "go" && same subcommand "test"
    then (test, "")
    else if same name "cargo" && elem subcommand ("test" ∷ "clippy" ∷ "fmt" ∷ [])
    then (test, "")
    else if elem name ("npm" ∷ "pnpm" ∷ "yarn" ∷ []) && elem subcommand ("test" ∷ "run" ∷ [])
    then (test, "")
    else if same name "uv" && same subcommand "run"
    then uv_run rec (flagless (after_elem "run" args))
    else (network, concat (name ∷ " " ∷ subcommand ∷ " downloads and executes packages" ∷ []))

-- The second half of the chain of `elif`, on the arguments and the name of the command.
unfoldable pub grade_plain : List String → String → Grade
grade_plain args name =
    if elem name network_commands
    then (network, concat (name ∷ " performs network I/O" ∷ []))
    else if elem name test_commands
    then (test, "")
    else if elem name read_only_commands
    then classify_read_only args name
    else if elem name write_commands
    then (write, concat (name ∷ " modifies files" ∷ []))
    else if same name "make"
    then classify_make args
    else (high, concat ("unknown executable: " ∷ name ∷ []))

-- The whole chain.
unfoldable pub grade : (List String → ShellRisk) → List String → String → Grade
grade rec args name =
    if same name "rm"
    then (high, "rm deletes files")
    else if same name "git"
    then classify_git args
    else if same name "find"
    then classify_find args
    else if elem name interpreters
    then classify_interpreter args name
    else if elem name package_managers
    then classify_package_manager rec args name
    else grade_plain args name

-- The end of `classify_argv`: the reason, and the privilege.
unfoldable pub graded : List String → Bool → Grade → ShellRisk
graded argv privileged (level, reason) =
    let reasons = if truthy reason then reason ∷ [] else [] in
    if privileged
    then (record {
      level = max_level (level ∷ high ∷ []);
      reasons = reasons ++ "runs with elevated privileges" ∷ [];
      argvs = argv ∷ [];
      undecidable = false;
    })
    else (record { level = level; reasons = reasons; argvs = argv ∷ []; undecidable = false })

module _ (lower : String → String) where
  unfoldable pub command_name : String → String
  command_name token = lower (basename token)

  -- The body of `classify_argv` behind `_strip_wrappers`.
  unfoldable pub classify_stripped :
      (List String → ShellRisk) → List String → List String → Bool → ShellRisk
  classify_stripped rec argv [] privileged = record {
    level = high;
    reasons = "command is only wrappers" ∷ [];
    argvs = argv ∷ [];
    undecidable = false;
  }
  classify_stripped rec argv (first ∷ args) privileged =
      let name = command_name first in
      if elem name undecidable_commands
      then (record {
        level = high;
        reasons = concat (name ∷ " evaluates text as code" ∷ []) ∷ [];
        argvs = argv ∷ [];
        undecidable = true;
      })
      else if same name "rm" && is_catastrophic_delete lower args
      then (record {
        level = denied;
        reasons = "recursive delete of a root or home path" ∷ [];
        argvs = argv ∷ [];
        undecidable = false;
      })
      else if same name "chmod" && is_root_chmod args
      then (record {
        level = denied;
        reasons = "chmod on a root path" ∷ [];
        argvs = argv ∷ [];
        undecidable = false;
      })
      else graded argv privileged (grade rec args name)

  -- One call of `classify_argv`, on the argv without its empty words.
  unfoldable pub classify_words : (List String → ShellRisk) → List String → ShellRisk
  classify_words rec [] = record {
    level = read_only;
    reasons = [];
    argvs = [];
    undecidable = false;
  }
  classify_words rec (w ∷ ws) =
      let (stripped, privileged) = strip_wrappers (w ∷ ws) in
      classify_stripped rec (w ∷ ws) stripped privileged

  -- Without fuel the answer is `high`.
  unfoldable pub classify_fuel : ℕ → List String → ShellRisk
  unfolding classify_words
  classify_fuel zero argv = record {
    level = high;
    reasons = [];
    argvs = argv ∷ [];
    undecidable = true;
  }
  classify_fuel (suc fuel) argv = classify_words (classify_fuel fuel) (filter truthy argv)

  unfoldable pub classify_argv : List String → ShellRisk
  classify_argv argv = classify_fuel (suc (length argv)) argv
