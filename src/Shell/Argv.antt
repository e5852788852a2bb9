-- ===== src/Shell/Argv.antt =====
-- The graders of one argv of moss/execution/safety/shell.py. `lower` is `str.lower`.
use Prim.Native.String.{String}
use moss_code.Base.{
  Bool, true, false, not, ◌&&◌, ◌||◌, Option, none, some, List, [], ◌∷◌, ◌++◌, if◌then◌else◌, elem,
  filter, find, any, same, truthy, concat, has_char, after_last, lstrip, rstrip, starts_with,
}
use moss_code.Shell.Risk.{RiskLevel, read_only, test, write, network, high}
use moss_code.Shell.Names.{
  wrappers, privilege_wrappers, git_read_only, git_write, git_network, catastrophic_paths,
}

-- `token.rsplit("/", 1)[-1]`
unfoldable pub basename : String → String
basename token = after_last b'/' token token

-- `"=" in token and not token.startswith("-")`
unfoldable pub is_assignment : String → Bool
is_assignment token = has_char b'=' token && not (starts_with token "-")

-- The loop of `_strip_wrappers`: what is left of the argv, and whether it is privileged.
unfoldable pub strip_wrappers_from : Bool → List String → List String × Bool
strip_wrappers_from privileged [] = ([], privileged)
strip_wrappers_from privileged (token ∷ rest) =
    let skipped = strip_wrappers_from privileged rest in
    let raised = strip_wrappers_from true rest in
    if is_assignment token
    then skipped
    else if elem (basename token) privilege_wrappers
    then raised
    else if elem (basename token) wrappers
    then skipped
    else (token ∷ rest, privileged)

unfoldable pub strip_wrappers : List String → List String × Bool
strip_wrappers argv = strip_wrappers_from false argv

-- `token.startswith("-")`
abbrev is_flag : String → Bool
is_flag token = starts_with token "-"

-- `next((token for token in argv[1:] if not token.startswith("-")), "")`
abbrev or_empty : Option String → String
or_empty none = ""
or_empty (some s) = s

unfoldable pub first_operand : List String → String
first_operand args = or_empty (find (λ token. not (is_flag token)) args)

-- The characters of a text, each as a text.
abbrev pub letters : String → List String
letters String.[] = []
letters (String.◌∷◌ c s) = String.◌∷◌ c String.[] ∷ letters s

-- `token[1:]`
abbrev pub rest_of : String → String
rest_of String.[] = ""
rest_of (String.◌∷◌ c s) = s

-- `target.rstrip("/") or "/"`
abbrev or_root : String → String
or_root String.[] = "/"
or_root (String.◌∷◌ c s) = String.◌∷◌ c s

module _ (lower : String → String) where
  -- What one argument adds to `flags`.
  unfoldable pub flags_of : String → List String
  flags_of token =
      if starts_with token "--"
      then lower (lstrip b'-' token) ∷ []
      else if starts_with token "-"
      then letters (lower (rest_of token))
      else []

  -- What the loop collects in `flags`.
  unfoldable pub all_flags : List String → List String
  unfolding flags_of
  all_flags [] = []
  all_flags (token ∷ args) = flags_of token ++ all_flags args

  -- The test of one member of `targets`.
  unfoldable pub is_catastrophic_target : String → Bool
  is_catastrophic_target target =
      elem (lower (or_root (rstrip b'/' target))) catastrophic_paths
      || elem target catastrophic_paths

  -- `_is_catastrophic_delete` on `argv[1:]`
  unfoldable pub is_catastrophic_delete : List String → Bool
  unfolding all_flags is_catastrophic_target
  is_catastrophic_delete args =
      let flags = all_flags args in
      let recursive = elem "r" flags || elem "recursive" flags in
      let forced = elem "f" flags || elem "force" flags in
      (recursive || forced)
      && any is_catastrophic_target (filter (λ token. not (starts_with token "-")) args)

-- The test of `chmod` in `classify_argv`, on `stripped[1:]`.
unfoldable pub is_root_chmod : List String → Bool
is_root_chmod args =
    any (λ token. elem token ("777" ∷ "-R" ∷ "--recursive" ∷ [])) args
    && any (λ token. not (is_flag token) && elem (rstrip b'/' token) ("" ∷ "/" ∷ "~" ∷ [])) args

-- A level and its reason.
abbrev pub Grade : Type 0
Grade = RiskLevel × String

-- `subcommand or "(none)"`
abbrev or_none : String → String
or_none String.[] = "(none)"
or_none (String.◌∷◌ c s) = String.◌∷◌ c s

unfoldable pub classify_git : List String → Grade
unfolding first_operand
classify_git args =
    let subcommand = first_operand args in
    if elem subcommand git_network
    then (network, concat ("git " ∷ subcommand ∷ " talks to a remote" ∷ []))
    else if elem subcommand git_write
    then (write, concat ("git " ∷ subcommand ∷ " modifies the working tree" ∷ []))
    else if elem subcommand git_read_only
    then (read_only, "")
    else if same subcommand "config" && elem "--global" args
    then (high, "git config --global changes settings outside the repo")
    else if elem subcommand ("reset" ∷ "clean" ∷ [])
    then (high, concat ("git " ∷ subcommand ∷ " can discard work irreversibly" ∷ []))
    else (high, concat ("unrecognized git subcommand: " ∷ or_none subcommand ∷ []))

unfoldable pub classify_find : List String → Grade
classify_find args =
    if elem "-delete" args
    then (high, "find -delete removes files")
    else if elem "-exec" args || elem "-execdir" args || elem "-ok" args
    then (high, "find -exec runs arbitrary commands")
    else (read_only, "")

-- `argv[argv.index(name) + 1 :]`
unfoldable pub after_elem : String → List String → List String
after_elem name [] = []
after_elem name (a ∷ args) = if same a name then args else after_elem name args

-- The first of a list, or `""`.
abbrev head_or_empty : List String → String
head_or_empty [] = ""
head_or_empty (a ∷ args) = a

unfoldable pub classify_interpreter : List String → String → Grade
unfolding first_operand after_elem
classify_interpreter args name =
    if any (λ flag. elem flag args) ("-c" ∷ "-e" ∷ "--eval" ∷ "--command" ∷ [])
    then (high, concat (name ∷ " -c runs code that cannot be inspected statically" ∷ []))
    else if elem "-m" args
    then (let module_name = head_or_empty (after_elem "-m" args) in
        if elem module_name ("pytest" ∷ "unittest" ∷ [])
        then (test, "")
        else (write, concat (name ∷ " -m " ∷ or_none module_name ∷ [])))
    else (let script = first_operand args in
        if not (truthy script)
        then (high, concat (name ∷ " without a script starts an interactive shell" ∷ []))
        else if starts_with script "/" || starts_with script ".."
        then (high, concat (name ∷ " runs a script outside the workspace: " ∷ script ∷ []))
        else (write, concat (name ∷ " runs " ∷ script ∷ [])))

unfoldable pub classify_read_only : List String → String → Grade
classify_read_only args name =
    if same name "sed" && any (λ token. starts_with token "-i") args
    then (write, "sed -i rewrites files in place")
    else if elem name ("chmod" ∷ "chown" ∷ [])
    then (write, concat (name ∷ " changes file metadata" ∷ []))
    else (read_only, "")

unfoldable pub classify_make : List String → Grade
unfolding first_operand
classify_make args =
    let target = first_operand args in
    if elem target ("test" ∷ "lint" ∷ "check" ∷ [])
    then (test, "")
    else (write, concat ("make " ∷ target ∷ []))
