-- ===== src/Shell/Names.antt =====
-- The sets of command names of moss/execution/safety/shell.py.
use moss_code.Base.{String, List, [], ◌∷◌}

unfoldable pub wrappers : List String
wrappers =
    "env" ∷ "nice" ∷ "nohup" ∷ "time" ∷ "command" ∷ "builtin" ∷ "exec" ∷ "stdbuf" ∷ "xargs" ∷ []

unfoldable pub privilege_wrappers : List String
privilege_wrappers = "sudo" ∷ "doas" ∷ "su" ∷ []

unfoldable pub read_only_commands : List String
read_only_commands =
    "ls" ∷ "cat" ∷ "head" ∷ "tail" ∷ "wc" ∷ "file" ∷ "stat" ∷ "pwd" ∷ "echo" ∷ "printf" ∷ "rg"
    ∷ "grep" ∷ "egrep" ∷ "fgrep" ∷ "sed" ∷ "awk" ∷ "cut" ∷ "sort" ∷ "uniq" ∷ "tr" ∷ "diff" ∷ "tree"
    ∷ "which" ∷ "type" ∷ "basename" ∷ "dirname" ∷ "realpath" ∷ "date" ∷ "dir" ∷ "findstr"
    ∷ "get-content" ∷ "select-string" ∷ []

unfoldable pub test_commands : List String
test_commands =
    "pytest" ∷ "tox" ∷ "nox" ∷ "ruff" ∷ "mypy" ∷ "pyright" ∷ "flake8" ∷ "eslint" ∷ "tsc" ∷ "jest"
    ∷ "vitest" ∷ []

unfoldable pub write_commands : List String
write_commands =
    "mkdir" ∷ "mv" ∷ "cp" ∷ "touch" ∷ "ln" ∷ "chmod" ∷ "chown" ∷ "tee" ∷ "patch" ∷ "sed-i" ∷ []

unfoldable pub network_commands : List String
network_commands =
    "curl" ∷ "wget" ∷ "nc" ∷ "netcat" ∷ "ssh" ∷ "scp" ∷ "rsync" ∷ "ftp" ∷ "telnet" ∷ "http"
    ∷ "httpie" ∷ []

unfoldable pub interpreters : List String
interpreters =
    "python" ∷ "python3" ∷ "node" ∷ "ruby" ∷ "perl" ∷ "php" ∷ "bash" ∷ "sh" ∷ "zsh" ∷ "fish"
    ∷ "dash" ∷ []

unfoldable pub package_managers : List String
package_managers =
    "pip" ∷ "pip3" ∷ "npm" ∷ "pnpm" ∷ "yarn" ∷ "uv" ∷ "poetry" ∷ "gem" ∷ "cargo" ∷ "go" ∷ "brew"
    ∷ "apt" ∷ "apt-get" ∷ []

unfoldable pub git_read_only : List String
git_read_only =
    "status" ∷ "log" ∷ "diff" ∷ "show" ∷ "branch" ∷ "remote" ∷ "rev-parse" ∷ "describe" ∷ "blame"
    ∷ "shortlog" ∷ []

unfoldable pub git_write : List String
git_write =
    "add" ∷ "commit" ∷ "restore" ∷ "switch" ∷ "checkout" ∷ "stash" ∷ "tag" ∷ "merge" ∷ "rebase"
    ∷ "cherry-pick" ∷ []

unfoldable pub git_network : List String
git_network = "push" ∷ "fetch" ∷ "pull" ∷ "clone" ∷ "submodule" ∷ []

unfoldable pub undecidable_commands : List String
undecidable_commands = "eval" ∷ "source" ∷ "." ∷ []

unfoldable pub catastrophic_paths : List String
catastrophic_paths =
    "/" ∷ "/*" ∷ "~" ∷ "~/" ∷ "/home" ∷ "/usr" ∷ "/etc" ∷ "/var" ∷ "/bin" ∷ "/lib" ∷ "/system" ∷ []
