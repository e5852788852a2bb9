-- ===== src/Shell/Command.antt =====
-- `_pipes_into_interpreter`, `classify_shell_command` and `host_allowed` of
-- moss/execution/safety/shell.py.
use Prim.Native.String.{String}
use moss_code.Base.{
  strip, Bool, true, false, ◌&&◌, ◌||◌, none, some, List, [], ◌∷◌, ◌++◌, map, if◌then◌else◌, elem,
  find, same, concat, has_char, lstrip,
}
use moss_code.Shell.Risk.{RiskLevel, ShellRisk, high, denied, is_denied, max_level}
use moss_code.Shell.Pattern.{substitution, fork_bomb}
use moss_code.Shell.Names.{network_commands, interpreters}
use moss_code.Shell.Split.{Lexed, Segments, segments, unparsed, split_command_line}
use moss_code.Shell.Argv.{strip_wrappers}
use moss_code.Shell.Classify.{command_name, classify_argv}

-- What the program takes from Python's library: `str.lower`, and `shlex` on one line.
pub record ShellLib : Type 0 where
  pub lower : String → String
  pub lex : String → Lexed

abbrev flat_reasons : List ShellRisk → List String
flat_reasons [] = []
flat_reasons (r ∷ rs) = r.reasons ++ flat_reasons rs

module _ (lib : ShellLib) where
  -- The names that the first loop of `_pipes_into_interpreter` collects.
  unfoldable pub segment_names : List (List String) → List String
  segment_names [] = []
  segment_names (argv ∷ rest) = elim ((strip_wrappers argv).0) [
    | [] ↦ segment_names rest
    | first ∷ args ↦ command_name lib.lower first ∷ segment_names rest
  ]

  -- Its second loop: a network command directly before an interpreter.
  unfoldable pub feeds_interpreter : List String → Bool
  feeds_interpreter [] = false
  feeds_interpreter (a ∷ []) = false
  feeds_interpreter (a ∷ b ∷ rest) =
      (elem a network_commands && elem b interpreters) || feeds_interpreter (b ∷ rest)

  unfoldable pub pipes_into_interpreter : List (List String) → String → Bool
  unfolding segment_names feeds_interpreter
  pipes_into_interpreter segs command =
      has_char b'|' command && feeds_interpreter (segment_names segs)

  -- The end of `classify_shell_command`, from the risks of the segments on.
  unfoldable pub combine : List (List String) → Bool → List ShellRisk → ShellRisk
  combine segs undecidable risks = elim (find is_denied risks) [
    | some r ↦ record { level = denied; reasons = r.reasons; argvs = segs; undecidable = false }
    | none ↦
        let level = max_level (map (λ r. r.level) risks) in
        if undecidable
        then (record {
          level = max_level (level ∷ high ∷ []);
          reasons = flat_reasons risks ++ "command substitution cannot be analysed statically" ∷ [];
          argvs = segs;
          undecidable = true;
        })
        else (record {
          level = level;
          reasons = flat_reasons risks;
          argvs = segs;
          undecidable = false;
        })
  ]

  unfoldable pub classify_segments : String → Segments → ShellRisk
  unfolding combine
  classify_segments text (unparsed e) = record {
    level = high;
    reasons = concat ("cannot parse command: " ∷ e ∷ []) ∷ [];
    argvs = [];
    undecidable = true;
  }
  classify_segments text (segments []) = record {
    level = high;
    reasons = "no executable found" ∷ [];
    argvs = [];
    undecidable = true;
  }
  classify_segments text (segments (argv ∷ rest)) =
      let segs = argv ∷ rest in
      if pipes_into_interpreter segs text
      then (record {
        level = denied;
        reasons = "downloaded content is piped straight into an interpreter" ∷ [];
        argvs = segs;
        undecidable = false;
      })
      else combine segs (substitution text) (map (classify_argv lib.lower) segs)

  -- Behind `strip`.
  unfoldable pub classify_text : String → ShellRisk
  unfolding classify_segments
  classify_text text =
      if same text ""
      then (record { level = high; reasons = "empty command" ∷ []; argvs = []; undecidable = true })
      else if fork_bomb text
      then (record {
        level = denied;
        reasons = "fork bomb shape" ∷ [];
        argvs = [];
        undecidable = true;
      })
      else classify_segments text (split_command_line lib.lex text)

  unfoldable pub classify_shell_command : String → ShellRisk
  unfolding classify_text
  classify_shell_command command = classify_text (strip command)

  unfoldable pub classify_shell_command_level : String → RiskLevel
  unfolding classify_shell_command
  classify_shell_command_level command = (classify_shell_command command).level

-- `host.endswith(end)`
abbrev ends_with : String → String → Bool
ends_with String.[] end = same "" end
ends_with (String.◌∷◌ c s) end = same (String.◌∷◌ c s) end || ends_with s end

abbrev allowed_by : String → String → Bool
allowed_by host allowed = same host allowed || ends_with host (concat ("." ∷ allowed ∷ []))

-- The loop of `host_allowed` over the allowlist.
unfoldable pub host_allowed : (String → String) → String → List String → Bool
host_allowed lower host [] = false
host_allowed lower host (allowed ∷ rest) =
    allowed_by (lower host) (lstrip b'.' (lower allowed)) || host_allowed lower host rest
