-- ===== src/Approval.antt =====
-- The approval of risky tools in moss/execution/service.py, with the memory of earlier answers.
-- The regular expression that finds the hosts of a command is a parameter, and so is the user's answer,
-- which is stripped and in lower case.
pub mod Asks
mod Tests
use Prim.Native.Char.{code}
use Prim.Native.String
use moss_code.Base.{
  String, Bool, true, false, not, ◌&&◌, ◌||◌, Option, none, some, List, [], ◌∷◌, if◌then◌else◌,
  ◌==◌, same, truthy, elem, filter, strip,
}
use moss_code.Shell.Risk.{RiskLevel, read_only, test, write, network, high, denied}
use moss_code.Shell.Command.{ShellLib, classify_shell_command, host_allowed}
use moss_code.Executor.Texts.{slashes, lstrip_dots}

-- The tool, its risk and the bucket of its path or program.
pub record ApprovalClass : Type 0 where
  pub tool : String
  pub risk : String
  pub bucket : String

abbrev pub same_class : ApprovalClass → ApprovalClass → Bool
same_class a b = same a.tool b.tool && same a.risk b.risk && same a.bucket b.bucket

pub record Approver : Type 0 where
  pub read_only : Bool
  pub approval_policy : String
  pub allowed_network_hosts : List String
  pub injection_suspected : Bool
  pub memory : List (ApprovalClass × Bool)

unfoldable pub remembered : ApprovalClass → List (ApprovalClass × Bool) → Option Bool
remembered c [] = none
remembered c ((d, b) ∷ rest) = if same_class d c then some b else remembered c rest

unfoldable pub remember :
    ApprovalClass → Bool → List (ApprovalClass × Bool) → List (ApprovalClass × Bool)
remember c b [] = (c, b) ∷ []
remember c b ((d, e) ∷ rest) =
    let later = remember c b rest in if same_class d c then (d, b) ∷ rest else (d, e) ∷ later

unfoldable pub level_text : RiskLevel → String
level_text read_only = "read_only"
level_text test = "test"
level_text write = "write"
level_text network = "network"
level_text high = "high"
level_text denied = "denied"

-- `argvs[0][0] if argvs and argvs[0] else ""`
abbrev first_word : List (List String) → String
first_word [] = ""
first_word ([] ∷ rest) = ""
first_word ((w ∷ ws) ∷ rest) = w

-- `path.split("/", 1)[0]`
abbrev before_slash : String → String
before_slash String.[] = String.[]
before_slash (String.◌∷◌ c s) =
    let rest = before_slash s in if code c == 47 then String.[] else String.◌∷◌ c rest

module _ (Args : Type 0) (lib : ShellLib) (arg_text : String → Args → String)
    (risky : String → Bool) (extract_hosts : String → List String) where
  abbrev is_shell : String → Bool
  is_shell name = same name "run_shell"

  unfoldable pub approval_class : String → Args → ApprovalClass
  unfolding classify_shell_command level_text strip
  approval_class name args =
      let classified = classify_shell_command lib (arg_text "command" args) in
      let raw_path = strip (arg_text "path" args) in
      if is_shell name
      then (record {
        tool = name;
        risk = level_text classified.level;
        bucket = first_word classified.argvs;
      })
      else (record {
        tool = name;
        risk = if risky name then "high" else "low";
        bucket = if truthy raw_path then before_slash (lstrip_dots (slashes raw_path)) else "";
      })

  unfoldable pub is_network_command : String → Args → Bool
  unfolding classify_shell_command
  is_network_command name args =
      is_shell name && elim (classify_shell_command lib (arg_text "command" args)).level [
        | network ↦ true
        | _ ↦ false
      ]

  abbrev pub no_hosts : List String → Bool
  no_hosts [] = true
  no_hosts (h ∷ hs) = false

  unfoldable pub network_hosts_refused : Approver → String → Args → List String
  network_hosts_refused a name args =
      if not (is_shell name) || no_hosts a.allowed_network_hosts
      then []
      else filter (λ host. not (host_allowed lib.lower host a.allowed_network_hosts))
          (extract_hosts (arg_text "command" args))

  abbrev pub is_always : String → Bool
  is_always answer = elem answer ("a" ∷ "always" ∷ [])

  abbrev pub is_never : String → Bool
  is_never answer = elem answer ("d" ∷ "never" ∷ [])

  abbrev pub is_once : String → Bool
  is_once answer = elem answer ("y" ∷ "yes" ∷ [])

  -- What an answer decides, and what is remembered of it.
  unfoldable pub take_answer : String → ApprovalClass → Approver → Bool × Approver
  take_answer answer c a =
      let keep = λ (b : Bool).
        if a.injection_suspected then a else record a { memory = remember c b a.memory } in
      if is_always answer
      then (true, keep true)
      else if is_never answer
      then (false, keep false)
      else (is_once answer, a)

  unfoldable pub ask_for_approval : String → String → Args → Approver → Bool × Approver
  unfolding take_answer
  ask_for_approval answer name args a =
      let c = approval_class name args in
      let asked = take_answer answer c a in
      if a.injection_suspected
      then asked
      else elim (remembered c a.memory) [ none ↦ asked | some b ↦ (b, a) ]

  unfoldable pub approve : String → String → Args → Approver → Bool × Approver
  approve answer name args a =
      let asked = ask_for_approval answer name args a in
      let is_auto = same a.approval_policy "auto" in
      if a.read_only
      then (false, a)
      else if not (no_hosts (network_hosts_refused a name args))
      then (false, a)
      else if is_auto && is_network_command name args
      then asked
      else if is_auto && a.injection_suspected
      then asked
      else if is_auto
      then (true, a)
      else if same a.approval_policy "never"
      then (false, a)
      else asked
