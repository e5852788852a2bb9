-- ===== src/Approval/Tests.antt =====
-- Approvals under each policy, and the theorems of this folder at them. The arguments are one text.
use moss_code.Base.{◌≡◌, refl, String, Bool, true, false, List, [], ◌∷◌}
use moss_code.Shell.Command.{ShellLib}
use moss_code.Shell.Split.{tokens}
use moss_code.Approval.{
  Approver, approve, ask_for_approval, take_answer, is_network_command, network_hosts_refused,
}
use moss_code.Approval.Asks.{agrees, approve-suspected}

abbrev sample_lib : ShellLib
sample_lib = record { lower = λ s. s; lex = λ line. tokens (line ∷ []) }

abbrev text : String → String → String
text key args = args

abbrev is_risky : String → Bool
is_risky name = true

abbrev no_host : String → List String
no_host command = []

abbrev approver : String → Bool → Approver
approver policy suspected = record {
  read_only = false;
  approval_policy = policy;
  allowed_network_hosts = [];
  injection_suspected = suspected;
  memory = [];
}

never_run :
    (approve String sample_lib text is_risky no_host "y" "write_file" "a.py"
      (approver "never" false)).0
    ≡ false
unfolding approve ask_for_approval take_answer is_network_command network_hosts_refused
never_run = refl

asked_run :
    (approve String sample_lib text is_risky no_host "y" "write_file" "a.py"
      (approver "ask" true)).0
    ≡ true
unfolding approve ask_for_approval take_answer is_network_command network_hosts_refused
asked_run = refl

approve-suspected_example :
    ((approve String sample_lib text is_risky no_host "y" "write_file" "a.py"
          (approver "ask" true)).0
        ≡ true
      → agrees String sample_lib text is_risky no_host "y" ≡ true)
    × ((approve String sample_lib text is_risky no_host "y" "write_file" "a.py"
          (approver "ask" true)).1
        ≡ approver "ask" true)
approve-suspected_example =
    approve-suspected String sample_lib text is_risky no_host "y" "write_file" "a.py"
      (approver "ask" true) refl
