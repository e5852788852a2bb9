-- ===== src/Executor/Refuse.antt =====
-- What the guards of a tool call have established when the tool runs, and what a refusal leaves.
use moss_code.Base.{
  elem_of_In, ◌≡◌, refl, subst, not, concat, inl, inr, ◌∙◌, [], ◌∷◌, In, elem, strip, String, Bool,
  true, false, Option, none, some, if◌then◌else◌, truthy, arith, Bool-cases,
}
use Prim.Native.String
use text.Mathlib.TextLemmas.{nil-append, cons-append}
use moss_code.Policy.{PolicyDecision}
use moss_code.Shell.Command.{ShellLib}
use moss_code.Executor.Runtime.{Agent, State, Tool, ToolExecutionResult, ApprovalReceipt}
use moss_code.Executor.Guards.{
  Guarded, refused, cleared, rejected, is_allowed, policy_decision, denied_shell_reason,
  build_receipt, stale_paths, same_sha, stale_preconditions, check_call, ask, guards,
}

truthy-append_right : (s t : String) → truthy t ≡ true → truthy (String.◌++◌ s t) ≡ true
truthy-append_right String.[] t h = rw (nil-append t) h
truthy-append_right (String.◌∷◌ c s) t h = rw (cons-append c s t)

-- A path of which there is nothing to tell is no link and has not changed.
quiet :
    (link unchanged : Bool) (path : String)
    → truthy (
        if link
        then concat (path ∷ " is now a symlink" ∷ [])
        else if not unchanged
        then concat (path ∷ " changed on disk" ∷ [])
        else "")
      ≡ false
    → (link ≡ false) × (unchanged ≡ true)
quiet true unchanged path h =
    absurd (ground (arith, truthy-append_right path " is now a symlink" refl))
quiet false true path h = (refl, refl)
quiet false false path h = absurd (ground (arith, truthy-append_right path " changed on disk" refl))

module _ (W Args : Type 0) (fnmatch : String → String → Bool) (lib : ShellLib)
    (agent : Agent W Args) where
  -- The guards that ask no one hold.
  pub record IsPermitted (w : W) (tool : Tool) (name : String) (args : Args) : Type 0 where
    pub valid : agent.validate_tool w name args ≡ none
    pub by_policy :
        (d : PolicyDecision)
        → policy_decision W Args fnmatch lib agent w tool args ≡ some d
        → d.allowed ≡ true
    pub not_denied : truthy (denied_shell_reason W Args fnmatch lib agent name args) ≡ false
    pub not_repeated : agent.repeated_tool_call w name args ≡ false

  IsPermitted-of_check :
      (w : W) (tool : Tool) (name : String) (args : Args)
      → check_call W Args fnmatch lib agent w tool name args ≡ none
      → IsPermitted w tool name args
  unfolding check_call
  IsPermitted-of_check w tool name args h = record {
    valid = ground arith;
    by_policy = λ d e. ground arith;
    not_denied = ground arith;
    not_repeated = ground arith;
  }

  -- The file that a call writes is no link, and is what it was when the approval was asked for.
  pub record IsUnchanged (before after : W) (path : String) : Type 0 where
    pub no_symlink : agent.is_symlink after path ≡ false
    pub same_content :
        same_sha W Args fnmatch lib agent
          (agent.file_sha256 after path)
          (agent.file_sha256 before path)
        ≡ true

  -- The hook and the user agreed, and what the user saw still holds.
  pub record IsAgreed (tool : Tool) (name : String) (args : Args) (s s' : State W)
      (receipt : Option ApprovalReceipt) : Type 0 where
    pub by_hook : (agent.fire_pre_tool s.world name args).0 ≡ none
    pub approved :
        tool.risky ≡ true
        → (agent.approve (agent.fire_pre_tool s.world name args).1 name args).0 ≡ true
    pub unchanged :
        tool.risky ≡ true
        → In name ("write_file" ∷ "edit_file" ∷ [])
        → truthy (strip (agent.arg_text "path" args)) ≡ true
        → (path : String)
        → agent.path (agent.fire_pre_tool s.world name args).1 (strip (agent.arg_text "path" args))
          ≡ some path
        → IsUnchanged (agent.fire_pre_tool s.world name args).1 s'.world path
    pub no_receipt : tool.risky ≡ false → receipt ≡ none
    pub same_trace : s'.trace ≡ s.trace

  -- A refusal says that it is one, and adds no intent and no receipt to the ledger.
  abbrev pub IsRefusal : State W → ToolExecutionResult → State W → Type 0
  IsRefusal s result s' =
      (result.metadata.tool_status ≡ "rejected")
      × (result.metadata.workspace_changed ≡ false)
      × (s'.trace ≡ s.trace)

  abbrev IsAsked : Tool → String → Args → State W → Guarded W → Type 0
  IsAsked tool name args s (refused result s') = IsRefusal s result s'
  IsAsked tool name args s (cleared other receipt s') =
      (tool ≡ other) × IsAgreed tool name args s s' receipt

  -- The world after the hook, the receipt, and the answer of the user with the world after it.
  abbrev hooked : String → Args → State W → W
  hooked name args s = (agent.fire_pre_tool s.world name args).1

  abbrev answer : Tool → String → Args → State W → Bool × W
  answer tool name args s =
      if tool.risky
      then agent.approve (hooked name args s) name args
      else (true, hooked name args s)

  abbrev receipt_of : Tool → String → Args → State W → Option ApprovalReceipt
  receipt_of tool name args s =
      if tool.risky
      then build_receipt W Args fnmatch lib agent (hooked name args s) name args
      else none

  abbrev stale_of : Tool → String → Args → State W → String
  stale_of tool name args s =
      stale_preconditions W Args fnmatch lib agent (answer tool name args s).1
        (receipt_of tool name args s)

  receipt_of-none :
      (tool : Tool) (name : String) (args : Args) (s : State W)
      → tool.risky ≡ false
      → receipt_of tool name args s ≡ none
  receipt_of-none tool name args s safe = rw safe refl

  risky_receipt :
      (tool : Tool) (name : String) (args : Args) (s : State W)
      → tool.risky ≡ true
      → receipt_of tool name args s
        ≡ build_receipt W Args fnmatch lib agent (hooked name args s) name args
  risky_receipt tool name args s risky = rw risky refl

  -- Of one path that is not stale.
  path-IsUnchanged :
      (before after : W) (path : String)
      → truthy
          (stale_paths W Args fnmatch lib agent after ((path, agent.file_sha256 before path) ∷ []))
        ≡ false
      → IsUnchanged before after path
  unfolding stale_paths
  path-IsUnchanged before after path h =
      let (real, same_file) =
        quiet (agent.is_symlink after path)
          (same_sha W Args fnmatch lib agent (agent.file_sha256 after path)
            (agent.file_sha256 before path))
          path h in
      record { no_symlink = real; same_content = same_file }

  built_receipt :
      (w : W) (name : String) (args : Args) (path : String)
      → elem name ("write_file" ∷ "edit_file" ∷ []) ≡ true
      → truthy (strip (agent.arg_text "path" args)) ≡ true
      → agent.path w (strip (agent.arg_text "path" args)) ≡ some path
      → build_receipt W Args fnmatch lib agent w name args
        ≡ some record {
          tool = name;
          expected_sha256 = (path, agent.file_sha256 w path) ∷ [];
          diff_digest = agent.sha256 (agent.file_change_preview w name args);
        }
  unfolding build_receipt
  built_receipt w name args path writes named at = rw (writes, named, at) refl

  receipt-IsUnchanged :
      (tool : Tool) (name : String) (args : Args) (s : State W)
      → truthy (stale_of tool name args s) ≡ false
      → tool.risky ≡ true
      → In name ("write_file" ∷ "edit_file" ∷ [])
      → truthy (strip (agent.arg_text "path" args)) ≡ true
      → (path : String)
      → agent.path (hooked name args s) (strip (agent.arg_text "path" args)) ≡ some path
      → IsUnchanged (hooked name args s) (answer tool name args s).1 path
  unfolding stale_preconditions
  receipt-IsUnchanged tool name args s fresh risky writes named path at =
      path-IsUnchanged (hooked name args s) (answer tool name args s).1 path (
        subst
          (λ (r : Option ApprovalReceipt).
            truthy (stale_preconditions W Args fnmatch lib agent (answer tool name args s).1 r)
            ≡ false)
          (risky_receipt tool name args s risky
            ∙ built_receipt (hooked name args s) name args path (elem_of_In name _ writes) named at)
          fresh)

  answer-approved :
      (tool : Tool) (name : String) (args : Args) (s : State W)
      → (answer tool name args s).0 ≡ true
      → tool.risky ≡ true
      → (agent.approve (hooked name args s) name args).0 ≡ true
  answer-approved tool name args s h risky = ground arith

  ask-IsAsked :
      (tool : Tool) (name : String) (args : Args) (s : State W) (hook : Option String)
      → (agent.fire_pre_tool s.world name args).0 ≡ hook
      → IsAsked tool name args s (ask W Args fnmatch lib agent tool name args s)
  unfolding ask rejected
  ask-IsAsked tool name args s (some reason) e = rw (ask, e) (refl, refl, refl)
  ask-IsAsked tool name args s none e = elim (Bool-cases (answer tool name args s).0) [
    | inr declined ↦ rw (ask, e, declined) (refl, refl, refl)
    | inl agreed ↦ elim (Bool-cases (truthy (stale_of tool name args s))) [
      | inl stale ↦ rw (ask, e, agreed, stale) (refl, refl, refl)
      | inr fresh ↦
          rw (ask, e, agreed, fresh)
            (
              refl,
              record {
                by_hook = e;
                approved = answer-approved tool name args s agreed;
                unchanged = λ risky writes named path at.
                    receipt-IsUnchanged tool name args s fresh risky writes named path at;
                no_receipt = receipt_of-none tool name args s;
                same_trace = refl;
              },
            )
    ]
  ]

  -- What the guards say: a refusal, or a call that is known, allowed, permitted and agreed to.
  abbrev pub Verdict : String → Args → State W → Guarded W → Type 0
  Verdict name args s (refused result s') = IsRefusal s result s'
  Verdict name args s (cleared tool receipt s') =
      (is_allowed (agent.effective_allowed_tools s.world) name ≡ true)
      × (agent.tools name ≡ some tool)
      × IsPermitted s.world tool name args
      × IsAgreed tool name args s s' receipt

  check_call-rejected :
      (w : W) (tool : Tool) (name : String) (args : Args) (result : ToolExecutionResult)
      → check_call W Args fnmatch lib agent w tool name args ≡ some result
      → (result.metadata.tool_status ≡ "rejected") × (result.metadata.workspace_changed ≡ false)
  unfolding check_call rejected
  check_call-rejected w tool name args result h = (ground arith, ground arith)

  asked-Verdict :
      (name : String) (args : Args) (s : State W) (tool : Tool) (g : Guarded W)
      → is_allowed (agent.effective_allowed_tools s.world) name ≡ true
      → agent.tools name ≡ some tool
      → check_call W Args fnmatch lib agent s.world tool name args ≡ none
      → IsAsked tool name args s g
      → Verdict name args s g
  asked-Verdict name args s tool (refused result s') allowed known check h = h
  asked-Verdict name args s tool (cleared other receipt s') allowed known check (e, h) =
      subst
        (λ t.
          (is_allowed (agent.effective_allowed_tools s.world) name ≡ true)
          × (agent.tools name ≡ some t)
          × IsPermitted s.world t name args
          × IsAgreed t name args s s' receipt)
        e (allowed, known, IsPermitted-of_check s.world tool name args check, h)

  known-Verdict :
      (name : String) (args : Args) (s : State W) (tool : Tool) (check : Option ToolExecutionResult)
      → is_allowed (agent.effective_allowed_tools s.world) name ≡ true
      → agent.tools name ≡ some tool
      → check_call W Args fnmatch lib agent s.world tool name args ≡ check
      → Verdict name args s (guards W Args fnmatch lib agent name args s)
  unfolding guards
  known-Verdict name args s tool (some result) allowed known e =
      let (status, unchanged) = check_call-rejected s.world tool name args result e in
      rw (guards, allowed, known, e) (status, unchanged, refl)
  known-Verdict name args s tool none allowed known e =
      rw (guards, allowed, known, e)
        (asked-Verdict name args s tool (ask W Args fnmatch lib agent tool name args s) allowed
          known e (ask-IsAsked tool name args s (agent.fire_pre_tool s.world name args).0 refl))

  looked_up-Verdict :
      (name : String) (args : Args) (s : State W) (tool : Option Tool)
      → is_allowed (agent.effective_allowed_tools s.world) name ≡ true
      → agent.tools name ≡ tool
      → Verdict name args s (guards W Args fnmatch lib agent name args s)
  unfolding guards rejected
  looked_up-Verdict name args s none allowed e = rw (guards, allowed, e) (refl, refl, refl)
  looked_up-Verdict name args s (some tool) allowed e =
      known-Verdict name args s tool (check_call W Args fnmatch lib agent s.world tool name args)
        allowed e refl

  -- A tool is cleared to run only if the run allows it and knows it, its arguments are valid, the policy and
  -- the deny list of the shell let it pass, it does not repeat the last calls, the hook did not deny it,
  -- the user approved it if it is risky, and the file that a risky write or edit goes to, where its path
  -- resolves, is no link and has the digest that it had before the user was asked; any other call is
  -- rejected. Neither way is an intent or a receipt added to the ledger.
  pub guards-Verdict :
      (name : String) (args : Args) (s : State W)
      → Verdict name args s (guards W Args fnmatch lib agent name args s)
  unfolding guards rejected
  guards-Verdict name args s =
      elim (Bool-cases (is_allowed (agent.effective_allowed_tools s.world) name)) [
        | inl allowed ↦ looked_up-Verdict name args s (agent.tools name) allowed refl
        | inr e ↦ rw (guards, e) (refl, refl, refl)
      ]
