-- ===== src/Approval/Asks.antt =====
-- When a risky tool is approved.
use moss_code.Base.{
  sym, subst, inl, inr, ◌⊎◌, ◌&&◌, if◌then◌else◌, not, same, ◌≡◌, ◌≢◌, refl, String, Bool, true,
  false, ◌||◌, List, [], ◌∷◌, arith, eq_iff,
}
use moss_code.Shell.Command.{ShellLib}
use moss_code.Approval.{
  Approver, ApprovalClass, is_always, is_once, take_answer, ask_for_approval, approve,
  is_network_command, no_hosts, network_hosts_refused, approval_class,
}

-- Under suspicion, every way through the policy refuses or asks.
choice_suspected :
    {B : Type 0} (refuse asked free : B) (reads hosts auto net suspected never : Bool)
    → suspected ≡ true
    → let r : B =
        if reads
        then refuse
        else if hosts
        then refuse
        else if auto && net
        then asked
        else if auto && suspected
        then asked
        else if auto
        then free
        else if never
        then refuse
        else asked in
      (r ≡ refuse) ⊎ (r ≡ asked)
choice_suspected refuse asked free true hosts auto net suspected never h = inl refl
choice_suspected refuse asked free false true auto net suspected never h = inl refl
choice_suspected refuse asked free false false true true suspected never h = inr refl
choice_suspected refuse asked free false false true false true never h = inr refl
choice_suspected refuse asked free false false true false false never h = cc
choice_suspected refuse asked free false false false net suspected true h = inl refl
choice_suspected refuse asked free false false false net suspected false h = inr refl

module _ (Args : Type 0) (lib : ShellLib) (arg_text : String → Args → String)
    (risky : String → Bool) (extract_hosts : String → List String) where
  -- The user agreed, once or for good.
  abbrev pub agrees : String → Bool
  agrees answer =
      is_always Args lib arg_text risky extract_hosts answer
      || is_once Args lib arg_text risky extract_hosts answer

  no_hosts-empty :
      (hosts : List String)
      → no_hosts Args lib arg_text risky extract_hosts hosts ≡ true
      → hosts ≡ []
  no_hosts-empty [] h = refl
  no_hosts-empty (x ∷ hosts) h = cc

  suspected_answer :
      (answer : String) (c : ApprovalClass) (a : Approver)
      → a.injection_suspected ≡ true
      → ((take_answer Args lib arg_text risky extract_hosts answer c a).0 ≡ true
          → agrees answer ≡ true)
        × ((take_answer Args lib arg_text risky extract_hosts answer c a).1 ≡ a)
  unfolding take_answer
  suspected_answer answer c a h = (ground arith, ground arith)

  abbrev IsAnswered : String → Approver → Bool × Approver → Type 0
  IsAnswered answer a (approved, later) = (approved ≡ true → agrees answer ≡ true) × (later ≡ a)

  asked-IsAnswered :
      (answer name : String) (args : Args) (a : Approver)
      → a.injection_suspected ≡ true
      → IsAnswered answer a
          (ask_for_approval Args lib arg_text risky extract_hosts answer name args a)
  unfolding ask_for_approval
  asked-IsAnswered answer name args a h =
      either-IsAnswered _ _ a.injection_suspected h (
        suspected_answer answer (approval_class Args lib arg_text risky extract_hosts name args) a
          h)
    where
      either-IsAnswered :
          (x y : Bool × Approver) (b : Bool)
          → b ≡ true
          → IsAnswered answer a x
          → IsAnswered answer a (if b then x else y)
      either-IsAnswered x y true e k = k
      either-IsAnswered x y false e k = cc

  refused-IsAnswered : (answer : String) (a : Approver) → IsAnswered answer a (false, a)
  refused-IsAnswered answer a = (λ t. cc, refl)

  -- While an injection is suspected, a tool is approved only if the user agrees to this call, whatever the
  -- policy and the earlier answers are, and no answer is remembered.
  pub approve-suspected :
      (answer name : String) (args : Args) (a : Approver)
      → a.injection_suspected ≡ true
      → ((approve Args lib arg_text risky extract_hosts answer name args a).0 ≡ true
          → agrees answer ≡ true)
        × ((approve Args lib arg_text risky extract_hosts answer name args a).1 ≡ a)
  unfolding approve
  approve-suspected answer name args a h =
      elim (choice_suspected (false, a)
        (ask_for_approval Args lib arg_text risky extract_hosts answer name args a) (true, a)
        a.read_only
        (not (
          no_hosts Args lib arg_text risky extract_hosts
            (network_hosts_refused Args lib arg_text risky extract_hosts a name args)))
        (same a.approval_policy "auto")
        (is_network_command Args lib arg_text risky extract_hosts name args) a.injection_suspected
        (same a.approval_policy "never") h) [
          | inl refuse ↦ subst (IsAnswered answer a) (sym refuse) (refused-IsAnswered answer a)
          | inr asked ↦
              subst (IsAnswered answer a) (sym asked) (asked-IsAnswered answer name args a h)
        ]

  -- An approved call is not one of a read-only run, names no host outside the allowlist of hosts, and the
  -- policy is not `never`.
  pub approve-permitted :
      (answer name : String) (args : Args) (a : Approver)
      → (approve Args lib arg_text risky extract_hosts answer name args a).0 ≡ true
      → (a.read_only ≡ false)
        × (network_hosts_refused Args lib arg_text risky extract_hosts a name args ≡ [])
        × (a.approval_policy ≢ "never")
  unfolding approve
  approve-permitted answer name args a h = (
    ground arith,
    no_hosts-empty (network_hosts_refused Args lib arg_text risky extract_hosts a name args)
        (ground arith),
    λ e. ground (
      arith,
      eq_iff a.approval_policy "never",
      eq_iff a.approval_policy "auto",
      eq_iff "never" "auto",
      e,
    ),
  )
