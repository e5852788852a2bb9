-- ===== src/Executor/Receipts.antt =====
-- The intents and receipts that a tool call leaves in the trace.
use moss_code.Base.{
  ◌≡◌, refl, ap, ◌∙◌, String, Bool, true, Option, none, some, List, [], ◌∷◌, ◌++◌, if◌then◌else◌,
}
use moss_code.Shell.Command.{ShellLib}
use moss_code.Executor.Runtime.{
  Agent, State, Tool, ToolExecutionResult, ApprovalReceipt, Entry, action_intent, action_receipt,
  Outcome, returned, raised, ToolRunOutput, Metadata,
}
use moss_code.Executor.Run.{
  run_cleared, emit_intent, emit_receipt, finish, fail, conclude, run_from, receipt_or_none,
}

append-two {ℓ} :
    {A : Type ℓ} (xs : List A) (x y : A) → (xs ++ (x ∷ [])) ++ (y ∷ []) ≡ xs ++ (x ∷ y ∷ [])
append-two [] x y = refl
append-two (a ∷ xs) x y = ap (λ r. a ∷ r) (append-two xs x y)

module _ (W Args : Type 0) (fnmatch : String → String → Bool) (lib : ShellLib)
    (agent : Agent W Args) where
  -- The receipt of a call, with the status and the paths that the call returns.
  abbrev pub receipt_of_result : String → ToolExecutionResult → Entry
  receipt_of_result id r = action_receipt id r.metadata.tool_status r.metadata.affected_paths

  updated-trace :
      (id : String) (metadata : Metadata) (s : State W) (w : Option W)
      → agent.has_task ≡ true
      → agent.update_undo s.world id metadata.affected_paths ≡ w
      → (emit_receipt W Args fnmatch lib agent (some id) metadata s).trace
        ≡ s.trace ++ (action_receipt id metadata.tool_status metadata.affected_paths ∷ [])
  unfolding emit_receipt
  updated-trace id metadata s none h e = rw (emit_receipt, h, e)
  updated-trace id metadata s (some w) h e = rw (emit_receipt, h, e)

  emit_receipt-trace :
      (id : String) (metadata : Metadata) (s : State W)
      → agent.has_task ≡ true
      → (emit_receipt W Args fnmatch lib agent (some id) metadata s).trace
        ≡ s.trace ++ (action_receipt id metadata.tool_status metadata.affected_paths ∷ [])
  emit_receipt-trace id metadata s h =
      updated-trace id metadata s (agent.update_undo s.world id metadata.affected_paths) h refl

  finish-trace :
      (name : String) (args : Args) (tool : Tool) (id : String) (w : W) (output : ToolRunOutput)
      (content : String) (s : State W)
      → agent.has_task ≡ true
      → let r : ToolExecutionResult × State W =
          finish W Args fnmatch lib agent name args tool (some id) w output content s in
        r.1.trace ≡ s.trace ++ (receipt_of_result id r.0 ∷ [])
  unfolding finish
  finish-trace name args tool id w output content s h = emit_receipt-trace id _ _ h

  fail-trace :
      (name : String) (args : Args) (tool : Tool) (id : String) (w : W) (exc : String) (s : State W)
      → agent.has_task ≡ true
      → let r : ToolExecutionResult × State W =
          fail W Args fnmatch lib agent name args tool (some id) w exc s in
        r.1.trace ≡ s.trace ++ (receipt_of_result id r.0 ∷ [])
  unfolding fail
  fail-trace name args tool id w exc s h = emit_receipt-trace id _ _ h

  emit_intent-some :
      (name : String) (receipt : Option ApprovalReceipt) (s : State W) (w : W)
      → agent.has_task ≡ true
      → agent.capture_undo s.world (agent.new_action_id s.world) (receipt_or_none receipt) ≡ some w
      → emit_intent W Args fnmatch lib agent name receipt s ≡ (
        some (agent.new_action_id s.world),
        record s {
          world = w;
          trace = s.trace ++ (action_intent (agent.new_action_id s.world) name ∷ []);
        },
      )
  unfolding emit_intent
  emit_intent-some name receipt s w h undo = rw (emit_intent, h, undo)

  conclude-trace :
      (name : String) (args : Args) (tool : Tool) (id : String) (w : W)
      (o : Outcome (ToolRunOutput × String)) (s : State W)
      → agent.has_task ≡ true
      → let r : ToolExecutionResult × State W =
          conclude W Args fnmatch lib agent name args tool (some id) w o s in
        r.1.trace ≡ s.trace ++ (receipt_of_result id r.0 ∷ [])
  unfolding conclude
  conclude-trace name args tool id w (raised exc) s h = fail-trace name args tool id w exc s h
  conclude-trace name args tool id w (returned (output, content)) s h =
      finish-trace name args tool id w output content s h

  run_from-trace :
      (name : String) (args : Args) (tool : Tool) (id : String) (w : W) (s : State W)
      → agent.has_task ≡ true
      → let r : ToolExecutionResult × State W =
          run_from W Args fnmatch lib agent name args tool w (some id, s) in
        r.1.trace ≡ s.trace ++ (receipt_of_result id r.0 ∷ [])
  unfolding run_from
  run_from-trace name args tool id w s h = conclude-trace name args tool id w _ _ h

  started-some :
      (name : String) (tool : Tool) (receipt : Option ApprovalReceipt) (s : State W) (w : W)
      → tool.risky ≡ true
      → agent.has_task ≡ true
      → agent.capture_undo s.world (agent.new_action_id s.world) (receipt_or_none receipt) ≡ some w
      → (if tool.risky then emit_intent W Args fnmatch lib agent name receipt s else (none, s)) ≡ (
        some (agent.new_action_id s.world),
        record s {
          world = w;
          trace = s.trace ++ (action_intent (agent.new_action_id s.world) name ∷ []);
        },
      )
  started-some name tool receipt s w risky h undo =
      rw risky (emit_intent-some name receipt s w h undo)

  -- While a task is current and where the undo record can be written, a risky tool that runs leaves exactly an intent and then its
  -- receipt in the trace, with the status and the paths of its result, both where it returns and where it
  -- raises.
  pub run_cleared-receipt :
      (name : String) (args : Args) (tool : Tool) (receipt : Option ApprovalReceipt) (s : State W)
      (w : W)
      → tool.risky ≡ true
      → agent.has_task ≡ true
      → agent.capture_undo s.world (agent.new_action_id s.world) (receipt_or_none receipt) ≡ some w
      → let r : ToolExecutionResult × State W =
          run_cleared W Args fnmatch lib agent name args tool receipt s in
        r.1.trace
        ≡ s.trace
          ++ (action_intent (agent.new_action_id s.world) name
              ∷ receipt_of_result (agent.new_action_id s.world) r.0
              ∷ [])
  unfolding run_cleared
  run_cleared-receipt name args tool receipt s w risky h undo =
      rw (started-some name tool receipt s w risky h undo) (
        run_from-trace name args tool (agent.new_action_id s.world) s.world _ h
        ∙ append-two s.trace _ _)
