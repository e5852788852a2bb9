-- ===== src/Lib.antt =====
-- moss, a local coding agent (moss/): a control loop around a model, which builds a prompt, parses what
-- the model returns, checks and runs the tools that it asks for, and keeps a record of every run.
--
-- The parts of the program that are modelled, and how they meet:
--
-- - Shell: moss/execution/safety/shell.py, the risk of a shell command. Risk has the levels; Pattern the
--   regular expressions; Names the lists of commands; Split split_command_line; Argv the wrappers and the
--   graders of single commands; Classify classify_argv; Command classify_shell_command and host_allowed.
--   Fuel, Lossless, Bounds, Flags, Delete and ReadOnly hold the proofs.
-- - Loop: moss/agent/loop.py, AgentLoop.run, with what it calls. World is what it uses of the agent and the
--   calls by which it acts; Notices its notices; Batch _execute_tool_batch; Finish the ends inside the loop;
--   Rounds and Turns one round of _run; Last the ends behind the loop; Run the loop itself and run. It uses
--   Task, Budget and Stall, and takes the executor (whose results it reads), the context and the model
--   as parameters. Quiet, Closed, Steps, Ends, Exits and Order hold the proofs.
-- - Parser: moss/agent/output_parser.py, the actions of one output of the model: Blocks the pattern of a block
--   and the searches in a text, Output parse_model_actions; Sound and Order the proofs, the second one about
--   what the loop runs of them. The loop takes the parser as a parameter.
-- - Tokens: moss/context/token_budget.py, the estimate of tokens and the cuts to a budget; Estimate and Clip
--   the proofs. The loop takes estimate_tokens as a parameter.
-- - Compact: moss/context/compaction.py, which part of the history is compacted (Steps), what the rules
--   (Extract) and a second model (Model) say of it, and the summary; Closure and Evidence the proofs. It cuts
--   its texts with Tokens.
-- - Prompt: moss/context/manager.py, the prompt of one turn: History the section of the history, Sections the
--   sections under their budgets (cut with Tokens), Reduce the reduction of the budgets and the gate, Native
--   the history as messages of a provider's tool protocol (with moss/context/native_history.py); Fits, Ends,
--   Gate and Balance the proofs.
-- - Memory: moss/memory/store.py with moss/memory/records.py, the durable memory as a log of immutable records;
--   Log is the text of its file; View has the log as a map; Changes, Trust and Torn the other proofs.
-- - Rewind: moss/runs/rewind.py, which brings the files and the session back to before the last steps, from
--   the records that the executor keeps of them; Latest, Files, Spared and Undo the proofs.
-- - Resume: moss/runs/checkpoint.py, what is still true of the last checkpoint when a session is resumed;
--   Valid the proof.
-- - Policy: moss/execution/safety/policy.py, capabilities and path scopes of a run; Rules the rules of
--   the command line; Build and Sound the proofs.
-- - Executor: moss/execution/executor.py, ToolExecutor.execute. Runtime is what it uses of the agent,
--   Texts has its small helpers, Guards the chain of checks (it calls Policy.decide and Shell's
--   classify_shell_command), Run the call of the tool with its intent and its receipt; Refuse and Receipts
--   the proofs.
-- - Approval: moss/execution/service.py, the approval of risky tools and the memory of answers (it uses
--   Shell's classify_shell_command and host_allowed); Asks the proofs.
-- - Ledger: moss/runs/ledger.py, the intents and receipts that the executor leaves, and the verdict after a
--   crash on an intent without a receipt; Pending and Verdicts the proofs.
-- - Lease: moss/runs/lease.py, by which one process sees whether the run of another is alive; Alive the
--   proofs.
-- - Task: moss/agent/state.py, the state of a run that the loop writes to disk; Form and Stops the
--   proofs.
-- - Budget: moss/agent/budget.py, the limits of a run; Limits and Reports the proofs.
-- - Stall: moss/agent/stall.py, whether the last tool events show that the run is stuck; Repeat, Storm and
--   Cycle the proofs.
-- - Router: moss/extensions/router.py, which of two models serves a task; Fallback the proofs.
-- - Index: moss/runs/index.py, which runs are old enough to be archived; Keep the proofs.
-- - Base: Python's texts, lists and dicts as the others use them.
--
-- State is passed on explicitly: a method that changes its object returns the changed record, and a method
-- that may raise returns none or an exception's text. A text is a native text, a dict an association list
-- in insertion order, and a count a natural number.
--
-- Parameters stand for what the sources only call: json.loads in Parser and Compact, str.lower and
-- shlex in Shell, the JSON of arguments and str.splitlines in Prompt, fnmatch in Policy, JSON and
-- SHA-256 in Stall and Ledger, the store of undo records in Rewind, the values of the identity and the
-- freshness of a file in Resume, the digests, the regular expressions and the times in Memory, floats
-- in Budget (with the two laws of a product with 0.8 that the soft limit relies on), the clock, the
-- dates and the probe of a process in Lease, the conversions of JSON values in Task (each returns a
-- value of its own kind as it is), the clients in Router, and the runtime behind the executor, whose
-- operations take the world and return it.
--
-- The loop sees the world through calls: those that return nothing it uses are listed, the last one first, in
-- the log of its state, and act on an abstract world. A call of the model or of a tool may be broken off
-- by the user or by a signal; the other calls are taken to succeed, and tools in a pool, which are all
-- read-only, to act like one call after the other.
--
-- Fuel: the loop gets one round more than max_attempts, and run-Finishes in Loop.Exits shows that it
-- never runs out. classify_fuel, which follows wrappers and uv run into a shorter argv, gets the
-- length of the argv, and Shell.Fuel shows that this is enough. The reduction in Prompt gets the sum
-- of the budgets, and the messages there the number of the entries, with the proofs in Ends and
-- Balance.
--
-- Not modelled: the context (moss/context) but for the prompt of a turn, the token budget and the
-- compaction, sessions, the making and forking of checkpoints and the text of a rewind's report
-- (moss/runs); nor the command line, the clients of the providers, the evaluation, and what only
-- formats messages or reads and writes files. In the executor, only the tool and the preparation of
-- its output may raise.
pub mod Base
pub mod Shell
pub mod Memory
pub mod Policy
pub mod Budget
pub mod Task
pub mod Stall
pub mod Lease
pub mod Executor
pub mod Approval
pub mod Ledger
pub mod Router
pub mod Index
pub mod Parser
pub mod Loop
pub mod Tokens
pub mod Compact
pub mod Prompt
pub mod Resume
pub mod Rewind
