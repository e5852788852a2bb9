-- ===== src/Ledger/Tests.antt =====
-- A trace with an open action, and the theorems of this folder at it.
use moss_code.Base.{◌≡◌, refl, String, true, false, some, List, [], ◌∷◌, In, here}
use moss_code.Ledger.{
  Intent, Event, intent, receipt, pair_actions, receipt_ids, first_intents, build_receipt, verdict,
  classify_paths, Current, found, already_applied, replayable, pending_unknown,
  unchanged_since_intent, target_content_present,
}
use moss_code.Ledger.Verdicts.{IsBacked, verdict-IsBacked}

abbrev writing : String → Intent
writing id = record {
  action_id = id;
  call_id = "";
  tool = "write_file";
  args_digest = "d";
  idempotency_key = "k";
  capabilities = [];
  risk = "high";
  expected_sha = ("a.py", some "old") ∷ [];
  intended_sha = some "new";
  approval_receipt_id = "";
  idempotent = true;
}

abbrev events : List Event
unfolding build_receipt
events =
    intent (writing "1")
    ∷ receipt (build_receipt (writing "1") "ok" [] [] 3)
    ∷ intent (writing "2")
    ∷ []

pending_run : (pair_actions events).1 ≡ writing "2" ∷ []
unfolding events pair_actions receipt_ids first_intents build_receipt
pending_run = refl

still_open : In (writing "2") (pair_actions events).1
unfolding events pair_actions receipt_ids first_intents build_receipt
still_open = here refl

abbrev disk : String → String → Current
disk sha path = found (some sha)

verdict_runs :
    (verdict (disk "old") (writing "2") ≡ (replayable, unchanged_since_intent))
    × (verdict (disk "new") (writing "2") ≡ (already_applied, target_content_present))
unfolding verdict classify_paths
verdict_runs = (refl, refl)

verdict-IsBacked_example :
    (true ≡ false → (verdict (disk "new") (writing "2")).0 ≡ pending_unknown)
    × IsBacked (disk "new") "new" (("a.py", some "old") ∷ []) (verdict (disk "new") (writing "2")).0
verdict-IsBacked_example = verdict-IsBacked (disk "new") (writing "2")
