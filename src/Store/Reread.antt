-- ===== src/Store/Reread.antt =====
-- delta/handoff.py: receipt entries read back from their payloads, `_decode_receipt_entry`.
use delta_agent.Common.{String, Option, none, some}
use delta_agent.Common.Result.{Result, ok, err, handoff_policy, type_error, ◌>>=◌}
use delta_agent.Core.Value.{Value, Entries, str, list, dict}
use delta_agent.Core.Platform.{Platform}
use delta_agent.Handoff.Receipt.{ReuseReceiptEntry, check_entry}
use delta_agent.Store.Fields.{get, get_or_null, item, object_of}
use delta_agent.Store.Plans.{kind_of, optional_text_or}
use delta_agent.Store.Rebuild.{decode_verdicts, decode_evidence, decode_cost, policy_identifier_of}

-- The outcome that a class checks to be in a set: a list or an object cannot be looked up there.
abbrev pub outcome_at : Option Value → Result String
outcome_at none = ok "not_recorded"
outcome_at (some (str s)) = ok s
outcome_at (some (list vs)) = err (type_error "unhashable type")
outcome_at (some (dict es)) = err (type_error "unhashable type")
outcome_at (some v) = err (handoff_policy "receipt entry outcome is invalid")

module _ (platform : Platform) where
  -- `_decode_receipt_entry`
  unfoldable pub decode_receipt_entry : Entries → Result ReuseReceiptEntry
  decode_receipt_entry es = do
    step_id ← item "step_id" es
    stored ← item "decision" es
    kind ← kind_of stored
    reason_code ← item "reason_code" es
    reason ← item "reason" es
    verdict_item ← item "verdicts" es
    verdict_object ← object_of verdict_item
    verdicts ← decode_verdicts verdict_object
    evidence_item ← item "evidence" es
    evidence_object ← object_of evidence_item
    evidence ← decode_evidence evidence_object
    cost ← decode_cost platform (get_or_null "estimated_cost" es)
    step ← policy_identifier_of step_id "step_id"
    code ← policy_identifier_of reason_code "reason_code"
    why ← policy_identifier_of reason "reason"
    outcome ← outcome_at (get "outcome" es)
    attempt_id ←
        optional_text_or (handoff_policy "receipt attempt_id must be a non-empty trimmed string")
          (get_or_null "attempt_id" es)
    check_entry (record {
      step_id = step;
      decision = kind;
      reason_code = code;
      reason = why;
      verdicts = verdicts;
      evidence = evidence;
      estimated_cost = cost;
      outcome = outcome;
      attempt_id = attempt_id;
    })
