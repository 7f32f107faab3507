-- ===== src/Store/Reissued.antt =====
-- delta/handoff.py: receipt entries that are written to payloads and read back.
use delta_agent.Common.{Option, none, some, String, ◌≡◌, refl, arith}
use delta_agent.Common.Result.{ok, Error}
use delta_agent.Core.Value
use delta_agent.Core.Value.{str}
use delta_agent.Core.Platform.{Platform}
use delta_agent.Handoff.Receipt.{ReuseReceiptEntry, check_entry, entry_payload}
use delta_agent.Store.Fields.{get}
use delta_agent.Store.Plans.{optional_text_or}
use delta_agent.Store.Previewed.{kind-recovered}
use delta_agent.Store.Rebuilt.{
  AreSound, IsCheckedCost, unquoted, read_object, verdicts-recovered, evidence-recovered,
  cost-unquoted,
}
use delta_agent.Store.Reread.{decode_receipt_entry}

optional-text : (e : Error) (o : Option String) → optional_text_or e (Value.optional str o) ≡ ok o
optional-text e none = refl
optional-text e (some s) = refl

module _ (platform : Platform) where
  -- A checked entry of a receipt, with checked verdicts and cost, is read back from its payload as it
  -- was, but for the time at which its cost was quoted.
  pub decode_receipt_entry-entry_payload :
      (e : ReuseReceiptEntry)
      → check_entry e ≡ ok e
      → AreSound e.verdicts
      → IsCheckedCost platform e.estimated_cost
      → read_object (decode_receipt_entry platform) (entry_payload e)
        ≡ ok (record e { estimated_cost = unquoted e.estimated_cost })
  unfolding decode_receipt_entry entry_payload get check_entry
  decode_receipt_entry-entry_payload e h verdicts cost = ground (
    arith,
    verdicts-recovered e.verdicts verdicts,
    evidence-recovered e.evidence,
    kind-recovered e.decision,
    cost-unquoted platform e.estimated_cost cost,
    optional-text _ e.attempt_id,
  )
