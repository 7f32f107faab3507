-- ===== src/Store/Handoffs.antt =====
-- delta/store.py: `save_handoff_record` and `save_reuse_receipt`; `HandoffGate.persist` of
-- delta/handoff.py.
use delta_agent.Store.Bodies.{reject_untrusted_bodies}
use delta_agent.Common.Action.{Action, lift, ◌>>=◌, ◌>>◌}
use delta_agent.Store.Fields.{timestamp}
use delta_agent.Store.Payload.{stored_cost, scope_value}
use delta_agent.Handoff.Gate.{HandoffEvaluation}
use delta_agent.Common.Action.{Action}
use delta_agent.Store.Entities.{save_entity, entity_key, assert_scope, SibylStore}
use delta_agent.Handoff.Decision.{decision_payload}
use delta_agent.Store.Client.{MemoryClient}
use delta_agent.Handoff.Receipt.{counts_payload, entry_payload, HandoffRecord, ReuseReceipt}
use delta_agent.Core.Value.{Entries, str, Value}
use delta_agent.Core.Platform.{Platform}
use delta_agent.Core.Schema.{AgentPrincipal}
use delta_agent.Common.{some, String, map, [], ◌∷◌}
use delta_agent.Core.Value

abbrev pub handoff_category : String
handoff_category = "delta.handoff_record.v1"

abbrev pub receipt_category : String
receipt_category = "delta.reuse_receipt.v1"

abbrev pub principal_value : AgentPrincipal → Value
principal_value p = Value.object (
    ("agent_id", str p.agent_id)
    ∷ ("session_id", str p.session_id)
    ∷ ("provider_id", str p.provider_id)
    ∷ [])

module _ (platform : Platform) where
  abbrev pub stored_decisions : HandoffRecord → Value
  stored_decisions r = Value.array (map decision_payload r.decisions)

  abbrev pub stored_entries : ReuseReceipt → Value
  stored_entries r = Value.array (map entry_payload r.entries)

  unfoldable pub handoff_payload : HandoffRecord → Entries
  handoff_payload r = Value.entries_of (
      ("record_type", str handoff_category)
      ∷ ("record_version", str r.record_version)
      ∷ ("scope", scope_value r.scope)
      ∷ ("handoff_id", str r.handoff_id)
      ∷ ("workflow_id", str r.workflow_id)
      ∷ ("workflow_version", str r.workflow_version)
      ∷ ("recipient", principal_value r.recipient)
      ∷ ("policy_ids", Value.array (map str r.policy_ids))
      ∷ ("created_at", timestamp platform (some r.created_at))
      ∷ ("decisions", stored_decisions r)
      ∷ [])

  unfoldable pub receipt_payload : ReuseReceipt → Entries
  receipt_payload r = Value.entries_of (
      ("record_type", str receipt_category)
      ∷ ("record_version", str r.record_version)
      ∷ ("scope", scope_value r.scope)
      ∷ ("receipt_id", str r.receipt_id)
      ∷ ("handoff_id", str r.handoff_id)
      ∷ ("workflow_id", str r.workflow_id)
      ∷ ("recipient", principal_value r.recipient)
      ∷ ("counts", counts_payload r.counts)
      ∷ ("estimate_status", str r.estimate_status)
      ∷ (
        "estimated_additional_service_cost",
        stored_cost platform r.estimated_additional_service_cost,
      )
      ∷ ("summary", str r.summary)
      ∷ ("created_at", timestamp platform (some r.created_at))
      ∷ ("entries", stored_entries r)
      ∷ [])

  module _ (client : MemoryClient) where
    open client use {Memory}

    unfoldable pub save_handoff_record : SibylStore → HandoffRecord → Action Memory (Unit {0})
    save_handoff_record store r = do
      lift (assert_scope store r.scope)
      lift (reject_untrusted_bodies platform (stored_decisions r))
      name ← lift (entity_key platform "handoff" r.scope (("handoff_id", str r.handoff_id) ∷ []))
      save_entity platform client store handoff_category name (handoff_payload r) "evaluated"

    unfoldable pub save_reuse_receipt : SibylStore → ReuseReceipt → Action Memory (Unit {0})
    save_reuse_receipt store r = do
      lift (assert_scope store r.scope)
      lift (reject_untrusted_bodies platform (stored_entries r))
      name ← lift (entity_key platform "receipt" r.scope (("receipt_id", str r.receipt_id) ∷ []))
      save_entity platform client store receipt_category name (receipt_payload r) "issued"

    -- `HandoffGate.persist`
    unfoldable pub persist : SibylStore → HandoffEvaluation → Action Memory (Unit {0})
    persist store e = do
      save_handoff_record store e.handoff_record
      save_reuse_receipt store e.receipt
