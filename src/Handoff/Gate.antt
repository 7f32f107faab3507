-- ===== src/Handoff/Gate.antt =====
-- delta/handoff.py: `HandoffGate.evaluate` and what it builds from the candidates.
pub mod Trace
pub mod Owed
pub mod Sharing
pub mod Inherited
pub mod Resolved
pub mod Account
use delta_agent.Common.{
  String, Bool, true, false, not, Option, none, some, List, [], ◌∷◌, map, if◌then◌else◌,
}
use delta_agent.Common.Result.{
  Result, ok, err, Error, dependency_pending, handoff_policy, ◌>>=◌, ◌>>◌, map_result,
}
use delta_agent.Common.Dict.{Dict, lookup, insert}
use delta_agent.Core.Value
use delta_agent.Core.Value.{Value, DateTime, str}
use delta_agent.Core.Platform.{Platform, signature}
use delta_agent.Core.Work.{Step, WorkResult}
use delta_agent.Core.Workflow.{
  index_steps, at_key, topological_order, validate_workflow, resolve_step_input, input_signature,
}
use delta_agent.Core.Inputs.{validate_inputs}
use delta_agent.Handoff.Policy.{scope_payload, policy_ids, policies_payload}
use delta_agent.Handoff.Decision.{
  HandoffDecision, approved, decision_payload, HandoffCandidate, is_none,
}
use delta_agent.Handoff.Context.{
  ApprovedWorkItem, check_item, BlockedWorkNotice, check_notice, ApprovedContext, check_context,
  recipient_payload,
}
use delta_agent.Handoff.Receipt.{
  HandoffRecord, check_record, ReuseReceiptEntry, from_decision, entry_payload, entry_kinds, Counts,
  decision_counts, counts_payload, ReuseReceipt, check_receipt, aggregate_cost, receipt_summary,
}
use delta_agent.Handoff.Discovery.{
  CandidateStore, HandoffRequest, Index, find, load_candidates, load_corrupt, latest_for_step,
}
use delta_agent.Handoff.Candidate.{undecodable_candidate, pending_candidate, evaluate_candidate}

pub record HandoffEvaluation : Type 0 where
  pub handoff_id : String
  pub candidates : List HandoffCandidate
  pub handoff_record : HandoffRecord
  pub receipt : ReuseReceipt
  pub approved_context : ApprovedContext

-- `now or request.requested_at or datetime.now(timezone.utc)`, `clock` being the last
abbrev pub moment : Option DateTime → Option DateTime → DateTime → DateTime
moment (some now) requested_at clock = now
moment none (some t) clock = t
moment none none clock = clock

-- What the loop reads and does not change.
pub record Loop : Type 0 where
  pub request : HandoffRequest
  pub inputs : Dict Value
  pub persisted : Index
  pub corrupt : Dict String
  pub now : DateTime

-- What one candidate adds to the approved context: an item or a notice.
pub data Share : Type 0 where
  item : ApprovedWorkItem → Share
  notice : BlockedWorkNotice → Share

-- inherited_outputs[step.id] = candidate.result.output
abbrev pub inherit : String → HandoffCandidate → Dict Value → Dict Value
inherit id c outputs =
    if approved c.decision
    then elim c.result [ none ↦ outputs | some r ↦ insert id r.output outputs ]
    else outputs

module _ (platform : Platform) where
  -- The candidate for a step whose effective input has the given signature.
  abbrev pub fallback_candidate :
      Loop → Step → String → Option WorkResult → Option String → Result HandoffCandidate
  fallback_candidate loop step signature (some r) corrupt =
      evaluate_candidate platform loop.request step signature (some r) false loop.now
  fallback_candidate loop step signature none (some reason) = undecodable_candidate step signature
  fallback_candidate loop step signature none none =
      evaluate_candidate platform loop.request step signature none false loop.now

  abbrev pub signed_candidate : Loop → Step → String → Option WorkResult → Result HandoffCandidate
  signed_candidate loop step signature (some r) =
      evaluate_candidate platform loop.request step signature (some r) true loop.now
  signed_candidate loop step signature none =
      fallback_candidate loop step signature (latest_for_step loop.persisted step.id)
        (lookup step.id loop.corrupt)

  -- `except DependencyPending` catches that error of `resolve_step_input` alone.
  abbrev pub resolved_candidate : Loop → Step → Dict Value → Result Value → Result HandoffCandidate
  resolved_candidate loop step inherited (ok effective_input) = do
    signature ←
        input_signature platform loop.request.scope loop.request.workflow step effective_input
    signed_candidate loop step signature (find step.id signature loop.persisted)
  resolved_candidate loop step inherited (err (dependency_pending detail)) =
      pending_candidate platform step detail inherited
  resolved_candidate loop step inherited (err e) = err e

  -- The body of the `for` loop.
  unfoldable pub step_candidate : Loop → Step → Dict Value → Result HandoffCandidate
  step_candidate loop step inherited =
      resolved_candidate loop step inherited
        (resolve_step_input platform loop.inputs inherited step)

  -- The `for` loop over the topological order.
  unfoldable pub evaluate_steps :
      Loop → Dict Step → List String → Dict Value → Result (List HandoffCandidate)
  evaluate_steps loop steps [] inherited = ok []
  evaluate_steps loop steps (id ∷ ids) inherited = do
    step ← at_key (lookup id steps) id
    c ← step_candidate loop step inherited
    cs ← evaluate_steps loop steps ids (inherit step.id c inherited)
    ok (c ∷ cs)

  abbrev pub decisions_of : List HandoffCandidate → List HandoffDecision
  decisions_of cs = map (λ c. c.decision) cs

  -- `_handoff_id`
  unfoldable pub handoff_digest : HandoffRequest → List HandoffCandidate → Result String
  handoff_digest request cs =
      signature platform
        (Value.object (
          ("scope", scope_payload request.scope)
          ∷ ("workflow_id", str request.workflow.id)
          ∷ ("workflow_version", str request.workflow.version)
          ∷ ("recipient", recipient_payload request.recipient)
          ∷ ("policies", policies_payload request.policies)
          ∷ ("decisions", Value.array (map (λ c. decision_payload c.decision) cs))
          ∷ []))
        "handoff"

  abbrev pub notice_of : HandoffDecision → BlockedWorkNotice
  notice_of d = record { step_id = d.step_id; decision = d.decision; reason_code = d.reason_code }

  abbrev pub lost : Error
  lost = handoff_policy "approved candidate lost its result or provenance"

  abbrev pub item_for : HandoffDecision → Option WorkResult → Result ApprovedWorkItem
  item_for d none = err lost
  item_for d (some r) = elim r.provenance [
    | none ↦ err lost
    | some p ↦ ok (record {
      step_id = d.step_id;
      work_category = p.work_category;
      output = r.output;
      output_signature = r.output_signature;
      source_agent_id = p.source_agent_id;
      source_session_id = p.source_session_id;
      decision = d;
      artifact = r.artifact;
    })
  ]

  unfoldable pub share_of : HandoffCandidate → Result Share
  share_of c =
      let blocked = (do n ← check_notice (notice_of c.decision); ok (notice n)) in
      let inherited = (do
        given ← item_for c.decision c.result
        i ← check_item platform given
        ok (item i)) in
      if approved c.decision then inherited else blocked

  abbrev pub items_in : List Share → List ApprovedWorkItem
  items_in [] = []
  items_in (item i ∷ shares) = i ∷ items_in shares
  items_in (notice n ∷ shares) = items_in shares

  abbrev pub notices_in : List Share → List BlockedWorkNotice
  notices_in [] = []
  notices_in (item i ∷ shares) = notices_in shares
  notices_in (notice n ∷ shares) = n ∷ notices_in shares

  -- `_build_approved_context`
  unfoldable pub build_approved_context :
      String → HandoffRequest → List HandoffCandidate → Result ApprovedContext
  build_approved_context handoff_id request cs = do
    shares ← map_result share_of cs
    check_context (record {
      handoff_id = handoff_id;
      scope = request.scope;
      recipient = request.recipient;
      items = items_in shares;
      excluded = notices_in shares;
    })

  -- `_digest` of a receipt
  abbrev pub receipt_digest : String → List ReuseReceiptEntry → Counts → String → Result String
  receipt_digest handoff_id entries counts status =
      signature platform
        (Value.object (
          ("handoff_id", str handoff_id)
          ∷ ("entries", Value.array (map entry_payload entries))
          ∷ ("counts", counts_payload counts)
          ∷ ("estimate_status", str status)
          ∷ []))
        "receipt"

  -- `_build_receipt`
  unfoldable pub build_receipt :
      String → HandoffRequest → List HandoffCandidate → DateTime → Result ReuseReceipt
  build_receipt handoff_id request cs created_at = do
    entries ← map_result (λ (c : HandoffCandidate). from_decision c.decision) cs
    let counts = decision_counts (entry_kinds entries)
    estimate ← aggregate_cost platform entries
    receipt_id ← receipt_digest handoff_id entries counts estimate.1
    check_receipt (record {
      receipt_id = receipt_id;
      handoff_id = handoff_id;
      scope = request.scope;
      workflow_id = request.workflow.id;
      recipient = request.recipient;
      entries = entries;
      counts = counts;
      estimated_additional_service_cost = estimate.0;
      estimate_status = estimate.1;
      summary = receipt_summary platform counts estimate.0 estimate.1;
      created_at = created_at;
      record_version = "1";
    })

  -- What `evaluate` makes of the candidates.
  unfoldable pub conclude :
      HandoffRequest → DateTime → List HandoffCandidate → Result HandoffEvaluation
  conclude request now cs = do
    handoff_id ← handoff_digest request cs
    handoff_record ← check_record (record {
      handoff_id = handoff_id;
      scope = request.scope;
      workflow_id = request.workflow.id;
      workflow_version = request.workflow.version;
      recipient = request.recipient;
      policy_ids = policy_ids request.policies;
      decisions = decisions_of cs;
      created_at = now;
      record_version = "1";
    })
    approved_context ← build_approved_context handoff_id request cs
    receipt ← build_receipt handoff_id request cs now
    ok (record {
      handoff_id = handoff_id;
      candidates = cs;
      handoff_record = handoff_record;
      receipt = receipt;
      approved_context = approved_context;
    })

  abbrev pub steps_by_id : HandoffRequest → Dict Step
  steps_by_id request = index_steps (λ s. s) [] request.workflow.steps

  -- `HandoffGate.evaluate`
  unfoldable pub evaluate :
      CandidateStore → HandoffRequest → Option DateTime → DateTime → Result HandoffEvaluation
  evaluate store request now clock = do
    validate_workflow request.workflow
    inputs ← validate_inputs platform request.workflow request.inputs
    persisted ← load_candidates store request
    corrupt ← load_corrupt store request
    order ← topological_order request.workflow
    let loop : Loop = record {
      request = request;
      inputs = inputs;
      persisted = persisted;
      corrupt = corrupt;
      now = moment now request.requested_at clock;
    }
    cs ← evaluate_steps loop (steps_by_id request) order []
    conclude request loop.now cs
