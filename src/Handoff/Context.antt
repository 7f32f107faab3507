-- ===== src/Handoff/Context.antt =====
-- delta/handoff.py: approved work items, blocked notices and the approved context.
use delta_agent.Common.{String, Bool, true, ◌&&◌, Option, List, [], ◌∷◌, map, str_eq}
use delta_agent.Common.Result.{Result, ok, handoff_policy, ◌>>=◌, ◌>>◌, require, refuse}
use delta_agent.Common.Dict.{Dict, insert}
use delta_agent.Core.Value
use delta_agent.Core.Value.{Value, str}
use delta_agent.Core.Platform.{Platform, normalize, output_signature}
use delta_agent.Core.Schema.{Scope, AgentPrincipal}
use delta_agent.Core.Work.{ArtifactReference}
use delta_agent.Core.Workflow.{disjoint, all_unique}
use delta_agent.Handoff.Policy.{identifier}
use delta_agent.Handoff.Verdict.{approves_inheritance}
use delta_agent.Handoff.Decision.{
  DecisionKind, kind_text, is_reuse, HandoffDecision, approved, when_set,
}

pub record ApprovedWorkItem : Type 0 where
  pub step_id : String
  pub work_category : String
  pub output : Value
  pub output_signature : String
  pub source_agent_id : String
  pub source_session_id : String
  pub decision : HandoffDecision
  pub artifact : Option ArtifactReference

module _ (platform : Platform) where
  unfoldable pub check_item : ApprovedWorkItem → Result ApprovedWorkItem
  check_item i = do
    identifier i.step_id "step_id"
    identifier i.work_category "work_category"
    identifier i.output_signature "output_signature"
    identifier i.source_agent_id "source_agent_id"
    identifier i.source_session_id "source_session_id"
    require (str_eq i.decision.step_id i.step_id)
        (handoff_policy "approved work step identity does not match its decision")
    require (approved i.decision && approves_inheritance i.decision.verdicts)
        (handoff_policy "approved work requires an approved handoff decision")
    output ← normalize platform i.output
    expected ← output_signature platform output
    require (str_eq expected i.output_signature)
        (handoff_policy "approved work output does not match its signature")
    ok (record i { output = output })

unfoldable pub item_prompt : ApprovedWorkItem → Value
item_prompt i = Value.object (
    ("step_id", str i.step_id)
    ∷ ("work_category", str i.work_category)
    ∷ ("source_agent_id", str i.source_agent_id)
    ∷ ("source_session_id", str i.source_session_id)
    ∷ ("output", i.output)
    ∷ ("output_signature", str i.output_signature)
    ∷ ("artifact_id", Value.optional str (when_set i.artifact (λ a. a.artifact_id)))
    ∷ [])

pub record BlockedWorkNotice : Type 0 where
  pub step_id : String
  pub decision : DecisionKind
  pub reason_code : String

unfoldable pub check_notice : BlockedWorkNotice → Result BlockedWorkNotice
check_notice n = do
  identifier n.step_id "step_id"
  identifier n.reason_code "reason_code"
  refuse (is_reuse n.decision) (handoff_policy "an approved decision cannot be a blocked notice")
  ok n

unfoldable pub notice_payload : BlockedWorkNotice → Value
notice_payload n = Value.object (
    ("step_id", str n.step_id)
    ∷ ("decision", str (kind_text n.decision))
    ∷ ("reason_code", str n.reason_code)
    ∷ [])

pub record ApprovedContext : Type 0 where
  pub handoff_id : String
  pub scope : Scope
  pub recipient : AgentPrincipal
  pub items : List ApprovedWorkItem
  pub excluded : List BlockedWorkNotice

abbrev pub all_approved : List ApprovedWorkItem → Bool
all_approved [] = true
all_approved (i ∷ is) = approved i.decision && all_approved is

abbrev pub item_steps : List ApprovedWorkItem → List String
item_steps is = map (λ i. i.step_id) is

abbrev pub notice_steps : List BlockedWorkNotice → List String
notice_steps ns = map (λ n. n.step_id) ns

unfoldable pub check_context : ApprovedContext → Result ApprovedContext
check_context c = do
  identifier c.handoff_id "handoff_id"
  require (all_approved c.items) (handoff_policy "approved context rejected an unapproved decision")
  require (all_unique (item_steps c.items))
      (handoff_policy "approved context contains duplicate steps")
  require (disjoint (notice_steps c.excluded) (item_steps c.items))
      (handoff_policy "a step cannot be both approved and blocked")
  ok c

unfoldable pub outputs_from : List ApprovedWorkItem → Dict Value → Dict Value
outputs_from [] d = d
outputs_from (i ∷ is) d = outputs_from is (insert i.step_id i.output d)

-- `ApprovedContext.inherited_outputs`
unfoldable pub inherited_outputs : ApprovedContext → Dict Value
inherited_outputs c = outputs_from c.items []

abbrev pub recipient_payload : AgentPrincipal → Value
recipient_payload p = Value.object (
    ("agent_id", str p.agent_id)
    ∷ ("session_id", str p.session_id)
    ∷ ("provider_id", str p.provider_id)
    ∷ [])

-- `ApprovedContext.prompt_payload`
unfoldable pub prompt_payload : ApprovedContext → Value
prompt_payload c = Value.object (
    ("handoff_id", str c.handoff_id)
    ∷ ("recipient", recipient_payload c.recipient)
    ∷ ("approved_work", Value.array (map item_prompt c.items))
    ∷ ("excluded_work", Value.array (map notice_payload c.excluded))
    ∷ [])
