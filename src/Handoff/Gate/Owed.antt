-- ===== src/Handoff/Gate/Owed.antt =====
-- The approved context that the gate of delta/handoff.py owes to its recipient: for each step of the
-- order an item or a notice.
use delta_agent.Common.{String, some, List, [], ◌∷◌, ◌≡◌, ◌≢◌, Some}
use delta_agent.Common.Dict.{Dict, insert}
use delta_agent.Common.Result.{ok}
use delta_agent.Core.Value.{Value, DateTime}
use delta_agent.Core.Platform.{Platform, normalize}
use delta_agent.Core.Work.{Step, WorkResult}
use delta_agent.Core.Workflow.{topological_order}
use delta_agent.Core.Inputs.{validate_inputs}
use delta_agent.Handoff.Decision.{reuse}
use delta_agent.Handoff.Context.{ApprovedWorkItem, BlockedWorkNotice, ApprovedContext}
use delta_agent.Handoff.Discovery.{
  CandidateStore, HandoffRequest, Index, load_candidates, load_corrupt,
}
use delta_agent.Handoff.Discovery.Newest.{IsNewest}
use delta_agent.Handoff.Gate.{Loop}
use delta_agent.Handoff.Gate.Trace.{IsGiven}

module _ (platform : Platform) (loop : Loop) (listed : List WorkResult) where
  -- The item for a step: its own work, found and listed, which may be inherited.
  pub record IsInherited (inherited : Dict Value) (step : Step) (work : WorkResult)
      (i : ApprovedWorkItem) : Type 0 where
    pub given : IsGiven platform loop inherited step work
    pub newest : IsNewest step.id given.offered.signature listed (some work)
    pub named : i.step_id ≡ step.id
    pub decided : i.decision.step_id ≡ step.id
    pub reused : i.decision.decision ≡ reuse
    pub output : normalize platform work.output ≡ ok i.output
    pub signed : i.output_signature ≡ work.output_signature
    pub category : i.work_category ≡ given.allowed.provenance.work_category
    pub agent : i.source_agent_id ≡ given.allowed.provenance.source_agent_id
    pub session : i.source_session_id ≡ given.allowed.provenance.source_session_id
    pub artifact : i.artifact ≡ work.artifact

  -- The notice for a step: no work that was found for it may be inherited.
  pub record IsWithheld (inherited : Dict Value) (step : Step) (n : BlockedWorkNotice)
      : Type 0 where
    pub named : n.step_id ≡ step.id
    pub other : n.decision ≢ reuse
    pub refused : (work : WorkResult) → IsGiven platform loop inherited step work → ⊥

  abbrev pub IsDeclared : Step → Type 0
  IsDeclared step = Some (λ s. s ≡ step) loop.request.workflow.steps

  -- The items and notices that go with the steps that are left, where some outputs are inherited
  -- already. An item's output is inherited by the steps after it.
  pub data Shares
      : Dict Value → List String → List ApprovedWorkItem → List BlockedWorkNotice → Type 0 where
    done : {inherited : Dict Value} → Shares inherited [] [] []
    gives :
        {inherited : Dict Value} {ids : List String} {items : List ApprovedWorkItem}
        {notices : List BlockedWorkNotice} {i : ApprovedWorkItem} (step : Step) (work : WorkResult)
        → IsDeclared step
        → IsInherited inherited step work i
        → Shares (insert step.id work.output inherited) ids items notices
        → Shares inherited (step.id ∷ ids) (i ∷ items) notices
    withholds :
        {inherited : Dict Value} {ids : List String} {items : List ApprovedWorkItem}
        {notices : List BlockedWorkNotice} {n : BlockedWorkNotice} (step : Step)
        → IsDeclared step
        → IsWithheld inherited step n
        → Shares inherited ids items notices
        → Shares inherited (step.id ∷ ids) items (n ∷ notices)

-- A context owed for a request, given what a store lists.
module _ (platform : Platform) (store : CandidateStore) (request : HandoffRequest)
    (now : DateTime) where
  pub record IsOwed (context : ApprovedContext) : Type 0 where
    pub listed : List WorkResult
    pub lists : store.list_work_results request.workflow.id ≡ ok listed
    pub persisted : Index
    pub loaded : load_candidates store request ≡ ok persisted
    pub corrupt : Dict String
    pub marred : load_corrupt store request ≡ ok corrupt
    pub inputs : Dict Value
    pub taken : validate_inputs platform request.workflow request.inputs ≡ ok inputs
    pub order : List String
    pub ordered : topological_order request.workflow ≡ ok order
    pub shares :
        Shares platform
          (record {
            request = request;
            inputs = inputs;
            persisted = persisted;
            corrupt = corrupt;
            now = now;
          })
          listed
          []
          order
          context.items
          context.excluded
