-- ===== src/Engine/Ownership.antt =====
-- delta/execute.py: who owns a step, `_active_attempt` and `_start_attempt`.
use delta_agent.Common.{
  String, Bool, ◌&&◌, Option, none, some, [], ◌∷◌, List, str_eq, if◌then◌else◌,
}
use delta_agent.Common.Action.{Action, pure, lift, ◌>>=◌, ◌>>◌}
use delta_agent.Core.Value.{DateTime}
use delta_agent.Core.Platform.{Platform}
use delta_agent.Core.Schema.{Scope}
use delta_agent.Core.Workflow.{member}
use delta_agent.Core.Attempt.{ExecutionAttempt, check_attempt, check_event}
use delta_agent.Core.Plan.{RevisionRequest}
use delta_agent.Store.Client.{MemoryClient}
use delta_agent.Store.Attempts.{
  save_attempt, get_attempt, set_active_attempt, get_active_attempt, append_event,
}
use delta_agent.Engine.World.{World, Surroundings, DeltaEngine, on_memory, fresh_id, time_or_now}

abbrev pub active_states : List String
active_states =
    "planned" ∷ "submitting" ∷ "active" ∷ "awaiting_provider" ∷ "ambiguous"
    ∷ "reconciliation_required" ∷ []

abbrev pub owns : String → ExecutionAttempt → Bool
owns signature a = str_eq a.input_signature signature && member a.status active_states

abbrev pub owner : String → Option ExecutionAttempt → Option ExecutionAttempt
owner signature none = none
owner signature (some a) = if owns signature a then some a else none

abbrev pub new_attempt : String → Scope → String → String → String → ExecutionAttempt
new_attempt id scope workflow_id step_id signature = record {
  attempt_id = id;
  scope = scope;
  workflow_id = workflow_id;
  step_id = step_id;
  status = "active";
  input_signature = signature;
  provider_job_id = none;
  provider_chain_id = none;
  error_code = none;
  provider_id = none;
  offering_id = none;
  offering_name = none;
  requirements_signature = none;
}

module _ (platform : Platform) (client : MemoryClient) (surroundings : Surroundings)
    (engine : DeltaEngine) where
  abbrev pub active_from : String → Option String → Action (World client) (Option ExecutionAttempt)
  active_from signature none = pure none
  active_from signature (some active_id) = do
    a ← on_memory client (get_attempt platform client engine.store active_id)
    pure (owner signature a)

  -- `_active_attempt`
  unfoldable pub active_attempt : String → String → Action (World client) (Option ExecutionAttempt)
  active_attempt step_id signature = do
    active_id ← on_memory client (get_active_attempt platform client engine.store step_id)
    active_from signature active_id

  -- An event is checked, and then written.
  unfoldable pub record_event :
      Scope → String → String → String → String → DateTime → Action (World client) (Unit {0})
  record_event scope attempt_id reason_code state detail recorded_at = do
    event_id ← fresh_id client surroundings "event-"
    e ← lift (
        check_event (record {
          event_id = event_id;
          scope = scope;
          attempt_id = attempt_id;
          reason_code = reason_code;
          state = state;
          detail = detail;
          recorded_at = recorded_at;
        }))
    written ← on_memory client (append_event platform client engine.store e)
    pure tt

  abbrev pub start_free :
      RevisionRequest → String → String → Action (World client) (Option ExecutionAttempt)
  start_free request step_id signature = do
    id ← fresh_id client surroundings "attempt-"
    a ← lift (check_attempt (new_attempt id request.scope request.workflow.id step_id signature))
    on_memory client (save_attempt platform client engine.store a)
    on_memory client (set_active_attempt platform client engine.store step_id (some a.attempt_id))
    t ← time_or_now client surroundings request.requested_at
    record_event request.scope a.attempt_id "ATTEMPT_STARTED" "active"
        "Execution ownership was persisted before calling the executor." t
    pure (some a)

  abbrev pub start_unless :
      RevisionRequest
      → String
      → String
      → Option ExecutionAttempt
      → Action (World client) (Option ExecutionAttempt)
  start_unless request step_id signature (some existing) = pure none
  start_unless request step_id signature none = start_free request step_id signature

  -- `_start_attempt`
  unfoldable pub start_attempt :
      RevisionRequest → String → String → Action (World client) (Option ExecutionAttempt)
  start_attempt request step_id signature = do
    existing ← active_attempt step_id signature
    start_unless request step_id signature existing
