-- ===== src/Engine/Perform.antt =====
-- delta/execute.py: one run of an executor, with what is persisted when it returns and when it raises.
use delta_agent.Common.{String, Option, none, some, ◌∷◌, List}
use delta_agent.Common.Result.{Result, ok, err, Error}
use delta_agent.Common.Action.{Action, pure, lift, try_except, ◌>>=◌, ◌>>◌}
use delta_agent.Common.Text.{◌⧺◌}
use delta_agent.Common.Dict.{Dict, insert}
use delta_agent.Core.Value.{Value, DateTime}
use delta_agent.Core.Platform
use delta_agent.Core.Platform.{Platform, normalize}
use delta_agent.Core.Schema.{
  AgentPrincipal, WorkDeclaration, WorkProvenance, from_principal, fresh_until,
}
use delta_agent.Core.Work.{Step, Executor, WorkResult, check_work_result}
use delta_agent.Core.Attempt.{ExecutionAttempt, check_attempt}
use delta_agent.Core.Plan.{RevisionRequest, StepDecision, check_step_decision, rerun}
use delta_agent.Store.Client.{MemoryClient}
use delta_agent.Store.Work.{save_work_result}
use delta_agent.Store.Attempts.{save_attempt, set_active_attempt}
use delta_agent.Engine.World.{
  World, Surroundings, DeltaEngine, class_name, on_memory, call_executor,
}
use delta_agent.Engine.Ownership.{record_event}

-- The variables of the loop of `execute`; the two sets are lists of their members.
pub record Tracks : Type 0 where
  pub outputs : Dict Value
  pub failed_steps : List String
  pub blocked_steps : List String

-- What one step adds to the report, and the variables after it.
pub record Turn : Type 0 where
  pub decision : StepDecision
  pub attempt : Option ExecutionAttempt
  pub tracks : Tracks

-- `ExecutionAttempt(...)` with the fields of an attempt, a new status and an error code
abbrev pub finished : ExecutionAttempt → String → Option String → ExecutionAttempt
finished a status error_code = record a { status = status; error_code = error_code }

abbrev pub found : Result WorkProvenance → Result (Option WorkProvenance)
found (ok p) = ok (some p)
found (err e) = err e

abbrev pub provenance_of :
    Option AgentPrincipal → Option WorkDeclaration → DateTime → Result (Option WorkProvenance)
provenance_of none declaration t = ok none
provenance_of (some principal) none t = ok none
provenance_of (some principal) (some declaration) t =
    found (from_principal principal declaration none (some t))

abbrev pub executed_decision : Step → Value → String → StepDecision
executed_decision step input signature = record {
  step_id = step.id;
  decision = rerun;
  reason_code = "EXECUTED_SUCCESSFULLY";
  reason =
      "No reusable result matched, so the configured executor ran and its output was persisted.";
  effective_input = some input;
  input_signature = some signature;
  estimated_cost = step.estimated_cost;
}

abbrev pub failed_decision : Step → Value → String → StepDecision
failed_decision step input signature = record {
  step_id = step.id;
  decision = rerun;
  reason_code = "EXECUTION_FAILED";
  reason = "The executor failed; no reusable result was created.";
  effective_input = some input;
  input_signature = some signature;
  estimated_cost = step.estimated_cost;
}

module _ (platform : Platform) (client : MemoryClient) (surroundings : Surroundings)
    (engine : DeltaEngine) (request : RevisionRequest) (now : DateTime) where
  -- `_provenance_for`
  abbrev pub provenance_for : Step → Result (Option WorkProvenance)
  provenance_for step = provenance_of engine.principal step.declaration now

  abbrev pub result_of :
      Step → String → Value → String → Option DateTime → String → Option WorkProvenance → WorkResult
  result_of step signature produced signed fresh attempt_id provenance = record {
    scope = request.scope;
    workflow_id = request.workflow.id;
    step_id = step.id;
    implementation_id = step.implementation_id;
    input_signature = signature;
    output_signature = signed;
    output = produced;
    completed_at = some now;
    fresh_until = fresh;
    successful_attempt_id = some attempt_id;
    artifact = none;
    status = "completed";
    provenance = provenance;
  }

  -- The body of `try` after the executor has returned.
  unfoldable pub keep_output :
      Step → Value → String → ExecutionAttempt → Tracks → Value → Action (World client) Turn
  keep_output step input signature attempt tracks raw = do
    produced ← lift (normalize platform raw)
    signed ← lift (Platform.output_signature platform produced)
    fresh ← lift (fresh_until step.freshness now)
    provenance ← lift (provenance_for step)
    result ← lift (
        check_work_result platform
          (result_of step signature produced signed fresh attempt.attempt_id provenance))
    on_memory client (save_work_result platform client engine.store result)
    succeeded ← lift (check_attempt (finished attempt "succeeded" none))
    on_memory client (save_attempt platform client engine.store succeeded)
    on_memory client (set_active_attempt platform client engine.store step.id none)
    record_event platform client surroundings engine request.scope attempt.attempt_id
        "RESULT_PERSISTED" "succeeded"
        "Step output was validated and persisted before downstream reevaluation." now
    decision ← lift (check_step_decision platform (executed_decision step input signature))
    pure (record {
      decision = decision;
      attempt = some succeeded;
      tracks = record tracks { outputs = insert step.id result.output tracks.outputs };
    })

  -- The body of `except Exception as error`.
  unfoldable pub note_failure :
      Step → Value → String → ExecutionAttempt → Tracks → Error → Action (World client) Turn
  note_failure step input signature attempt tracks error = do
    failed ← lift (check_attempt (finished attempt "failed" (some "EXECUTOR_FAILED")))
    on_memory client (save_attempt platform client engine.store failed)
    on_memory client (set_active_attempt platform client engine.store step.id none)
    record_event platform client surroundings engine request.scope attempt.attempt_id
        "EXECUTION_FAILED" "failed" ("Configured executor failed: " ⧺ class_name error ⧺ ".") now
    decision ← lift (check_step_decision platform (failed_decision step input signature))
    pure (record {
      decision = decision;
      attempt = some failed;
      tracks = record tracks { failed_steps = step.id ∷ tracks.failed_steps };
    })

  -- The `try` statement.
  unfoldable pub perform :
      Step → Executor → Value → String → ExecutionAttempt → Tracks → Action (World client) Turn
  perform step executor input signature attempt tracks =
      try_except
        (do
          raw ← call_executor client executor input
          keep_output step input signature attempt tracks raw)
        (note_failure step input signature attempt tracks)
