-- ===== src/Core/Plan.antt =====
-- delta/core.py: decisions on steps and `build_revision_plan`.
pub mod Justified
use delta_agent.Common.{
  if◌then◌else◌, String, Bool, true, false, Option, none, some, List, [], ◌∷◌, map,
}
use delta_agent.Common.Result.{Result, ok, err, dependency_pending, ◌>>=◌, ◌>>◌}
use delta_agent.Common.Dict.{Dict, lookup, insert}
use delta_agent.Core.Value
use delta_agent.Core.Value.{Value, DateTime, str}
use delta_agent.Core.Platform.{Platform, normalize, signature}
use delta_agent.Core.Schema.{Scope, CostEstimate, identifier}
use delta_agent.Core.Work.{Step, Workflow, WorkResult, matches}
use delta_agent.Core.Workflow.{
  index_steps, at_key, topological_order, validate_workflow, resolve_step_input, input_signature,
}
use delta_agent.Core.Inputs.{validate_inputs}

pub data DecisionKind : Type 0 where
  reuse rerun pending_dependency blocked : DecisionKind

abbrev pub kind_text : DecisionKind → String
kind_text reuse = "reuse"
kind_text rerun = "rerun"
kind_text pending_dependency = "pending_dependency"
kind_text blocked = "blocked"

abbrev pub is_reuse : DecisionKind → Bool
is_reuse reuse = true
is_reuse _ = false

pub record RevisionRequest : Type 0 where
  pub scope : Scope
  pub workflow : Workflow
  pub inputs : Dict Value
  pub requested_at : Option DateTime

pub record StepDecision : Type 0 where
  pub step_id : String
  pub decision : DecisionKind
  pub reason_code : String
  pub reason : String
  pub effective_input : Option Value
  pub input_signature : Option String
  pub estimated_cost : Option CostEstimate

pub record RevisionPlan : Type 0 where
  pub plan_id : String
  pub scope : Scope
  pub workflow_id : String
  pub workflow_version : String
  pub decisions : List StepDecision

unfoldable pub check_plan : RevisionPlan → Result RevisionPlan
check_plan p = do
  identifier p.plan_id "plan_id"
  identifier p.workflow_id "workflow_id"
  identifier p.workflow_version "workflow_version"
  ok p

-- next((x for x in xs if p(x)), None)
unfoldable pub first_where {ℓ} : {A : Type ℓ} → (A → Bool) → List A → Option A
first_where p [] = none
first_where p (x ∷ xs) = if p x then some x else first_where p xs

-- What the loop reads and does not change. `moment_of id r` is the time at which the freshness of
-- `r` is judged for the step `id`: always `now` where the caller gives one, else the clock's.
pub record Planning : Type 0 where
  pub request : RevisionRequest
  pub inputs : Dict Value
  pub reusable : List WorkResult
  pub moment_of : String → WorkResult → DateTime

abbrev pub moments :
    Option DateTime → (String → WorkResult → DateTime) → String → WorkResult → DateTime
moments (some now) clock id r = now
moments none clock id r = clock id r

abbrev pub pending_decision : Step → String → StepDecision
pending_decision step detail = record {
  step_id = step.id;
  decision = pending_dependency;
  reason_code = "PENDING_DEPENDENCY_OUTPUT";
  reason = detail;
  effective_input = none;
  input_signature = none;
  estimated_cost = step.estimated_cost;
}

abbrev pub reuse_decision : Step → Value → String → StepDecision
reuse_decision step effective signature = record {
  step_id = step.id;
  decision = reuse;
  reason_code = "REUSE_VALID_RESULT";
  reason =
      "A completed result matches the project, implementation, input signature, and freshness policy.";
  effective_input = some effective;
  input_signature = some signature;
  estimated_cost = none;
}

abbrev pub rerun_decision : Step → Value → String → StepDecision
rerun_decision step effective signature = record {
  step_id = step.id;
  decision = rerun;
  reason_code = "RERUN_NO_VALID_RESULT";
  reason = "No fresh completed result matches this project, implementation, and effective input.";
  effective_input = some effective;
  input_signature = some signature;
  estimated_cost = step.estimated_cost;
}

module _ (platform : Platform) where
  abbrev pub normalize_effective : Option Value → Result (Option Value)
  normalize_effective none = ok none
  normalize_effective (some v) = do w ← normalize platform v; ok (some w)

  unfoldable pub check_step_decision : StepDecision → Result StepDecision
  check_step_decision d = do
    identifier d.step_id "step_id"
    identifier d.reason_code "reason_code"
    identifier d.reason "reason"
    effective ← normalize_effective d.effective_input
    ok (record d { effective_input = effective })

  -- result.matches(scope, workflow, step, signature, now)
  abbrev pub serves : Planning → Step → String → WorkResult → Bool
  serves p step signature r =
      matches r p.request.scope p.request.workflow step signature (p.moment_of step.id r)

  -- A decision, with the outputs that the later steps see.
  abbrev pub settle_step :
      Step → Value → String → Dict Value → Option WorkResult → Result (StepDecision × Dict Value)
  settle_step step effective signature outputs (some r) = do
    d ← check_step_decision (reuse_decision step effective signature)
    ok (d, insert step.id r.output outputs)
  settle_step step effective signature outputs none = do
    d ← check_step_decision (rerun_decision step effective signature)
    ok (d, outputs)

  -- `except DependencyPending` catches that error of `resolve_step_input` alone.
  abbrev pub decide_step :
      Planning → Step → Dict Value → Result Value → Result (StepDecision × Dict Value)
  decide_step p step outputs (ok effective) = do
    signature ← input_signature platform p.request.scope p.request.workflow step effective
    settle_step step effective signature outputs (first_where (serves p step signature) p.reusable)
  decide_step p step outputs (err (dependency_pending detail)) = do
    d ← check_step_decision (pending_decision step detail)
    ok (d, outputs)
  decide_step p step outputs (err e) = err e

  -- The body of the `for` loop.
  unfoldable pub plan_step : Planning → Step → Dict Value → Result (StepDecision × Dict Value)
  plan_step p step outputs =
      decide_step p step outputs (resolve_step_input platform p.inputs outputs step)

  -- The `for` loop over the topological order.
  unfoldable pub plan_steps :
      Planning → Dict Step → List String → Dict Value → Result (List StepDecision)
  plan_steps p steps [] outputs = ok []
  plan_steps p steps (id ∷ ids) outputs = do
    step ← at_key (lookup id steps) id
    planned ← plan_step p step outputs
    ds ← plan_steps p steps ids planned.1
    ok (planned.0 ∷ ds)

  abbrev pub plan_line : StepDecision → Value
  plan_line d = Value.object (
      ("step_id", str d.step_id)
      ∷ ("decision", str (kind_text d.decision))
      ∷ ("input_signature", Value.optional str d.input_signature)
      ∷ [])

  unfoldable pub plan_digest : RevisionRequest → Dict Value → List StepDecision → Result String
  plan_digest request inputs decisions =
      signature platform
        (Value.object (
          (
            "scope",
            Value.object (
                ("tenant_id", str request.scope.tenant_id)
                ∷ ("project_id", str request.scope.project_id)
                ∷ []),
          )
          ∷ ("workflow_id", str request.workflow.id)
          ∷ ("workflow_version", str request.workflow.version)
          ∷ ("inputs", Value.object inputs)
          ∷ ("decisions", Value.array (map plan_line decisions))
          ∷ []))
        "plan"

  unfoldable pub build_revision_plan :
      RevisionRequest
      → List WorkResult
      → Option DateTime
      → (String → WorkResult → DateTime)
      → Result RevisionPlan
  build_revision_plan request reusable now clock = do
    validate_workflow request.workflow
    inputs ← validate_inputs platform request.workflow request.inputs
    order ← topological_order request.workflow
    let planning : Planning = record {
      request = request;
      inputs = inputs;
      reusable = reusable;
      moment_of = moments now clock;
    }
    decisions ← plan_steps planning (index_steps (λ s. s) [] request.workflow.steps) order []
    plan_id ← plan_digest request inputs decisions
    check_plan (record {
      plan_id = plan_id;
      scope = request.scope;
      workflow_id = request.workflow.id;
      workflow_version = request.workflow.version;
      decisions = decisions;
    })
