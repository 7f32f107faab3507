-- ===== src/Engine/Run.antt =====
-- delta/execute.py: `DeltaEngine.preview` and `DeltaEngine.execute`.
use delta_agent.Common.{
  false, String, Bool, ◌||◌, Option, none, some, List, [], ◌∷◌, ◌++◌, map, if◌then◌else◌,
}
use delta_agent.Common.Result.{Result, ok, err, dependency_pending}
use delta_agent.Common.Action.{Action, pure, lift, ◌>>=◌, ◌>>◌}
use delta_agent.Common.Dict.{Dict, lookup, insert}
use delta_agent.Core.Value.{Value, DateTime}
use delta_agent.Core.Platform.{Platform}
use delta_agent.Core.Schema.{Scope}
use delta_agent.Core.Work.{Step, Executor, WorkResult, matches}
use delta_agent.Core.Workflow.{
  member, index_steps, at_key, extract_dependencies, validate_workflow, topological_order,
  resolve_step_input, input_signature,
}
use delta_agent.Core.Inputs.{validate_inputs}
use delta_agent.Core.Attempt.{ExecutionAttempt}
use delta_agent.Core.Plan.{
  reuse, pending_dependency, blocked, RevisionRequest, StepDecision, check_step_decision,
  RevisionPlan, build_revision_plan,
}
use delta_agent.Store.Client.{MemoryClient}
use delta_agent.Store.Work.{get_work_result, list_work_results}
use delta_agent.Store.Attempts.{save_plan}
use delta_agent.Engine.World.{World, Surroundings, DeltaEngine, on_memory, time_or_now}
use delta_agent.Engine.Cost.{CostSummary, cost_summary}
use delta_agent.Engine.Ownership.{active_attempt, start_attempt}
use delta_agent.Engine.Perform.{Tracks, Turn, perform}

pub record ExecutionReport : Type 0 where
  pub scope : Scope
  pub workflow_id : String
  pub decisions : List StepDecision
  pub attempts : List ExecutionAttempt
  pub outputs : Dict Value
  pub costs : CostSummary

-- set(xs) & ys is not empty
unfoldable pub any_member : List String → List String → Bool
any_member [] ys = false
any_member (x ∷ xs) ys = member x ys || any_member xs ys

abbrev pub waiting_decision : Step → String → Bool → StepDecision
waiting_decision step detail stopped = record {
  step_id = step.id;
  decision = if stopped then blocked else pending_dependency;
  reason_code = if stopped then "DEPENDENCY_FAILED" else "DEPENDENCY_OUTPUT_UNKNOWN";
  reason = detail;
  effective_input = none;
  input_signature = none;
  estimated_cost = step.estimated_cost;
}

abbrev pub matching_decision : Step → Value → String → StepDecision
matching_decision step input signature = record {
  step_id = step.id;
  decision = reuse;
  reason_code = "MATCHING_RESULT";
  reason =
      "A persisted fresh result matches the current scope, implementation, and effective input.";
  effective_input = some input;
  input_signature = some signature;
  estimated_cost = none;
}

abbrev pub blocked_decision : String → String → Step → Value → String → StepDecision
blocked_decision code reason step input signature = record {
  step_id = step.id;
  decision = blocked;
  reason_code = code;
  reason = reason;
  effective_input = some input;
  input_signature = some signature;
  estimated_cost = step.estimated_cost;
}

abbrev pub block : Step → Tracks → Tracks
block step tracks = record tracks { blocked_steps = step.id ∷ tracks.blocked_steps }

-- What the loop reads and does not change.
pub record Running : Type 0 where
  pub request : RevisionRequest
  pub inputs : Dict Value
  pub now : DateTime

module _ (platform : Platform) (client : MemoryClient) (surroundings : Surroundings)
    (engine : DeltaEngine) where
  -- A decision that no attempt goes with.
  abbrev pub decide_only : StepDecision → Tracks → Action (World client) Turn
  decide_only decision tracks = do
    d ← lift (check_step_decision platform decision)
    pure (record { decision = d; attempt = none; tracks = tracks })

  abbrev pub stop : String → String → Step → Value → String → Tracks → Action (World client) Turn
  stop code reason step input signature tracks =
      decide_only (blocked_decision code reason step input signature) (block step tracks)

  abbrev pub run_owned :
      Running
      → Step
      → Executor
      → Value
      → String
      → Tracks
      → Option ExecutionAttempt
      → Action (World client) Turn
  run_owned run step executor input signature tracks none =
      stop "ACTIVE_ATTEMPT_EXISTS"
        "An active or ambiguous attempt appeared before execution ownership could be created." step
        input signature tracks
  run_owned run step executor input signature tracks (some attempt) =
      perform platform client surroundings engine run.request run.now step executor input signature
        attempt tracks

  abbrev pub run_with :
      Running → Step → Value → String → Tracks → Option Executor → Action (World client) Turn
  run_with run step input signature tracks none =
      stop "EXECUTOR_UNAVAILABLE"
        "No executor is configured for this step, so Delta cannot claim a result." step input
        signature tracks
  run_with run step input signature tracks (some executor) = do
    attempt ← start_attempt platform client surroundings engine run.request step.id signature
    run_owned run step executor input signature tracks attempt

  abbrev pub run_unowned :
      Running
      → Step
      → Value
      → String
      → Tracks
      → Option ExecutionAttempt
      → Action (World client) Turn
  run_unowned run step input signature tracks (some existing) =
      stop "ACTIVE_ATTEMPT_EXISTS"
        "An active or ambiguous attempt already owns this project, step, and input signature." step
        input signature tracks
  run_unowned run step input signature tracks none =
      run_with run step input signature tracks step.executor

  -- The part of the body after the search for a reusable result.
  abbrev pub run_anew : Running → Step → Value → String → Tracks → Action (World client) Turn
  run_anew run step input signature tracks = do
    existing ← active_attempt platform client surroundings engine step.id signature
    run_unowned run step input signature tracks existing

  abbrev pub run_unless_found :
      Running → Step → Value → String → Tracks → Option WorkResult → Action (World client) Turn
  run_unless_found run step input signature tracks none = run_anew run step input signature tracks
  run_unless_found run step input signature tracks (some r) =
      if matches r run.request.scope run.request.workflow step signature run.now
      then decide_only (matching_decision step input signature)
          (record tracks { outputs = insert step.id r.output tracks.outputs })
      else run_anew run step input signature tracks

  -- `except DependencyPending` catches that error of `resolve_step_input` alone.
  abbrev pub run_resolved : Running → Step → Tracks → Result Value → Action (World client) Turn
  run_resolved run step tracks (ok input) = do
    signature ← lift (input_signature platform run.request.scope run.request.workflow step input)
    found ←
        on_memory client
          (get_work_result platform client engine.store run.request.workflow.id step.id signature)
    run_unless_found run step input signature tracks found
  run_resolved run step tracks (err (dependency_pending detail)) =
      decide_only
        (waiting_decision step detail
          (any_member (extract_dependencies step) (tracks.failed_steps ++ tracks.blocked_steps)))
        (block step tracks)
  run_resolved run step tracks (err e) = lift (err e)

  -- The body of the `for` loop.
  unfoldable pub run_step : Running → Step → Tracks → Action (World client) Turn
  run_step run step tracks =
      run_resolved run step tracks (resolve_step_input platform run.inputs tracks.outputs step)

  -- The `for` loop over the topological order: the steps' turns, in order.
  unfoldable pub run_steps :
      Running → Dict Step → List String → Tracks → Action (World client) (List Turn)
  run_steps run steps [] tracks = pure []
  run_steps run steps (id ∷ ids) tracks = do
    step ← lift (at_key (lookup id steps) id)
    turn ← run_step run step tracks
    turns ← run_steps run steps ids turn.tracks
    pure (turn ∷ turns)

  -- `preview`; `clock` as in the planner
  unfoldable pub preview :
      RevisionRequest
      → Option DateTime
      → (String → WorkResult → DateTime)
      → Action (World client) RevisionPlan
  preview request now clock = do
    lift (validate_workflow request.workflow)
    reusable ←
        on_memory client (list_work_results platform client engine.store (some request.workflow.id))
    lift (build_revision_plan platform request reusable now clock)

abbrev pub attempts_of : List Turn → List ExecutionAttempt
attempts_of [] = []
attempts_of (t ∷ ts) = elim t.attempt [ none ↦ attempts_of ts | some a ↦ a ∷ attempts_of ts ]

abbrev pub no_tracks : Tracks
no_tracks = record { outputs = []; failed_steps = []; blocked_steps = [] }

-- The variables after the last turn.
abbrev pub last_tracks : Tracks → List Turn → Tracks
last_tracks tracks [] = tracks
last_tracks tracks (t ∷ ts) = last_tracks t.tracks ts

module _ (platform : Platform) (client : MemoryClient) (surroundings : Surroundings)
    (engine : DeltaEngine) where
  abbrev pub decisions_in : List Turn → List StepDecision
  decisions_in turns = map (λ t. t.decision) turns

  abbrev pub running : RevisionRequest → Dict Value → DateTime → Running
  running request inputs now = record { request = request; inputs = inputs; now = now }

  abbrev pub report_of : RevisionRequest → List Turn → CostSummary → ExecutionReport
  report_of request turns costs = record {
    scope = request.scope;
    workflow_id = request.workflow.id;
    decisions = decisions_in turns;
    attempts = attempts_of turns;
    outputs = (last_tracks no_tracks turns).outputs;
    costs = costs;
  }

  unfoldable pub execute : RevisionRequest → Option DateTime → Action (World client) ExecutionReport
  execute request now = do
    lift (validate_workflow request.workflow)
    inputs ← lift (validate_inputs platform request.workflow request.inputs)
    current ← time_or_now client surroundings now
    plan ← preview platform client surroundings engine request (some current) (λ id r. current)
    on_memory client (save_plan platform client engine.store plan)
    order ← lift (topological_order request.workflow)
    turns ←
        run_steps platform client surroundings engine (running request inputs current)
          (index_steps (λ s. s) [] request.workflow.steps) order no_tracks
    costs ← lift (cost_summary platform (decisions_in turns))
    pure (report_of request turns costs)
