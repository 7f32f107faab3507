-- ===== src/Engine/Report.antt =====
-- delta/execute.py: the report of `execute`.
use delta_agent.Engine.Steps.{run_step-IsTurnOf}
use delta_agent.Store.Attempts.{save_plan}
use delta_agent.Core.Workflow.Indexed.{at_key-some, index_steps-found}
use delta_agent.Common.Result.{ok}
use delta_agent.Core.Inputs.{validate_inputs}
use delta_agent.Core.Workflow.{index_steps, at_key, validate_workflow, topological_order}
use delta_agent.Core.Work.{Step}
use delta_agent.Common.Dict.{lookup, Dict}
use delta_agent.Core.Value.{DateTime}
use delta_agent.Engine.Cost.{cost_summary, is_rerun}
use delta_agent.Engine.Run.{
  decisions_in, no_tracks, running, run_step, preview, execute, ExecutionReport, Running, run_steps,
  attempts_of,
}
use delta_agent.Engine.World.{World, on_memory, time_or_now, DeltaEngine, Surroundings}
use delta_agent.Core.Attempt.{ExecutionAttempt}
use delta_agent.Core.Plan.{RevisionRequest, StepDecision}
use delta_agent.Engine.Turns.{IsTurnOf, Concludes, Tells}
use delta_agent.Store.Client.{MemoryClient}
use delta_agent.Engine.Perform.{Tracks, Turn}
use delta_agent.Core.Platform.{Platform}
use delta_agent.Common.{
  refl, none, sym, ap, ◌∙◌, true, Option, false, ◌∷◌, [], map, String, List, ◌≡◌, some,
}
use delta_agent.Common.Action.{
  Ensures, >>=-Ensures, >>=-Ensures_given, pure-Ensures, lift-Ensures, lift,
}

-- The attempts are those of the decisions to run a step again, in order, and each is over.
pub data Accounts : List StepDecision → List ExecutionAttempt → Type 0 where
  nothing : Accounts [] []
  decided :
      {d : StepDecision} {ds : List StepDecision} {attempts : List ExecutionAttempt}
      → (is_rerun d.decision ≡ false)
      → Accounts ds attempts
      → Accounts (d ∷ ds) attempts
  ran :
      {d : StepDecision} {a : ExecutionAttempt} {ds : List StepDecision}
      {attempts : List ExecutionAttempt}
      → (is_rerun d.decision ≡ true)
      → Concludes d a
      → Accounts ds attempts
      → Accounts (d ∷ ds) (a ∷ attempts)

-- The steps that a list of decisions is about.
abbrev pub decided_steps : List StepDecision → List String
decided_steps ds = map (λ d. d.step_id) ds

-- Of the turns of a list of steps.
abbrev AreTold : List String → List Turn → Type 0
AreTold ids turns =
    (decided_steps (map (λ t. t.decision) turns) ≡ ids)
    × Accounts (map (λ t. t.decision) turns) (attempts_of turns)

Accounts-turn :
    (turn : Turn) (turns : List Turn)
    → Tells turn.decision turn.attempt
    → Accounts (map (λ t. t.decision) turns) (attempts_of turns)
    → Accounts (map (λ t. t.decision) (turn ∷ turns)) (attempts_of (turn ∷ turns))
Accounts-turn turn turns told rest = attempted turn.attempt refl
  where
    attempted :
        (o : Option ExecutionAttempt)
        → turn.attempt ≡ o
        → Accounts (map (λ t. t.decision) (turn ∷ turns)) (attempts_of (turn ∷ turns))
    attempted none e = let t : Tells turn.decision none = rw e at told in rw e (decided t rest)
    attempted (some a) e =
        let t : Tells turn.decision (some a) = rw e at told in rw e (ran t.0 t.1 rest)

module _ (platform : Platform) (client : MemoryClient) (surroundings : Surroundings)
    (engine : DeltaEngine) where
  run_steps-AreTold :
      (run : Running) (steps : Dict Step)
      → ((k : String) (s : Step) → lookup k steps ≡ some s → s.id ≡ k)
      → (ids : List String) (tracks : Tracks)
      → Ensures (run_steps platform client surroundings engine run steps ids tracks) (AreTold ids)
  unfolding run_steps
  run_steps-AreTold run steps named [] tracks = pure-Ensures (AreTold []) [] (refl, nothing)
  run_steps-AreTold run steps named (id ∷ ids) tracks =
      >>=-Ensures_given (AreTold (id ∷ ids)) (λ s. s.id ≡ id) (lift (at_key (lookup id steps) id)) _
        (lift-Ensures _ _ λ s h. named id s (at_key-some _ id s h))
        λ step same.
          >>=-Ensures_given (AreTold (id ∷ ids)) (IsTurnOf step)
            (run_step platform client surroundings engine run step tracks) _
            (run_step-IsTurnOf platform client surroundings engine run step tracks)
            λ turn told.
              >>=-Ensures_given (AreTold (id ∷ ids)) (AreTold ids)
                (run_steps platform client surroundings engine run steps ids turn.tracks) _
                (run_steps-AreTold run steps named ids turn.tracks)
                λ turns rest.
                  pure-Ensures (AreTold (id ∷ ids)) (turn ∷ turns)
                    (rw (told.0, same, rest.0) refl, Accounts-turn turn turns told.1 rest.1)

  module _ (request : RevisionRequest) (now : Option DateTime) where
    -- What a report says of the steps of the workflow.
    abbrev pub IsReport : ExecutionReport → Type 0
    IsReport report =
        (topological_order request.workflow ≡ ok (decided_steps report.decisions))
        × Accounts report.decisions report.attempts

    execute-Ensures : Ensures (execute platform client surroundings engine request now) IsReport
    unfolding execute
    execute-Ensures = >>=-Ensures IsReport (lift (validate_workflow request.workflow)) _ λ valid.
        >>=-Ensures IsReport (lift (validate_inputs platform request.workflow request.inputs)) _
          λ inputs. >>=-Ensures IsReport (time_or_now client surroundings now) _ λ current.
            >>=-Ensures IsReport
              (preview platform client surroundings engine request (some current) (λ id r. current))
              _
              λ plan.
                >>=-Ensures IsReport
                  (on_memory client (save_plan platform client engine.store plan)) _
                  λ saved.
                    >>=-Ensures_given IsReport
                      (λ order. topological_order request.workflow ≡ ok order)
                      (lift (topological_order request.workflow)) _ (lift-Ensures _ _ λ order h. h)
                      λ order ordered.
                        >>=-Ensures_given IsReport (AreTold order)
                          (run_steps platform client surroundings engine
                            (running platform client surroundings engine request inputs current)
                            (index_steps (λ s. s) [] request.workflow.steps) order no_tracks)
                          _
                          (run_steps-AreTold _ _
                            (λ k s found. (index_steps-found request.workflow.steps k s found).0)
                            order no_tracks)
                          λ turns told.
                            >>=-Ensures IsReport
                              (lift (
                                cost_summary platform
                                  (decisions_in platform client surroundings engine turns)))
                              _
                              λ costs.
                                pure-Ensures IsReport _ (ordered ∙ ap ok (sym told.0), told.1)

    -- A report has one decision for each step, in the topological order of the workflow, and its
    -- attempts are those of the decisions to run a step again, in order: each is of the decision's
    -- step and input signature, and either succeeded, without an error code, or failed as
    -- EXECUTOR_FAILED. A step that is reused, pending or blocked has no attempt.
    pub execute-IsReport :
        (w : World client) (report : ExecutionReport) (v : World client)
        → execute platform client surroundings engine request now w ≡ (ok report, v)
        → IsReport report
    execute-IsReport w report v h = execute-Ensures w report v h
