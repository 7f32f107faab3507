-- ===== src/Engine/StepCounts.antt =====
-- delta/execute.py: how often one step calls executors.
use delta_agent.Engine.Counting.{Counts, kept-Counts, if-Counts, >>=-Counts_given, >>=-Counts_kept}
use delta_agent.Store.Work.{get_work_result}
use delta_agent.Engine.Steps.{start_attempt-IsAttemptOf}
use delta_agent.Core.Workflow.{input_signature, resolve_step_input}
use delta_agent.Engine.Turns.{perform-IsRunOf, attempted, IsAttemptOf, IsOwnAttempt}
use delta_agent.Core.Value.{Value}
use delta_agent.Core.Work.{matches, WorkResult, Executor, Step}
use delta_agent.Common.Result.{dependency_pending, err, Result, ok}
use delta_agent.Core.Plan.{check_step_decision, StepDecision}
use delta_agent.Engine.Run.{
  attempts_of, run_unless_found, run_resolved, run_unowned, run_step, run_anew, run_owned, run_with,
  decide_only, Running,
}
use delta_agent.Engine.Calls.{
  on_memory-Keeps, lift-Keeps, perform-calls, active_attempt-Keeps, start_attempt-Keeps,
  decide_only-Keeps,
}
use delta_agent.Common.Action.{pure-Ensures, lift, >>=-Ensures}
use delta_agent.Engine.World.{DeltaEngine, Surroundings}
use delta_agent.Core.Attempt.{ExecutionAttempt}
use delta_agent.Core.Platform.{Platform}
use delta_agent.Engine.Perform.{perform, Tracks, Turn}
use delta_agent.Store.Client.{MemoryClient}
use delta_agent.Common.{
  ◌∷◌, length, List, String, ap, ℕ, Option, ◌≡◌, refl, none, some, true, ◌+◌, arith,
}

-- A run of an executor belongs to an attempt.
abbrev pub runs : Option ExecutionAttempt → ℕ
runs none = 0
runs (some a) = 1

runs-attempted : (o : Option ExecutionAttempt) → attempted o ≡ true → runs o ≡ 1
runs-attempted none h = cc
runs-attempted (some b) h = refl

pub attempts_of-runs :
    (turn : Turn) (turns : List Turn)
    → length (attempts_of (turn ∷ turns)) ≡ runs turn.attempt + length (attempts_of turns)
attempts_of-runs turn turns = each turn.attempt refl
  where
    each :
        (o : Option ExecutionAttempt)
        → turn.attempt ≡ o
        → length (attempts_of (turn ∷ turns)) ≡ runs turn.attempt + length (attempts_of turns)
    each none e = rw e (omega arith)
    each (some a) e = rw e (omega arith)

abbrev pub turn_runs : Turn → ℕ
turn_runs turn = runs turn.attempt

module _ (platform : Platform) (client : MemoryClient) (surroundings : Surroundings)
    (engine : DeltaEngine) where
  decide_only-Counts :
      (d : StepDecision) (tracks : Tracks)
      → Counts client turn_runs (decide_only platform client surroundings engine d tracks)
  decide_only-Counts d tracks =
      kept-Counts client turn_runs _
        (decide_only-Keeps platform client surroundings engine d tracks)
        (>>=-Ensures (λ a. turn_runs a ≡ 0) (lift (check_step_decision platform d)) _
          λ e. pure-Ensures (λ a. turn_runs a ≡ 0) _ refl)

  module _ (run : Running) (step : Step) (input : Value) (signature : String)
      (tracks : Tracks) where
    perform-Counts :
        (executor : Executor) (a : ExecutionAttempt)
        → IsAttemptOf step signature a
        → Counts client turn_runs (
            perform platform client surroundings engine run.request run.now step executor input
              signature a tracks)
    unfolding Counts
    perform-Counts executor a mine w turn v h =
        let called =
          perform-calls platform client surroundings engine run.request run.now step input signature
            a tracks executor w in
        let e = ap (λ q. (q.1).calls) h in
        let once =
          runs-attempted turn.attempt
            (perform-IsRunOf platform client surroundings engine run.request run.now step input
              signature a mine tracks executor w turn v h).1 in
        omega arith

    run_owned-Counts :
        (executor : Executor) (started : Option ExecutionAttempt)
        → IsOwnAttempt step signature started
        → Counts client turn_runs (
            run_owned platform client surroundings engine run step executor input signature tracks
              started)
    run_owned-Counts executor (some a) mine = perform-Counts executor a mine
    run_owned-Counts executor none mine = decide_only-Counts _ _

    run_with-Counts :
        (executor : Option Executor)
        → Counts client turn_runs
            (run_with platform client surroundings engine run step input signature tracks executor)
    run_with-Counts none = decide_only-Counts _ _
    run_with-Counts (some executor) =
        >>=-Counts_given client turn_runs (IsOwnAttempt step signature) _ _
          (start_attempt-Keeps platform client surroundings engine run.request step.id signature)
          (start_attempt-IsAttemptOf platform client surroundings engine run.request step signature)
          (run_owned-Counts executor)

    run_unowned-Counts :
        (existing : Option ExecutionAttempt)
        → Counts client turn_runs (
            run_unowned platform client surroundings engine run step input signature tracks
              existing)
    run_unowned-Counts none = run_with-Counts step.executor
    run_unowned-Counts (some a) = decide_only-Counts _ _

    run_anew-Counts :
        Counts client turn_runs
          (run_anew platform client surroundings engine run step input signature tracks)
    run_anew-Counts =
        >>=-Counts_kept client turn_runs _ _
          (active_attempt-Keeps platform client surroundings engine step.id signature)
          run_unowned-Counts

    run_unless_found-Counts :
        (found : Option WorkResult)
        → Counts client turn_runs (
            run_unless_found platform client surroundings engine run step input signature tracks
              found)
    run_unless_found-Counts none = run_anew-Counts
    run_unless_found-Counts (some r) =
        if-Counts client turn_runs
          (matches r run.request.scope run.request.workflow step signature run.now) _ _
          (decide_only-Counts _ _) run_anew-Counts

  run_resolved-Counts :
      (run : Running) (step : Step) (tracks : Tracks) (input : Result Value)
      → Counts client turn_runs
          (run_resolved platform client surroundings engine run step tracks input)
  unfolding Counts
  run_resolved-Counts run step tracks (ok input) =
      >>=-Counts_kept client turn_runs _ _
        (lift-Keeps client
          (input_signature platform run.request.scope run.request.workflow step input))
        λ signature.
          >>=-Counts_kept client turn_runs _ _
            (on_memory-Keeps client (
              get_work_result platform client engine.store run.request.workflow.id step.id
                signature))
            (run_unless_found-Counts run step input signature tracks)
  run_resolved-Counts run step tracks (err (dependency_pending detail)) = decide_only-Counts _ _
  run_resolved-Counts run step tracks (err e) = λ s a t h. cc

  pub run_step-Counts :
      (run : Running) (step : Step) (tracks : Tracks)
      → Counts client turn_runs (run_step platform client surroundings engine run step tracks)
  unfolding run_step
  run_step-Counts run step tracks =
      run_resolved-Counts run step tracks
        (resolve_step_input platform run.inputs tracks.outputs step)
