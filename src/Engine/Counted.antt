-- ===== src/Engine/Counted.antt =====
-- delta/execute.py: how often `execute` calls executors.
use delta_agent.Engine.StepCounts.{run_step-Counts, attempts_of-runs, turn_runs, runs}
use delta_agent.Store.Attempts.{save_plan}
use delta_agent.Core.Inputs.{validate_inputs}
use delta_agent.Engine.Counting.{Counts, kept-Counts, >>=-Counts, >>=-Counts_kept}
use delta_agent.Engine.Cost.{cost_summary}
use delta_agent.Core.Workflow.{index_steps, topological_order, validate_workflow, at_key}
use delta_agent.Common.Dict.{lookup, Dict}
use delta_agent.Core.Value.{DateTime}
use delta_agent.Core.Work.{WorkResult, Step}
use delta_agent.Common.Result.{ok-injective, ok}
use delta_agent.Core.Plan.{RevisionRequest}
use delta_agent.Engine.Run.{
  no_tracks, running, report_of, decisions_in, execute, ExecutionReport, preview, attempts_of,
  run_steps, run_step, Running,
}
use delta_agent.Engine.Calls.{
  keeping, time_or_now-Keeps, pure-Keeps, on_memory-Keeps, lift-Keeps, Keeps,
}
use delta_agent.Common.Action.{pure, pure-Ensures, lift, >>=-returned, ◌>>=◌}
use delta_agent.Engine.World.{on_memory, time_or_now, World, DeltaEngine, Surroundings}
use delta_agent.Core.Platform.{Platform}
use delta_agent.Engine.Perform.{Tracks, Turn}
use delta_agent.Store.Client.{MemoryClient}
use delta_agent.Common.{[], ◌∷◌, length, List, String, ap, ℕ, Option, ◌≡◌, refl, some, ◌+◌, arith}

module _ (platform : Platform) (client : MemoryClient) (surroundings : Surroundings)
    (engine : DeltaEngine) where
  run_steps-Counts :
      (run : Running) (steps : Dict Step) (ids : List String) (tracks : Tracks)
      → Counts client
          (λ turns. length (attempts_of turns))
          (run_steps platform client surroundings engine run steps ids tracks)
  unfolding run_steps Counts
  run_steps-Counts run steps [] tracks =
      kept-Counts client _ (pure []) (pure-Keeps client []) (pure-Ensures _ [] refl)
  run_steps-Counts run steps (id ∷ ids) tracks =
      >>=-Counts_kept client _ (lift (at_key (lookup id steps) id)) _ (lift-Keeps client _) λ step.
        >>=-Counts client turn_runs _ (run_step platform client surroundings engine run step tracks)
          _ (run_step-Counts platform client surroundings engine run step tracks)
          (λ turn. more turn (run_steps-Counts run steps ids turn.tracks))
    where
      more :
          (turn : Turn)
          → Counts client
              (λ turns. length (attempts_of turns))
              (run_steps platform client surroundings engine run steps ids turn.tracks)
          → (w : World client) (turns : List Turn) (v : World client)
          → (run_steps platform client surroundings engine run steps ids turn.tracks >>= λ rest.
                pure (turn ∷ rest))
              w
            ≡ (ok turns, v)
          → v.calls + runs turn.attempt ≡ w.calls + length (attempts_of turns)
      more turn counted w turns v h =
          let (rest, u, h1, h2) =
            >>=-returned (run_steps platform client surroundings engine run steps ids turn.tracks) _
              w h in
          let c = counted w rest u h1 in
          let same = ok-injective (ap (λ q. q.0) h2) in
          let k = ap (λ q. (q.1).calls) h2 in
          let n = ap (λ ts. length (attempts_of ts)) same in
          let m = attempts_of-runs turn rest in omega arith

  module _ (request : RevisionRequest) (now : Option DateTime) where
    preview-Keeps :
        (t : Option DateTime) (clock : String → WorkResult → DateTime)
        → Keeps client (preview platform client surroundings engine request t clock)
    unfolding preview
    preview-Keeps t clock = search keeping depth 12

    reported-Counts :
        (turns : List Turn) (w : World client) (report : ExecutionReport) (v : World client)
        → (lift (cost_summary platform (decisions_in platform client surroundings engine turns))
              >>= λ costs. pure (report_of platform client surroundings engine request turns costs))
            w
          ≡ (ok report, v)
        → v.calls + length (attempts_of turns) ≡ w.calls + length report.attempts
    reported-Counts turns w report v h =
        let (costs, u, h1, h2) =
          >>=-returned
            (lift (cost_summary platform (decisions_in platform client surroundings engine turns)))
            _ w h in
        let same = ap (λ r. length r.attempts) (ok-injective (ap (λ q. q.0) h2)) in
        let k = ap (λ q. (q.1).calls) h2 in let m = ap (λ q. (q.1).calls) h1 in omega arith

    execute-Counts :
        Counts client
          (λ report. length report.attempts)
          (execute platform client surroundings engine request now)
    unfolding execute
    execute-Counts =
        let count : ExecutionReport → ℕ = λ report. length report.attempts in
        >>=-Counts_kept client count (lift (validate_workflow request.workflow)) _
          (lift-Keeps client _)
          λ valid.
            >>=-Counts_kept client count
              (lift (validate_inputs platform request.workflow request.inputs)) _
              (lift-Keeps client _)
              λ inputs.
                >>=-Counts_kept client count (time_or_now client surroundings now) _
                  (time_or_now-Keeps client surroundings now)
                  λ current.
                    >>=-Counts_kept client count
                      (preview platform client surroundings engine request (some current)
                        (λ id r. current))
                      _ (preview-Keeps (some current) (λ id r. current))
                      λ plan.
                        >>=-Counts_kept client count
                          (on_memory client (save_plan platform client engine.store plan)) _
                          (on_memory-Keeps client _)
                          λ saved.
                            >>=-Counts_kept client count (lift (topological_order request.workflow))
                              _ (lift-Keeps client _)
                              λ order.
                                >>=-Counts client (λ turns. length (attempts_of turns)) count
                                  (run_steps platform client surroundings engine
                                    (running platform client surroundings engine request inputs
                                      current)
                                    (index_steps (λ s. s) [] request.workflow.steps) order
                                    no_tracks)
                                  _ (run_steps-Counts _ _ order no_tracks) reported-Counts

    -- Where `execute` returns a report, it has called executors exactly as often as the report has
    -- attempts.
    pub execute-calls :
        (w : World client) (report : ExecutionReport) (v : World client)
        → execute platform client surroundings engine request now w ≡ (ok report, v)
        → v.calls ≡ w.calls + length report.attempts
    unfolding Counts
    execute-calls w report v h = execute-Counts w report v h
