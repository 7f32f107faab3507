-- ===== src/Engine/Steps.antt =====
-- delta/execute.py: what the body of the loop of `execute` adds to the report, on each of its paths.
use delta_agent.Common.Dict.{insert}
use delta_agent.Engine.Cost.{is_rerun}
use delta_agent.Core.Workflow.{resolve_step_input, input_signature, extract_dependencies}
use delta_agent.Store.Work.{get_work_result}
use delta_agent.Store.Attempts.{set_active_attempt, save_attempt}
use delta_agent.Common.Result.{dependency_pending, err, ok, Result}
use delta_agent.Core.Attempt.{ExecutionAttempt, check_attempt}
use delta_agent.Engine.Turns.{
  perform-IsRunOf, check_attempt-same, IsAttemptOf, decide_only-IsTurnOf, IsTurnOf, IsOwnAttempt,
}
use delta_agent.Core.Value.{Value}
use delta_agent.Engine.Perform.{Tracks}
use delta_agent.Core.Work.{matches, Executor, WorkResult, Step}
use delta_agent.Core.Plan.{RevisionRequest}
use delta_agent.Engine.Ownership.{
  start_unless, record_event, new_attempt, active_attempt, start_free, start_attempt,
}
use delta_agent.Engine.Run.{
  run_unowned, waiting_decision, matching_decision, any_member, run_resolved, run_owned, block,
  run_unless_found, run_with, blocked_decision, stop, run_anew, run_step, Running,
}
use delta_agent.Engine.World.{time_or_now, on_memory, fresh_id, DeltaEngine, Surroundings}
use delta_agent.Store.Client.{MemoryClient}
use delta_agent.Core.Platform.{Platform}
use delta_agent.Common.{refl, none, some, true, false, ◌++◌, subst, some, Option, String, ◌≡◌}
use delta_agent.Common.Action.{
  if-Ensures, Ensures, >>=-Ensures, >>=-Ensures_given, pure-Ensures, lift-Ensures, lift,
}

module _ (platform : Platform) (client : MemoryClient) (surroundings : Surroundings)
    (engine : DeltaEngine) where
  -- A new attempt, if there is one, belongs to the step and the signature.
  pub start_attempt-IsAttemptOf :
      (request : RevisionRequest) (step : Step) (signature : String)
      → Ensures
          (start_attempt platform client surroundings engine request step.id signature)
          (IsOwnAttempt step signature)
  unfolding start_attempt
  start_attempt-IsAttemptOf request step signature =
      >>=-Ensures (IsOwnAttempt step signature)
        (active_attempt platform client surroundings engine step.id signature) _
        λ existing. unless existing
    where
      started :
          Ensures
            (start_free platform client surroundings engine request step.id signature)
            (IsOwnAttempt step signature)
      started =
          >>=-Ensures (IsOwnAttempt step signature) (fresh_id client surroundings "attempt-") _
            λ id.
              >>=-Ensures_given (IsOwnAttempt step signature) (IsAttemptOf step signature)
                (lift (
                  check_attempt
                    (new_attempt id request.scope request.workflow.id step.id signature)))
                _
                (lift-Ensures _ _ λ b h.
                  subst (IsAttemptOf step signature)
                    (check_attempt-same
                      (new_attempt id request.scope request.workflow.id step.id signature) b h)
                    (refl, refl))
                λ a mine.
                  >>=-Ensures (IsOwnAttempt step signature)
                    (on_memory client (save_attempt platform client engine.store a)) _
                    λ saved.
                      >>=-Ensures (IsOwnAttempt step signature)
                        (on_memory client (
                          set_active_attempt platform client engine.store step.id
                            (some a.attempt_id)))
                        _
                        λ set.
                          >>=-Ensures (IsOwnAttempt step signature)
                            (time_or_now client surroundings request.requested_at) _
                            λ t.
                              >>=-Ensures (IsOwnAttempt step signature)
                                (record_event platform client surroundings engine request.scope
                                  a.attempt_id "ATTEMPT_STARTED" "active"
                                  "Execution ownership was persisted before calling the executor."
                                  t)
                                _ λ told. pure-Ensures (IsOwnAttempt step signature) (some a) mine

      unless :
          (existing : Option ExecutionAttempt)
          → Ensures
              (start_unless platform client surroundings engine request step.id signature existing)
              (IsOwnAttempt step signature)
      unless none = started
      unless (some a) = pure-Ensures (IsOwnAttempt step signature) none tt

  module _ (run : Running) (step : Step) (tracks : Tracks) where
    stop-IsTurnOf :
        (code reason : String) (input : Value) (signature : String)
        → Ensures
            (stop platform client surroundings engine code reason step input signature tracks)
            (IsTurnOf step)
    stop-IsTurnOf code reason input signature =
        decide_only-IsTurnOf platform client surroundings engine step
          (blocked_decision code reason step input signature) (block step tracks) refl refl

    run_with-IsTurnOf :
        (input : Value) (signature : String) (executor : Option Executor)
        → Ensures
            (run_with platform client surroundings engine run step input signature tracks executor)
            (IsTurnOf step)
    run_with-IsTurnOf input signature none = stop-IsTurnOf _ _ input signature
    run_with-IsTurnOf input signature (some executor) =
        >>=-Ensures_given (IsTurnOf step) (IsOwnAttempt step signature)
          (start_attempt platform client surroundings engine run.request step.id signature) _
          (start_attempt-IsAttemptOf run.request step signature) λ started mine. owned started mine
      where
        owned :
            (started : Option ExecutionAttempt)
            → IsOwnAttempt step signature started
            → Ensures
                (run_owned platform client surroundings engine run step executor input signature
                  tracks started)
                (IsTurnOf step)
        owned none mine = stop-IsTurnOf _ _ input signature
        owned (some a) mine = λ w turn v h.
            (perform-IsRunOf platform client surroundings engine run.request run.now step input
              signature a mine tracks executor w turn v h).0

    run_anew-IsTurnOf :
        (input : Value) (signature : String)
        → Ensures
            (run_anew platform client surroundings engine run step input signature tracks)
            (IsTurnOf step)
    run_anew-IsTurnOf input signature =
        >>=-Ensures (IsTurnOf step)
          (active_attempt platform client surroundings engine step.id signature) _
          λ existing. unowned existing
      where
        unowned :
            (existing : Option ExecutionAttempt)
            → Ensures
                (run_unowned platform client surroundings engine run step input signature tracks
                  existing)
                (IsTurnOf step)
        unowned none = run_with-IsTurnOf input signature step.executor
        unowned (some a) = stop-IsTurnOf _ _ input signature

    run_unless_found-IsTurnOf :
        (input : Value) (signature : String) (found : Option WorkResult)
        → Ensures
            (run_unless_found platform client surroundings engine run step input signature tracks
              found)
            (IsTurnOf step)
    run_unless_found-IsTurnOf input signature none = run_anew-IsTurnOf input signature
    run_unless_found-IsTurnOf input signature (some r) =
        if-Ensures (IsTurnOf step)
          (matches r run.request.scope run.request.workflow step signature run.now) _ _
          (decide_only-IsTurnOf platform client surroundings engine step
            (matching_decision step input signature)
            (record tracks { outputs = insert step.id r.output tracks.outputs }) refl refl)
          (run_anew-IsTurnOf input signature)

    -- Of every turn that the body of the loop ends with.
    pub run_step-IsTurnOf :
        Ensures (run_step platform client surroundings engine run step tracks) (IsTurnOf step)
    unfolding run_step
    run_step-IsTurnOf = resolved (resolve_step_input platform run.inputs tracks.outputs step)
      where
        resolved :
            (input : Result Value)
            → Ensures
                (run_resolved platform client surroundings engine run step tracks input)
                (IsTurnOf step)
        resolved (ok input) =
            >>=-Ensures (IsTurnOf step)
              (lift (input_signature platform run.request.scope run.request.workflow step input)) _
              λ signature.
                >>=-Ensures (IsTurnOf step)
                  (on_memory client (
                    get_work_result platform client engine.store run.request.workflow.id step.id
                      signature))
                  _ λ found. run_unless_found-IsTurnOf input signature found
        resolved (err (dependency_pending detail)) =
            let stopped =
              any_member (extract_dependencies step)
                (tracks.failed_steps ++ tracks.blocked_steps) in
            decide_only-IsTurnOf platform client surroundings engine step
              (waiting_decision step detail stopped) (block step tracks) refl
              (elim stopped as (λ b. is_rerun (waiting_decision step detail b).decision ≡ false) [
                | true ↦ refl
                | false ↦ refl
              ])
        resolved (err e) = λ s a t h. cc
