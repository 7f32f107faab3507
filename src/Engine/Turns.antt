-- ===== src/Engine/Turns.antt =====
-- delta/execute.py: what one step adds to the report of `execute`.
use delta_agent.Core.Schema.{fresh_until}
use delta_agent.Engine.Ownership.{record_event}
use delta_agent.Store.Attempts.{set_active_attempt, save_attempt}
use delta_agent.Store.Work.{save_work_result}
use delta_agent.Core.Value.{Value, DateTime}
use delta_agent.Engine.Run.{decide_only}
use delta_agent.Engine.Cost.{is_rerun}
use delta_agent.Engine.World.{call_executor, World, on_memory, DeltaEngine, Surroundings}
use delta_agent.Store.Client.{MemoryClient}
use delta_agent.Common.Result.{Error, ok}
use delta_agent.Engine.Perform.{
  failed_decision, note_failure, perform, executed_decision, finished, result_of, provenance_of,
  keep_output, Tracks, Turn,
}
use delta_agent.Core.Plan.{RevisionRequest, rerun, check_step_decision, StepDecision}
use delta_agent.Core.Attempt.{ExecutionAttempt, check_attempt}
use delta_agent.Core.Work.{Executor, check_work_result, Step}
use delta_agent.Core.Platform.{normalize, Platform}
use delta_agent.Core.Platform
use delta_agent.Common.{
  Bool, refl, inl, inr, ap, sym, subst, ◌∙◌, false, true, ◌⊎◌, some, none, Option, String, ◌≡◌,
  arith,
}
use delta_agent.Common.Action.{
  ◌>>=◌, ◌>>◌, Action, Ensures, >>=-Ensures, >>=-Ensures_given, pure-Ensures, lift-Ensures,
  try_except-Ensures, pure, lift,
}

-- An attempt that is over, and the decision that tells of it.
module _ (d : StepDecision) (a : ExecutionAttempt) where
  abbrev pub Succeeded : Type 0
  Succeeded =
      (a.status ≡ "succeeded") × (a.error_code ≡ none) × (d.reason_code ≡ "EXECUTED_SUCCESSFULLY")

  abbrev pub Failed : Type 0
  Failed =
      (a.status ≡ "failed")
      × (a.error_code ≡ some "EXECUTOR_FAILED")
      × (d.reason_code ≡ "EXECUTION_FAILED")

  abbrev pub Concludes : Type 0
  Concludes =
      (a.step_id ≡ d.step_id) × (d.input_signature ≡ some a.input_signature) × (Succeeded ⊎ Failed)

-- A step is run again with an attempt, and decided in any other way without one.
abbrev pub Tells : StepDecision → Option ExecutionAttempt → Type 0
Tells d (some a) = (is_rerun d.decision ≡ true) × Concludes d a
Tells d none = is_rerun d.decision ≡ false

abbrev pub attempted : Option ExecutionAttempt → Bool
attempted none = false
attempted (some a) = true

module _ (step : Step) where
  abbrev pub IsTurnOf : Turn → Type 0
  IsTurnOf turn = (turn.decision.step_id ≡ step.id) × Tells turn.decision turn.attempt

  -- Of a turn that has called the executor.
  abbrev pub IsRunOf : Turn → Type 0
  IsRunOf turn = IsTurnOf turn × (attempted turn.attempt ≡ true)

  abbrev pub IsAttemptOf : String → ExecutionAttempt → Type 0
  IsAttemptOf signature a = (a.step_id ≡ step.id) × (a.input_signature ≡ signature)

  abbrev pub IsOwnAttempt : String → Option ExecutionAttempt → Type 0
  IsOwnAttempt signature none = Unit
  IsOwnAttempt signature (some a) = IsAttemptOf signature a

pub check_attempt-same : (a b : ExecutionAttempt) → check_attempt a ≡ ok b → a ≡ b
unfolding check_attempt
check_attempt-same a b h = ground arith

check_step_decision-same :
    (platform : Platform) (d e : StepDecision)
    → check_step_decision platform d ≡ ok e
    → (e.step_id ≡ d.step_id)
      × (e.decision ≡ d.decision)
      × (e.reason_code ≡ d.reason_code)
      × (e.input_signature ≡ d.input_signature)
unfolding check_step_decision
check_step_decision-same platform d e h = (ground arith, ground arith, ground arith, ground arith)

-- A checked decision concludes a checked attempt of its step.
concluded :
    (platform : Platform) (step : Step) (d e : StepDecision) (a b : ExecutionAttempt)
    → Concludes d a
    → (d.step_id ≡ step.id)
    → (d.decision ≡ rerun)
    → check_attempt a ≡ ok b
    → check_step_decision platform d ≡ ok e
    → (e.step_id ≡ step.id) × Tells e (some b)
concluded platform step d e a b g named kind ha he =
    let same = check_step_decision-same platform d e he in
    let kept = check_attempt-same a b ha in
    (
      same.0 ∙ named,
      (rw (same.1, kind) refl, subst (Concludes e) kept (rw (same.0, same.2, same.3) g)),
    )

module _ (platform : Platform) (client : MemoryClient) (surroundings : Surroundings)
    (engine : DeltaEngine) where
  pub decide_only-IsTurnOf :
      (step : Step) (d : StepDecision) (tracks : Tracks)
      → (d.step_id ≡ step.id)
      → (is_rerun d.decision ≡ false)
      → Ensures (decide_only platform client surroundings engine d tracks) (IsTurnOf step)
  decide_only-IsTurnOf step d tracks named other =
      >>=-Ensures_given (IsTurnOf step) (λ e. (e.step_id ≡ step.id) × (is_rerun e.decision ≡ false))
        (lift (check_step_decision platform d))
        (λ e. pure (record { decision = e; attempt = none; tracks = tracks }))
        (lift-Ensures _ _ λ e h.
          let same = check_step_decision-same platform d e h in (same.0 ∙ named, rw same.1 other))
        (λ e g. pure-Ensures (IsTurnOf step) _ g)

  module _ (request : RevisionRequest) (now : DateTime) (step : Step) (input : Value)
      (signature : String) (attempt : ExecutionAttempt)
      (mine : IsAttemptOf step signature attempt) where
    -- How both branches of the `try` statement end: the attempt is saved with its last status, its
    -- step is freed, an event is written, and the decision made.
    abbrev close :
        String
        → Option String
        → String
        → String
        → StepDecision
        → (ExecutionAttempt → Tracks)
        → Action (World client) Turn
    close status code reason detail d tracks = do
      a ← lift (check_attempt (finished attempt status code))
      on_memory client (save_attempt platform client engine.store a)
      on_memory client (set_active_attempt platform client engine.store step.id none)
      record_event platform client surroundings engine request.scope attempt.attempt_id reason
          status detail now
      e ← lift (check_step_decision platform d)
      pure (record { decision = e; attempt = some a; tracks = tracks a })

    close-IsRunOf :
        (status : String) (code : Option String) (reason detail : String) (d : StepDecision)
        (tracks : ExecutionAttempt → Tracks)
        → Concludes d (finished attempt status code)
        → (d.step_id ≡ step.id)
        → (d.decision ≡ rerun)
        → Ensures (close status code reason detail d tracks) (IsRunOf step)
    close-IsRunOf status code reason detail d tracks g named kind =
        >>=-Ensures_given (IsRunOf step) (λ b. check_attempt (finished attempt status code) ≡ ok b)
          (lift (check_attempt (finished attempt status code))) _ (lift-Ensures _ _ λ b h. h)
          λ a ha.
            >>=-Ensures (IsRunOf step)
              (on_memory client (save_attempt platform client engine.store a)) _
              λ kept.
                >>=-Ensures (IsRunOf step)
                  (on_memory client (set_active_attempt platform client engine.store step.id none))
                  _
                  λ freed.
                    >>=-Ensures (IsRunOf step)
                      (record_event platform client surroundings engine request.scope
                        attempt.attempt_id reason status detail now)
                      _
                      λ told.
                        >>=-Ensures_given (IsRunOf step)
                          (λ e. check_step_decision platform d ≡ ok e)
                          (lift (check_step_decision platform d)) _ (lift-Ensures _ _ λ e h. h)
                          λ e he.
                            pure-Ensures (IsRunOf step) _
                              (concluded platform step d e _ a g named kind ha he, refl)

    note_failure-IsRunOf :
        (tracks : Tracks) (error : Error)
        → Ensures
            (note_failure platform client surroundings engine request now step input signature
              attempt tracks error)
            (IsRunOf step)
    unfolding note_failure
    note_failure-IsRunOf tracks error =
        close-IsRunOf "failed" (some "EXECUTOR_FAILED") "EXECUTION_FAILED" _
          (failed_decision step input signature) _
          (mine.0, sym (ap some mine.1), inr (refl, refl, refl)) refl refl

    keep_output-IsRunOf :
        (tracks : Tracks) (raw : Value)
        → Ensures
            (keep_output platform client surroundings engine request now step input signature
              attempt tracks raw)
            (IsRunOf step)
    unfolding keep_output
    keep_output-IsRunOf tracks raw =
        >>=-Ensures (IsRunOf step) (lift (normalize platform raw)) _ λ produced.
          >>=-Ensures (IsRunOf step) (lift (Platform.output_signature platform produced)) _
            λ signed. >>=-Ensures (IsRunOf step) (lift (fresh_until step.freshness now)) _ λ fresh.
              >>=-Ensures (IsRunOf step)
                (lift (provenance_of engine.principal step.declaration now)) _
                λ provenance.
                  >>=-Ensures (IsRunOf step)
                    (lift (
                      check_work_result platform (
                        result_of platform client surroundings engine request now step signature
                          produced signed fresh attempt.attempt_id provenance)))
                    _
                    λ result.
                      >>=-Ensures (IsRunOf step)
                        (on_memory client (save_work_result platform client engine.store result)) _
                        λ saved.
                          close-IsRunOf "succeeded" none "RESULT_PERSISTED" _
                            (executed_decision step input signature) _
                            (mine.0, sym (ap some mine.1), inl (refl, refl, refl)) refl refl

    pub perform-IsRunOf :
        (tracks : Tracks) (executor : Executor)
        → Ensures
            (perform platform client surroundings engine request now step executor input signature
              attempt tracks)
            (IsRunOf step)
    unfolding perform
    perform-IsRunOf tracks executor =
        try_except-Ensures (IsRunOf step) _ _
          (>>=-Ensures (IsRunOf step) (call_executor client executor input) _
            λ raw. keep_output-IsRunOf tracks raw)
          (λ e. note_failure-IsRunOf tracks e)
