-- ===== src/Engine/Calls.antt =====
-- delta/execute.py: which calls leave the number of executor calls alone.
use delta_agent.Core.Attempt.{ExecutionAttempt}
use delta_agent.Engine.Run.{decide_only}
use delta_agent.Core.Work.{Executor, Step}
use delta_agent.Engine.Perform.{perform, note_failure, keep_output, Tracks}
use delta_agent.Core.Schema.{Scope}
use delta_agent.Core.Value.{Value, DateTime}
use delta_agent.Core.Plan.{StepDecision, RevisionRequest}
use delta_agent.Engine.Ownership.{
  start_unless, active_from, start_attempt, record_event, active_attempt,
}
use delta_agent.Engine.World.{
  outcome_of, time_or_now, fresh_id, DeltaEngine, on_memory, World, Surroundings,
}
use delta_agent.Core.Platform.{Platform}
use delta_agent.Common.Action.{recover, try_except, pure, proceed, ◌>>=◌, lift, Action}
use delta_agent.Common.Result.{Error, err, ok, Result}
use delta_agent.Store.Client.{MemoryClient}
use delta_agent.Common.{
  false, ◌+◌, true, if◌then◌else◌, Bool, ◌∙◌, String, Option, ◌≡◌, refl, none, some,
}

-- However the call ends.
module _ (client : MemoryClient) where
  module _ {A : Type 0} where
    unfoldable pub Keeps : Action (World client) A → Type 0
    Keeps m = (w : World client) → ((m w).1).calls ≡ w.calls

    pub on_memory-Keeps :
        (call : Action (MemoryClient.Memory client) A) → Keeps (on_memory client call)
    unfolding Keeps
    on_memory-Keeps call w = refl

    pub lift-Keeps : (r : Result A) → Keeps (lift r)
    unfolding Keeps
    lift-Keeps r w = refl

    pub pure-Keeps : (a : A) → Keeps (pure a)
    unfolding Keeps
    pure-Keeps a w = refl

  module _ {A B : Type 0} where
    pub >>=-Keeps :
        (first : Action (World client) A) (rest : A → Action (World client) B)
        → Keeps first
        → ((a : A) → Keeps (rest a))
        → Keeps (first >>= rest)
    unfolding Keeps
    >>=-Keeps first rest kept each w = past (first w) (kept w)
      where
        past :
            (r : Result A × World client)
            → (r.1).calls ≡ w.calls
            → ((proceed rest r).1).calls ≡ w.calls
        past (ok a, v) e = each a v ∙ e
        past (err raised, v) e = e

  module _ {A : Type 0} where
    pub try_except-Keeps :
        (body : Action (World client) A) (handler : Error → Action (World client) A)
        → Keeps body
        → ((e : Error) → Keeps (handler e))
        → Keeps (try_except body handler)
    unfolding Keeps
    try_except-Keeps body handler kept each w = past (body w) (kept w)
      where
        past :
            (r : Result A × World client)
            → (r.1).calls ≡ w.calls
            → ((recover handler r).1).calls ≡ w.calls
        past (ok a, v) e = e
        past (err raised, v) e = each raised v ∙ e

    if-Keeps :
        (b : Bool) (first second : Action (World client) A)
        → Keeps first
        → Keeps second
        → Keeps (if b then first else second)
    if-Keeps true first second of_first of_second = of_first
    if-Keeps false first second of_first of_second = of_second

  module _ (surroundings : Surroundings) where
    pub fresh_id-Keeps : (prefix : String) → Keeps (fresh_id client surroundings prefix)
    unfolding Keeps
    fresh_id-Keeps prefix w = refl

    pub time_or_now-Keeps : (t : Option DateTime) → Keeps (time_or_now client surroundings t)
    unfolding Keeps
    time_or_now-Keeps none w = refl
    time_or_now-Keeps (some t) w = refl

pub ruleset keeping =
    (>>=-Keeps, lift-Keeps, pure-Keeps, on_memory-Keeps, fresh_id-Keeps, time_or_now-Keeps)

module _ (platform : Platform) (client : MemoryClient) (surroundings : Surroundings)
    (engine : DeltaEngine) where
  pub record_event-Keeps :
      (scope : Scope) (attempt_id reason state detail : String) (t : DateTime)
      → Keeps client
          (record_event platform client surroundings engine scope attempt_id reason state detail t)
  unfolding record_event
  record_event-Keeps scope attempt_id reason state detail t = search keeping

  pub decide_only-Keeps :
      (d : StepDecision) (tracks : Tracks)
      → Keeps client (decide_only platform client surroundings engine d tracks)
  decide_only-Keeps d tracks = search keeping

  active_from-Keeps :
      (signature : String) (id : Option String)
      → Keeps client (active_from platform client surroundings engine signature id)
  active_from-Keeps signature none = search keeping
  active_from-Keeps signature (some id) = search keeping

  pub active_attempt-Keeps :
      (step_id signature : String)
      → Keeps client (active_attempt platform client surroundings engine step_id signature)
  unfolding active_attempt
  active_attempt-Keeps step_id signature = search (keeping, active_from-Keeps)

  start_unless-Keeps :
      (request : RevisionRequest) (step_id signature : String) (existing : Option ExecutionAttempt)
      → Keeps client
          (start_unless platform client surroundings engine request step_id signature existing)
  start_unless-Keeps request step_id signature none = search (keeping, record_event-Keeps) depth 20
  start_unless-Keeps request step_id signature (some a) = search keeping

  pub start_attempt-Keeps :
      (request : RevisionRequest) (step_id signature : String)
      → Keeps client (start_attempt platform client surroundings engine request step_id signature)
  unfolding start_attempt
  start_attempt-Keeps request step_id signature =
      search (keeping, active_attempt-Keeps, start_unless-Keeps)

  module _ (request : RevisionRequest) (now : DateTime) (step : Step) (input : Value)
      (signature : String) (attempt : ExecutionAttempt) (tracks : Tracks) where
    keep_output-Keeps :
        (raw : Value)
        → Keeps client (
            keep_output platform client surroundings engine request now step input signature attempt
              tracks raw)
    unfolding keep_output
    keep_output-Keeps raw = search (keeping, record_event-Keeps) depth 20

    note_failure-Keeps :
        (error : Error)
        → Keeps client (
            note_failure platform client surroundings engine request now step input signature
              attempt tracks error)
    unfolding note_failure
    note_failure-Keeps error = search (keeping, record_event-Keeps) depth 20

    -- One run of an executor calls it once, whatever it answers and whatever is raised then.
    pub perform-calls :
        (executor : Executor) (w : World client)
        → ((perform platform client surroundings engine request now step executor input signature
            attempt tracks w).1
          ).calls
          ≡ w.calls + 1
    unfolding perform Keeps
    perform-calls executor w =
        try_except-Keeps client
          (lift (outcome_of client (executor w.calls input))
            >>= keep_output platform client surroundings engine request now step input signature
                attempt tracks)
          (note_failure platform client surroundings engine request now step input signature attempt
            tracks)
          (search (keeping, keep_output-Keeps)) note_failure-Keeps
          (record w { calls = w.calls + 1 })
