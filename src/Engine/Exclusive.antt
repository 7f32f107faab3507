-- ===== src/Engine/Exclusive.antt =====
-- delta/execute.py: what an attempt that was started means for its step.
use delta_agent.Engine.Beside.{
  get_attempt-reads, on_memory-returned, time_or_now-memory, get_active_attempt-reads,
  get_active_attempt-beside, record_event-IsBeside, IsBeside,
}
use mathlib.Core.Option.{some-injective}
use delta_agent.Store.Owned.{get_active_attempt-set_active_attempt, get_attempt-save_attempt}
use delta_agent.Engine.Turns.{check_attempt-same}
use delta_agent.Common.Text.{◌⧺◌}
use text.Mathlib.TextPositions.{eq_refl}
use delta_agent.Core.Plan.{RevisionRequest}
use delta_agent.Core.Workflow.{member}
use delta_agent.Core.Attempt.{check_attempt, ExecutionAttempt}
use delta_agent.Core.Schema.{Scope}
use delta_agent.Engine.Ownership.{
  start_unless, start_free, new_attempt, owner, active_attempt, start_attempt, record_event,
}
use delta_agent.Engine.World.{time_or_now, on_memory, World, DeltaEngine, Surroundings}
use delta_agent.Store.Entities.{attempt_category}
use delta_agent.Store.Attempts.{
  head_payload, set_active_attempt, save_attempt, head_key, get_attempt, get_active_attempt,
}
use delta_agent.Store.Client.{IsStorage, MemoryClient}
use delta_agent.Common.Action.{lift-returned, >>=-returned}
use delta_agent.Common.Result.{ok-injective, ok}
use delta_agent.Core.Platform.{Platform}
use delta_agent.Common.{◌+◌, Option, String, ◌≡◌, refl, some, none, sym, ◌∙◌, ap, subst}

module _ (platform : Platform) (client : MemoryClient) (storage : IsStorage client)
    (surroundings : Surroundings) (engine : DeltaEngine) where
  open client use {Memory, get_entity}

  owner-new_attempt :
      (id : String) (scope : Scope) (workflow_id step_id signature : String)
      → owner signature (some (new_attempt id scope workflow_id step_id signature))
        ≡ some (new_attempt id scope workflow_id step_id signature)
  unfolding member
  owner-new_attempt id scope workflow_id step_id signature = rw (eq_refl signature) refl

  -- What `_active_attempt` finds where the head and the attempt can be read.
  active_attempt-found :
      (step_id signature : String) (a : ExecutionAttempt) (w : World client)
      → (get_active_attempt platform client engine.store step_id w.memory).0
        ≡ ok (some a.attempt_id)
      → ((m : Memory)
          → ((category name : String)
              → (get_entity category name m).0 ≡ (get_entity category name w.memory).0)
          → (get_attempt platform client engine.store a.attempt_id m).0 ≡ ok (some a))
      → owner signature (some a) ≡ some a
      → (active_attempt platform client surroundings engine step_id signature w).0 ≡ ok (some a)
  unfolding active_attempt
  active_attempt-found step_id signature a w head attempt own =
      let found =
        attempt ((get_active_attempt platform client engine.store step_id w.memory).1)
          (λ category name.
            get_active_attempt-beside platform client storage engine.store step_id category name
              w.memory) in
      rw (head, found, own) refl

  set_active_attempt-beside :
      (step_id : String) (id : Option String) (m n : Memory)
      → set_active_attempt platform client engine.store step_id id m ≡ (ok tt, n)
      → (category name : String) → (get_entity category name n).0 ≡ (get_entity category name m).0
  unfolding set_active_attempt
  set_active_attempt-beside step_id id m n h category name =
      let (key, h1, k1) = lift-returned (head_key platform client engine.store step_id) _ m h in
      storage.entity_beside_state category name key (head_payload engine.store step_id id) m n k1

  -- An attempt that was saved, made the head of its step and told of is found as its owner.
  saved-IsOwner :
      (step_id signature : String) (a : ExecutionAttempt) (m1 m2 m3 : Memory) (w : World client)
      → check_attempt a ≡ ok a
      → owner signature (some a) ≡ some a
      → save_attempt platform client engine.store a m1 ≡ (ok tt, m2)
      → set_active_attempt platform client engine.store step_id (some a.attempt_id) m2 ≡ (ok tt, m3)
      → IsBeside client m3 w.memory
      → (active_attempt platform client surroundings engine step_id signature w).0 ≡ ok (some a)
  saved-IsOwner step_id signature a m1 m2 m3 w sound own saved headed beside =
      let (o, kept) =
        get_attempt-save_attempt platform client storage engine.store a m1 m2 sound saved in
      let (p, head) =
        get_active_attempt-set_active_attempt platform client storage engine.store step_id
          (some a.attempt_id) m2 m3 headed in
      active_attempt-found step_id signature a w
        (get_active_attempt-reads platform client engine.store step_id w.memory m3 beside.1
          ∙ ap (λ q. q.0) head)
        (λ m same.
          get_attempt-reads platform client engine.store a.attempt_id m m2 (λ name.
            same attempt_category name
            ∙ beside.0 attempt_category name
            ∙ set_active_attempt-beside step_id (some a.attempt_id) m2 m3 headed attempt_category
                name)
          ∙ ap (λ q. q.0) kept)
        own

  -- A step whose attempt was started is owned by that attempt.
  start_attempt-IsOwned :
      (request : RevisionRequest) (step_id signature : String) (a : ExecutionAttempt)
      (w v : World client)
      → start_attempt platform client surroundings engine request step_id signature w
        ≡ (ok (some a), v)
      → (active_attempt platform client surroundings engine step_id signature v).0 ≡ ok (some a)
  unfolding start_attempt
  start_attempt-IsOwned request step_id signature a w v h =
      let (existing, w1, h1, k1) =
        >>=-returned (active_attempt platform client surroundings engine step_id signature) _ w h in
      unless existing w1 k1
    where
      started :
          (w1 : World client)
          → start_free platform client surroundings engine request step_id signature w1
            ≡ (ok (some a), v)
          → (active_attempt platform client surroundings engine step_id signature v).0 ≡ ok (some a)
      started w1 k1 =
          let w2 : World client = record w1 { uuids = w1.uuids + 1 } in
          let id = "attempt-" ⧺ surroundings.uuid_hex w1.uuids in
          let new : ExecutionAttempt =
            new_attempt id request.scope request.workflow.id step_id signature in
          let (b, h3, k3) = lift-returned (check_attempt new) _ w2 k1 in
          let (u4, w4, h4, k4) =
            >>=-returned (on_memory client (save_attempt platform client engine.store b)) _ w2 k3 in
          let (u5, w5, h5, k5) =
            >>=-returned
              (on_memory client
                (set_active_attempt platform client engine.store step_id (some b.attempt_id)))
              _ w4 k4 in
          let (t, w6, h6, k6) =
            >>=-returned (time_or_now client surroundings request.requested_at) _ w5 k5 in
          let (u7, w7, h7, k7) =
            >>=-returned
              (record_event platform client surroundings engine request.scope b.attempt_id
                "ATTEMPT_STARTED" "active"
                "Execution ownership was persisted before calling the executor." t)
              _ w6 k6 in
          let made = check_attempt-same new b h3 in
          let beside =
            record_event-IsBeside platform client storage surroundings engine request.scope
              b.attempt_id "ATTEMPT_STARTED" "active"
              "Execution ownership was persisted before calling the executor." t w6 w7 h7 in
          let still = time_or_now-memory client surroundings request.requested_at w5 w6 t h6 in
          let owned =
            saved-IsOwner step_id signature b w2.memory w4.memory w5.memory w7
              (subst (λ c. check_attempt c ≡ ok b) made h3)
              (subst (λ c. owner signature (some c) ≡ some c) made
                (owner-new_attempt id request.scope request.workflow.id step_id signature))
              (on_memory-returned client (save_attempt platform client engine.store b) w2 h4)
              (on_memory-returned client
                (set_active_attempt platform client engine.store step_id (some b.attempt_id)) w4 h5)
              (subst (λ m. IsBeside client m w7.memory) (sym still) beside) in
          let ended = ap (λ q. q.1) k7 in
          let same : b ≡ a = some-injective b a (ok-injective (ap (λ q. q.0) k7)) in
          subst
            (λ u.
              (active_attempt platform client surroundings engine step_id signature u).0
              ≡ ok (some a))
            ended (owned ∙ ap (λ c. ok (some c)) same)

      unless :
          (existing : Option ExecutionAttempt) (w1 : World client)
          → start_unless platform client surroundings engine request step_id signature existing w1
            ≡ (ok (some a), v)
          → (active_attempt platform client surroundings engine step_id signature v).0 ≡ ok (some a)
      unless none w1 k1 = started w1 k1
      unless (some e) w1 k1 = cc

  -- Where an attempt for a step and an input signature was started, it is what is found as the
  -- active attempt of both, and no second attempt for them can be started then.
  pub start_attempt-exclusive :
      (request later : RevisionRequest) (step_id signature : String) (a : ExecutionAttempt)
      (w v : World client)
      → start_attempt platform client surroundings engine request step_id signature w
        ≡ (ok (some a), v)
      → ((active_attempt platform client surroundings engine step_id signature v).0 ≡ ok (some a))
        × ((start_attempt platform client surroundings engine later step_id signature v).0
            ≡ ok none)
  unfolding start_attempt
  start_attempt-exclusive request later step_id signature a w v h =
      let owned = start_attempt-IsOwned request step_id signature a w v h in (owned, rw owned refl)
