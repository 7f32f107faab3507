-- ===== src/Engine/Beside.antt =====
-- delta/execute.py: which reads of the store are not changed by which writes.
use delta_agent.Common.Text.{◌⧺◌}
use delta_agent.Store.Payload.{event_payload}
use delta_agent.Core.Value
use delta_agent.Core.Attempt.{ExecutionEvent, check_event}
use delta_agent.Core.Schema.{Scope}
use delta_agent.Engine.Ownership.{record_event}
use delta_agent.Engine.World.{time_or_now, on_memory, World, DeltaEngine, Surroundings}
use delta_agent.Core.Value.{DateTime, Entries, str}
use delta_agent.Store.Listing.{read_attempt, read_head}
use delta_agent.Store.Entities.{assert_scope, entity_key, attempt_category, SibylStore}
use delta_agent.Store.Attempts.{append_event, head_key, get_attempt, get_active_attempt}
use delta_agent.Store.Client.{IsStorage, MemoryClient}
use delta_agent.Common.Action.{lift-returned, >>=-returned, Action, ◌>>=◌, lift, proceed}
use delta_agent.Common.Result.{err, ok-injective, ok, Result}
use delta_agent.Core.Platform.{Platform}
use delta_agent.Common.{◌+◌, Option, [], ◌∷◌, String, ◌≡◌, refl, some, none, sym, ◌∙◌, ap}

module _ {S A B : Type 0} where
  -- A result that is worked on without the state depends on the result alone.
  proceed-lift :
      (f : A → Result B) (r s : Result A × S)
      → r.0 ≡ s.0
      → (proceed (λ a. lift (f a)) r).0 ≡ (proceed (λ a. lift (f a)) s).0
  proceed-lift f (ok a, u) (ok b, v) e = ap f (ok-injective e)
  proceed-lift f (ok a, u) (err x, v) e = cc
  proceed-lift f (err x, u) (ok b, v) e = cc
  proceed-lift f (err x, u) (err y, v) e = cc

pub on_memory-returned :
    (client : MemoryClient) {A : Type 0} (call : Action (MemoryClient.Memory client) A)
    (w : World client) {a : A} {v : World client}
    → on_memory client call w ≡ (ok a, v)
    → call w.memory ≡ (ok a, v.memory)
on_memory-returned client call w h = ap (λ q. (q.0, (q.1).memory)) h

pub time_or_now-memory :
    (client : MemoryClient) (surroundings : Surroundings) (t : Option DateTime) (w v : World client)
    (now : DateTime)
    → time_or_now client surroundings t w ≡ (ok now, v)
    → w.memory ≡ v.memory
time_or_now-memory client surroundings none w v now h = ap (λ q. (q.1).memory) h
time_or_now-memory client surroundings (some t) w v now h = ap (λ q. (q.1).memory) h

module _ (client : MemoryClient) where
  open client use {Memory, get_entity, get_state}

  -- The second memory has the entities and states of the first.
  abbrev pub IsBeside : Memory → Memory → Type 0
  IsBeside m n =
      ((category name : String) → (get_entity category name n).0 ≡ (get_entity category name m).0)
      × ((key : String) → (get_state key n).0 ≡ (get_state key m).0)

module _ (platform : Platform) (client : MemoryClient) where
  open client use {Memory, get_entity, get_state}

  pub get_attempt-reads :
      (store : SibylStore) (id : String) (m n : Memory)
      → ((name : String)
          → (get_entity attempt_category name m).0 ≡ (get_entity attempt_category name n).0)
      → (get_attempt platform client store id m).0 ≡ (get_attempt platform client store id n).0
  unfolding get_attempt
  get_attempt-reads store id m n same =
      keyed (entity_key platform "attempt" store.scope (("attempt_id", str id) ∷ []))
    where
      keyed :
          (name : Result String)
          → ((lift name >>= λ k. get_entity attempt_category k >>= λ e. lift (read_attempt store e))
              m).0
            ≡ ((lift name >>= λ k.
                  get_entity attempt_category k >>= λ e. lift (read_attempt store e))
                n).0
      keyed (err e) = refl
      keyed (ok k) =
          proceed-lift (read_attempt store) (get_entity attempt_category k m)
            (get_entity attempt_category k n) (same k)

  pub get_active_attempt-reads :
      (store : SibylStore) (step_id : String) (m n : Memory)
      → ((key : String) → (get_state key m).0 ≡ (get_state key n).0)
      → (get_active_attempt platform client store step_id m).0
        ≡ (get_active_attempt platform client store step_id n).0
  unfolding get_active_attempt
  get_active_attempt-reads store step_id m n same = keyed (head_key platform client store step_id)
    where
      keyed :
          (key : Result String)
          → ((lift key >>= λ k. get_state k >>= λ o. lift (read_head store o)) m).0
            ≡ ((lift key >>= λ k. get_state k >>= λ o. lift (read_head store o)) n).0
      keyed (err e) = refl
      keyed (ok k) = proceed-lift (read_head store) (get_state k m) (get_state k n) (same k)

  module _ (storage : IsStorage client) where
    pub get_active_attempt-beside :
        (store : SibylStore) (step_id category name : String) (m : Memory)
        → (get_entity category name ((get_active_attempt platform client store step_id m).1)).0
          ≡ (get_entity category name m).0
    unfolding get_active_attempt
    get_active_attempt-beside store step_id category name m =
        keyed (head_key platform client store step_id)
      where
        read :
            (r : Result (Option Entries) × Memory)
            → (proceed (λ o. lift (read_head store o)) r).1 ≡ r.1
        read (ok o, n) = refl
        read (err e, n) = refl

        keyed :
            (key : Result String)
            → (get_entity category name
                (((lift key >>= λ k. get_state k >>= λ o. lift (read_head store o)) m).1)).0
              ≡ (get_entity category name m).0
        keyed (err e) = refl
        keyed (ok k) =
            ap (λ n. (get_entity category name n).0) (read (get_state k m))
            ∙ storage.entity_after_reading category name k m

    module _ (surroundings : Surroundings) (engine : DeltaEngine) where
      append_event-written :
          (store : SibylStore) (e : ExecutionEvent) (id : String) (m n : Memory)
          → append_event platform client store e m ≡ (ok id, n)
          → MemoryClient.write_event client
              (Value.entries_of
                (("attempt_id", str e.attempt_id) ∷ ("reason_code", str e.reason_code) ∷ []))
              (Value.entries_of (("state", str e.state) ∷ []))
              (event_payload platform e)
              (platform.datetime_text e.recorded_at)
              m
            ≡ (ok id, n)
      unfolding append_event
      append_event-written store e id m n h =
          let (u, passed, written) = lift-returned (assert_scope store e.scope) _ m h in written

      pub record_event-IsBeside :
          (scope : Scope) (attempt_id reason state detail : String) (t : DateTime)
          (w v : World client)
          → record_event platform client surroundings engine scope attempt_id reason state detail t
              w
            ≡ (ok tt, v)
          → IsBeside client w.memory v.memory
      unfolding record_event
      record_event-IsBeside scope attempt_id reason state detail t w v h =
          let w1 : World client = record w { uuids = w.uuids + 1 } in
          let (e, h2, k2) =
            lift-returned
              (check_event (record {
                event_id = "event-" ⧺ surroundings.uuid_hex w.uuids;
                scope = scope;
                attempt_id = attempt_id;
                reason_code = reason;
                state = state;
                detail = detail;
                recorded_at = t;
              }))
              _ w1 h in
          let (id, w3, h3, k3) =
            >>=-returned (on_memory client (append_event platform client engine.store e)) _ w1 k2 in
          let written =
            append_event-written engine.store e id w1.memory w3.memory
              (on_memory-returned client (append_event platform client engine.store e) w1 h3) in
          let after : w3.memory ≡ v.memory = ap (λ q. (q.1).memory) k3 in
          (
            λ category name.
                ap (λ m. (get_entity category name m).0) (sym after)
                ∙ storage.entity_beside_event category name _ _ _ _ id w1.memory w3.memory written,
            λ key.
                ap (λ m. (get_state key m).0) (sym after)
                ∙ storage.state_beside_event key _ _ _ _ id w1.memory w3.memory written,
          )
