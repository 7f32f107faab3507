-- ===== src/Store/Client.antt =====
-- The memory client that delta/store.py calls, a library that is not part of the repository.
use delta_agent.Common.{ℕ, String, Bool, Option, some, List, ◌≡◌}
use delta_agent.Common.Result.{ok}
use delta_agent.Common.Action.{Action}
use delta_agent.Core.Value.{Entries}

-- A record as the client returns it: `entity.get("name")` and `entity["body"]`.
pub record Entity : Type 0 where
  pub name : Option String
  pub body : Entries

-- Each call may raise. None stands for NotFoundError in `get_entity`.
pub record MemoryClient : Type 1 where
  pub Memory : Type 0
  pub get_entity : String → String → Action Memory (Option Entity)
  pub set_entity : String → String → Entries → String → Action Memory (Unit {0})
  pub list_entities : String → ℕ → Action Memory (List Entity)
  pub delete_entity : String → String → Action Memory Bool
  pub get_state : String → Action Memory (Option Entries)
  pub set_state : String → Entries → Action Memory (Unit {0})
  -- evaluated, acted, extra and ts; the identifier of the event
  pub write_event : Entries → Entries → Entries → String → Action Memory String
  -- the field `extra` of each event
  pub read_events : ℕ → Action Memory (List Entries)

-- What the client documents of its entities and of its states: what was written is read back.
pub record IsStorage (client : MemoryClient) : Type 0 where
  pub entity_kept :
      (category name : String) (body : Entries) (status : String) (m n : MemoryClient.Memory client)
      → MemoryClient.set_entity client category name body status m ≡ (ok tt, n)
      → (e : Entity) × (o : MemoryClient.Memory client) × (MemoryClient.get_entity client category
            name n
          ≡ (ok (some e), o))
        × (e.body ≡ body)
  pub state_kept :
      (key : String) (body : Entries) (m n : MemoryClient.Memory client)
      → MemoryClient.set_state client key body m ≡ (ok tt, n)
      → (o : MemoryClient.Memory client) × (MemoryClient.get_state client key n
          ≡ (ok (some body), o))
  -- A state or an event that is written leaves the entities as they are, and an event the states;
  -- so does the reading of a state.
  pub entity_beside_state :
      (category name key : String) (body : Entries) (m n : MemoryClient.Memory client)
      → MemoryClient.set_state client key body m ≡ (ok tt, n)
      → (MemoryClient.get_entity client category name n).0
        ≡ (MemoryClient.get_entity client category name m).0
  pub entity_beside_event :
      (category name : String) (evaluated acted extra : Entries) (ts id : String)
      (m n : MemoryClient.Memory client)
      → MemoryClient.write_event client evaluated acted extra ts m ≡ (ok id, n)
      → (MemoryClient.get_entity client category name n).0
        ≡ (MemoryClient.get_entity client category name m).0
  pub state_beside_event :
      (key : String) (evaluated acted extra : Entries) (ts id : String)
      (m n : MemoryClient.Memory client)
      → MemoryClient.write_event client evaluated acted extra ts m ≡ (ok id, n)
      → (MemoryClient.get_state client key n).0 ≡ (MemoryClient.get_state client key m).0
  pub entity_after_reading :
      (category name key : String) (m : MemoryClient.Memory client)
      → (MemoryClient.get_entity client category name ((MemoryClient.get_state client key m).1)).0
        ≡ (MemoryClient.get_entity client category name m).0
