-- ===== src/Store/Sweep.antt =====
-- delta/store.py: `delete_scope_records`, `reset_active_heads`, and the methods for sessions, runs and
-- markers.
use delta_agent.Common.Dict.{Dict}
use delta_agent.Core.Schema.{Scope}
use delta_agent.Store.Scopes.{
  body_of, one_if, run_category, categories, to_delete, in_scope, checked_body, session_category,
  marker_payload,
}
use delta_agent.Common.Result.{Result}
use delta_agent.Store.Attempts.{set_active_attempt}
use delta_agent.Store.Entities.{save_entity, assert_scope, entity_key, SibylStore}
use delta_agent.Store.Client.{Entity, MemoryClient}
use delta_agent.Core.Platform.{Platform}
use delta_agent.Common.{◌+◌, ℕ, String, Bool, true, false, Option, none, some, List, [], ◌∷◌}
use delta_agent.Common.Action.{Action, pure, lift, ◌>>=◌, ◌>>◌}
use delta_agent.Core.Value.{Entries, str}

module _ (platform : Platform) (client : MemoryClient) (store : SibylStore) where
  open client use {Memory, list_entities, delete_entity, get_entity, get_state, set_state}

  -- isinstance(name, str) and self.client.delete_entity(category, name)
  abbrev pub delete_named : String → Option String → Action Memory Bool
  delete_named category none = pure false
  delete_named category (some name) = delete_entity category name

  abbrev pub delete_when : String → Option String → Bool → Action Memory Bool
  delete_when category name true = delete_named category name
  delete_when category name false = pure false

  -- The inner loop: how many entities of the category were deleted.
  unfoldable pub delete_from : String → List String → List String → List Entity → Action Memory ℕ
  delete_from category workflow_ids step_ids [] = pure 0
  delete_from category workflow_ids step_ids (e ∷ es) = do
    wanted ← lift (to_delete store workflow_ids step_ids e.body)
    gone ← delete_when category e.name wanted
    more ← delete_from category workflow_ids step_ids es
    pure (one_if gone + more)

  -- The outer loop: the dict of counts, in the order of the categories.
  unfoldable pub delete_each : List String → List String → List String → Action Memory (Dict ℕ)
  delete_each [] workflow_ids step_ids = pure []
  delete_each (category ∷ rest) workflow_ids step_ids = do
    entities ← list_entities category 100000
    count ← delete_from category workflow_ids step_ids entities
    counts ← delete_each rest workflow_ids step_ids
    pure ((category, count) ∷ counts)

  abbrev pub delete_scope_records : List String → List String → Action Memory (Dict ℕ)
  delete_scope_records workflow_ids step_ids = delete_each categories workflow_ids step_ids

  unfoldable pub reset_active_heads : List String → Action Memory (Unit {0})
  reset_active_heads [] = pure tt
  reset_active_heads (id ∷ ids) = do
    set_active_attempt platform client store id none
    reset_active_heads ids

  -- A session is its scope, its identifier and its payload.
  unfoldable pub save_agent_session : Scope → String → Entries → Action Memory (Unit {0})
  save_agent_session scope session_id payload = do
    lift (assert_scope store scope)
    name ← lift (entity_key platform "agent_session" scope (("session_id", str session_id) ∷ []))
    save_entity platform client store session_category name payload "active"

  unfoldable pub list_agent_sessions : Action Memory (List Entries)
  list_agent_sessions = do
    entities ← list_entities session_category 100000
    pure (in_scope store entities)

  -- A run is its scope, its identifier, its status and its payload.
  unfoldable pub save_agent_run : Scope → String → String → Entries → Action Memory (Unit {0})
  save_agent_run scope run_id status payload = do
    lift (assert_scope store scope)
    name ← lift (entity_key platform "agent_run" scope (("run_id", str run_id) ∷ []))
    save_entity platform client store run_category name payload status

  unfoldable pub get_agent_run : String → Action Memory (Option Entries)
  get_agent_run run_id = do
    name ← lift (entity_key platform "agent_run" store.scope (("run_id", str run_id) ∷ []))
    entity ← get_entity run_category name
    lift (checked_body store (body_of entity))

  abbrev pub marker_key : String → Result String
  marker_key scenario_id =
      entity_key platform "demo_marker" store.scope (("scenario_id", str scenario_id) ∷ [])

  unfoldable pub save_demo_marker : String → String → Bool → Action Memory (Unit {0})
  save_demo_marker scenario_id generation initialized = do
    key ← lift (marker_key scenario_id)
    set_state key (marker_payload store scenario_id generation initialized)

  unfoldable pub get_demo_marker : String → Action Memory (Option Entries)
  get_demo_marker scenario_id = do
    key ← lift (marker_key scenario_id)
    state ← get_state key
    lift (checked_body store state)
