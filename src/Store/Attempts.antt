-- ===== src/Store/Attempts.antt =====
-- delta/store.py: attempts, active heads and events.
use delta_agent.Store.Plans.{read_plan}
use delta_agent.Store.Listing.{read_attempt, read_head}
use delta_agent.Common.{ℕ, String, Bool, ◌&&◌, Option, none, some, List, [], ◌∷◌, if◌then◌else◌}
use delta_agent.Common.Result.{Result}
use delta_agent.Common.Action.{Action, pure, lift, ◌>>=◌, ◌>>◌}
use delta_agent.Core.Value
use delta_agent.Core.Value.{Value, Entries, str}
use delta_agent.Core.Platform.{Platform}
use delta_agent.Core.Attempt.{ExecutionAttempt, ExecutionEvent}
use delta_agent.Core.Plan.{RevisionPlan}
use delta_agent.Store.Client.{MemoryClient}
use delta_agent.Store.Fields.{get_or_null, holds_text, is_scope_payload}
use delta_agent.Store.Payload.{scope_value, attempt_payload, event_payload, plan_payload}
use delta_agent.Store.Entities.{
  SibylStore, attempt_category, plan_category, assert_scope, entity_key, save_entity,
}

-- The payload of `set_active_attempt`.
unfoldable pub head_payload : SibylStore → String → Option String → Entries
head_payload store step_id attempt_id = Value.entries_of (
    ("record_type", str "delta.active_attempt.v1")
    ∷ ("scope", scope_value store.scope)
    ∷ ("step_id", str step_id)
    ∷ ("attempt_id", Value.optional str attempt_id)
    ∷ [])

-- attempt_id is None or extra.get("attempt_id") == attempt_id
abbrev pub of_attempt : Option String → Entries → Bool
of_attempt none extra = holds_text "record_type" "delta.execution_event.v1" extra
of_attempt (some a) extra =
    holds_text "record_type" "delta.execution_event.v1" extra && holds_text "attempt_id" a extra

abbrev pub event_wanted : SibylStore → Option String → Entries → Bool
event_wanted store attempt_id extra =
    of_attempt attempt_id extra && is_scope_payload store.scope (get_or_null "scope" extra)

unfoldable pub keep_events : (Entries → Bool) → List Entries → List Entries
keep_events wanted [] = []
keep_events wanted (e ∷ es) =
    let rest = keep_events wanted es in if wanted e then e ∷ rest else rest

module _ (platform : Platform) (client : MemoryClient) where
  open client use {Memory, get_entity, get_state, set_state, write_event}
  open platform use {datetime_text}

  unfoldable pub save_attempt : SibylStore → ExecutionAttempt → Action Memory (Unit {0})
  save_attempt store a = do
    lift (assert_scope store a.scope)
    name ← lift (entity_key platform "attempt" a.scope (("attempt_id", str a.attempt_id) ∷ []))
    save_entity platform client store attempt_category name (attempt_payload platform a) a.status

  unfoldable pub get_attempt : SibylStore → String → Action Memory (Option ExecutionAttempt)
  get_attempt store attempt_id = do
    name ← lift (entity_key platform "attempt" store.scope (("attempt_id", str attempt_id) ∷ []))
    found ← get_entity attempt_category name
    lift (read_attempt store found)

  abbrev pub head_key : SibylStore → String → Result String
  head_key store step_id =
      entity_key platform "active_attempt" store.scope (("step_id", str step_id) ∷ [])

  unfoldable pub set_active_attempt : SibylStore → String → Option String → Action Memory (Unit {0})
  set_active_attempt store step_id attempt_id = do
    key ← lift (head_key store step_id)
    set_state key (head_payload store step_id attempt_id)

  unfoldable pub get_active_attempt : SibylStore → String → Action Memory (Option String)
  get_active_attempt store step_id = do
    key ← lift (head_key store step_id)
    state ← get_state key
    lift (read_head store state)

  unfoldable pub append_event : SibylStore → ExecutionEvent → Action Memory String
  append_event store e = do
    lift (assert_scope store e.scope)
    write_event
        (Value.entries_of
          (("attempt_id", str e.attempt_id) ∷ ("reason_code", str e.reason_code) ∷ []))
        (Value.entries_of (("state", str e.state) ∷ [])) (event_payload platform e)
        (datetime_text e.recorded_at)

  unfoldable pub read_events : SibylStore → Option String → ℕ → Action Memory (List Entries)
  read_events store attempt_id limit = do
    events ← MemoryClient.read_events client limit
    pure (keep_events (event_wanted store attempt_id) events)

  unfoldable pub save_plan : SibylStore → RevisionPlan → Action Memory (Unit {0})
  save_plan store p = do
    lift (assert_scope store p.scope)
    name ← lift (entity_key platform "plan" p.scope (("plan_id", str p.plan_id) ∷ []))
    save_entity platform client store plan_category name (plan_payload platform p) "previewed"

  unfoldable pub get_plan : SibylStore → String → Action Memory (Option RevisionPlan)
  get_plan store plan_id = do
    name ← lift (entity_key platform "plan" store.scope (("plan_id", str plan_id) ∷ []))
    found ← get_entity plan_category name
    lift (read_plan platform store found)
