-- ===== src/Store/Scopes.antt =====
-- delta/store.py: the records of agents and scenarios, and the removal of a scope's records.
use delta_agent.Store.Handoffs.{receipt_category, handoff_category}
use delta_agent.Store.Fields.{get_or_null, is_scope_payload}
use delta_agent.Store.Payload.{scope_value}
use delta_agent.Store.Client.{Entity}
use delta_agent.Store.Entities.{
  plan_category, attempt_category, check_payload_scope, work_category, SibylStore,
}
use delta_agent.Core.Workflow.{member}
use delta_agent.Common.{
  if◌then◌else◌, ℕ, String, Bool, true, false, Option, none, some, List, [], ◌∷◌,
}
use delta_agent.Common.Result.{Result, ok, err, type_error, ◌>>=◌}
use delta_agent.Core.Value
use delta_agent.Core.Value.{Value, Entries, str, bool, list, dict}

abbrev pub session_category : String
session_category = "delta.agent_session.v1"

abbrev pub run_category : String
run_category = "delta.agent_run.v1"

-- The `categories` of `delete_scope_records`.
abbrev pub categories : List String
categories =
    work_category ∷ attempt_category ∷ plan_category ∷ handoff_category ∷ receipt_category
    ∷ session_category ∷ run_category ∷ []

-- value in texts, for a set of texts: a value that cannot be hashed raises
abbrev pub in_texts : Value → List String → Result Bool
in_texts (str s) texts = ok (member s texts)
in_texts (list vs) texts = err (type_error "unhashable type: 'list'")
in_texts (dict es) texts = err (type_error "unhashable type: 'dict'")
in_texts v texts = ok false

-- not (texts and value not in texts)
abbrev pub not_excluded : List String → Value → Result Bool
not_excluded [] v = ok true
not_excluded texts v = in_texts v texts

abbrev pub both : Result Bool → Result Bool → Result Bool
both (ok true) r = r
both r s = r

-- The three tests of an entity.
abbrev pub to_delete : SibylStore → List String → List String → Entries → Result Bool
to_delete store workflow_ids step_ids payload =
    both (ok (is_scope_payload store.scope (get_or_null "scope" payload))) (
      both (not_excluded workflow_ids (get_or_null "workflow_id" payload))
        (not_excluded step_ids (get_or_null "step_id" payload)))

-- The payload of `save_demo_marker`.
unfoldable pub marker_payload : SibylStore → String → String → Bool → Entries
marker_payload store scenario_id generation initialized = Value.entries_of (
    ("record_type", str "delta.demo_marker.v1")
    ∷ ("scope", scope_value store.scope)
    ∷ ("scenario_id", str scenario_id)
    ∷ ("generation", str generation)
    ∷ ("initialized", bool initialized)
    ∷ [])

unfoldable pub in_scope : SibylStore → List Entity → List Entries
in_scope store [] = []
in_scope store (e ∷ es) =
    let rest = in_scope store es in
    if is_scope_payload store.scope (get_or_null "scope" e.body) then e.body ∷ rest else rest

-- An entity's or a state's payload, past the check of its scope.
abbrev pub checked_body : SibylStore → Option Entries → Result (Option Entries)
checked_body store none = ok none
checked_body store (some payload) =
    check_payload_scope store payload >>= λ passed. ok (some payload)

abbrev pub body_of : Option Entity → Option Entries
body_of none = none
body_of (some e) = some e.body

abbrev pub one_if : Bool → ℕ
one_if true = 1
one_if false = 0
