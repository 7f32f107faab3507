-- ===== src/Store/Entities.antt =====
-- delta/store.py: `SibylStore`, the names of its records, and how it reads and writes an entity.
use delta_agent.Common.{ℕ, String, [], ◌∷◌, List, ltb, ◌==◌, if◌then◌else◌}
use delta_agent.Common.Result.{
  Result, ok, err, Error, persistence_error, scope_error, value_error, require, refuse,
}
use delta_agent.Common.Action.{Action, lift, ◌>>=◌, ◌>>◌}
use delta_agent.Common.Text.{◌⧺◌}
use delta_agent.Core.Value
use delta_agent.Core.Value.{Value, Entries, str, dict}
use delta_agent.Core.Platform.{Platform, canonical_json}
use delta_agent.Core.Schema.{Scope, scope_eq}
use delta_agent.Store.Client.{MemoryClient}
use delta_agent.Store.Fields.{get_or_null, is_scope_payload}
use delta_agent.Store.Payload.{scope_value}

pub record SibylStore : Type 0 where
  pub scope : Scope
  pub max_inline_record_bytes : ℕ

-- `SibylStore.__init__`, for a client that has been given the tenant.
unfoldable pub make_store : Scope → ℕ → Result SibylStore
make_store scope max_bytes =
    if max_bytes == 0
    then err (value_error "max_inline_record_bytes must be positive")
    else ok (record { scope = scope; max_inline_record_bytes = max_bytes })

abbrev pub work_category : String
work_category = "delta.work_result.v1"

abbrev pub attempt_category : String
attempt_category = "delta.execution_attempt.v1"

abbrev pub plan_category : String
plan_category = "delta.revision_plan.v1"

abbrev pub foreign_scope : Error
foreign_scope = scope_error "persisted record scope does not match the store scope"

-- `_check_payload_scope`
unfoldable pub check_payload_scope : SibylStore → Entries → Result (Unit {0})
check_payload_scope store payload =
    require (is_scope_payload store.scope (get_or_null "scope" payload)) foreign_scope

-- `_assert_scope`
unfoldable pub assert_scope : SibylStore → Scope → Result (Unit {0})
assert_scope store scope =
    require (scope_eq scope store.scope) (scope_error "record scope does not match the store scope")

module _ (platform : Platform) where
  open platform use {sha256_hex, utf8_size}

  abbrev pub named : String → Result String → Result String
  named kind (ok text) = ok ("delta/" ⧺ kind ⧺ "/v1/" ⧺ sha256_hex text)
  named kind (err e) = err e

  -- `_key`
  unfoldable pub entity_key : String → Scope → List (String × Value) → Result String
  entity_key kind scope parts = named kind (
      canonical_json platform (
        Value.object
          (("kind", str kind) ∷ ("scope", scope_value scope) ∷ ("parts", Value.object parts) ∷ [])))

  abbrev pub too_large : Error
  too_large =
      persistence_error
        "record is too large for inline Sibyl storage; persist artifact bytes externally and store only its reference"

  module _ (client : MemoryClient) where
    open client use {Memory, set_entity}

    -- `_save_entity`
    unfoldable pub save_entity :
        SibylStore → String → String → Entries → String → Action Memory (Unit {0})
    save_entity store category name payload status = do
      encoded ← lift (canonical_json platform (dict payload))
      lift (refuse (ltb store.max_inline_record_bytes (utf8_size encoded)) too_large)
      set_entity category name payload status
