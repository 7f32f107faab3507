-- ===== src/Engine/World.antt =====
-- The state that `DeltaEngine` of delta/execute.py works on, and what it takes from outside.
use delta_agent.Common.{ℕ, ◌+◌, String, Option, none, some}
use delta_agent.Common.Result.{
  Result, ok, err, Error, delta_validation, workflow_validation, input_validation,
  dependency_pending, approval_validation, handoff_policy, key_error, value_error, overflow_error,
  persistence_error, scope_error, execution_blocked, type_error, foreign, out_of_fuel,
}
use delta_agent.Common.Action.{Action, pure}
use delta_agent.Common.Text.{◌⧺◌}
use delta_agent.Core.Value.{Value, DateTime}
use delta_agent.Core.Schema.{AgentPrincipal}
use delta_agent.Core.Work.{Executor, Outcome, returned, raised}
use delta_agent.Store.Client.{MemoryClient}
use delta_agent.Store.Entities.{SibylStore}

-- The memory of the client, and how often an executor, `uuid.uuid4` and the clock have been called.
pub record World (client : MemoryClient) : Type 0 where
  pub memory : MemoryClient.Memory client
  pub calls : ℕ
  pub uuids : ℕ
  pub ticks : ℕ

-- `uuid.uuid4().hex` and `datetime.now(timezone.utc)`, by the number of the call.
pub record Surroundings : Type 0 where
  pub uuid_hex : ℕ → String
  pub clock : ℕ → DateTime

pub record DeltaEngine : Type 0 where
  pub store : SibylStore
  pub principal : Option AgentPrincipal

-- type(error).__name__
abbrev pub class_name : Error → String
class_name (delta_validation m) = "DeltaValidationError"
class_name (workflow_validation m) = "WorkflowValidationError"
class_name (input_validation m) = "InputValidationError"
class_name (dependency_pending m) = "DependencyPending"
class_name (approval_validation m) = "ApprovalValidationError"
class_name (handoff_policy m) = "HandoffPolicyError"
class_name (key_error k) = "KeyError"
class_name (value_error m) = "ValueError"
class_name (overflow_error m) = "OverflowError"
class_name (persistence_error m) = "SibylPersistenceError"
class_name (scope_error m) = "SibylScopeError"
class_name (execution_blocked m) = "ExecutionBlocked"
class_name (type_error m) = "TypeError"
class_name (foreign name) = name
class_name out_of_fuel = "RuntimeError"

module _ (client : MemoryClient) where
  open client use {Memory}

  -- A call of the store.
  abbrev pub on_memory : {A : Type 0} → Action Memory A → Action (World client) A
  on_memory call w = let (r, m) = call w.memory in (r, record w { memory = m })

  abbrev pub outcome_of : Outcome → Result Value
  outcome_of (returned v) = ok v
  outcome_of (raised class) = err (foreign class)

  -- `_call_executor`
  abbrev pub call_executor : Executor → Value → Action (World client) Value
  call_executor executor input w =
      (outcome_of (executor w.calls input), record w { calls = w.calls + 1 })

  module _ (surroundings : Surroundings) where
    open surroundings use {uuid_hex, clock}

    -- `_attempt_id` and `_event_id`, by their prefix
    abbrev pub fresh_id : String → Action (World client) String
    fresh_id prefix w = (ok (prefix ⧺ uuid_hex w.uuids), record w { uuids = w.uuids + 1 })

    abbrev pub read_clock : Action (World client) DateTime
    read_clock w = (ok (clock w.ticks), record w { ticks = w.ticks + 1 })

    -- t or datetime.now(timezone.utc)
    abbrev pub time_or_now : Option DateTime → Action (World client) DateTime
    time_or_now none = read_clock
    time_or_now (some t) = pure t
