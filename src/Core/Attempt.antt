-- ===== src/Core/Attempt.antt =====
-- delta/core.py: `ExecutionAttempt` and `ExecutionEvent`.
use delta_agent.Common.{String, Option, none, some, ℤ, is_positive}
use delta_agent.Common.Result.{Result, ok, delta_validation, ◌>>◌, require}
use delta_agent.Core.Value.{DateTime}
use delta_agent.Core.Schema.{Scope, identifier, optional_identifier}

pub record ExecutionAttempt : Type 0 where
  pub attempt_id : String
  pub scope : Scope
  pub workflow_id : String
  pub step_id : String
  pub status : String
  pub input_signature : String
  pub provider_job_id : Option String
  pub provider_chain_id : Option ℤ
  pub error_code : Option String
  pub provider_id : Option String
  pub offering_id : Option String
  pub offering_name : Option String
  pub requirements_signature : Option String

abbrev pub check_chain_id : Option ℤ → Result (Unit {0})
check_chain_id none = ok tt
check_chain_id (some n) =
    require (is_positive n) (delta_validation "provider_chain_id must be a positive integer")

unfoldable pub check_attempt : ExecutionAttempt → Result ExecutionAttempt
check_attempt a = do
  identifier a.attempt_id "attempt_id"
  identifier a.workflow_id "workflow_id"
  identifier a.step_id "step_id"
  identifier a.status "status"
  identifier a.input_signature "input_signature"
  check_chain_id a.provider_chain_id
  optional_identifier a.provider_id "provider_id"
  optional_identifier a.offering_id "offering_id"
  optional_identifier a.offering_name "offering_name"
  optional_identifier a.requirements_signature "requirements_signature"
  ok a

pub record ExecutionEvent : Type 0 where
  pub event_id : String
  pub scope : Scope
  pub attempt_id : String
  pub reason_code : String
  pub state : String
  pub detail : String
  pub recorded_at : DateTime

unfoldable pub check_event : ExecutionEvent → Result ExecutionEvent
check_event e = do
  identifier e.event_id "event_id"
  identifier e.attempt_id "attempt_id"
  identifier e.reason_code "reason_code"
  identifier e.state "state"
  identifier e.detail "detail"
  ok e
