-- ===== src/Core/Schema.antt =====
-- delta/core.py: scopes, costs, agents, external jobs and provenance, each with its `__post_init__`.
-- A check by `isinstance` against the declared class of a field is the field's type here.
use delta_agent.Common.{
  eq_iff, arith, ◌↔◌, true, ◌≡◌, ◌+◌, String, Bool, false, not, ◌&&◌, ◌||◌, Option, none, some, ℤ,
  pos, is_positive, ltb, if◌then◌else◌, str_eq,
}
use delta_agent.Common.Result.{
  Result, ok, err, delta_validation, approval_validation, overflow_error, ◌>>=◌, ◌>>◌, require,
  refuse,
}
use delta_agent.Common.Text.{◌⧺◌, is_identifier, is_empty}
use delta_agent.Core.Value.{DateTime, Value, input_ref, step_ref}
use delta_agent.Core.Platform.{Platform}

-- `_identifier`: its error says which field it was.
unfoldable pub identifier : String → String → Result (Unit {0})
identifier value label =
    require (is_identifier value) (delta_validation (label ⧺ " must be a non-empty trimmed string"))

abbrev pub optional_identifier : Option String → String → Result (Unit {0})
optional_identifier none label = ok tt
optional_identifier (some value) label = identifier value label

pub record Scope : Type 0 where
  pub tenant_id : String
  pub project_id : String

unfoldable pub check_scope : Scope → Result Scope
check_scope s = do identifier s.tenant_id "tenant_id"; identifier s.project_id "project_id"; ok s

-- `==` of two scopes, field by field.
abbrev pub scope_eq : Scope → Scope → Bool
scope_eq s t = str_eq s.tenant_id t.tenant_id && str_eq s.project_id t.project_id

pub scope_eq_iff : (s t : Scope) → (scope_eq s t ≡ true) ↔ (s ≡ t)
scope_eq_iff s t = (
  ground (arith, eq_iff s.tenant_id t.tenant_id, eq_iff s.project_id t.project_id),
  ground (arith, eq_iff s.tenant_id t.tenant_id, eq_iff s.project_id t.project_id),
)

pub record InputSpec : Type 0 where
  pub kind : String
  pub required : Bool

unfoldable pub check_input_spec : InputSpec → Result InputSpec
check_input_spec spec = do
  require
      (str_eq spec.kind "json"
        || str_eq spec.kind "string"
        || str_eq spec.kind "date"
        || str_eq spec.kind "boolean"
        || str_eq spec.kind "integer"
        || str_eq spec.kind "number")
      (delta_validation ("unsupported input kind: " ⧺ spec.kind))
  ok spec

-- `WorkflowInputRef` and `StepOutputRef`, with the checks of their classes
unfoldable pub workflow_input : String → Result Value
workflow_input x = do identifier x "workflow input name"; ok (input_ref x)

unfoldable pub step_output : String → Result Value
step_output x = do identifier x "step output step_id"; ok (step_ref x)

-- A time to live: the number of microseconds to which `timedelta` rounds it, a positive float that it
-- rounds to none, or a float that is not finite.
pub data Ttl : Type 0 where
  microseconds : ℤ → Ttl
  instant : Ttl
  unbounded : Ttl

pub record FreshnessPolicy : Type 0 where
  pub ttl_seconds : Option Ttl

abbrev pub ttl_positive : Ttl → Bool
ttl_positive (microseconds n) = is_positive n
ttl_positive instant = true
ttl_positive unbounded = false

abbrev pub check_ttl : Option Ttl → Result (Unit {0})
check_ttl none = ok tt
check_ttl (some t) =
    require (ttl_positive t) (delta_validation "ttl_seconds must be a finite positive number")

unfoldable pub check_freshness : FreshnessPolicy → Result FreshnessPolicy
check_freshness f = do check_ttl f.ttl_seconds; ok f

-- The last moment of the year 9999.
abbrev pub max_datetime : DateTime
max_datetime = 315537897599999999

-- `completed_at + timedelta(...)` raises OverflowError past `max_datetime`.
abbrev pub add_delta : DateTime → Ttl → Result DateTime
add_delta t (microseconds (pos n)) =
    if ltb max_datetime (t + n) then err (overflow_error "date value out of range") else ok (t + n)
add_delta t instant = ok t
add_delta t _ = err (overflow_error "date value out of range")

abbrev pub fresh_until_ttl : Option Ttl → DateTime → Result (Option DateTime)
fresh_until_ttl none completed_at = ok none
fresh_until_ttl (some ttl) completed_at = do until ← add_delta completed_at ttl; ok (some until)

unfoldable pub fresh_until : FreshnessPolicy → DateTime → Result (Option DateTime)
fresh_until f completed_at = fresh_until_ttl f.ttl_seconds completed_at

pub record CostEstimate : Type 0 where
  pub amount : Option String
  pub currency : String
  pub source : String
  pub quoted_at : Option DateTime

module _ (platform : Platform) where
  open platform use {Decimal, parse_decimal, is_finite, below_zero}

  abbrev pub parsed_money : Option Decimal → String → Result Decimal
  parsed_money none label = err (approval_validation (label ⧺ " must be a decimal string"))
  parsed_money (some d) label = do
    refuse (not (is_finite d) || below_zero d)
        (approval_validation (label ⧺ " must be finite and non-negative"))
    ok d

  -- `_money`
  unfoldable pub money : String → String → Result Decimal
  money value label = do
    require (is_identifier value)
        (approval_validation (label ⧺ " must be a trimmed decimal string"))
    parsed_money (parse_decimal value) label

  abbrev pub optional_money : Option String → String → Result (Unit {0})
  optional_money none label = ok tt
  optional_money (some value) label = do d ← money value label; ok tt

  unfoldable pub check_cost : CostEstimate → Result CostEstimate
  check_cost c = do
    optional_money c.amount "amount"
    refuse (is_empty c.currency) (delta_validation "currency must be a non-empty string")
    identifier c.source "source"
    ok c

pub data ExternalExposure : Type 0 where
  internal_only shareable : ExternalExposure

pub data ExternalJobSettlement : Type 0 where
  settled reconciliation_required unsettled unknown : ExternalJobSettlement

pub record WorkDeclaration : Type 0 where
  pub work_category : String
  pub external_exposure : ExternalExposure

unfoldable pub check_declaration : WorkDeclaration → Result WorkDeclaration
check_declaration d = do identifier d.work_category "work_category"; ok d

pub record AgentPrincipal : Type 0 where
  pub agent_id : String
  pub session_id : String
  pub provider_id : String

unfoldable pub check_principal : AgentPrincipal → Result AgentPrincipal
check_principal p = do
  identifier p.agent_id "agent_id"
  identifier p.session_id "session_id"
  identifier p.provider_id "provider_id"
  ok p

pub record ExternalJobRef : Type 0 where
  pub provider_id : String
  pub job_id : String
  pub chain_id : ℤ
  pub settlement_state : ExternalJobSettlement
  pub transaction_hash : Option String

unfoldable pub check_job : ExternalJobRef → Result ExternalJobRef
check_job j = do
  identifier j.provider_id "external job provider_id"
  identifier j.job_id "external job job_id"
  require (is_positive j.chain_id)
      (delta_validation "external job chain_id must be a positive integer")
  optional_identifier j.transaction_hash "external job transaction_hash"
  ok j

pub record WorkProvenance : Type 0 where
  pub source_agent_id : String
  pub source_session_id : String
  pub source_provider_id : String
  pub work_category : String
  pub external_exposure : ExternalExposure
  pub external_job : Option ExternalJobRef
  pub recorded_at : Option DateTime

unfoldable pub check_provenance : WorkProvenance → Result WorkProvenance
check_provenance p = do
  identifier p.source_agent_id "source_agent_id"
  identifier p.source_session_id "source_session_id"
  identifier p.source_provider_id "source_provider_id"
  identifier p.work_category "work_category"
  ok p

unfoldable pub from_principal :
    AgentPrincipal
    → WorkDeclaration
    → Option ExternalJobRef
    → Option DateTime
    → Result WorkProvenance
from_principal principal declaration external_job recorded_at = check_provenance (record {
  source_agent_id = principal.agent_id;
  source_session_id = principal.session_id;
  source_provider_id = principal.provider_id;
  work_category = declaration.work_category;
  external_exposure = declaration.external_exposure;
  external_job = external_job;
  recorded_at = recorded_at;
})
