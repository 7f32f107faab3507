-- ===== src/Core/Approval.antt =====
-- delta/core.py: `SpendApproval` and `validate_spend_approval`.
pub mod Allowed
use delta_agent.Common.{
  String, Bool, not, Option, none, some, List, [], ◌∷◌, ℤ, pos, negsuc, is_positive, leb, ◌||◌,
  str_eq, ◌==◌, false,
}
use delta_agent.Common.Result.{
  Result, ok, err, Error, delta_validation, approval_validation, ◌>>=◌, ◌>>◌, require, refuse,
}
use delta_agent.Common.Text.{is_empty}
use delta_agent.Core.Value.{DateTime}
use delta_agent.Core.Platform.{Platform}
use delta_agent.Core.Schema.{Scope, scope_eq, identifier, money}
use delta_agent.Core.Workflow.{member, is_nil}
use delta_agent.Core.Plan.{RevisionPlan}

pub record SpendApproval : Type 0 where
  pub approval_id : String
  pub plan_id : String
  pub scope : Scope
  pub allowed_steps : List String
  pub provider_id : String
  pub offering_id : String
  pub chain_id : ℤ
  pub action_scope : List String
  pub currency : String
  pub max_total_service_spend : String
  pub max_per_job_spend : Option String
  pub expires_at : DateTime

-- any(not x for x in xs)
unfoldable pub some_empty : List String → Bool
some_empty [] = false
some_empty (x ∷ xs) = is_empty x || some_empty xs

abbrev pub int_eq : ℤ → ℤ → Bool
int_eq (pos m) (pos n) = m == n
int_eq (negsuc m) (negsuc n) = m == n
int_eq _ _ = false

-- except DeltaValidationError as error: raise ApprovalValidationError(str(error))
abbrev pub reraised : Result (Unit {0}) → Result (Unit {0})
reraised (ok u) = ok u
reraised (err (delta_validation message)) = err (approval_validation message)
reraised (err e) = err e

module _ (platform : Platform) where
  open platform use {Decimal, exceeds}

  abbrev pub check_per_job : Option String → Decimal → Result (Unit {0})
  check_per_job none total = ok tt
  check_per_job (some cap) total = do
    d ← money platform cap "max_per_job_spend"
    refuse (exceeds d total)
        (approval_validation "max_per_job_spend cannot exceed total service spend")

  -- `SpendApproval.__post_init__`
  unfoldable pub check_approval : SpendApproval → Result SpendApproval
  check_approval a = do
    identifier a.approval_id "approval_id"
    identifier a.plan_id "plan_id"
    refuse (is_nil a.allowed_steps) (approval_validation "allowed_steps cannot be empty")
    refuse (some_empty a.allowed_steps)
        (approval_validation "allowed_steps contains an invalid step")
    refuse (is_nil a.action_scope) (approval_validation "action_scope cannot be empty")
    refuse (some_empty a.action_scope)
        (approval_validation "action_scope contains an invalid action")
    refuse (is_empty a.currency) (approval_validation "currency is required")
    reraised (identifier a.provider_id "provider_id" >> identifier a.offering_id "offering_id")
    total ← money platform a.max_total_service_spend "max_total_service_spend"
    check_per_job a.max_per_job_spend total
    require (is_positive a.chain_id) (approval_validation "chain_id must be a positive integer")
    ok a

  abbrev pub check_job_cap : Option String → Decimal → Result (Unit {0})
  check_job_cap none requested = ok tt
  check_job_cap (some cap) requested = do
    d ← money platform cap "max_per_job_spend"
    refuse (exceeds requested d) (approval_validation "amount exceeds per-job service-spend cap")

-- The paid action that is to be approved: the keyword arguments.
pub record PaidAction : Type 0 where
  pub step_id : String
  pub provider_id : String
  pub offering_id : String
  pub chain_id : ℤ
  pub action : String
  pub amount : String
  pub currency : String

module _ (platform : Platform) where
  open platform use {exceeds}

  -- The caller has put the clock's time for a `now` that is None.
  unfoldable pub validate_spend_approval :
      SpendApproval → RevisionPlan → PaidAction → DateTime → Result (Unit {0})
  validate_spend_approval a plan p now = do
    require (str_eq a.plan_id plan.plan_id)
        (approval_validation "approval plan identity does not match")
    require (scope_eq a.scope plan.scope)
        (approval_validation "approval project scope does not match")
    require (member p.step_id a.allowed_steps)
        (approval_validation "step is outside the approved steps")
    require (str_eq a.provider_id p.provider_id)
        (approval_validation "provider scope does not match")
    require (str_eq a.offering_id p.offering_id)
        (approval_validation "offering scope does not match")
    require (int_eq a.chain_id p.chain_id) (approval_validation "chain scope does not match")
    require (member p.action a.action_scope)
        (approval_validation "action is outside the approved action scope")
    refuse (leb a.expires_at now) (approval_validation "spend approval has expired")
    require (str_eq a.currency p.currency)
        (approval_validation "currency does not match the approval")
    requested ← money platform p.amount "amount"
    cap ← money platform a.max_total_service_spend "max_total_service_spend"
    refuse (exceeds requested cap) (approval_validation "amount exceeds total service-spend cap")
    check_job_cap platform a.max_per_job_spend requested
