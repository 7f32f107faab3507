-- ===== src/Store/Plans.antt =====
-- delta/store.py: `get_plan`.
use delta_agent.Common.Text.{is_empty}
use delta_agent.Store.Decode.{identifier_of}
use delta_agent.Store.Client.{Entity}
use delta_agent.Store.Entities.{check_payload_scope, SibylStore}
use delta_agent.Core.Schema.{optional_money, check_cost, CostEstimate, Scope}
use delta_agent.Core.Plan.{
  check_step_decision, blocked, check_plan, pending_dependency, RevisionPlan, rerun, StepDecision,
  reuse, DecisionKind,
}
use delta_agent.Core.Platform.{Platform}
use delta_agent.Store.Fields.{
  loose_text, parse_timestamp, item, object_of, get_or_null, object_or_null, text_or,
}
use delta_agent.Common.{String, Option, none, some, List, [], ◌∷◌, str_eq, if◌then◌else◌}
use delta_agent.Common.Result.{
  refuse, ◌>>◌, Result, ok, err, Error, value_error, type_error, approval_validation,
  delta_validation, ◌>>=◌,
}
use delta_agent.Core.Value.{end, Value, Values, Entries, str, dict, list, null, nil, cons}

abbrev pub optional_text_or : Error → Value → Result (Option String)
optional_text_or e null = ok none
optional_text_or e v = do s ← text_or e v; ok (some s)

-- DecisionKind(value)
unfoldable pub kind_of : Value → Result DecisionKind
kind_of (str s) =
    if str_eq s "reuse"
    then ok reuse
    else if str_eq s "rerun"
    then ok rerun
    else if str_eq s "pending_dependency"
    then ok pending_dependency
    else if str_eq s "blocked"
    then ok blocked
    else err (value_error "not a valid DecisionKind")
kind_of v = err (value_error "not a valid DecisionKind")

-- The argument of `dict(...)`: a stored value that is no object, and no empty list or text, raises. (The
-- pairs of a list would be taken by Python; no plan is written with one.)
abbrev pub effective_of : Value → Result (Option Value)
effective_of null = ok none
effective_of (dict es) = ok (some (dict es))
effective_of (list nil) = ok (some (dict end))
effective_of v = err (type_error "cannot convert to a dict")

-- for item in payload["decisions"]
abbrev pub items_of : Value → Result Values
items_of (list vs) = ok vs
items_of v = err (type_error "a list was expected")

module _ (platform : Platform) where
  abbrev pub amount_from : Value → Result (Option String)
  amount_from v = do
    amount ← optional_text_or (approval_validation "amount must be a trimmed decimal string") v
    optional_money platform amount "amount"
    ok amount

  abbrev pub currency_from : Value → Result String
  currency_from v = do
    currency ← text_or (delta_validation "currency must be a non-empty string") v
    refuse (is_empty currency) (delta_validation "currency must be a non-empty string")
    ok currency

  unfoldable pub cost_fields : Entries → Result CostEstimate
  cost_fields es = do
    let amount = get_or_null "amount" es
    currency ← item "currency" es
    source ← item "source" es
    quoted_at ← parse_timestamp platform (get_or_null "quoted_at" es)
    sum ← amount_from amount
    unit ← currency_from currency
    origin ← identifier_of source "source"
    check_cost platform
        (record { amount = sum; currency = unit; source = origin; quoted_at = quoted_at })

  abbrev pub cost_when : Option Entries → Result (Option CostEstimate)
  cost_when none = ok none
  cost_when (some es) = do c ← cost_fields es; ok (some c)

  -- `_cost_from_payload`
  unfoldable pub cost_from_payload : Value → Result (Option CostEstimate)
  cost_from_payload v = do o ← object_or_null v; cost_when o

  -- One `StepDecision` of the generator.
  unfoldable pub decision_fields : Entries → Result StepDecision
  decision_fields es = do
    step_id ← item "step_id" es
    decision ← item "decision" es
    kind ← kind_of decision
    reason_code ← item "reason_code" es
    reason ← item "reason" es
    let effective = get_or_null "effective_input" es
    let signature = get_or_null "input_signature" es
    cost ← cost_from_payload (get_or_null "estimated_cost" es)
    step ← identifier_of step_id "step_id"
    code ← identifier_of reason_code "reason_code"
    why ← identifier_of reason "reason"
    input ← effective_of effective
    signed ← loose_text signature
    check_step_decision platform (record {
      step_id = step;
      decision = kind;
      reason_code = code;
      reason = why;
      effective_input = input;
      input_signature = signed;
      estimated_cost = cost;
    })

  unfoldable pub decisions_from : Values → Result (List StepDecision)
  decisions_from nil = ok []
  decisions_from (cons v vs) = do
    es ← object_of v
    d ← decision_fields es
    ds ← decisions_from vs
    ok (d ∷ ds)

  unfoldable pub plan_from_payload : Scope → Entries → Result RevisionPlan
  plan_from_payload scope es = do
    stored ← item "decisions" es
    vs ← items_of stored
    decisions ← decisions_from vs
    plan_id ← item "plan_id" es
    workflow_id ← item "workflow_id" es
    workflow_version ← item "workflow_version" es
    plan ← identifier_of plan_id "plan_id"
    workflow ← identifier_of workflow_id "workflow_id"
    version ← identifier_of workflow_version "workflow_version"
    check_plan (record {
      plan_id = plan;
      scope = scope;
      workflow_id = workflow;
      workflow_version = version;
      decisions = decisions;
    })

  abbrev pub read_plan : SibylStore → Option Entity → Result (Option RevisionPlan)
  read_plan store none = ok none
  read_plan store (some e) =
      check_payload_scope store e.body
      >> (plan_from_payload store.scope e.body >>= λ p. ok (some p))
