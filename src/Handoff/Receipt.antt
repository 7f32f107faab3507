-- ===== src/Handoff/Receipt.antt =====
-- delta/handoff.py: handoff records, reuse receipts and the cost that a receipt estimates.
pub mod Tally
pub mod Estimate
use delta_agent.Common.{
  ℕ, ◌+◌, String, Bool, true, false, ◌&&◌, ◌||◌, Option, none, some, List, [], ◌∷◌, map, pos,
  if◌then◌else◌, ◌==◌, str_eq,
}
use delta_agent.Common.Result.{Result, ok, err, handoff_policy, value_error, ◌>>=◌, ◌>>◌, require}
use delta_agent.Common.Text.{◌⧺◌}
use delta_agent.Core.Value
use delta_agent.Core.Value.{Value, DateTime, str, int}
use delta_agent.Core.Platform.{Platform}
use delta_agent.Core.Schema.{Scope, AgentPrincipal, CostEstimate, check_cost}
use delta_agent.Core.Workflow.{member}
use delta_agent.Handoff.Policy.{identifier}
use delta_agent.Handoff.Verdict.{HandoffVerdicts, verdicts_payload}
use delta_agent.Handoff.Decision.{
  DecisionKind, reuse, rerun, pending_dependency, blocked, kind_text, WorkEvidence,
  evidence_payload, HandoffDecision, approved, cost_payload,
}

pub record HandoffRecord : Type 0 where
  pub handoff_id : String
  pub scope : Scope
  pub workflow_id : String
  pub workflow_version : String
  pub recipient : AgentPrincipal
  pub policy_ids : List String
  pub decisions : List HandoffDecision
  pub created_at : DateTime
  pub record_version : String

unfoldable pub check_record : HandoffRecord → Result HandoffRecord
check_record r = do
  identifier r.handoff_id "handoff_id"
  identifier r.workflow_id "workflow_id"
  identifier r.workflow_version "workflow_version"
  identifier r.record_version "record_version"
  ok r

abbrev pub is_blocked : DecisionKind → Bool
is_blocked blocked = true
is_blocked _ = false

abbrev pub steps_where : (HandoffDecision → Bool) → List HandoffDecision → List String
steps_where p [] = []
steps_where p (d ∷ ds) = let rest = steps_where p ds in if p d then d.step_id ∷ rest else rest

-- `HandoffRecord.approved_step_ids` and `HandoffRecord.blocked_step_ids`
unfoldable pub approved_step_ids : HandoffRecord → List String
approved_step_ids r = steps_where approved r.decisions

unfoldable pub blocked_step_ids : HandoffRecord → List String
blocked_step_ids r = steps_where (λ d. is_blocked d.decision) r.decisions

pub record ReuseReceiptEntry : Type 0 where
  pub step_id : String
  pub decision : DecisionKind
  pub reason_code : String
  pub reason : String
  pub verdicts : HandoffVerdicts
  pub evidence : WorkEvidence
  pub estimated_cost : Option CostEstimate
  pub outcome : String
  pub attempt_id : Option String

abbrev pub outcomes : List String
outcomes = "not_recorded" ∷ "reused" ∷ "executed" ∷ "blocked" ∷ "pending_dependency" ∷ "failed" ∷ []

abbrev pub check_attempt_id : Option String → Result (Unit {0})
check_attempt_id none = ok tt
check_attempt_id (some a) = identifier a "receipt attempt_id"

unfoldable pub check_entry : ReuseReceiptEntry → Result ReuseReceiptEntry
check_entry e = do
  identifier e.step_id "step_id"
  identifier e.reason_code "reason_code"
  identifier e.reason "reason"
  require (member e.outcome outcomes) (handoff_policy "receipt entry outcome is invalid")
  check_attempt_id e.attempt_id
  ok e

-- `ReuseReceiptEntry.from_decision`
abbrev pub entry_of : HandoffDecision → ReuseReceiptEntry
entry_of d = record {
  step_id = d.step_id;
  decision = d.decision;
  reason_code = d.reason_code;
  reason = d.reason;
  verdicts = d.verdicts;
  evidence = d.evidence;
  estimated_cost = d.estimated_cost;
  outcome = "not_recorded";
  attempt_id = none;
}

unfoldable pub from_decision : HandoffDecision → Result ReuseReceiptEntry
from_decision d = check_entry (entry_of d)

unfoldable pub entry_payload : ReuseReceiptEntry → Value
entry_payload e = Value.object (
    ("step_id", str e.step_id)
    ∷ ("decision", str (kind_text e.decision))
    ∷ ("reason_code", str e.reason_code)
    ∷ ("reason", str e.reason)
    ∷ ("verdicts", verdicts_payload e.verdicts)
    ∷ ("evidence", evidence_payload e.evidence)
    ∷ ("estimated_cost", cost_payload e.estimated_cost)
    ∷ ("outcome", str e.outcome)
    ∷ ("attempt_id", Value.optional str e.attempt_id)
    ∷ [])

-- The dict from decision kinds to numbers: its keys are always the four kinds.
pub record Counts : Type 0 where
  pub reuse : ℕ
  pub rerun : ℕ
  pub pending_dependency : ℕ
  pub blocked : ℕ

abbrev pub no_counts : Counts
no_counts = record { reuse = 0; rerun = 0; pending_dependency = 0; blocked = 0 }

-- counts[decision.value] += 1
abbrev pub count_one : Counts → DecisionKind → Counts
count_one c reuse = record c { reuse = c.reuse + 1 }
count_one c rerun = record c { rerun = c.rerun + 1 }
count_one c pending_dependency = record c { pending_dependency = c.pending_dependency + 1 }
count_one c blocked = record c { blocked = c.blocked + 1 }

unfoldable pub count_from : Counts → List DecisionKind → Counts
count_from c [] = c
count_from c (d ∷ ds) = count_from (count_one c d) ds

-- `_decision_counts`
unfoldable pub decision_counts : List DecisionKind → Counts
decision_counts ds = count_from no_counts ds

abbrev pub counts_eq : Counts → Counts → Bool
counts_eq c d =
    c.reuse == d.reuse
    && c.rerun == d.rerun
    && c.pending_dependency == d.pending_dependency
    && c.blocked == d.blocked

abbrev pub counts_payload : Counts → Value
counts_payload c = Value.object (
    ("reuse", int (pos c.reuse))
    ∷ ("rerun", int (pos c.rerun))
    ∷ ("pending_dependency", int (pos c.pending_dependency))
    ∷ ("blocked", int (pos c.blocked))
    ∷ [])

pub record ReuseReceipt : Type 0 where
  pub receipt_id : String
  pub handoff_id : String
  pub scope : Scope
  pub workflow_id : String
  pub recipient : AgentPrincipal
  pub entries : List ReuseReceiptEntry
  pub counts : Counts
  pub estimated_additional_service_cost : Option CostEstimate
  pub estimate_status : String
  pub summary : String
  pub created_at : DateTime
  pub record_version : String

abbrev pub entry_kinds : List ReuseReceiptEntry → List DecisionKind
entry_kinds es = map (λ e. e.decision) es

unfoldable pub check_receipt : ReuseReceipt → Result ReuseReceipt
check_receipt r = do
  identifier r.receipt_id "receipt_id"
  identifier r.handoff_id "handoff_id"
  identifier r.workflow_id "workflow_id"
  identifier r.summary "summary"
  identifier r.record_version "record_version"
  require (str_eq r.estimate_status "known" || str_eq r.estimate_status "unknown")
      (handoff_policy "estimate_status must be known or unknown")
  let recomputed = decision_counts (entry_kinds r.entries)
  require (counts_eq r.counts recomputed) (handoff_policy "receipt counts do not match its entries")
  ok (record r { counts = recomputed })

-- decision in {RERUN, PENDING_DEPENDENCY}
abbrev pub is_chargeable : DecisionKind → Bool
is_chargeable rerun = true
is_chargeable pending_dependency = true
is_chargeable _ = false

unfoldable pub chargeable : List ReuseReceiptEntry → List (Option CostEstimate)
chargeable [] = []
chargeable (e ∷ es) =
    let rest = chargeable es in if is_chargeable e.decision then e.estimated_cost ∷ rest else rest

-- What an estimate says: its amount and currency, if it has an amount.
abbrev pub amount_of : Option CostEstimate → Option (String × String)
amount_of none = none
amount_of (some c) = elim c.amount [ none ↦ none | some a ↦ some (a, c.currency) ]

-- All the amounts, or none where one is missing.
unfoldable pub known_amounts : List (Option CostEstimate) → Option (List (String × String))
known_amounts [] = some []
known_amounts (c ∷ cs) = elim (amount_of c) [
  | none ↦ none
  | some a ↦ elim (known_amounts cs) [ none ↦ none | some more ↦ some (a ∷ more) ]
]

-- len(currencies) <= 1, where `currency` is in the set
unfoldable pub one_currency : String → List (String × String) → Bool
one_currency currency [] = true
one_currency currency ((a, c) ∷ more) = str_eq c currency && one_currency currency more

module _ (platform : Platform) where
  open platform use {Decimal, parse_decimal, plus, zero_decimal, plain_text, int_text}

  abbrev pub to_decimal : Option Decimal → Result Decimal
  to_decimal none = err (value_error "InvalidOperation")
  to_decimal (some d) = ok d

  unfoldable pub total_from : Decimal → List (String × String) → Result Decimal
  total_from total [] = ok total
  total_from total ((a, c) ∷ more) = do
    d ← to_decimal (parse_decimal a)
    total_from (plus total d) more

  abbrev pub gate_cost : String → String → CostEstimate
  gate_cost amount currency = record {
    amount = some amount;
    currency = currency;
    source = "delta-handoff-gate";
    quoted_at = none;
  }

  abbrev pub sum_amounts : Option (List (String × String)) → Result (Option CostEstimate × String)
  sum_amounts none = ok (none, "unknown")
  sum_amounts (some []) = do c ← check_cost platform (gate_cost "0" "USDC"); ok (some c, "known")
  sum_amounts (some ((a, currency) ∷ more)) =
      let sum = (do
        total ← total_from zero_decimal ((a, currency) ∷ more)
        c ← check_cost platform (gate_cost (plain_text total) currency)
        ok (some c, "known")) in
      if one_currency currency more then sum else ok (none, "unknown")

  -- `_aggregate_cost`: with no chargeable entry the list of amounts is empty, and the cost is 0.
  unfoldable pub aggregate_cost : List ReuseReceiptEntry → Result (Option CostEstimate × String)
  aggregate_cost entries = sum_amounts (known_amounts (chargeable entries))

  abbrev pub cost_text : Option CostEstimate → String → String
  cost_text none status = "estimated additional service cost unknown"
  cost_text (some c) status =
      if str_eq status "known"
      then "estimated additional service cost "
        ⧺ elim c.amount [ none ↦ "None" | some a ↦ a ]
        ⧺ " "
        ⧺ c.currency
      else "estimated additional service cost unknown"

  -- `_receipt_summary`
  unfoldable pub receipt_summary : Counts → Option CostEstimate → String → String
  receipt_summary counts cost status =
      int_text (pos counts.reuse)
      ⧺ " inherited, "
      ⧺ int_text (pos counts.blocked)
      ⧺ " withheld by policy, "
      ⧺ int_text (pos counts.rerun)
      ⧺ " to run again, "
      ⧺ int_text (pos counts.pending_dependency)
      ⧺ " waiting on a dependency; "
      ⧺ cost_text cost status
      ⧺ "."
