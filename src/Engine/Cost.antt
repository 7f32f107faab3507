-- ===== src/Engine/Cost.antt =====
-- delta/execute.py: `_cost_summary`.
use delta_agent.Common.{String, Bool, true, false, Option, none, some, List, [], ◌∷◌, if◌then◌else◌}
use delta_agent.Common.Result.{Result, ok, ◌>>=◌}
use delta_agent.Core.Platform.{Platform}
use delta_agent.Core.Schema.{CostEstimate, check_cost}
use delta_agent.Core.Plan.{StepDecision, DecisionKind, rerun}
use delta_agent.Handoff.Receipt.{known_amounts, total_from}

-- The actual costs are never set here.
pub record CostSummary : Type 0 where
  pub estimated_additional_service_cost : Option CostEstimate
  pub estimate_status : String
  pub actual_service_cost : Option CostEstimate
  pub network_gas_cost : Option CostEstimate

abbrev pub is_rerun : DecisionKind → Bool
is_rerun rerun = true
is_rerun _ = false

unfoldable pub rerun_costs : List StepDecision → List (Option CostEstimate)
rerun_costs [] = []
rerun_costs (d ∷ ds) =
    let rest = rerun_costs ds in if is_rerun d.decision then d.estimated_cost ∷ rest else rest

abbrev pub summary_of_cost : Option CostEstimate → String → CostSummary
summary_of_cost cost status = record {
  estimated_additional_service_cost = cost;
  estimate_status = status;
  actual_service_cost = none;
  network_gas_cost = none;
}

module _ (platform : Platform) where
  open platform use {Decimal, zero_decimal, plain_text}

  abbrev pub runtime_cost : String → Result CostEstimate
  runtime_cost amount = check_cost platform (record {
    amount = some amount;
    currency = "USDC";
    source = "delta-runtime";
    quoted_at = none;
  })

  -- Where there is no decision to run again there is no amount either, and the cost is 0.
  abbrev pub summed : Option (List (String × String)) → Result CostSummary
  summed none = ok (summary_of_cost none "unknown")
  summed (some []) = do c ← runtime_cost "0"; ok (summary_of_cost (some c) "known")
  summed (some (a ∷ more)) = do
    total ← total_from platform zero_decimal (a ∷ more)
    c ← runtime_cost (plain_text total)
    ok (summary_of_cost (some c) "known")

  unfoldable pub cost_summary : List StepDecision → Result CostSummary
  cost_summary decisions = summed (known_amounts (rerun_costs decisions))
