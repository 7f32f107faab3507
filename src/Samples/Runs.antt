-- ===== src/Samples/Runs.antt =====
-- Runs of the gate, the planner and the checks of a spend approval on the sample handoff.
use delta_agent.Common.{false, pos, String, true, Option, none, some, [], ◌∷◌, map, ◌≡◌, refl}
use delta_agent.Common.Result.{approval_validation, ok, err}
use delta_agent.Common.Dict.{Dict, lookup, insert}
use delta_agent.Core.Value.{Value, str}
use delta_agent.Core.Schema.{CostEstimate}
use delta_agent.Core.Work.{check_work_result}
use delta_agent.Core.Workflow.{topological_order, resolve_step_input}
use delta_agent.Core.Inputs.{validate_inputs}
use delta_agent.Core.Plan.{RevisionRequest, RevisionPlan, build_revision_plan}
use delta_agent.Core.Approval.{SpendApproval, PaidAction, check_approval, validate_spend_approval}
use delta_agent.Handoff.Policy.{add_policies, make_policies}
use delta_agent.Handoff.Decision.{HandoffCandidate, reuse, rerun}
use delta_agent.Handoff.Receipt.{ReuseReceipt, aggregate_cost}
use delta_agent.Handoff.Discovery.{Index, load_candidates}
use delta_agent.Handoff.Candidate.{evaluate_candidate}
use delta_agent.Handoff.Gate.{Loop, HandoffEvaluation, step_candidate, build_receipt, evaluate}
use delta_agent.Samples.Toy.{
  program, toy, scope, draft, review, workflow, policy, request, draft_signature, work, store,
}

test : topological_order workflow ≡ ok ("draft" ∷ "review" ∷ [])
unfolding program
test = refl

pub evaluated : (e : HandoffEvaluation) × (evaluate toy store request none 8 ≡ ok e)
unfolding program
evaluated = (_, refl)

unfoldable pub judged :
    (c : HandoffCandidate) × (evaluate_candidate toy request draft draft_signature
        (some work)
        true
        7
      ≡ ok c)
unfolding program
judged = (_, refl)

-- The draft, where its input has changed.
pub stale :
    (c : HandoffCandidate) × (evaluate_candidate toy request draft "other" (some work) false 7
      ≡ ok c)
unfolding program
stale = (_, refl)

stale_rerun : stale.0.decision.decision ≡ rerun
unfolding program stale
stale_rerun = refl

-- The draft is inherited, and the review has to run.
kinds :
    map (λ (c : HandoffCandidate). c.decision.decision) evaluated.0.candidates ≡ reuse ∷ rerun ∷ []
unfolding program evaluated
kinds = refl

abbrev pub revision : RevisionRequest
revision = record {
  scope = scope;
  workflow = workflow;
  inputs = ("brief", str "hi") ∷ [];
  requested_at = none;
}

pub planned :
    (p : RevisionPlan) × (build_revision_plan toy revision (work ∷ []) none (λ id r. 8) ≡ ok p)
unfolding program
planned = (_, refl)

-- The output of the draft was reused, so the review has its input.
planned_kinds : map (λ d. d.decision) planned.0.decisions ≡ reuse ∷ rerun ∷ []
unfolding program planned
planned_kinds = refl

abbrev pub plan : RevisionPlan
plan = record {
  plan_id = "plan:1";
  scope = scope;
  workflow_id = "flow";
  workflow_version = "1";
  decisions = [];
}

abbrev pub approval : SpendApproval
approval = record {
  approval_id = "approval:1";
  plan_id = "plan:1";
  scope = scope;
  allowed_steps = "review" ∷ [];
  provider_id = "acp";
  offering_id = "check";
  chain_id = pos 8453;
  action_scope = "hire" ∷ [];
  currency = "USDC";
  max_total_service_spend = "2";
  max_per_job_spend = some "1";
  expires_at = 10;
}

abbrev pub paid : PaidAction
paid = record {
  step_id = "review";
  provider_id = "acp";
  offering_id = "check";
  chain_id = pos 8453;
  action = "hire";
  amount = "1";
  currency = "USDC";
}

approval_checked : check_approval toy approval ≡ ok approval
unfolding program
approval_checked = refl

pub paid_validated : validate_spend_approval toy approval plan paid 8 ≡ ok tt
unfolding program
paid_validated = refl

over_job_cap :
    validate_spend_approval toy approval plan (record paid { amount = "2" }) 8
    ≡ err (approval_validation "amount exceeds per-job service-spend cap")
unfolding program
over_job_cap = refl

pub review_resolved :
    (v : Value) × (resolve_step_input toy [] (("draft", str "done") ∷ []) review ≡ ok v)
unfolding program
review_resolved = (_, refl)

abbrev pub loop : Loop
loop = record {
  request = request;
  inputs = ("brief", str "hi") ∷ [];
  persisted = ("draft", draft_signature, work) ∷ [];
  corrupt = [];
  now = 7;
}

pub looped : (c : HandoffCandidate) × (step_candidate toy loop draft [] ≡ ok c)
unfolding program
looped = (_, refl)

looped_reuse : looped.0.decision.decision ≡ reuse
unfolding program looped
looped_reuse = refl

pub receipted :
    (r : ReuseReceipt) × (build_receipt toy "handoff:1" request evaluated.0.candidates 8 ≡ ok r)
unfolding program evaluated
receipted = (_, refl)

pub loaded : (i : Index) × (load_candidates store request ≡ ok i)
unfolding program
loaded = (_, refl)

pub estimated : (e : Option CostEstimate × String) × (aggregate_cost toy receipted.0.entries ≡ ok e)
unfolding program receipted evaluated
estimated = (_, refl)

pub taken :
    (inputs : Dict Value) × (validate_inputs toy workflow (("brief", str "hi") ∷ []) ≡ ok inputs)
unfolding program
taken = (_, refl)

pub work_checked : check_work_result toy work ≡ ok work
unfolding program
work_checked = refl

pub policies_made : make_policies toy (policy ∷ []) ≡ ok request.policies
unfolding add_policies make_policies lookup insert
policies_made = refl
