-- ===== src/Samples/Witnesses.antt =====
-- The theorems at the inputs of the sample handoff.
use delta_agent.Handoff.Policy.Lookup.{make_policies-IsListed, IsListed}
use delta_agent.Handoff.Policy.{InheritancePolicy, for_category}
use delta_agent.Core.Work.Accepted.{check_work_result-accepts_iff, IsAccepted}
use delta_agent.Core.Work.{check_work_result}
use delta_agent.Core.Inputs.Taken.{validate_inputs-IsTaken, IsTaken}
use delta_agent.Handoff.Receipt.{chargeable}
use delta_agent.Handoff.Receipt.Estimate.{aggregate_cost-known_iff, IsPriced}
use delta_agent.Handoff.Discovery.{find}
use delta_agent.Handoff.Discovery.Newest.{load_candidates-IsNewest, IsNewest}
use delta_agent.Handoff.Receipt.Tally.{Tallies}
use delta_agent.Handoff.Gate.Account.{build_receipt-accounts, summary_of}
use delta_agent.Handoff.Gate.Resolved.{step_candidate-IsProvided_iff}
use delta_agent.Core.Plan.Justified.{build_revision_plan-Grounds, planning_of, Grounds}
use delta_agent.Core.Inputs.{validate_inputs}
use delta_agent.Core.Approval.Allowed.{
  validate_spend_approval-allowed_iff, validate_spend_approval-allowed_iff, IsAllowed,
}
use delta_agent.Handoff.Judge.Decide.{decide-reuse_iff}
use delta_agent.Core.Plan.{moments}
use delta_agent.Core.Value.{str, Value}
use delta_agent.Core.Workflow.Bindings.{
  resolve_step_input-IsProvided, resolve_step_input_local, Agrees, IsProvided,
}
use delta_agent.Handoff.Judge.{decide}
use delta_agent.Core.Workflow.{references, topological_order, resolve_step_input, walk_bindings}
use delta_agent.Core.Workflow.Order.{topological_order-Ordering, Ordering}
use delta_agent.Handoff.Verdict.{
  safe, safe, satisfied, authorized, trusted, valid, approves_inheritance, HandoffVerdicts,
}
use delta_agent.Common.Dict.{lookup, Dict}
use delta_agent.Core.Approval.{validate_spend_approval}
use delta_agent.Common.{some, map, ◌∷◌, String, List, [], All, true, none, ◌≡◌, refl, ◌↔◌, ◌≢◌}
use delta_agent.Common.Result.{ok}
use delta_agent.Handoff.Decision.{reuse, pending_dependency}
use delta_agent.Handoff.Inheritance.{MayInherit}
use delta_agent.Handoff.Inheritance.Reuse.{evaluate_candidate-reuse_iff}
use delta_agent.Handoff.Gate.Owed.{IsOwed}
use delta_agent.Handoff.Gate.Inherited.{evaluate-IsOwed}
use delta_agent.Samples.Toy.{
  policy, workflow, review, toy, request, store, work, draft, draft_signature,
}
use delta_agent.Samples.Runs.{
  policies_made, taken, estimated, loaded, looped, receipted, loop, planned, review_resolved,
  revision, revision, paid, plan, approval, evaluated, judged,
}

evaluate-IsOwed_example : IsOwed toy store request 7 evaluated.0.approved_context
evaluate-IsOwed_example = evaluate-IsOwed toy store request none 8 evaluated.0 evaluated.1

evaluate_candidate-reuse_iff_example :
    (judged.0.decision.decision ≡ reuse) ↔ MayInherit toy request draft draft_signature work true 7
evaluate_candidate-reuse_iff_example =
    evaluate_candidate-reuse_iff toy request draft draft_signature work true 7 judged.0 judged.1

topological_order-Ordering_example : Ordering workflow (topological_order workflow)
topological_order-Ordering_example = topological_order-Ordering workflow

build_revision_plan-Grounds_example :
    (inputs : Dict Value) × (order : List String) × (validate_inputs toy revision.workflow
        revision.inputs
      ≡ ok inputs)
    × (topological_order revision.workflow ≡ ok order)
    × Grounds toy
        (planning_of revision inputs (work ∷ []) (moments none (λ id r. 8)))
        order
        planned.0.decisions
build_revision_plan-Grounds_example =
    build_revision_plan-Grounds toy revision (work ∷ []) none (λ id r. 8) planned.0 planned.1

validate_spend_approval-allowed_iff_example :
    (validate_spend_approval toy approval plan paid 8 ≡ ok tt) ↔ IsAllowed toy approval plan paid 8
validate_spend_approval-allowed_iff_example =
    validate_spend_approval-allowed_iff toy approval plan paid 8

abbrev good : HandoffVerdicts
good = record {
  validity = record { status = valid; reason_code = "A"; reason = "a" };
  trust = record { status = trusted; reason_code = "A"; reason = "a" };
  authorization = record { status = authorized; reason_code = "A"; reason = "a" };
  dependency = record { status = satisfied; reason_code = "A"; reason = "a" };
  external_job = record { status = safe; reason_code = "A"; reason = "a" };
}

decide-reuse_iff_example : ((decide good).0 ≡ reuse) ↔ (approves_inheritance good ≡ true)
decide-reuse_iff_example = decide-reuse_iff good (λ h. cc)

resolve_step_input-IsProvided_example :
    All (IsProvided toy [] (("draft", str "done") ∷ [])) (references review)
resolve_step_input-IsProvided_example =
    resolve_step_input-IsProvided toy [] (("draft", str "done") ∷ []) review review_resolved.0
      review_resolved.1

abbrev few : Dict Value
few = ("draft", str "done") ∷ []

abbrev more : Dict Value
more = ("draft", str "done") ∷ ("more", str "x") ∷ []

draft-Agrees : All (Agrees [] few [] more) (references review)
unfolding walk_bindings lookup
draft-Agrees = (refl, tt)

resolve_step_input_local_example :
    resolve_step_input toy [] few review ≡ resolve_step_input toy [] more review
resolve_step_input_local_example = resolve_step_input_local toy [] few [] more review draft-Agrees

step_candidate-IsProvided_iff_example :
    (looped.0.decision.decision ≢ pending_dependency)
    ↔ All (IsProvided toy loop.inputs []) (references draft)
step_candidate-IsProvided_iff_example =
    step_candidate-IsProvided_iff toy loop draft [] looped.0 looped.1

build_receipt-accounts_example :
    (map (λ e. (e.step_id, e.decision)) receipted.0.entries
      ≡ map (λ c. summary_of c.decision) evaluated.0.candidates)
    × Tallies receipted.0.counts (map (λ c. c.decision.decision) evaluated.0.candidates)
build_receipt-accounts_example =
    build_receipt-accounts toy "handoff:1" request evaluated.0.candidates 8 receipted.0 receipted.1

load_candidates-IsNewest_example :
    IsNewest "draft" draft_signature (work ∷ []) (find "draft" draft_signature loaded.0)
load_candidates-IsNewest_example =
    load_candidates-IsNewest store request (work ∷ []) loaded.0 "draft" draft_signature refl
      loaded.1

aggregate_cost-known_iff_example :
    ((estimated.0.1 ≡ "known")
      ↔ ((currency : String) × All (IsPriced currency) (chargeable receipted.0.entries)))
    × ((estimated.0.1 ≡ "unknown") ↔ (estimated.0.0 ≡ none))
aggregate_cost-known_iff_example =
    aggregate_cost-known_iff toy receipted.0.entries estimated.0.0 estimated.0.1 estimated.1

validate_inputs-IsTaken_example :
    All (IsTaken toy (("brief", str "hi") ∷ []) taken.0) workflow.inputs
validate_inputs-IsTaken_example =
    validate_inputs-IsTaken toy workflow (("brief", str "hi") ∷ []) taken.0 taken.1

check_work_result-accepts_iff_example :
    (check_work_result toy work ≡ ok work) ↔ IsAccepted toy work work
check_work_result-accepts_iff_example = check_work_result-accepts_iff toy work work

make_policies-IsListed_example :
    All (λ p. for_category request.policies (some p.work_category) ≡ some p) (policy ∷ [])
    × ((category : String) (p : InheritancePolicy)
        → for_category request.policies (some category) ≡ some p
        → IsListed (policy ∷ []) category p)
make_policies-IsListed_example =
    make_policies-IsListed toy (policy ∷ []) request.policies policies_made
