-- ===== src/Core/Plan/Justified.antt =====
-- What each decision of a plan of delta/core.py rests on.
use delta_agent.Core.Workflow.Indexed.{at_key-some, index_steps-found}
use delta_agent.Common.{
  Some, inr, ◌∙◌, inl, Bool-cases, arith, String, Bool, true, false, Option, none, some, List, [],
  ◌∷◌, ◌≡◌, refl, sym, subst, All,
}
use delta_agent.Common.Result.{Result, ok, err, dependency_pending, >>=-eq-ok, ok-injective}
use delta_agent.Common.Dict.{Dict, lookup}
use delta_agent.Core.Value.{Value, DateTime}
use delta_agent.Core.Platform.{Platform}
use delta_agent.Core.Work.{Step, WorkResult}
use delta_agent.Core.Workflow.{
  at_key, input_signature, topological_order, validate_workflow, index_steps,
}
use delta_agent.Core.Inputs.{validate_inputs}
use delta_agent.Core.Plan.{
  DecisionKind, reuse, rerun, pending_dependency, RevisionRequest, StepDecision, RevisionPlan,
  Planning, moments, check_step_decision, check_plan, first_where, serves, settle_step, decide_step,
  plan_step, plan_steps, plan_digest, build_revision_plan,
}

first_where-some {ℓ} :
    {A : Type ℓ} (p : A → Bool) (xs : List A) (a : A)
    → first_where p xs ≡ some a
    → Some (λ x. p x ≡ true) xs
unfolding first_where
first_where-some p [] a h = cc
first_where-some p (x ∷ xs) a h = elim (Bool-cases (p x)) [
  | inl e ↦ inl e
  | inr e ↦ inr (first_where-some p xs a (rw e at h))
]

first_where-none {ℓ} :
    {A : Type ℓ} (p : A → Bool) (xs : List A) → first_where p xs ≡ none → All (λ x. p x ≡ false) xs
unfolding first_where
first_where-none p [] h = tt
first_where-none p (x ∷ xs) h = elim (Bool-cases (p x)) [
  | inl e ↦ cc (rw e at h)
  | inr e ↦ (e, first_where-none p xs (rw e at h))
]

module _ (platform : Platform) (p : Planning) (step : Step) where
  -- The ground of a decision of each kind. A plan blocks nothing.
  abbrev pub Ground : DecisionKind → Option String → Type 0
  Ground reuse (some signature) = Some (λ r. serves platform p step signature r ≡ true) p.reusable
  Ground rerun (some signature) = All (λ r. serves platform p step signature r ≡ false) p.reusable
  Ground pending_dependency none = Unit
  Ground kind signature = ⊥

  abbrev pub IsGrounded : StepDecision → Type 0
  IsGrounded d = (d.step_id ≡ step.id) × Ground d.decision d.input_signature

  checked-IsGrounded :
      (d e : StepDecision) → IsGrounded d → check_step_decision platform d ≡ ok e → IsGrounded e
  unfolding check_step_decision
  checked-IsGrounded d e g h =
      let same : (e.step_id ≡ d.step_id)
          × (e.decision ≡ d.decision)
          × (e.input_signature ≡ d.input_signature) =
        (ground arith, ground arith, ground arith) in
      (same.0 ∙ g.0, rw (same.1, same.2) g.1)

  settle_step-IsGrounded :
      (effective : Value) (signature : String) (outputs : Dict Value) (found : Option WorkResult)
      (planned : StepDecision × Dict Value)
      → first_where (serves platform p step signature) p.reusable ≡ found
      → settle_step platform step effective signature outputs found ≡ ok planned
      → IsGrounded planned.0
  settle_step-IsGrounded effective signature outputs (some r) planned e h =
      let (d, hd, rest) = >>=-eq-ok (check_step_decision platform _) _ h in
      subst (λ q. IsGrounded q.0) (ok-injective rest)
        (checked-IsGrounded _ d (refl, first_where-some _ p.reusable r e) hd)
  settle_step-IsGrounded effective signature outputs none planned e h =
      let (d, hd, rest) = >>=-eq-ok (check_step_decision platform _) _ h in
      subst (λ q. IsGrounded q.0) (ok-injective rest)
        (checked-IsGrounded _ d (refl, first_where-none _ p.reusable e) hd)

  decide_step-IsGrounded :
      (outputs : Dict Value) (input : Result Value) (planned : StepDecision × Dict Value)
      → decide_step platform p step outputs input ≡ ok planned
      → IsGrounded planned.0
  decide_step-IsGrounded outputs (ok v) planned h =
      let (signature, hs, rest) =
        >>=-eq-ok (input_signature platform p.request.scope p.request.workflow step v) _ h in
      settle_step-IsGrounded v signature outputs _ planned refl rest
  decide_step-IsGrounded outputs (err (dependency_pending detail)) planned h =
      let (d, hd, rest) = >>=-eq-ok (check_step_decision platform _) _ h in
      subst (λ q. IsGrounded q.0) (ok-injective rest) (checked-IsGrounded _ d (refl, tt) hd)
  decide_step-IsGrounded outputs (err e) planned h = cc

module _ (platform : Platform) (p : Planning) where
  abbrev pub planned_steps : Dict Step
  planned_steps = index_steps (λ s. s) [] p.request.workflow.steps

  -- One decision for each id, in order, on the step of that id.
  abbrev pub Grounds : List String → List StepDecision → Type 0
  Grounds [] [] = Unit
  Grounds (id ∷ ids) (d ∷ ds) =
      ((step : Step) × (lookup id planned_steps ≡ some step)
        × (d.step_id ≡ id)
        × Ground platform p step d.decision d.input_signature)
      × Grounds ids ds
  Grounds ids ds = ⊥

  plan_steps-Grounds :
      (ids : List String) (outputs : Dict Value) (ds : List StepDecision)
      → plan_steps platform p planned_steps ids outputs ≡ ok ds
      → Grounds ids ds
  unfolding plan_steps plan_step
  plan_steps-Grounds [] outputs ds h = subst (Grounds []) (ok-injective h) tt
  plan_steps-Grounds (id ∷ ids) outputs ds h =
      let (step, hs, h1) = >>=-eq-ok (at_key (lookup id planned_steps) id) _ h in
      let (planned, hp, h2) = >>=-eq-ok (plan_step platform p step outputs) _ h1 in
      let (rest, hr, h3) = >>=-eq-ok (plan_steps platform p planned_steps ids planned.1) _ h2 in
      let found = at_key-some _ id step hs in
      let named = (index_steps-found p.request.workflow.steps id step found).0 in
      let g = decide_step-IsGrounded platform p step outputs _ planned hp in
      subst (Grounds (id ∷ ids)) (ok-injective h3)
        ((step, found, g.0 ∙ named, g.1), plan_steps-Grounds ids planned.1 rest hr)

-- The plan of a request: what the loop reads.
abbrev pub planning_of :
    RevisionRequest → Dict Value → List WorkResult → (String → WorkResult → DateTime) → Planning
planning_of request inputs reusable moment_of = record {
  request = request;
  inputs = inputs;
  reusable = reusable;
  moment_of = moment_of;
}

check_plan-decisions : (p q : RevisionPlan) → check_plan p ≡ ok q → q.decisions ≡ p.decisions
unfolding check_plan
check_plan-decisions p q h = ground arith

-- A plan that `build_revision_plan` returns has one decision for each id of the topological order,
-- in that order. A step is reused only where some reusable result matches it, is run again only
-- where none does, and is pending only without an input signature; no step is blocked.
pub build_revision_plan-Grounds :
    (platform : Platform) (request : RevisionRequest) (reusable : List WorkResult)
    (now : Option DateTime) (clock : String → WorkResult → DateTime) (plan : RevisionPlan)
    → build_revision_plan platform request reusable now clock ≡ ok plan
    → (inputs : Dict Value) × (order : List String) × (validate_inputs platform request.workflow
          request.inputs
        ≡ ok inputs)
      × (topological_order request.workflow ≡ ok order)
      × Grounds platform
          (planning_of request inputs reusable (moments now clock))
          order
          plan.decisions
unfolding build_revision_plan
build_revision_plan-Grounds platform request reusable now clock plan h =
    let (u, h1, k1) = >>=-eq-ok (validate_workflow request.workflow) _ h in
    let (inputs, h2, k2) =
      >>=-eq-ok (validate_inputs platform request.workflow request.inputs) _ k1 in
    let (order, h3, k3) = >>=-eq-ok (topological_order request.workflow) _ k2 in
    let p = planning_of request inputs reusable (moments now clock) in
    let (ds, h4, k4) = >>=-eq-ok (plan_steps platform p (planned_steps platform p) order []) _ k3 in
    let (plan_id, h5, k5) = >>=-eq-ok (plan_digest platform request inputs ds) _ k4 in
    (
      inputs,
      order,
      h2,
      h3,
      subst (Grounds platform p order) (sym (check_plan-decisions _ plan k5))
          (plan_steps-Grounds platform p order [] ds h4),
    )
