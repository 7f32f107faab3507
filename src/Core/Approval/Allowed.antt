-- ===== src/Core/Approval/Allowed.antt =====
-- When `validate_spend_approval` of delta/core.py accepts a paid action.
use delta_agent.Common.{
  pos, negsuc, refl, eq_iff, and_iff, ℤ, sym, ◌∙◌, ◌≡◌, ◌≡◌, ◌≡◌, ltb, ◌≡◌, ◌&&◌, ◌≡◌, str_eq, ◌≡◌,
  arith, Bool, String, true, false, Option, none, some, ◌≡◌, ◌<◌, ◌↔◌,
}
use delta_agent.Common.Result.{
  refuse-eq-ok, ◌>>◌, approval_validation, refuse, Result, ok, ◌>>=◌, >>=-eq-ok,
}
use delta_agent.Core.Value.{DateTime}
use delta_agent.Core.Platform.{Platform}
use delta_agent.Core.Schema.{scope_eq, scope_eq_iff, money}
use delta_agent.Core.Workflow.{member}
use delta_agent.Core.Workflow.Members.{Elem, member→Elem, Elem→member}
use delta_agent.Core.Plan.{RevisionPlan}
use delta_agent.Core.Approval.{
  SpendApproval, PaidAction, int_eq, check_job_cap, validate_spend_approval,
}

-- A cap of the approval that the amount stays within, if there is one.
abbrev pub WithinCap : (platform : Platform) → Option String → Platform.Decimal platform → Type 0
WithinCap platform none amount = Unit
WithinCap platform (some text) amount =
    (limit : Platform.Decimal platform) × (money platform text "max_per_job_spend" ≡ ok limit)
    × (Platform.exceeds platform amount limit ≡ false)

module _ (platform : Platform) (a : SpendApproval) (plan : RevisionPlan) (p : PaidAction)
    (now : DateTime) where
  open platform use {Decimal, exceeds}

  pub record IsAllowed : Type 0 where
    pub plan_of : a.plan_id ≡ plan.plan_id
    pub scope : a.scope ≡ plan.scope
    pub step : Elem p.step_id a.allowed_steps
    pub provider : a.provider_id ≡ p.provider_id
    pub offering : a.offering_id ≡ p.offering_id
    pub chain : a.chain_id ≡ p.chain_id
    pub action : Elem p.action a.action_scope
    pub unexpired : now < a.expires_at
    pub currency : a.currency ≡ p.currency
    pub requested : Decimal
    pub asked : money platform p.amount "amount" ≡ ok requested
    pub cap : Decimal
    pub total : money platform a.max_total_service_spend "max_total_service_spend" ≡ ok cap
    pub within_total : exceeds requested cap ≡ false
    pub within_job : WithinCap platform a.max_per_job_spend requested

  -- The tests before the amounts are read, in one Boolean.
  abbrev tests : Bool
  tests =
      str_eq a.plan_id plan.plan_id
      && (scope_eq a.scope plan.scope
          && (member p.step_id a.allowed_steps
              && (str_eq a.provider_id p.provider_id
                  && (str_eq a.offering_id p.offering_id
                      && (int_eq a.chain_id p.chain_id
                          && (member p.action a.action_scope
                              && (ltb now a.expires_at && str_eq a.currency p.currency)))))))

  abbrev amounts : Result (Unit {0})
  amounts = money platform p.amount "amount" >>= λ requested.
      money platform a.max_total_service_spend "max_total_service_spend" >>= λ cap.
      refuse (exceeds requested cap) (approval_validation "amount exceeds total service-spend cap")
      >> check_job_cap platform a.max_per_job_spend requested

  validate-tests : validate_spend_approval platform a plan p now ≡ ok tt → tests ≡ true
  unfolding validate_spend_approval
  validate-tests h = ground arith

  validate-amounts : tests ≡ true → validate_spend_approval platform a plan p now ≡ amounts
  unfolding validate_spend_approval
  validate-amounts h = ground arith

  chain_iff : (m n : ℤ) → (int_eq m n ≡ true) ↔ (m ≡ n)
  chain_iff (pos m) (pos n) = (ground arith, ground arith)
  chain_iff (negsuc m) (negsuc n) = (ground arith, ground arith)
  chain_iff (pos m) (negsuc n) = (λ h. cc, λ h. cc)
  chain_iff (negsuc m) (pos n) = (λ h. cc, λ h. cc)

  unexpired_iff : (s t : DateTime) → (ltb s t ≡ true) ↔ (s < t)
  unexpired_iff s t = (λ h. ground arith, λ h. ground arith)

  tests_iff : (tests ≡ true) ↔ (
      (a.plan_id ≡ plan.plan_id)
      × ((a.scope ≡ plan.scope)
          × (Elem p.step_id a.allowed_steps
              × ((a.provider_id ≡ p.provider_id)
                  × ((a.offering_id ≡ p.offering_id)
                      × ((a.chain_id ≡ p.chain_id)
                          × (Elem p.action a.action_scope
                              × ((now < a.expires_at) × (a.currency ≡ p.currency)))))))))
  tests_iff = and_iff _ _ (eq_iff a.plan_id plan.plan_id) (
      and_iff _ _ (scope_eq_iff a.scope plan.scope) (
        and_iff _ _ (member→Elem p.step_id a.allowed_steps, Elem→member p.step_id a.allowed_steps)
          (and_iff _ _ (eq_iff a.provider_id p.provider_id) (
            and_iff _ _ (eq_iff a.offering_id p.offering_id) (
              and_iff _ _ (chain_iff a.chain_id p.chain_id) (
                and_iff _ _
                  (member→Elem p.action a.action_scope, Elem→member p.action a.action_scope)
                  (and_iff _ _ (unexpired_iff now a.expires_at)
                    (eq_iff a.currency p.currency))))))))

  job-WithinCap :
      (cap : Option String) (d : Decimal)
      → check_job_cap platform cap d ≡ ok tt
      → WithinCap platform cap d
  job-WithinCap none d h = tt
  job-WithinCap (some text) d h =
      let (limit, e, rest) = >>=-eq-ok (money platform text "max_per_job_spend") _ h in
      (limit, e, refuse-eq-ok (exceeds d limit) _ rest)

  WithinCap-job :
      (cap : Option String) (d : Decimal)
      → WithinCap platform cap d
      → check_job_cap platform cap d ≡ ok tt
  WithinCap-job none d h = refl
  WithinCap-job (some text) d h = rw (h.1, h.2) refl

  allowed_of : validate_spend_approval platform a plan p now ≡ ok tt → IsAllowed
  allowed_of h =
      let passed = validate-tests h in
      let t = tests_iff.0 passed in
      let (requested, asked, h1) =
        >>=-eq-ok (money platform p.amount "amount") _ (sym (validate-amounts passed) ∙ h) in
      let (cap, total, h2) =
        >>=-eq-ok (money platform a.max_total_service_spend "max_total_service_spend") _ h1 in
      let (u, within, h3) = >>=-eq-ok (refuse (exceeds requested cap) _) _ h2 in
      record {
        plan_of = t.0;
        scope = t.1.0;
        step = t.1.1.0;
        provider = t.1.1.1.0;
        offering = t.1.1.1.1.0;
        chain = t.1.1.1.1.1.0;
        action = t.1.1.1.1.1.1.0;
        unexpired = t.1.1.1.1.1.1.1.0;
        currency = t.1.1.1.1.1.1.1.1;
        requested = requested;
        asked = asked;
        cap = cap;
        total = total;
        within_total = refuse-eq-ok (exceeds requested cap) _ within;
        within_job = job-WithinCap a.max_per_job_spend requested h3;
      }

  validated_of : IsAllowed → validate_spend_approval platform a plan p now ≡ ok tt
  validated_of w =
      validate-amounts (
        tests_iff.1 (
          w.plan_of,
          (
            w.scope,
            (w.step, (w.provider, (w.offering, (w.chain, (w.action, (w.unexpired, w.currency)))))),
          ),
        ))
      ∙ rw (w.asked, w.total, w.within_total)
          (WithinCap-job a.max_per_job_spend w.requested w.within_job)

-- An approval lets a paid action through exactly when the action is within what was approved: its
-- plan, scope, steps, provider, offering, chain, actions, currency and time, with an amount of money
-- that exceeds neither the total cap nor the cap of a job.
pub validate_spend_approval-allowed_iff :
    (platform : Platform) (a : SpendApproval) (plan : RevisionPlan) (p : PaidAction)
    (now : DateTime)
    → (validate_spend_approval platform a plan p now ≡ ok tt) ↔ IsAllowed platform a plan p now
validate_spend_approval-allowed_iff platform a plan p now =
    (allowed_of platform a plan p now, validated_of platform a plan p now)
