-- ===== src/Store/Previewed.antt =====
-- delta/store.py: plans that are saved and read back.
use delta_agent.Common.Action.{lift, >>=-next, lift-returned}
use delta_agent.Store.Kept.{save_entity-written, is_scope_payload-own}
use delta_agent.Store.Attempts.{get_plan, save_plan}
use delta_agent.Store.Entities.{
  plan_category, entity_key, assert_scope, SibylStore, check_payload_scope,
}
use delta_agent.Store.Client.{Entity, IsStorage, MemoryClient}
use delta_agent.Store.Recover.{timestamp-recovered}
use delta_agent.Store.Fields.{get}
use delta_agent.Common.Result.{require-eq-ok, ok}
use delta_agent.Store.Payload.{stored_decision, stored_cost, plan_payload}
use delta_agent.Core.Schema.{scope_eq_iff, identifier, check_cost, CostEstimate}
use delta_agent.Core.Value.{dict, str, DateTime, Value}
use delta_agent.Core.Plan.{
  blocked, pending_dependency, RevisionPlan, rerun, check_plan, reuse, kind_text,
  check_step_decision, StepDecision, DecisionKind,
}
use delta_agent.Store.Plans.{
  read_plan, decision_fields, cost_fields, decisions_from, effective_of, cost_from_payload,
  plan_from_payload, kind_of,
}
use delta_agent.Core.Platform.{Platform}
use delta_agent.Common.{
  [], ◌∷◌, map, All, List, Option, ◌≡◌, refl, none, some, arith, sym, ap, subst,
}
use delta_agent.Core.Value

-- The input of a step is an object.
abbrev pub IsObject : Option Value → Type 0
IsObject none = Unit
IsObject (some (dict es)) = Unit
IsObject (some v) = ⊥

pub kind-recovered : (k : DecisionKind) → kind_of (str (kind_text k)) ≡ ok k
unfolding kind_of
kind-recovered reuse = refl
kind-recovered rerun = refl
kind-recovered pending_dependency = refl
kind-recovered blocked = refl

effective-recovered :
    (o : Option Value) → IsObject o → effective_of (Value.optional (λ v. v) o) ≡ ok o
effective-recovered none h = refl
effective-recovered (some (dict es)) h = refl
effective-recovered (some v) h = elim h [ ]

module _ (platform : Platform)
    (reads : (t : DateTime)
      → Platform.parse_datetime platform (Platform.datetime_text platform t) ≡ some t) where
  abbrev pub IsSoundCost : Option CostEstimate → Type 0
  IsSoundCost none = Unit
  IsSoundCost (some c) = check_cost platform c ≡ ok c

  cost-recovered :
      (o : Option CostEstimate)
      → IsSoundCost o
      → cost_from_payload platform (stored_cost platform o) ≡ ok o
  unfolding cost_from_payload cost_fields stored_cost get check_cost
  cost-recovered none h = refl
  cost-recovered (some c) h = ground (arith, timestamp-recovered platform reads c.quoted_at)

  -- A decision that its class has accepted.
  abbrev pub IsSoundDecision : StepDecision → Type 0
  IsSoundDecision d =
      (check_step_decision platform d ≡ ok d)
      × IsObject d.effective_input
      × IsSoundCost d.estimated_cost

  decision_names :
      (d : StepDecision)
      → check_step_decision platform d ≡ ok d
      → (identifier d.step_id "step_id" ≡ ok tt)
        × (identifier d.reason_code "reason_code" ≡ ok tt)
        × (identifier d.reason "reason" ≡ ok tt)
  unfolding check_step_decision
  decision_names d h = (ground arith, ground arith, ground arith)

  decisions-recovered :
      (ds : List StepDecision)
      → All IsSoundDecision ds
      → decisions_from platform (Value.values_of (map (stored_decision platform) ds)) ≡ ok ds
  unfolding decisions_from decision_fields get
  decisions-recovered [] h = refl
  decisions-recovered (d ∷ ds) h =
      let names = decision_names d h.0.0 in
      let rest = decisions-recovered ds h.1 in
      ground (
        arith,
        names,
        rest,
        h.0.0,
        kind-recovered d.decision,
        effective-recovered d.effective_input h.0.1,
        cost-recovered d.estimated_cost h.0.2,
      )

  pub plan-recovered :
      (p : RevisionPlan)
      → check_plan p ≡ ok p
      → All IsSoundDecision p.decisions
      → plan_from_payload platform p.scope (plan_payload platform p) ≡ ok p
  unfolding plan_from_payload plan_payload get check_plan
  plan-recovered p h sound =
      let decisions = decisions-recovered p.decisions sound in ground (arith, decisions)

  read_plan-own :
      (store : SibylStore) (p : RevisionPlan) (e : Entity)
      → (p.scope ≡ store.scope)
      → (e.body ≡ plan_payload platform p)
      → check_plan p ≡ ok p
      → All IsSoundDecision p.decisions
      → read_plan platform store (some e) ≡ ok (some p)
  unfolding check_payload_scope plan_payload get
  read_plan-own store p e own body h sound =
      let loaded = plan-recovered p h sound in
      let scoped = is_scope_payload-own p.scope in rw (body, sym own, scoped, loaded) refl

  module _ (client : MemoryClient) (storage : IsStorage client) where
    open client use {Memory, get_entity}

    -- A checked plan that was saved is read back as it was under its plan id.
    pub get_plan-save_plan :
        (store : SibylStore) (p : RevisionPlan) (m n : Memory)
        → check_plan p ≡ ok p
        → All IsSoundDecision p.decisions
        → save_plan platform client store p m ≡ (ok tt, n)
        → (o : Memory) × (get_plan platform client store p.plan_id n ≡ (ok (some p), o))
    unfolding save_plan get_plan assert_scope
    get_plan-save_plan store p m n checked sound h =
        let (u, h1, k1) = lift-returned (assert_scope store p.scope) _ m h in
        let (name, h2, k2) =
          lift-returned (entity_key platform "plan" p.scope (("plan_id", str p.plan_id) ∷ [])) _ m
            k1 in
        let (e, o, h3, body) =
          storage.entity_kept plan_category name (plan_payload platform p) "previewed" m n (
            save_entity-written platform client store plan_category name (plan_payload platform p)
              "previewed" m n k2) in
        let own = (scope_eq_iff p.scope store.scope).0 (require-eq-ok _ _ h1) in
        (
          o,
          >>=-next (lift (entity_key platform "plan" store.scope (("plan_id", str p.plan_id) ∷ [])))
              _ n
              (ap (λ q. (q, n))
                (subst
                  (λ c. entity_key platform "plan" c (("plan_id", str p.plan_id) ∷ []) ≡ ok name)
                  own h2))
              (>>=-next (get_entity plan_category name) _ n h3
                (ap (λ q. (q, o)) (read_plan-own store p e own body checked sound))),
        )
