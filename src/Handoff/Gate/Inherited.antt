-- ===== src/Handoff/Gate/Inherited.antt =====
-- The approved context of an evaluation of delta/handoff.py, against the one that is owed.
use delta_agent.Handoff.Gate.Sharing.{share-Shares, check_context-eq}
use delta_agent.Common.{String, Option, some, List, [], ◌∷◌, ◌≡◌, sym, subst}
use delta_agent.Common.Dict.{Dict, lookup}
use delta_agent.Common.Result.{ok, >>=-eq-ok, ok-injective, map_result}
use delta_agent.Core.Value.{Value, DateTime}
use delta_agent.Core.Platform.{Platform}
use delta_agent.Core.Work.{Step, WorkResult}
use delta_agent.Core.Workflow.{at_key, validate_workflow, topological_order}
use delta_agent.Core.Inputs.{validate_inputs}
use delta_agent.Core.Workflow.Indexed.{at_key-some, index_steps-found}
use delta_agent.Handoff.Decision.{HandoffCandidate}
use delta_agent.Handoff.Context.{ApprovedContext}
use delta_agent.Handoff.Discovery.{
  CandidateStore, HandoffRequest, Index, find, load_candidates, load_corrupt,
}
use delta_agent.Handoff.Discovery.Newest.{IsNewest, load_candidates-IsNewest}
use delta_agent.Handoff.Gate.{
  HandoffEvaluation, moment, Loop, Share, share_of, items_in, notices_in, inherit,
  build_approved_context, build_receipt, handoff_digest, conclude, steps_by_id, step_candidate,
  evaluate_steps, evaluate,
}
use delta_agent.Handoff.Receipt.{check_record}
use delta_agent.Handoff.Gate.Owed.{IsDeclared, Shares, done, IsOwed}

module _ (platform : Platform) (loop : Loop) (listed : List WorkResult)
    (newest : (step signature : String)
      → IsNewest step signature listed (find step signature loop.persisted)) where
  -- The steps by their ids are steps of the workflow.
  abbrev AreDeclared : Dict Step → Type 0
  AreDeclared steps =
      (id : String) (step : Step)
      → lookup id steps ≡ some step
      → (step.id ≡ id) × IsDeclared platform loop listed step

  steps-Shares :
      (steps : Dict Step) (ids : List String) (inherited : Dict Value) (cs : List HandoffCandidate)
      (shares : List Share)
      → AreDeclared steps
      → evaluate_steps platform loop steps ids inherited ≡ ok cs
      → map_result (share_of platform) cs ≡ ok shares
      → Shares platform loop listed inherited ids
          (items_in platform shares)
          (notices_in platform shares)
  unfolding evaluate_steps map_result
  steps-Shares steps [] inherited cs shares known h k =
      let e : map_result (share_of platform) [] ≡ ok shares = rw (← ok-injective h) at k in
      subst
        (λ ss.
          Shares platform loop listed inherited [] (items_in platform ss) (notices_in platform ss))
        (ok-injective e) done
  steps-Shares steps (id ∷ ids) inherited cs shares known h k =
      let (step, hs, h1) = >>=-eq-ok (at_key (lookup id steps) id) _ h in
      let (c, hc, h2) = >>=-eq-ok (step_candidate platform loop step inherited) _ h1 in
      let (rest, hr, h3) =
        >>=-eq-ok (evaluate_steps platform loop steps ids (inherit step.id c inherited)) _ h2 in
      let e : map_result (share_of platform) (c ∷ rest) ≡ ok shares = rw (← ok-injective h3) at k in
      let (s, h4, k1) = >>=-eq-ok (share_of platform c) _ e in
      let (ss, h5, k2) = >>=-eq-ok (map_result (share_of platform) rest) _ k1 in
      let d = known id step (at_key-some _ id step hs) in
      subst
        (λ all.
          Shares platform loop listed inherited (id ∷ ids) (items_in platform all)
            (notices_in platform all))
        (ok-injective k2)
        (subst
          (λ name.
            Shares platform loop listed inherited (name ∷ ids) (items_in platform (s ∷ ss))
              (notices_in platform (s ∷ ss)))
          d.0
          (share-Shares platform loop listed newest inherited step c hc s ss ids d.1 h4
            (steps-Shares steps ids (inherit step.id c inherited) rest ss known hr h5)))

  build-Shares :
      (steps : Dict Step) (ids : List String) (cs : List HandoffCandidate) (handoff_id : String)
      (x : ApprovedContext)
      → AreDeclared steps
      → evaluate_steps platform loop steps ids [] ≡ ok cs
      → build_approved_context platform handoff_id loop.request cs ≡ ok x
      → Shares platform loop listed [] ids x.items x.excluded
  unfolding build_approved_context
  build-Shares steps ids cs handoff_id x known h k =
      let (shares, hs, k1) = >>=-eq-ok (map_result (share_of platform) cs) _ k in
      subst (λ (y : ApprovedContext). Shares platform loop listed [] ids y.items y.excluded)
        (sym (check_context-eq _ x k1)) (steps-Shares steps ids [] cs shares known h hs)

conclude-context :
    (platform : Platform) (request : HandoffRequest) (now : DateTime) (cs : List HandoffCandidate)
    (e : HandoffEvaluation)
    → conclude platform request now cs ≡ ok e
    → build_approved_context platform e.handoff_id request cs ≡ ok e.approved_context
unfolding conclude
conclude-context platform request now cs e h =
    let (handoff_id, h1, k1) = >>=-eq-ok (handoff_digest platform request cs) _ h in
    let (r, h2, k2) = >>=-eq-ok (check_record _) _ k1 in
    let (x, h3, k3) = >>=-eq-ok (build_approved_context platform handoff_id request cs) _ k2 in
    let (y, h4, k4) = >>=-eq-ok (build_receipt platform handoff_id request cs now) _ k3 in
    subst
      (λ (w : HandoffEvaluation).
        build_approved_context platform w.handoff_id request cs ≡ ok w.approved_context)
      (ok-injective k4) h3

load_candidates-lists :
    (store : CandidateStore) (request : HandoffRequest) (index : Index)
    → load_candidates store request ≡ ok index
    → (listed : List WorkResult) × (store.list_work_results request.workflow.id ≡ ok listed)
unfolding load_candidates
load_candidates-lists store request index h =
    let (listed, e, rest) = >>=-eq-ok (store.list_work_results request.workflow.id) _ h in
    (listed, e)

-- The approved context that `evaluate` returns is the one that is owed: along the topological order it
-- has an item for each step for which work was found that may be inherited, and a notice for each
-- other step. An item stands for a step of the workflow and carries the newest listed work of that
-- step and of the signature of its effective input, made from the inputs of the request and the
-- outputs that earlier items gave; its output (normalized), signature, category, source and artifact
-- are those of the work.
pub evaluate-IsOwed :
    (platform : Platform) (store : CandidateStore) (request : HandoffRequest)
    (now : Option DateTime) (clock : DateTime) (e : HandoffEvaluation)
    → evaluate platform store request now clock ≡ ok e
    → IsOwed platform store request (moment now request.requested_at clock) e.approved_context
unfolding evaluate
evaluate-IsOwed platform store request now clock e h =
    let (u, h1, k1) = >>=-eq-ok (validate_workflow request.workflow) _ h in
    let (inputs, h2, k2) =
      >>=-eq-ok (validate_inputs platform request.workflow request.inputs) _ k1 in
    let (persisted, h3, k3) = >>=-eq-ok (load_candidates store request) _ k2 in
    let (corrupt, h4, k4) = >>=-eq-ok (load_corrupt store request) _ k3 in
    let (order, h5, k5) = >>=-eq-ok (topological_order request.workflow) _ k4 in
    let t = moment now request.requested_at clock in
    let loop : Loop = record {
      request = request;
      inputs = inputs;
      persisted = persisted;
      corrupt = corrupt;
      now = t;
    } in
    let steps = steps_by_id platform request in
    let (cs, h6, k6) = >>=-eq-ok (evaluate_steps platform loop steps order []) _ k5 in
    let (listed, lists) = load_candidates-lists store request persisted h3 in
    record {
      listed = listed;
      lists = lists;
      persisted = persisted;
      loaded = h3;
      corrupt = corrupt;
      marred = h4;
      inputs = inputs;
      taken = h2;
      order = order;
      ordered = h5;
      shares =
          build-Shares platform loop listed
            (λ step signature.
              load_candidates-IsNewest store request listed persisted step signature lists h3)
            steps order cs e.handoff_id e.approved_context
            (λ id step found. index_steps-found request.workflow.steps id step found) h6
            (conclude-context platform request t cs e k6);
    }
