-- ===== src/Handoff/Gate/Sharing.antt =====
-- `_build_approved_context` of delta/handoff.py, for one candidate: the item or the notice that it
-- becomes, against what is owed for its step.
use delta_agent.Core.Schema.{WorkProvenance}
use delta_agent.Common.{
  String, true, false, Option, some, List, ◌∷◌, ◌≡◌, ◌≢◌, sym, ap, ◌∙◌, subst, arith, Bool-cases,
  inl, inr, eq_iff,
}
use delta_agent.Common.Dict.{Dict}
use delta_agent.Common.Result.{ok, ◌>>=◌, >>=-eq-ok, ok-injective}
use delta_agent.Core.Value.{Value}
use delta_agent.Core.Platform.{Platform, normalize}
use delta_agent.Core.Work.{Step, WorkResult}
use delta_agent.Handoff.Decision.{
  reuse, is_reuse, DecisionKind, approved, HandoffDecision, HandoffCandidate,
}
use delta_agent.Handoff.Context.{
  ApprovedWorkItem, check_item, BlockedWorkNotice, check_notice, ApprovedContext, check_context,
}
use delta_agent.Handoff.Discovery.{find}
use delta_agent.Handoff.Discovery.Newest.{IsNewest}
use delta_agent.Handoff.Gate.{
  Loop, Share, item, notice, item_for, share_of, items_in, notices_in, inherit, notice_of,
  step_candidate,
}
use delta_agent.Handoff.Gate.Trace.{IsTraced, Names, step_candidate-Traced, step_candidate-reuse}
use delta_agent.Handoff.Gate.Owed.{IsInherited, IsWithheld, IsDeclared, Shares, gives, withholds}

is_reuse-reuse : (k : DecisionKind) → is_reuse k ≡ true → k ≡ reuse
is_reuse-reuse k h = ground arith

reuse-is_reuse : (k : DecisionKind) → is_reuse k ≡ false → k ≢ reuse
reuse-is_reuse k h e = cc (h, ap is_reuse e)

-- What of an item its check keeps: all but the output, which it puts in JSON form.
pub record IsChecked (platform : Platform) (i j : ApprovedWorkItem) : Type 0 where
  pub output : normalize platform i.output ≡ ok j.output
  pub rest : j ≡ record i { output = j.output }
  pub named : i.decision.step_id ≡ i.step_id

check_item-IsChecked :
    (platform : Platform) (i j : ApprovedWorkItem)
    → check_item platform i ≡ ok j
    → IsChecked platform i j
unfolding check_item
check_item-IsChecked platform i j h = record {
  output = ground arith;
  rest = ground arith;
  named = ground (arith, eq_iff i.decision.step_id i.step_id);
}

check_notice-eq : (n m : BlockedWorkNotice) → check_notice n ≡ ok m → m ≡ n
unfolding check_notice
check_notice-eq n m h = ground arith

pub check_context-eq : (x y : ApprovedContext) → check_context x ≡ ok y → y ≡ x
unfolding check_context
check_context-eq x y h = ground arith

module _ (platform : Platform) (c : HandoffCandidate) where
  share_of-true :
      approved c.decision ≡ true
      → share_of platform c ≡ (
          item_for platform c.decision c.result >>= λ given.
          check_item platform given >>= λ i. ok (item i))
  unfolding share_of
  share_of-true e = rw e

  share_of-false :
      approved c.decision ≡ false
      → share_of platform c ≡ (check_notice (notice_of platform c.decision) >>= λ n. ok (notice n))
  unfolding share_of
  share_of-false e = rw e

-- The item that a reused decision makes of work with provenance.
abbrev item_made : HandoffDecision → WorkResult → WorkProvenance → ApprovedWorkItem
item_made d w p = record {
  step_id = d.step_id;
  work_category = p.work_category;
  output = w.output;
  output_signature = w.output_signature;
  source_agent_id = p.source_agent_id;
  source_session_id = p.source_session_id;
  decision = d;
  artifact = w.artifact;
}

item_for-eq :
    (platform : Platform) (d : HandoffDecision) (o : Option WorkResult) (w : WorkResult)
    (p : WorkProvenance) (i : ApprovedWorkItem)
    → o ≡ some w
    → w.provenance ≡ some p
    → item_for platform d o ≡ ok i
    → i ≡ item_made d w p
item_for-eq platform d o w p i carried recorded h = sym (ok-injective (rw (carried, recorded) at h))

-- The candidate for one step, and what it becomes.
module _ (platform : Platform) (loop : Loop) (listed : List WorkResult)
    (newest : (step signature : String)
      → IsNewest step signature listed (find step signature loop.persisted)) where
  module _ (inherited : Dict Value) (step : Step) (c : HandoffCandidate)
      (evaluated : step_candidate platform loop step inherited ≡ ok c) where
    abbrev names : Names platform loop inherited step c
    names = (step_candidate-Traced platform loop inherited step c evaluated).0

    item-IsInherited :
        (given i : ApprovedWorkItem) (t : IsTraced platform loop inherited step c)
        → c.decision.decision ≡ reuse
        → item_for platform c.decision c.result ≡ ok given
        → check_item platform given ≡ ok i
        → IsInherited platform loop listed inherited step t.work i
    item-IsInherited given i t reused hg hi =
        let o = t.given.offered in
        let p = t.given.allowed in
        let k = check_item-IsChecked platform given i hi in
        let g =
          item_for-eq platform c.decision c.result t.work p.provenance given t.carried p.recorded
            hg in
        let made : i ≡ record (item_made c.decision t.work p.provenance) { output = i.output } =
          k.rest ∙ ap (λ (x : ApprovedWorkItem). record x { output = i.output }) g in
        let decided : i.decision ≡ c.decision = ap (λ (x : ApprovedWorkItem). x.decision) made in
        record {
          given = t.given;
          newest = subst (IsNewest step.id o.signature listed) o.found (newest step.id o.signature);
          named = ap (λ (x : ApprovedWorkItem). x.step_id) made ∙ names;
          decided = ap (λ (d : HandoffDecision). d.step_id) decided ∙ names;
          reused = ap (λ (d : HandoffDecision). d.decision) decided ∙ reused;
          output =
              subst (λ (x : ApprovedWorkItem). normalize platform x.output ≡ ok i.output) g
                k.output;
          signed = ap (λ (x : ApprovedWorkItem). x.output_signature) made;
          category = ap (λ (x : ApprovedWorkItem). x.work_category) made;
          agent = ap (λ (x : ApprovedWorkItem). x.source_agent_id) made;
          session = ap (λ (x : ApprovedWorkItem). x.source_session_id) made;
          artifact = ap (λ (x : ApprovedWorkItem). x.artifact) made;
        }

    notice-IsWithheld :
        (n : BlockedWorkNotice)
        → c.decision.decision ≢ reuse
        → check_notice (notice_of platform c.decision) ≡ ok n
        → IsWithheld platform loop listed inherited step n
    notice-IsWithheld n other hn =
        let made = check_notice-eq _ n hn in
        record {
          named = ap (λ (x : BlockedWorkNotice). x.step_id) made ∙ names;
          other = λ e. other (sym (ap (λ (x : BlockedWorkNotice). x.decision) made) ∙ e);
          refused = λ work given.
              other (step_candidate-reuse platform loop inherited step c work evaluated given);
        }

    pub share-Shares :
        (s : Share) (shares : List Share) (ids : List String)
        → IsDeclared platform loop listed step
        → share_of platform c ≡ ok s
        → Shares platform loop listed
            (inherit step.id c inherited)
            ids
            (items_in platform shares)
            (notices_in platform shares)
        → Shares platform loop listed inherited
            (step.id ∷ ids)
            (items_in platform (s ∷ shares))
            (notices_in platform (s ∷ shares))
    share-Shares s shares ids declared h rest = elim (Bool-cases (approved c.decision)) [
      | inl reused ↦
          let (given, hg, h1) =
            >>=-eq-ok (item_for platform c.decision c.result) _
              (sym (share_of-true platform c reused) ∙ h) in
          let (i, hi, h2) = >>=-eq-ok (check_item platform given) _ h1 in
          let r = is_reuse-reuse c.decision.decision reused in
          let t = (step_candidate-Traced platform loop inherited step c evaluated).1 r in
          subst
            (λ (w : Share).
              Shares platform loop listed inherited (step.id ∷ ids) (items_in platform (w ∷ shares))
                (notices_in platform (w ∷ shares)))
            (ok-injective h2)
            (gives step t.work declared (item-IsInherited given i t r hg hi)
              (rw (reused, t.carried) at rest))
      | inr other ↦
          let (n, hn, h1) =
            >>=-eq-ok (check_notice (notice_of platform c.decision)) _
              (sym (share_of-false platform c other) ∙ h) in
          subst
            (λ (w : Share).
              Shares platform loop listed inherited (step.id ∷ ids) (items_in platform (w ∷ shares))
                (notices_in platform (w ∷ shares)))
            (ok-injective h1)
            (withholds step declared
              (notice-IsWithheld n (reuse-is_reuse c.decision.decision other) hn)
              (rw other at rest))
    ]
