-- ===== src/Handoff/Discovery/Newest.antt =====
-- Which result `_load_candidates` of delta/handoff.py keeps for each step and input.
use delta_agent.Common.{
  Some, String, Bool, true, false, ◌&&◌, ◌≤◌, Option, none, some, List, [], ◌∷◌, ◌≡◌, refl, sym,
  ◌∙◌, subst, arith, All, Bool-cases, inl, inr, ◌⊎◌, eq_iff, str_eq, if◌then◌else◌,
}
use delta_agent.Common.Result.{ok, ok-injective}
use delta_agent.Core.Value.{DateTime}
use delta_agent.Core.Work.{WorkResult}
use delta_agent.Handoff.Discovery.{
  CandidateStore, HandoffRequest, Index, completed_after, after_moments, supersedes, find, store_at,
  index_results, load_candidates,
}

-- A missing time is earlier than any other.
abbrev pub NoLater : Option DateTime → Option DateTime → Type 0
NoLater none u = Unit
NoLater (some t) none = ⊥
NoLater (some t) (some u) = t ≤ u

NoLater-refl : (t : Option DateTime) → NoLater t t
NoLater-refl none = tt
NoLater-refl (some t) = omega arith

NoLater-trans : (t u v : Option DateTime) → NoLater t u → NoLater u v → NoLater t v
NoLater-trans none u v h k = tt
NoLater-trans (some t) none v h k = elim h [ ]
NoLater-trans (some t) (some u) none h k = elim k [ ]
NoLater-trans (some t) (some u) (some v) h k = omega arith

supersedes-NoLater :
    (r q : WorkResult) → completed_after r q ≡ true → NoLater q.completed_at r.completed_at
unfolding completed_after
supersedes-NoLater r q h = go r.completed_at q.completed_at h
  where
    go : (t u : Option DateTime) → after_moments t u r q ≡ true → NoLater u t
    go none u h = cc
    go (some t) none h = tt
    go (some t) (some u) h = ground arith

kept-NoLater :
    (r q : WorkResult) → completed_after r q ≡ false → NoLater r.completed_at q.completed_at
unfolding completed_after
kept-NoLater r q h = go r.completed_at q.completed_at h
  where
    go : (t u : Option DateTime) → after_moments t u r q ≡ false → NoLater t u
    go none u h = tt
    go (some t) none h = cc
    go (some t) (some u) h = ground arith

find-store_at :
    (step signature s g : String) (r : WorkResult) (index : Index)
    → find s g (store_at step signature r index)
      ≡ (if str_eq step s && str_eq signature g then some r else find s g index)
unfolding find store_at
find-store_at step signature s g r [] = refl
find-store_at step signature s g r ((t, h, q) ∷ index) = ground (
  arith,
  eq_iff t step,
  eq_iff h signature,
  eq_iff t s,
  eq_iff h g,
  eq_iff step s,
  eq_iff signature g,
  find-store_at step signature s g r index,
)

-- One turn of the loop.
abbrev turn : WorkResult → Index → Index
turn r index =
    if supersedes r (find r.step_id r.input_signature index)
    then store_at r.step_id r.input_signature r index
    else index

module _ (step signature : String) where
  abbrev pub IsOf : WorkResult → Type 0
  IsOf q = (q.step_id ≡ step) × (q.input_signature ≡ signature)

  abbrev is_of : WorkResult → Bool
  is_of r = str_eq r.step_id step && str_eq r.input_signature signature

  -- What a result that was found, or none, says of the results that were listed.
  abbrev pub IsNewest : List WorkResult → Option WorkResult → Type 0
  IsNewest listed none = All (λ q. IsOf q → ⊥) listed
  IsNewest listed (some r) =
      IsOf r
      × Some (λ q. q ≡ r) listed
      × All (λ q. IsOf q → NoLater q.completed_at r.completed_at) listed

  is_of-IsOf : (r : WorkResult) → is_of r ≡ true → IsOf r
  is_of-IsOf r h = (
    ground (arith, eq_iff r.step_id step, eq_iff r.input_signature signature),
    ground (arith, eq_iff r.step_id step, eq_iff r.input_signature signature),
  )

  other_is_of : (r : WorkResult) → is_of r ≡ false → IsOf r → ⊥
  other_is_of r h k = ground (arith, k, eq_iff r.step_id step, eq_iff r.input_signature signature)

  find_other :
      (r : WorkResult) (index : Index)
      → is_of r ≡ false
      → find step signature (turn r index) ≡ find step signature index
  find_other r index h = elim (Bool-cases (supersedes r (find r.step_id r.input_signature index))) [
    | inl e ↦ rw e (find-store_at r.step_id r.input_signature step signature r index ∙ rw h refl)
    | inr e ↦ rw e refl
  ]

  find_same :
      (r : WorkResult) (index : Index)
      → is_of r ≡ true
      → find step signature (turn r index)
        ≡ (if supersedes r (find step signature index) then some r else find step signature index)
  find_same r index h =
      let k = is_of-IsOf r h in
      let same : find r.step_id r.input_signature index ≡ find step signature index =
        rw (k.0, k.1) refl in
      elim (Bool-cases (supersedes r (find r.step_id r.input_signature index))) [
        | inl e ↦
            rw (e, ← same, e)
              (find-store_at r.step_id r.input_signature step signature r index ∙ rw h refl)
        | inr e ↦ rw (e, ← same, e) refl
      ]

  IsNewest-other :
      (r : WorkResult) (listed : List WorkResult) (o : Option WorkResult)
      → is_of r ≡ false
      → IsNewest listed o
      → IsNewest (r ∷ listed) o
  IsNewest-other r listed none h n = (other_is_of r h, n)
  IsNewest-other r listed (some q) h n = (n.0, inr n.1, (λ k. absurd (other_is_of r h k), n.2))

  All-later :
      (r q : WorkResult) (listed : List WorkResult)
      → NoLater q.completed_at r.completed_at
      → All (λ w. IsOf w → NoLater w.completed_at q.completed_at) listed
      → All (λ w. IsOf w → NoLater w.completed_at r.completed_at) listed
  All-later r q [] h n = tt
  All-later r q (w ∷ listed) h n = (
    λ k. NoLater-trans w.completed_at q.completed_at r.completed_at (n.0 k) h,
    All-later r q listed h n.1,
  )

  All-absent :
      (r : WorkResult) (listed : List WorkResult)
      → All (λ w. IsOf w → ⊥) listed
      → All (λ w. IsOf w → NoLater w.completed_at r.completed_at) listed
  All-absent r [] n = tt
  All-absent r (w ∷ listed) n = (λ k. absurd (n.0 k), All-absent r listed n.1)

  IsNewest-same :
      (r : WorkResult) (listed : List WorkResult) (o : Option WorkResult)
      → is_of r ≡ true
      → IsNewest listed o
      → IsNewest (r ∷ listed) (if supersedes r o then some r else o)
  IsNewest-same r listed none h n =
      (is_of-IsOf r h, inl refl, (λ k. NoLater-refl r.completed_at, All-absent r listed n))
  IsNewest-same r listed (some q) h n = elim (Bool-cases (completed_after r q)) [
    | inl e ↦
        subst (λ b. IsNewest (r ∷ listed) (if b then some r else some q)) (sym e)
          (
            is_of-IsOf r h,
            inl refl,
            (λ k. NoLater-refl r.completed_at, All-later r q listed (supersedes-NoLater r q e) n.2),
          )
    | inr e ↦
        subst (λ b. IsNewest (r ∷ listed) (if b then some r else some q)) (sym e)
          (n.0, inr n.1, (λ k. kept-NoLater r q e, n.2))
  ]

  IsNewest-turn :
      (r : WorkResult) (listed : List WorkResult) (index : Index)
      → IsNewest listed (find step signature index)
      → IsNewest (r ∷ listed) (find step signature (turn r index))
  IsNewest-turn r listed index n = elim (Bool-cases (is_of r)) [
    | inl h ↦
        subst (IsNewest (r ∷ listed)) (sym (find_same r index h))
          (IsNewest-same r listed (find step signature index) h n)
    | inr h ↦
        subst (IsNewest (r ∷ listed)) (sym (find_other r index h))
          (IsNewest-other r listed (find step signature index) h n)
  ]

  -- The listed results, with those that the loop has met in front.
  abbrev grow : List WorkResult → List WorkResult → List WorkResult
  grow [] met = met
  grow (r ∷ rs) met = grow rs (r ∷ met)

  IsNewest-loop :
      (rs met : List WorkResult) (index : Index)
      → IsNewest met (find step signature index)
      → IsNewest (grow rs met) (find step signature (index_results rs index))
  unfolding index_results
  IsNewest-loop [] met index n = n
  IsNewest-loop (r ∷ rs) met index n =
      IsNewest-loop rs (r ∷ met) (turn r index) (IsNewest-turn r met index n)

  All-grow :
      (P : WorkResult → Type 0) (rs met : List WorkResult)
      → All P (grow rs met)
      → All P rs × All P met
  All-grow P [] met h = (tt, h)
  All-grow P (r ∷ rs) met h = let k = All-grow P rs (r ∷ met) h in ((k.1.0, k.0), k.1.1)

  Some-grow :
      (P : WorkResult → Type 0) (rs met : List WorkResult)
      → Some P (grow rs met)
      → Some P rs ⊎ Some P met
  Some-grow P [] met h = inr h
  Some-grow P (r ∷ rs) met h = elim (Some-grow P rs (r ∷ met) h) [
    | inl k ↦ inl (inr k)
    | inr k ↦ elim k [ inl e ↦ inl (inl e) | inr e ↦ inr e ]
  ]

  IsNewest-grow :
      (rs : List WorkResult) (o : Option WorkResult) → IsNewest (grow rs []) o → IsNewest rs o
  IsNewest-grow rs none n = (All-grow _ rs [] n).0
  IsNewest-grow rs (some r) n = (
    n.0,
    elim (Some-grow (λ q. q ≡ r) rs [] n.1) [ inl k ↦ k | inr k ↦ absurd k ],
    (All-grow _ rs [] n.2).0,
  )

-- The candidate that the gate finds for a step and an input signature is one of the results that the
-- store lists for the workflow, of that step and signature, and none of these was completed later; a
-- result without a time counts as earliest. Nothing is found only where the store lists no such
-- result.
pub load_candidates-IsNewest :
    (store : CandidateStore) (request : HandoffRequest) (listed : List WorkResult) (index : Index)
    (step signature : String)
    → store.list_work_results request.workflow.id ≡ ok listed
    → load_candidates store request ≡ ok index
    → IsNewest step signature listed (find step signature index)
unfolding load_candidates find
load_candidates-IsNewest store request listed index step signature h k =
    let e : index_results listed [] ≡ index = ok-injective (rw h at k) in
    subst (λ i. IsNewest step signature listed (find step signature i)) e
      (IsNewest-grow step signature listed _ (IsNewest-loop step signature listed [] [] tt))
