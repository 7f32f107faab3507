-- ===== src/Handoff/Receipt/Tally.antt =====
-- The counts of a receipt of delta/handoff.py, against the decisions that they count.
use delta_agent.Common.{ℕ, ◌+◌, Bool, true, false, List, [], ◌∷◌, ◌≡◌, arith, length, if◌then◌else◌}
use delta_agent.Handoff.Decision.{DecisionKind, reuse, rerun, pending_dependency, blocked}
use delta_agent.Handoff.Receipt.{Counts, no_counts, count_one, count_from, decision_counts}

abbrev pub kind_eq : DecisionKind → DecisionKind → Bool
kind_eq reuse reuse = true
kind_eq rerun rerun = true
kind_eq pending_dependency pending_dependency = true
kind_eq blocked blocked = true
kind_eq _ _ = false

-- How often a kind stands in a list.
unfoldable pub occurrences : DecisionKind → List DecisionKind → ℕ
occurrences k [] = 0
occurrences k (d ∷ ds) = let rest = occurrences k ds in if kind_eq k d then rest + 1 else rest

-- The counts are those of the list, and they count all of it.
pub record Tallies (c : Counts) (ds : List DecisionKind) : Type 0 where
  pub reused : c.reuse ≡ occurrences reuse ds
  pub rerun_count : c.rerun ≡ occurrences rerun ds
  pub pending : c.pending_dependency ≡ occurrences pending_dependency ds
  pub blocked_count : c.blocked ≡ occurrences blocked ds
  pub total : c.reuse + c.rerun + c.pending_dependency + c.blocked ≡ length ds

count_from-occurrences :
    (c : Counts) (ds : List DecisionKind)
    → ((count_from c ds).reuse ≡ c.reuse + occurrences reuse ds)
      × ((count_from c ds).rerun ≡ c.rerun + occurrences rerun ds)
      × ((count_from c ds).pending_dependency
          ≡ c.pending_dependency + occurrences pending_dependency ds)
      × ((count_from c ds).blocked ≡ c.blocked + occurrences blocked ds)
unfolding count_from occurrences
count_from-occurrences c [] = (omega arith, omega arith, omega arith, omega arith)
count_from-occurrences c (d ∷ ds) =
    let ih = count_from-occurrences (count_one c d) ds in
    (ground (arith, ih), ground (arith, ih), ground (arith, ih), ground (arith, ih))

occurrences-length :
    (ds : List DecisionKind)
    → occurrences reuse ds
        + occurrences rerun ds
        + occurrences pending_dependency ds
        + occurrences blocked ds
      ≡ length ds
unfolding occurrences
occurrences-length [] = omega arith
occurrences-length (d ∷ ds) = ground (arith, occurrences-length ds)

pub decision_counts-Tallies : (ds : List DecisionKind) → Tallies (decision_counts ds) ds
unfolding decision_counts
decision_counts-Tallies ds =
    let t = count_from-occurrences no_counts ds in
    let sum = occurrences-length ds in
    record {
      reused = omega (arith, t);
      rerun_count = omega (arith, t);
      pending = omega (arith, t);
      blocked_count = omega (arith, t);
      total = omega (arith, t, sum);
    }
