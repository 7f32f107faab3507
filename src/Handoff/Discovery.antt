-- ===== src/Handoff/Discovery.antt =====
-- delta/handoff.py: how the gate finds candidates, `_load_candidates`, `_load_corrupt` and
-- `_latest_for_step`, over the store that it reads.
pub mod Newest
use delta_agent.Common.{
  String, Bool, true, false, ◌&&◌, ◌||◌, Option, none, some, List, [], ◌∷◌, ltb, ◌==◌, str_eq,
  if◌then◌else◌,
}
use delta_agent.Common.Result.{Result, ok, ◌>>=◌}
use delta_agent.Common.Text.{is_empty}
use delta_agent.Common.Sort.{text_lt}
use delta_agent.Common.Dict.{Dict, insert}
use delta_agent.Core.Value.{Value, DateTime}
use delta_agent.Core.Schema.{Scope, AgentPrincipal}
use delta_agent.Core.Work.{WorkResult, Workflow}
use delta_agent.Handoff.Policy.{PolicySet}

-- `CorruptWorkRecord` of delta/store.py
pub record CorruptWorkRecord : Type 0 where
  pub workflow_id : Option String
  pub step_id : Option String
  pub input_signature : Option String
  pub reason : String

-- The methods of a store that the gate reads: the second is optional there too.
pub record CandidateStore : Type 0 where
  pub list_work_results : String → Result (List WorkResult)
  pub list_work_records : Option (String → Result (List WorkResult × List CorruptWorkRecord))

pub record HandoffRequest : Type 0 where
  pub scope : Scope
  pub workflow : Workflow
  pub inputs : Dict Value
  pub recipient : AgentPrincipal
  pub policies : PolicySet
  pub requested_at : Option DateTime

abbrev pub after : DateTime → DateTime → WorkResult → WorkResult → Bool
after t u candidate existing =
    if t == u then text_lt existing.output_signature candidate.output_signature else ltb u t

abbrev pub after_moments : Option DateTime → Option DateTime → WorkResult → WorkResult → Bool
after_moments none u candidate existing = false
after_moments (some t) none candidate existing = true
after_moments (some t) (some u) candidate existing = after t u candidate existing

-- `_completed_after`
unfoldable pub completed_after : WorkResult → WorkResult → Bool
completed_after candidate existing =
    after_moments candidate.completed_at existing.completed_at candidate existing

-- The dict from (step id, input signature) to results.
abbrev pub Index : Type 0
Index = List (String × String × WorkResult)

unfoldable pub find : String → String → Index → Option WorkResult
find step signature [] = none
find step signature ((s, g, r) ∷ index) =
    if str_eq s step && str_eq g signature then some r else find step signature index

-- indexed[key] = result
unfoldable pub store_at : String → String → WorkResult → Index → Index
store_at step signature r [] = (step, signature, r) ∷ []
store_at step signature r ((s, g, q) ∷ index) =
    if str_eq s step && str_eq g signature
    then (step, signature, r) ∷ index
    else (s, g, q) ∷ store_at step signature r index

-- existing is None or _completed_after(result, existing)
abbrev pub supersedes : WorkResult → Option WorkResult → Bool
supersedes r none = true
supersedes r (some existing) = completed_after r existing

unfoldable pub index_results : List WorkResult → Index → Index
index_results [] index = index
index_results (r ∷ rs) index = index_results rs (
    if supersedes r (find r.step_id r.input_signature index)
    then store_at r.step_id r.input_signature r index
    else index)

unfoldable pub load_candidates : CandidateStore → HandoffRequest → Result Index
load_candidates store request = do
  results ← store.list_work_results request.workflow.id
  ok (index_results results [])

abbrev pub add_corrupt : Option String → String → Dict String → Dict String
add_corrupt none reason d = d
add_corrupt (some s) reason d = if is_empty s then d else insert s reason d

unfoldable pub corrupt_steps : List CorruptWorkRecord → Dict String → Dict String
corrupt_steps [] d = d
corrupt_steps (c ∷ cs) d = corrupt_steps cs (add_corrupt c.step_id c.reason d)

abbrev pub corrupt_from :
    Option (String → Result (List WorkResult × List CorruptWorkRecord))
    → String
    → Result (Dict String)
corrupt_from none workflow_id = ok []
corrupt_from (some lister) workflow_id = do
  loaded ← lister workflow_id
  ok (corrupt_steps loaded.1 [])

unfoldable pub load_corrupt : CandidateStore → HandoffRequest → Result (Dict String)
load_corrupt store request = corrupt_from store.list_work_records request.workflow.id

-- The order of the keys, pairs of texts.
abbrev pub key_lt : String → String → String → String → Bool
key_lt s g t h = text_lt s t || str_eq s t && text_lt g h

unfoldable pub insert_entry : String → String → WorkResult → Index → Index
insert_entry s g r [] = (s, g, r) ∷ []
insert_entry s g r ((t, h, q) ∷ index) =
    if key_lt t h s g then (t, h, q) ∷ insert_entry s g r index else (s, g, r) ∷ ((t, h, q) ∷ index)

-- sorted(persisted.items()): the keys differ, so results are never compared
unfoldable pub sort_index : Index → Index
sort_index [] = []
sort_index ((s, g, r) ∷ index) = insert_entry s g r (sort_index index)

unfoldable pub latest_from : Option WorkResult → String → Index → Option WorkResult
latest_from best step [] = best
latest_from best step ((s, g, r) ∷ index) =
    latest_from (if str_eq s step && supersedes r best then some r else best) step index

unfoldable pub latest_for_step : Index → String → Option WorkResult
latest_for_step index step = latest_from none step (sort_index index)
