-- ===== src/Samples/Executions.antt =====
-- Runs of the engine and of the store on a client that keeps its records.
use delta_agent.Handoff.Receipt.{entry_of, ReuseReceiptEntry, check_entry}
use delta_agent.Store.Rebuilt.{IsCheckedCost, AreSound}
use delta_agent.Store.Plans.{kind_of}
use delta_agent.Store.Rebuild.{
  decode_cost_fields, decode_cost, decode_evidence, status_of, verdict_fields, decode_verdicts,
  decode_decision,
}
use delta_agent.Handoff.Decision.{check_decision, HandoffDecision, decision_payload}
use delta_agent.Samples.Runs.{judged}
use delta_agent.Store.Previewed.{IsSoundDecision}
use delta_agent.Store.Isolated.{Spoils}
use delta_agent.Store.Recover.{IsSoundProvenance}
use delta_agent.Handoff.Discovery.{CorruptWorkRecord}
use delta_agent.Store.Client.{Entity}
use delta_agent.Core.Schema.{check_job, check_provenance, from_principal, fresh_until}
use delta_agent.Engine.Perform.{perform, note_failure, keep_output}
use delta_agent.Engine.Cost.{CostSummary, cost_summary, rerun_costs}
use delta_agent.Store.Attempts.{
  read_events, save_plan, append_event, get_active_attempt, set_active_attempt, get_attempt,
  save_attempt, keep_events, head_payload,
}
use delta_agent.Store.Work.{
  list_work_records, list_work_results, list_work_results, list_work_records, get_work_result,
  save_work_result,
}
use delta_agent.Store.Listing.{load_records, load_record, corrupt_reason}
use delta_agent.Store.Decode.{
  attempt_from_payload, work_from_payload, provenance_from_payload, provenance_fields,
  artifact_from_payload, artifact_fields, job_from_payload, job_fields, exposure_of, settlement_of,
}
use delta_agent.Store.Payload.{
  plan_payload, event_payload, attempt_payload, work_payload, provenance_payload, stored_cost,
  external_job_payload, artifact_payload,
}
use delta_agent.Common.Result.{ok}
use delta_agent.Core.Value.{end, dict, Entries, Value, str}
use delta_agent.Engine.Ownership.{new_attempt, record_event, active_attempt, start_attempt}
use delta_agent.Store.Fields.{parse_timestamp, is_scope_payload, scope_fields, size, get}
use delta_agent.Engine.Run.{preview, run_steps, run_step, any_member, execute, ExecutionReport}
use delta_agent.Core.Attempt.{check_event, check_attempt, ExecutionAttempt}
use delta_agent.Core.Plan.{RevisionPlan, check_plan, RevisionRequest}
use delta_agent.Engine.World.{Surroundings, DeltaEngine, World}
use delta_agent.Store.Entities.{
  save_entity, entity_key, assert_scope, check_payload_scope, SibylStore, make_store,
}
use delta_agent.Core.Work.{
  WorkResult, check_work_result, check_artifact, returned, raised, Workflow,
}
use delta_agent.Common.{All, inl, Some, ◌+◌, map, ◌≡◌, refl, some, none, [], ◌∷◌, List}
use delta_agent.Samples.Toy.{free, toy, program, workflow, draft, review, scope, work}
use delta_agent.Samples.Clock.{clocked-reads, clocked, strokes, counted}
use delta_agent.Samples.Memory.{dicts, Memory, in_category}

-- What the runs below compute with.
unfoldable pub machine : Unit {0}
unfolding program strokes counted in_category get size scope_fields is_scope_payload parse_timestamp
    artifact_payload external_job_payload stored_cost provenance_payload work_payload
    attempt_payload event_payload plan_payload settlement_of exposure_of job_fields job_from_payload
    artifact_fields artifact_from_payload provenance_fields provenance_from_payload
    work_from_payload attempt_from_payload make_store check_payload_scope assert_scope entity_key
    save_entity corrupt_reason load_record load_records save_work_result get_work_result
    list_work_records list_work_results head_payload keep_events save_attempt get_attempt
    set_active_attempt get_active_attempt append_event read_events save_plan rerun_costs
    cost_summary active_attempt record_event start_attempt keep_output note_failure perform
    any_member run_step run_steps preview execute check_attempt check_event fresh_until
    from_principal check_provenance check_artifact check_job
machine = tt

abbrev pub keeper : SibylStore
keeper = record { scope = scope; max_inline_record_bytes = 100 }

keeper_made : make_store scope 100 ≡ ok keeper
unfolding machine
keeper_made = refl

abbrev pub engine : DeltaEngine
engine = record {
  store = keeper;
  principal = some (record { agent_id = "a"; session_id = "s1"; provider_id = "local" });
}

abbrev pub around : Surroundings
around = record { uuid_hex = strokes; clock = λ n. n + 3 }

-- The draft is written, and the review fails.
abbrev pub staffed : Workflow
staffed = record workflow {
  steps =
      record review { executor = some (λ n input. raised "RuntimeError") }
      ∷ record draft { executor = some (λ n input. returned (str "done")) }
      ∷ [];
}

abbrev pub order : RevisionRequest
order = record {
  scope = scope;
  workflow = staffed;
  inputs = ("brief", str "hi") ∷ [];
  requested_at = none;
}

abbrev pub empty : World dicts
empty = record {
  memory = record { entities = []; states = []; events = [] };
  calls = 0;
  uuids = 0;
  ticks = 0;
}

pub executed :
    (report : ExecutionReport) × (v : World dicts) × (execute clocked dicts around engine order none
        empty
      ≡ (ok report, v))
unfolding machine
executed = (_, _, refl)

executed_reasons :
    map (λ d. d.reason_code) executed.0.decisions
    ≡ "EXECUTED_SUCCESSFULLY" ∷ "EXECUTION_FAILED" ∷ []
unfolding machine executed
executed_reasons = refl

-- A second run reuses the draft, and tries the review again.
again :
    (report : ExecutionReport) × (v : World dicts) × (execute clocked dicts around engine order none
        executed.1
      ≡ (ok report, v))
unfolding machine executed
again = (_, _, refl)

again_reasons :
    map (λ d. d.reason_code) again.0.decisions ≡ "MATCHING_RESULT" ∷ "EXECUTION_FAILED" ∷ []
unfolding machine executed again
again_reasons = refl

pub started :
    (a : ExecutionAttempt) × (v : World dicts) × (start_attempt clocked dicts around engine order
        "draft" "sig" empty
      ≡ (ok (some a), v))
unfolding machine
started = (_, _, refl)

pub saved : (n : Memory) × (save_work_result clocked dicts keeper work empty.memory ≡ (ok tt, n))
unfolding machine
saved = (_, refl)

pub work_sound : (check_work_result clocked work ≡ ok work) × IsSoundProvenance work.provenance
unfolding machine
work_sound = (refl, (refl, tt))

abbrev pub attempt : ExecutionAttempt
attempt = new_attempt "attempt-1" scope "flow" "draft" "sig"

pub attempt_saved :
    (n : Memory) × (save_attempt clocked dicts keeper attempt empty.memory ≡ (ok tt, n))
    × (check_attempt attempt ≡ ok attempt)
unfolding machine
attempt_saved = (_, refl, refl)

-- The saved result, and the same record with a time that cannot be read on the toy platform.
abbrev pub listed : List Entity
listed = record { name = none; body = work_payload clocked work } ∷ []

pub listed_loaded :
    (loaded : List WorkResult × List CorruptWorkRecord) × (load_records clocked keeper
        (some "flow")
        listed
      ≡ ok loaded)
unfolding machine
listed_loaded = (_, refl)

pub listed-Spoils : Some (Spoils toy keeper (some "flow")) listed
unfolding machine
listed-Spoils = inl (refl, refl, (_, refl))

pub previewed :
    (p : RevisionPlan) × (v : World dicts) × (preview clocked dicts around engine order
        (some 3)
        (λ id r. 3)
        empty
      ≡ (ok p, v))
unfolding machine
previewed = (_, _, refl)

pub plan_saved :
    (n : Memory) × (save_plan clocked dicts keeper previewed.0 empty.memory ≡ (ok tt, n))
unfolding machine previewed
plan_saved = (_, refl)

pub plan_sound :
    (check_plan previewed.0 ≡ ok previewed.0)
    × All (IsSoundDecision clocked clocked-reads) previewed.0.decisions
unfolding machine previewed
plan_sound = (refl, ((refl, tt, refl), ((refl, tt, refl), tt)))

abbrev pub entries_at : Value → Entries
entries_at (dict es) = es
entries_at v = end

abbrev pub stored_judgement : Entries
stored_judgement = entries_at (decision_payload judged.0.decision)

pub rebuilt : (d : HandoffDecision) × (decode_decision toy stored_judgement ≡ ok d)
unfolding machine judged decode_decision decode_verdicts verdict_fields status_of decode_evidence
    decode_cost decode_cost_fields kind_of
rebuilt = (_, refl)

pub judgement_sound :
    (check_decision judged.0.decision ≡ ok judged.0.decision)
    × AreSound judged.0.decision.verdicts
    × IsCheckedCost toy judged.0.decision.estimated_cost
unfolding machine judged
judgement_sound = (refl, (refl, refl, refl, refl, refl), tt)

abbrev pub draft_entry : ReuseReceiptEntry
draft_entry = record (entry_of judged.0.decision) {
  estimated_cost = some free;
  outcome = "reused";
  attempt_id = some "attempt:1";
}

pub entry_sound :
    (check_entry draft_entry ≡ ok draft_entry)
    × AreSound draft_entry.verdicts
    × IsCheckedCost toy draft_entry.estimated_cost
unfolding machine judged
entry_sound = (refl, (refl, refl, refl, refl, refl), refl)

pub costed : (s : CostSummary) × (cost_summary clocked executed.0.decisions ≡ ok s)
unfolding machine executed
costed = (_, refl)
