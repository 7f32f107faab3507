-- ===== src/Samples/Proofs.antt =====
-- The theorems on the store and the engine at the runs of the sample workflow.
use delta_agent.Artifacts.Verified.{resolve_local-IsContent, IsContent}
use delta_agent.Artifacts.{accepted, Files}
use delta_agent.Samples.Folder.{artifact, written, folder, shelf, artifact_resolved}
use delta_agent.Core.Schema.{CostEstimate}
use delta_agent.Engine.Cost.{rerun_costs}
use delta_agent.Engine.Spent.{cost_summary-known_iff, HasAmount}
use delta_agent.Store.Tampered.{decode_decision-consistent}
use delta_agent.Handoff.Verdict.{approves_inheritance}
use delta_agent.Store.Rebuild.{decode_decision}
use delta_agent.Store.Rebuilt.{decode_decision-decision_payload, unquoted, read_object}
use delta_agent.Store.Reread.{decode_receipt_entry}
use delta_agent.Store.Reissued.{decode_receipt_entry-entry_payload}
use delta_agent.Store.Bodiless.{reject_untrusted_bodies-passes}
use delta_agent.Handoff.Receipt.{entry_payload}
use delta_agent.Store.Previewed.{get_plan-save_plan}
use delta_agent.Store.Clean.{reject_untrusted_bodies-IsClean_iff, IsClean}
use delta_agent.Handoff.Decision.{approved, decision_payload}
use delta_agent.Store.Bodies.{reject_untrusted_bodies}
use delta_agent.Core.Value
use delta_agent.Samples.Runs.{judged, evaluated, receipted}
use delta_agent.Engine.Calls.{perform-calls}
use delta_agent.Engine.Run.{no_tracks}
use delta_agent.Core.Value.{str}
use delta_agent.Core.Work.{returned}
use delta_agent.Engine.Exclusive.{start_attempt-exclusive}
use delta_agent.Store.Owned.{get_attempt-save_attempt}
use delta_agent.Store.Kept.{get_work_result-save_work_result}
use delta_agent.Common.Result.{out_of_fuel, err, ok}
use delta_agent.Samples.Memory.{dicts-IsStorage, dicts}
use delta_agent.Engine.Counted.{execute-calls}
use delta_agent.Store.Work.{get_work_result}
use delta_agent.Samples.Toy.{draft_input, draft, work, toy}
use delta_agent.Store.Attempts.{get_plan, get_attempt}
use delta_agent.Samples.Clock.{clocked-reads, clocked}
use delta_agent.Store.Isolated.{load_records-raises, load_records-Holds, Holds}
use delta_agent.Engine.Perform.{perform}
use delta_agent.Store.Listing.{load_records}
use delta_agent.Engine.Ownership.{start_attempt, active_attempt}
use delta_agent.Engine.Report.{execute-IsReport, IsReport}
use delta_agent.Common.{
  refl, String, true, map, ◌↔◌, [], ◌≡◌, some, none, ◌+◌, ◌≢◌, All, Some, length,
}
use delta_agent.Samples.Memory.{Memory}
use delta_agent.Samples.Executions.{
  draft_entry, entry_sound, costed, judgement_sound, stored_judgement, rebuilt, plan_sound,
  plan_saved, previewed, attempt, listed, work_sound, listed-Spoils, order, listed_loaded, engine,
  saved, around, attempt_saved, keeper, empty, executed, started,
}

start_attempt-exclusive_example :
    ((active_attempt clocked dicts around engine "draft" "sig" started.1).0 ≡ ok (some started.0))
    × ((start_attempt clocked dicts around engine order "draft" "sig" started.1).0 ≡ ok none)
start_attempt-exclusive_example =
    start_attempt-exclusive clocked dicts dicts-IsStorage around engine order order "draft" "sig"
      started.0 empty started.1 started.2

execute-IsReport_example : IsReport clocked dicts around engine order none executed.0
execute-IsReport_example =
    execute-IsReport clocked dicts around engine order none empty executed.0 executed.1 executed.2

execute-calls_example : executed.1.calls ≡ empty.calls + length executed.0.attempts
execute-calls_example =
    execute-calls clocked dicts around engine order none empty executed.0 executed.1 executed.2

perform-calls_example :
    ((perform clocked dicts around engine order 3 draft
      (λ n input. returned (str "done"))
      draft_input
      "sig"
      attempt
      no_tracks
      empty).1
    ).calls
    ≡ empty.calls + 1
perform-calls_example =
    perform-calls clocked dicts around engine order 3 draft draft_input "sig" attempt no_tracks
      (λ n input. returned (str "done")) empty

get_work_result-save_work_result_example :
    (o : Memory) × (get_work_result clocked dicts keeper "flow" "draft" work.input_signature saved.0
      ≡ (ok (some work), o))
get_work_result-save_work_result_example =
    get_work_result-save_work_result clocked dicts dicts-IsStorage clocked-reads keeper work
      empty.memory saved.0 work_sound.0 tt work_sound.1 saved.1

get_attempt-save_attempt_example :
    (o : Memory) × (get_attempt clocked dicts keeper "attempt-1" attempt_saved.0
      ≡ (ok (some attempt), o))
get_attempt-save_attempt_example =
    get_attempt-save_attempt clocked dicts dicts-IsStorage keeper attempt empty.memory
      attempt_saved.0 attempt_saved.2 attempt_saved.1

load_records-Holds_example :
    All (λ r. Some (Holds clocked keeper (some "flow") r) listed) listed_loaded.0.0
load_records-Holds_example =
    load_records-Holds clocked keeper (some "flow") listed listed_loaded.0 listed_loaded.1

load_records-raises_example : load_records toy keeper (some "flow") listed ≢ ok ([], [])
load_records-raises_example =
    load_records-raises toy keeper (some "flow") listed ([], []) listed-Spoils

get_plan-save_plan_example :
    (o : Memory) × (get_plan clocked dicts keeper previewed.0.plan_id plan_saved.0
      ≡ (ok (some previewed.0), o))
get_plan-save_plan_example =
    get_plan-save_plan clocked clocked-reads dicts dicts-IsStorage keeper previewed.0 empty.memory
      plan_saved.0 plan_sound.0 plan_sound.1 plan_saved.1

reject_untrusted_bodies-IsClean_iff_example :
    ((reject_untrusted_bodies toy draft_input ≡ ok tt) ↔ IsClean draft_input)
    × (reject_untrusted_bodies toy draft_input ≢ err out_of_fuel)
reject_untrusted_bodies-IsClean_iff_example = reject_untrusted_bodies-IsClean_iff toy draft_input

reject_untrusted_bodies-passes_example :
    (reject_untrusted_bodies toy
        (Value.array (map decision_payload evaluated.0.handoff_record.decisions))
      ≡ ok tt)
    × (reject_untrusted_bodies toy (Value.array (map entry_payload receipted.0.entries)) ≡ ok tt)
reject_untrusted_bodies-passes_example =
    reject_untrusted_bodies-passes toy evaluated.0.handoff_record.decisions receipted.0.entries

decode_decision-consistent_example :
    (approved rebuilt.0 ≡ true) ↔ (approves_inheritance rebuilt.0.verdicts ≡ true)
decode_decision-consistent_example =
    decode_decision-consistent toy stored_judgement rebuilt.0 rebuilt.1

decode_decision-decision_payload_example :
    read_object (decode_decision toy) (decision_payload judged.0.decision)
    ≡ ok (record judged.0.decision { estimated_cost = unquoted judged.0.decision.estimated_cost })
decode_decision-decision_payload_example =
    decode_decision-decision_payload toy judged.0.decision judgement_sound.0 judgement_sound.1
      judgement_sound.2

cost_summary-known_iff_example :
    ((costed.0.estimate_status ≡ "known") ↔ All HasAmount (rerun_costs executed.0.decisions))
    × ((c : CostEstimate)
        → costed.0.estimated_additional_service_cost ≡ some c
        → c.currency ≡ "USDC")
cost_summary-known_iff_example =
    cost_summary-known_iff clocked executed.0.decisions costed.0 costed.1

resolve_local-IsContent_example :
    (uri : String) × (artifact.uri ≡ some uri)
    × IsContent folder shelf artifact
        (Files.resolve folder (Files.unquoted_path folder uri) written)
        written
        written
resolve_local-IsContent_example =
    resolve_local-IsContent folder shelf artifact written written
      (accepted artifact "artifact exists and matches its persisted hash") artifact_resolved refl

decode_receipt_entry-entry_payload_example :
    read_object (decode_receipt_entry toy) (entry_payload draft_entry)
    ≡ ok (record draft_entry { estimated_cost = unquoted draft_entry.estimated_cost })
decode_receipt_entry-entry_payload_example =
    decode_receipt_entry-entry_payload toy draft_entry entry_sound.0 entry_sound.1 entry_sound.2
