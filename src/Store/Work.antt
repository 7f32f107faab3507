-- ===== src/Store/Work.antt =====
-- delta/store.py: work results, `save_work_result`, `get_work_result` and `list_work_records`.
use delta_agent.Common.{String, Option, List, [], ◌∷◌}
use delta_agent.Common.Action.{Action, pure, lift, ◌>>=◌, ◌>>◌}
use delta_agent.Core.Value.{Value, str}
use delta_agent.Core.Platform.{Platform}
use delta_agent.Core.Work.{WorkResult}
use delta_agent.Handoff.Discovery.{CorruptWorkRecord}
use delta_agent.Store.Client.{MemoryClient}
use delta_agent.Store.Payload.{work_payload}
use delta_agent.Store.Entities.{SibylStore, work_category, assert_scope, entity_key, save_entity}
use delta_agent.Store.Listing.{read_work, load_records}

abbrev pub work_parts : String → String → String → List (String × Value)
work_parts workflow_id step_id input_signature =
    ("workflow_id", str workflow_id)
    ∷ ("step_id", str step_id)
    ∷ ("input_signature", str input_signature)
    ∷ []

module _ (platform : Platform) where
  module _ (client : MemoryClient) where
    open client use {Memory, get_entity, list_entities}

    unfoldable pub save_work_result : SibylStore → WorkResult → Action Memory (Unit {0})
    save_work_result store r = do
      lift (assert_scope store r.scope)
      name ← lift (
          entity_key platform "work_result" r.scope
            (work_parts r.workflow_id r.step_id r.input_signature))
      save_entity platform client store work_category name (work_payload platform r) "completed"

    unfoldable pub get_work_result :
        SibylStore → String → String → String → Action Memory (Option WorkResult)
    get_work_result store workflow_id step_id input_signature = do
      name ← lift (
          entity_key platform "work_result" store.scope
            (work_parts workflow_id step_id input_signature))
      found ← get_entity work_category name
      lift (read_work platform store found)

    unfoldable pub list_work_records :
        SibylStore → Option String → Action Memory (List WorkResult × List CorruptWorkRecord)
    list_work_records store workflow_id = do
      entities ← list_entities work_category 100000
      lift (load_records platform store workflow_id entities)

    unfoldable pub list_work_results : SibylStore → Option String → Action Memory (List WorkResult)
    list_work_results store workflow_id = do
      loaded ← list_work_records store workflow_id
      pure loaded.0
