-- ===== src/Store/Kept.antt =====
-- delta/store.py: work results that are saved and read back.
use delta_agent.Store.Listing.{read_work}
use delta_agent.Store.Recover.{work_from_payload-work_payload, IsSoundProvenance, IsSoundArtifact}
use delta_agent.Core.Work.{check_work_result, WorkResult}
use delta_agent.Common.Action.{lift, >>=-next, lift-returned}
use text.Mathlib.TextPositions.{eq_refl}
use delta_agent.Common.Result.{require-eq-ok, refuse, ok}
use delta_agent.Store.Payload.{work_payload, scope_value}
use delta_agent.Core.Schema.{scope_eq_iff, Scope}
use delta_agent.Store.Work.{work_parts, get_work_result, save_work_result}
use delta_agent.Core.Value.{dict, Entries, DateTime}
use delta_agent.Store.Entities.{
  work_category, too_large, entity_key, check_payload_scope, assert_scope, SibylStore, save_entity,
}
use delta_agent.Store.Client.{Entity, IsStorage, MemoryClient}
use delta_agent.Core.Platform.{canonical_json, Platform}
use delta_agent.Store.Fields.{size, get, scope_fields, is_scope_payload}
use delta_agent.Common.{ltb, true, String, ◌≡◌, refl, some, sym, ap, subst}

pub is_scope_payload-own : (scope : Scope) → is_scope_payload scope (scope_value scope) ≡ true
unfolding is_scope_payload scope_fields get size
is_scope_payload-own scope = rw (eq_refl scope.tenant_id, eq_refl scope.project_id) refl

module _ (platform : Platform) (client : MemoryClient) where
  open client use {Memory, set_entity, get_entity}

  -- What `_save_entity` has written, where it returned.
  pub save_entity-written :
      (store : SibylStore) (category name : String) (payload : Entries) (status : String)
      (m n : Memory)
      → save_entity platform client store category name payload status m ≡ (ok tt, n)
      → set_entity category name payload status m ≡ (ok tt, n)
  unfolding save_entity
  save_entity-written store category name payload status m n h =
      let (encoded, h1, k1) = lift-returned (canonical_json platform (dict payload)) _ m h in
      let (passed, h2, k2) =
        lift-returned
          (refuse (ltb store.max_inline_record_bytes (platform.utf8_size encoded))
            (too_large platform))
          _ m k1 in
      k2

  module _ (storage : IsStorage client)
      (reads : (t : DateTime)
        → Platform.parse_datetime platform (Platform.datetime_text platform t) ≡ some t) where
    read_work-own :
        (store : SibylStore) (r : WorkResult) (e : Entity)
        → (r.scope ≡ store.scope)
        → (e.body ≡ work_payload platform r)
        → check_work_result platform r ≡ ok r
        → IsSoundArtifact r.artifact
        → IsSoundProvenance r.provenance
        → read_work platform store (some e) ≡ ok (some r)
    unfolding check_payload_scope work_payload get
    read_work-own store r e own body sound artifact provenance =
        let loaded = work_from_payload-work_payload platform reads r sound artifact provenance in
        let scoped = is_scope_payload-own r.scope in rw (body, sym own, scoped, loaded) refl

    -- A work result that was saved is found under its workflow, step and input signature, as it was.
    pub get_work_result-save_work_result :
        (store : SibylStore) (r : WorkResult) (m n : Memory)
        → check_work_result platform r ≡ ok r
        → IsSoundArtifact r.artifact
        → IsSoundProvenance r.provenance
        → save_work_result platform client store r m ≡ (ok tt, n)
        → (o : Memory) × (get_work_result platform client store r.workflow_id r.step_id
              r.input_signature n
            ≡ (ok (some r), o))
    unfolding save_work_result get_work_result assert_scope check_payload_scope
    get_work_result-save_work_result store r m n sound artifact provenance h =
        let (u, h1, k1) = lift-returned (assert_scope store r.scope) _ m h in
        let (name, h2, k2) =
          lift-returned
            (entity_key platform "work_result" r.scope
              (work_parts r.workflow_id r.step_id r.input_signature))
            _ m k1 in
        let (e, o, h3, body) =
          storage.entity_kept work_category name (work_payload platform r) "completed" m n (
            save_entity-written store work_category name (work_payload platform r) "completed" m n
              k2) in
        let own = (scope_eq_iff r.scope store.scope).0 (require-eq-ok _ _ h1) in
        let read = read_work-own store r e own body sound artifact provenance in
        (
          o,
          >>=-next
              (lift (
                entity_key platform "work_result" store.scope
                  (work_parts r.workflow_id r.step_id r.input_signature)))
              _ n
              (ap (λ q. (q, n))
                (subst
                  (λ c.
                    entity_key platform "work_result" c
                      (work_parts r.workflow_id r.step_id r.input_signature)
                    ≡ ok name)
                  own h2))
              (>>=-next (get_entity work_category name) _ n h3 (ap (λ q. (q, o)) read)),
        )
