-- ===== src/Store/Isolated.antt =====
-- delta/store.py: what `list_work_records` takes from the entities that the client lists.
use delta_agent.Store.Decode.{require_timestamp, work_from_payload}
use delta_agent.Store.Fields.{size, get_or_null, is_scope_payload}
use delta_agent.Handoff.Discovery.{CorruptWorkRecord}
use delta_agent.Common.Result.{value_error, err, >>=-eq-ok, ok-injective, ok}
use delta_agent.Store.Client.{Entity}
use delta_agent.Store.Listing.{
  skipped, corrupt, add_loaded, Loaded, corrupt_reason, other_workflow, decoded, load_record,
  load_records,
}
use delta_agent.Core.Work.{WorkResult}
use delta_agent.Store.Entities.{check_payload_scope, SibylStore}
use delta_agent.Core.Platform.{Platform}
use delta_agent.Common.{
  [], ◌≢◌, ◌∷◌, Some, arith, All, List, String, Option, ◌≡◌, subst, true, false, inl, inr,
}

module _ (platform : Platform) (store : SibylStore) (workflow_id : Option String) where
  -- The record of an entity is of this store's scope, of the wanted workflow, and decodes to `r`.
  abbrev pub Holds : WorkResult → Entity → Type 0
  Holds r e =
      (is_scope_payload store.scope (get_or_null "scope" e.body) ≡ true)
      × (other_workflow workflow_id e.body ≡ false)
      × (work_from_payload platform (require_timestamp platform "completed_at") store.scope e.body
          ≡ ok r)

  load_record-Holds :
      (e : Entity) (r : WorkResult)
      → load_record platform store workflow_id e.body ≡ ok (decoded r)
      → Holds r e
  unfolding load_record check_payload_scope
  load_record-Holds e r h = (ground arith, ground arith, ground arith)

  weaker :
      (e : Entity) (entities : List Entity) (results : List WorkResult)
      → All (λ r. Some (Holds r) entities) results
      → All (λ r. Some (Holds r) (e ∷ entities)) results
  weaker e entities [] h = tt
  weaker e entities (r ∷ results) h = (inr h.0, weaker e entities results h.1)

  added :
      (e : Entity) (entities : List Entity) (l : Loaded)
      (rest : List WorkResult × List CorruptWorkRecord)
      → load_record platform store workflow_id e.body ≡ ok l
      → All (λ r. Some (Holds r) entities) rest.0
      → All (λ r. Some (Holds r) (e ∷ entities)) ((add_loaded l rest).0)
  added e entities skipped rest h held = weaker e entities rest.0 held
  added e entities (decoded r) rest h held =
      (inl (load_record-Holds e r h), weaker e entities rest.0 held)
  added e entities (corrupt c) rest h held = weaker e entities rest.0 held

  -- Every work result that is listed is decoded from a listed entity of this store's own scope and
  -- of the workflow that was asked for, if one was.
  pub load_records-Holds :
      (entities : List Entity) (loaded : List WorkResult × List CorruptWorkRecord)
      → load_records platform store workflow_id entities ≡ ok loaded
      → All (λ r. Some (Holds r) entities) loaded.0
  unfolding load_records
  load_records-Holds [] loaded h = subst (λ q. All (λ r. Some (Holds r) []) q.0) (ok-injective h) tt
  load_records-Holds (e ∷ es) loaded h =
      let (l, h1, k1) = >>=-eq-ok (load_record platform store workflow_id e.body) _ h in
      let (rest, h2, k2) = >>=-eq-ok (load_records platform store workflow_id es) _ k1 in
      subst (λ q. All (λ r. Some (Holds r) (e ∷ es)) q.0) (ok-injective k2)
        (added e es l rest h1 (load_records-Holds es rest h2))

  -- The record of an entity is of this store's scope and of the wanted workflow, and its decoding
  -- raises a ValueError: a time or a settlement state that cannot be read.
  abbrev pub Spoils : Entity → Type 0
  Spoils e =
      (is_scope_payload store.scope (get_or_null "scope" e.body) ≡ true)
      × (other_workflow workflow_id e.body ≡ false)
      × ((m : String) × (work_from_payload platform (require_timestamp platform "completed_at")
              store.scope e.body
            ≡ err (value_error m)))

  load_record-raises :
      (e : Entity) (l : Loaded)
      → Spoils e
      → load_record platform store workflow_id e.body ≡ ok l
      → ⊥
  unfolding load_record check_payload_scope corrupt_reason is_scope_payload size
  load_record-raises e l spoils h = ground arith

  -- One record whose decoding raises a ValueError is enough for the whole listing to raise: the
  -- record is not reported as corrupt, and no other record is returned.
  pub load_records-raises :
      (entities : List Entity) (loaded : List WorkResult × List CorruptWorkRecord)
      → Some Spoils entities
      → load_records platform store workflow_id entities ≢ ok loaded
  unfolding load_records
  load_records-raises [] loaded spoils h = spoils
  load_records-raises (e ∷ es) loaded spoils h =
      let (l, h1, k1) = >>=-eq-ok (load_record platform store workflow_id e.body) _ h in
      let (rest, h2, k2) = >>=-eq-ok (load_records platform store workflow_id es) _ k1 in
      elim spoils [
        | inl here ↦ load_record-raises e l here h1
        | inr there ↦ load_records-raises es rest there h2
      ]
