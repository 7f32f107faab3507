-- ===== src/Store/Owned.antt =====
-- delta/store.py: attempts and active heads that are saved and read back.
use delta_agent.Core.Schema.{scope_eq_iff}
use delta_agent.Store.Recover.{attempt_from_payload-attempt_payload}
use delta_agent.Store.Kept.{save_entity-written, is_scope_payload-own}
use delta_agent.Common.Action.{lift, >>=-next, lift-returned}
use delta_agent.Store.Listing.{read_attempt, read_head}
use delta_agent.Core.Attempt.{check_attempt, ExecutionAttempt}
use delta_agent.Common.Result.{require-eq-ok, ok}
use delta_agent.Core.Value.{str}
use delta_agent.Store.Payload.{attempt_payload}
use delta_agent.Store.Fields.{get, loose_text}
use delta_agent.Store.Client.{Entity, IsStorage, MemoryClient}
use delta_agent.Store.Attempts.{
  head_key, get_active_attempt, get_attempt, save_attempt, set_active_attempt, head_payload,
}
use delta_agent.Store.Entities.{
  attempt_category, entity_key, assert_scope, SibylStore, check_payload_scope,
}
use delta_agent.Core.Platform.{Platform}
use delta_agent.Core.Value
use delta_agent.Common.{[], ◌∷◌, String, Option, ◌≡◌, refl, some, none, sym, ap, subst}

loose_text-optional : (o : Option String) → loose_text (Value.optional str o) ≡ ok o
loose_text-optional none = refl
loose_text-optional (some s) = refl

read_head-own :
    (store : SibylStore) (step_id : String) (attempt_id : Option String)
    → read_head store (some (head_payload store step_id attempt_id)) ≡ ok attempt_id
unfolding check_payload_scope head_payload get
read_head-own store step_id attempt_id =
    let scoped = is_scope_payload-own store.scope in rw scoped (loose_text-optional attempt_id)

module _ (platform : Platform) (client : MemoryClient) (storage : IsStorage client) where
  open client use {Memory, get_entity, get_state, set_state}

  read_attempt-own :
      (store : SibylStore) (a : ExecutionAttempt) (e : Entity)
      → (a.scope ≡ store.scope)
      → (e.body ≡ attempt_payload platform a)
      → check_attempt a ≡ ok a
      → read_attempt store (some e) ≡ ok (some a)
  unfolding check_payload_scope attempt_payload get
  read_attempt-own store a e own body sound =
      let loaded = attempt_from_payload-attempt_payload platform a sound in
      let scoped = is_scope_payload-own a.scope in rw (body, sym own, scoped, loaded) refl

  pub get_attempt-save_attempt :
      (store : SibylStore) (a : ExecutionAttempt) (m n : Memory)
      → check_attempt a ≡ ok a
      → save_attempt platform client store a m ≡ (ok tt, n)
      → (o : Memory) × (get_attempt platform client store a.attempt_id n ≡ (ok (some a), o))
  unfolding save_attempt get_attempt assert_scope
  get_attempt-save_attempt store a m n sound h =
      let (u, h1, k1) = lift-returned (assert_scope store a.scope) _ m h in
      let (name, h2, k2) =
        lift-returned
          (entity_key platform "attempt" a.scope (("attempt_id", str a.attempt_id) ∷ [])) _ m k1 in
      let (e, o, h3, body) =
        storage.entity_kept attempt_category name (attempt_payload platform a) a.status m n (
          save_entity-written platform client store attempt_category name
            (attempt_payload platform a) a.status m n k2) in
      let own = (scope_eq_iff a.scope store.scope).0 (require-eq-ok _ _ h1) in
      (
        o,
        >>=-next
            (lift
              (entity_key platform "attempt" store.scope (("attempt_id", str a.attempt_id) ∷ [])))
            _ n
            (ap (λ q. (q, n))
              (subst
                (λ c.
                  entity_key platform "attempt" c (("attempt_id", str a.attempt_id) ∷ []) ≡ ok name)
                own h2))
            (>>=-next (get_entity attempt_category name) _ n h3
              (ap (λ q. (q, o)) (read_attempt-own store a e own body sound))),
      )

  pub get_active_attempt-set_active_attempt :
      (store : SibylStore) (step_id : String) (attempt_id : Option String) (m n : Memory)
      → set_active_attempt platform client store step_id attempt_id m ≡ (ok tt, n)
      → (o : Memory) × (get_active_attempt platform client store step_id n ≡ (ok attempt_id, o))
  unfolding set_active_attempt get_active_attempt
  get_active_attempt-set_active_attempt store step_id attempt_id m n h =
      let (key, h1, k1) = lift-returned (head_key platform client store step_id) _ m h in
      let (o, h2) = storage.state_kept key (head_payload store step_id attempt_id) m n k1 in
      (
        o,
        >>=-next (lift (head_key platform client store step_id)) _ n (ap (λ q. (q, n)) h1) (
            >>=-next (get_state key) _ n h2
              (ap (λ q. (q, o)) (read_head-own store step_id attempt_id))),
      )
