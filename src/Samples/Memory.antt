-- ===== src/Samples/Memory.antt =====
-- A memory client that keeps its records in dicts.
use text.Mathlib.TextPositions.{eq_refl}
use delta_agent.Common.Result.{ok}
use delta_agent.Common.Dict.{lookup-insert, insert, lookup, Dict}
use delta_agent.Store.Client.{IsStorage, MemoryClient, Entity}
use delta_agent.Common.Text.{◌⧺◌}
use delta_agent.Common.{
  false, str_eq, if◌then◌else◌, ◌≡◌, refl, ap, sym, ◌∙◌, Option, some, none, List, [], ◌∷◌, String,
}
use delta_agent.Core.Value.{Entries}

pub record Memory : Type 0 where
  pub entities : Dict (String × Entity)
  pub states : Dict Entries
  pub events : List Entries

abbrev place : String → String → String
place category name = category ⧺ ":" ⧺ name

unfoldable pub in_category : String → Dict (String × Entity) → List Entity
in_category category [] = []
in_category category ((k, (c, e)) ∷ d) =
    let rest = in_category category d in if str_eq c category then e ∷ rest else rest

abbrev entity_at : Option (String × Entity) → Option Entity
entity_at none = none
entity_at (some p) = some p.1

abbrev pub dicts : MemoryClient
dicts = record {
  Memory = Memory;
  get_entity = λ category name m. (ok (entity_at (lookup (place category name) m.entities)), m);
  set_entity = λ category name body status m. (
    ok tt,
    record m {
      entities =
          insert (place category name) (category, record { name = some name; body = body })
            m.entities;
    },
  );
  list_entities = λ category limit m. (ok (in_category category m.entities), m);
  delete_entity = λ category name m. (ok false, m);
  get_state = λ key m. (ok (lookup key m.states), m);
  set_state = λ key body m. (ok tt, record m { states = insert key body m.states });
  write_event = λ evaluated acted extra ts m. (ok "event", record m { events = extra ∷ m.events });
  read_events = λ limit m. (ok m.events, m);
}

lookup-insert_same {ℓ} :
    {V : Type ℓ} (k : String) (v : V) (d : Dict V) → lookup k (insert k v d) ≡ some v
lookup-insert_same k v d = let same = eq_refl k in lookup-insert k k v d ∙ rw same refl

pub dicts-IsStorage : IsStorage dicts
dicts-IsStorage = record {
  entity_kept = λ category name body status m n h.
      let same =
        ap (λ q. entity_at (lookup (place category name) (q.1).entities)) (sym h)
        ∙ ap entity_at (lookup-insert_same (place category name) _ m.entities) in
      (record { name = some name; body = body }, n, ap (λ o. (ok o, n)) same, refl);
  state_kept = λ key body m n h.
      let same = ap (λ q. lookup key (q.1).states) (sym h) ∙ lookup-insert_same key body m.states in
      (n, ap (λ o. (ok o, n)) same);
  entity_beside_state = λ category name key body m n h.
      ap (λ q. ok (entity_at (lookup (place category name) (q.1).entities))) (sym h);
  entity_beside_event = λ category name evaluated acted extra ts id m n h.
      ap (λ q. ok (entity_at (lookup (place category name) (q.1).entities))) (sym h);
  state_beside_event =
      λ key evaluated acted extra ts id m n h. ap (λ q. ok (lookup key (q.1).states)) (sym h);
  entity_after_reading = λ category name key m. refl;
}
