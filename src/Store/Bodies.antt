-- ===== src/Store/Bodies.antt =====
-- delta/store.py: `_reject_untrusted_bodies`.
use delta_agent.Common.Sort.{sort_texts}
use delta_agent.Common.Text.{◌⧺◌}
use delta_agent.Core.Platform.{Platform}
use delta_agent.Store.Fields.{key_is}
use delta_agent.Common.{ℕ, zero, suc, ◌+◌, String, Bool, false, ◌||◌, List, [], ◌∷◌, if◌then◌else◌}
use delta_agent.Common.Result.{Result, ok, err, persistence_error, out_of_fuel, ◌>>◌}
use delta_agent.Core.Value.{Value, Values, Entries, dict, list, nil, cons, end, entry}

abbrev pub forbidden : List String
forbidden = "output" ∷ "deliverable" ∷ "artifact_bytes" ∷ "content" ∷ "body" ∷ []

-- k in payload
unfoldable pub has_key : String → Entries → Bool
has_key k end = false
has_key k (entry j v es) = key_is k j || has_key k es

-- forbidden.intersection(payload)
unfoldable pub present_in : List String → Entries → List String
present_in [] es = []
present_in (k ∷ ks) es = let rest = present_in ks es in if has_key k es then k ∷ rest else rest

abbrev pub present : Entries → List String
present es = present_in forbidden es

-- stack.extend(values): the stack is a list with its last element in front.
unfoldable pub push_items : Values → List Value → List Value
push_items nil stack = stack
push_items (cons v vs) stack = push_items vs (v ∷ stack)

unfoldable pub push_values : Entries → List Value → List Value
push_values end stack = stack
push_values (entry k v es) stack = push_values es (v ∷ stack)

-- How many values there are in a value, with itself.
unfoldable mutual
  pub weight : Value → ℕ
  weight (list vs) = items_weight vs + 1
  weight (dict es) = values_weight es + 1
  weight v = 1

  pub items_weight : Values → ℕ
  items_weight nil = 0
  items_weight (cons v vs) = weight v + items_weight vs

  pub values_weight : Entries → ℕ
  values_weight end = 0
  values_weight (entry k v es) = weight v + values_weight es

module _ (platform : Platform) where
  abbrev pub body_refused : List String → Result (Unit {0})
  body_refused [] = ok tt
  body_refused names = err (
      persistence_error (
        "handoff records must not contain work output bodies: "
        ⧺ Platform.join_comma platform (sort_texts names)))

  -- `while stack`
  unfoldable pub reject_loop : ℕ → List Value → Result (Unit {0})
  reject_loop fuel [] = ok tt
  reject_loop zero (v ∷ stack) = err out_of_fuel
  reject_loop (suc n) (dict es ∷ stack) =
      body_refused (present es) >> reject_loop n (push_values es stack)
  reject_loop (suc n) (list vs ∷ stack) = reject_loop n (push_items vs stack)
  reject_loop (suc n) (v ∷ stack) = reject_loop n stack

  unfoldable pub reject_untrusted_bodies : Value → Result (Unit {0})
  reject_untrusted_bodies items = reject_loop (weight items) (items ∷ [])
