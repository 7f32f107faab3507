-- ===== src/Store/Listing.antt =====
-- delta/store.py: how `get_work_result` and `list_work_records` turn entities into work results.
use delta_agent.Core.Attempt.{ExecutionAttempt}
use delta_agent.Common.{
  String, Bool, true, false, not, ◌&&◌, ◌||◌, Option, none, some, ℤ, pos, List, [], ◌∷◌, str_eq,
  if◌then◌else◌, ◌==◌,
}
use delta_agent.Common.Result.{
  Result, ok, err, Error, delta_validation, workflow_validation, input_validation,
  dependency_pending, approval_validation, handoff_policy, persistence_error, scope_error,
  key_error, type_error, ◌>>=◌, ◌>>◌,
}
use delta_agent.Core.Value.{
  Value, Entries, Float, finite, infinite, nan, null, bool, int, float, str, list, dict, nil, end,
  entry,
}
use delta_agent.Core.Platform.{Platform}
use delta_agent.Core.Work.{WorkResult}
use delta_agent.Handoff.Discovery.{CorruptWorkRecord}
use delta_agent.Store.Client.{Entity}
use delta_agent.Store.Fields.{text_only, get_or_null, holds_text, loose_text, parse_timestamp}
use delta_agent.Store.Decode.{attempt_from_payload, work_from_payload, require_timestamp}
use delta_agent.Store.Entities.{SibylStore, check_payload_scope}

abbrev pub has_entries : Entries → Bool
has_entries end = false
has_entries (entry k v es) = true

abbrev pub float_truthy : Float → Bool
float_truthy (finite text) = not (str_eq text "0.0" || str_eq text "-0.0")
float_truthy infinite = true
float_truthy nan = true

abbrev pub int_truthy : ℤ → Bool
int_truthy (pos n) = not (n == 0)
int_truthy n = true

-- bool(value), for a JSON value
abbrev pub truthy : Value → Bool
truthy null = false
truthy (bool b) = b
truthy (int n) = int_truthy n
truthy (float f) = float_truthy f
truthy (str s) = not (str_eq s "")
truthy (list nil) = false
truthy (dict es) = has_entries es
truthy v = true

abbrev pub methods_of : Value → Result Entries
methods_of (dict es) = ok es
methods_of v = err (type_error "object has no attribute 'get'")

-- payload.get("scope") or {}, of which fields are read by `get`
abbrev pub scope_entries : Value → Result Entries
scope_entries v = if truthy v then methods_of v else ok end

-- except (DeltaValidationError, SibylPersistenceError, KeyError): the text of an error that is caught
unfoldable pub corrupt_reason : Platform → Error → Option String
corrupt_reason platform (delta_validation m) = some m
corrupt_reason platform (workflow_validation m) = some m
corrupt_reason platform (input_validation m) = some m
corrupt_reason platform (dependency_pending m) = some m
corrupt_reason platform (approval_validation m) = some m
corrupt_reason platform (handoff_policy m) = some m
corrupt_reason platform (persistence_error m) = some m
corrupt_reason platform (scope_error m) = some m
corrupt_reason platform (key_error k) = some (Platform.repr_text platform k)
corrupt_reason platform e = none

-- What one listed entity comes to: it is passed over, decoded, or reported.
pub data Loaded : Type 0 where
  skipped : Loaded
  decoded : WorkResult → Loaded
  corrupt : CorruptWorkRecord → Loaded

-- `results` and `corrupt` of the loop, with one entity more in front.
abbrev pub add_loaded :
    Loaded → List WorkResult × List CorruptWorkRecord → List WorkResult × List CorruptWorkRecord
add_loaded skipped rest = rest
add_loaded (decoded r) rest = (r ∷ rest.0, rest.1)
add_loaded (corrupt c) rest = (rest.0, c ∷ rest.1)

-- workflow_id is not None and payload.get("workflow_id") != workflow_id
abbrev pub other_workflow : Option String → Entries → Bool
other_workflow none payload = false
other_workflow (some w) payload = not (holds_text "workflow_id" w payload)

abbrev pub read_head : SibylStore → Option Entries → Result (Option String)
read_head store none = ok none
read_head store (some payload) =
    check_payload_scope store payload >> loose_text (get_or_null "attempt_id" payload)

abbrev pub read_attempt : SibylStore → Option Entity → Result (Option ExecutionAttempt)
read_attempt store none = ok none
read_attempt store (some e) =
    check_payload_scope store e.body
    >> (attempt_from_payload store.scope e.body >>= λ a. ok (some a))

-- CorruptWorkRecord(...) for a payload that could not be decoded
abbrev pub corrupt_of : Entries → String → Loaded
corrupt_of payload reason = corrupt (record {
  workflow_id = text_only (get_or_null "workflow_id" payload);
  step_id = text_only (get_or_null "step_id" payload);
  input_signature = text_only (get_or_null "input_signature" payload);
  reason = reason;
})

module _ (platform : Platform) where
  abbrev pub reported : Entries → Error → Option String → Result Loaded
  reported payload e none = err e
  reported payload e (some reason) = ok (corrupt_of payload reason)

  abbrev pub caught : Entries → Result WorkResult → Result Loaded
  caught payload (ok r) = ok (decoded r)
  caught payload (err e) = reported payload e (corrupt_reason platform e)

  -- Past the two tests of the scope.
  abbrev pub load_in_scope : SibylStore → Entries → Result Loaded
  load_in_scope store payload =
      check_payload_scope store payload
      >> caught payload (
          work_from_payload platform (require_timestamp platform "completed_at") store.scope
            payload)

  abbrev pub same_scope : SibylStore → Entries → Bool
  same_scope store scope =
      holds_text "tenant_id" store.scope.tenant_id scope
      && holds_text "project_id" store.scope.project_id scope

  -- The body of the `for` loop of `list_work_records`.
  unfoldable pub load_record : SibylStore → Option String → Entries → Result Loaded
  load_record store workflow_id payload =
      let rest = scope_entries (get_or_null "scope" payload) >>= λ scope.
      if same_scope store scope then load_in_scope store payload else ok skipped in
      if other_workflow workflow_id payload then ok skipped else rest

  unfoldable pub load_records :
      SibylStore → Option String → List Entity → Result (List WorkResult × List CorruptWorkRecord)
  load_records store workflow_id [] = ok ([], [])
  load_records store workflow_id (e ∷ es) = do
    loaded ← load_record store workflow_id e.body
    rest ← load_records store workflow_id es
    ok (add_loaded loaded rest)

  abbrev pub read_work : SibylStore → Option Entity → Result (Option WorkResult)
  read_work store none = ok none
  read_work store (some e) =
      check_payload_scope store e.body
      >> (work_from_payload platform (parse_timestamp platform) store.scope e.body >>= λ r.
          ok (some r))
